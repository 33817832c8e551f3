-- ===== src/Prelude/Lists.antt =====
-- Lists measured by native numbers, predicates on their elements, and Boolean searches.
use Prim.Native.Nat.{ℕ, zero, suc, ◌+◌, ◌≤◌}
use mathlib.Core.Option.{Option, none, some}
use mathlib.Core.Path.{◌≡◌, refl, subst}
use mathlib.Core.Bool.{Bool, true, false, ◌&&◌, ◌||◌}
use mathlib.Core.List.{List, [], ◌∷◌, ◌++◌}
use native.Mathlib.Omega.{arith}
use vkodex.Prelude.Tests.{if◌then◌else◌}

module _ {ℓ} {A : Type ℓ} where
  abbrev pub length : List A → ℕ
  length [] = 0
  length (x ∷ xs) = suc (length xs)

  -- `Array.prototype.some` and `every`.
  unfoldable pub any : (A → Bool) → List A → Bool
  any p [] = false
  any p (x ∷ xs) = p x || any p xs

  unfoldable pub all : (A → Bool) → List A → Bool
  all p [] = true
  all p (x ∷ xs) = p x && all p xs

  -- `Array.prototype.filter` with a Boolean test.
  unfoldable pub keep : (A → Bool) → List A → List A
  keep p [] = []
  keep p (x ∷ xs) = let rest = keep p xs in if p x then x ∷ rest else rest

  abbrev pub All {κ} : (A → Type κ) → List A → Type κ
  All P [] = Unit
  All P (x ∷ xs) = P x × All P xs

  pub length-append : (xs ys : List A) → length (xs ++ ys) ≡ length xs + length ys
  length-append [] ys = omega arith
  length-append (x ∷ xs) ys = omega (arith, length-append xs ys)

module _ {ℓ κ} {A : Type ℓ} (P : A → Type κ) where
  pub All-append : (xs ys : List A) → All P xs → All P ys → All P (xs ++ ys)
  All-append [] ys hx hy = hy
  All-append (x ∷ xs) ys hx hy = (hx.0, All-append xs ys hx.1 hy)

  pub All-keep : (p : A → Bool) (xs : List A) → All P xs → All P (keep p xs)
  unfolding keep
  All-keep p [] h = h
  All-keep p (x ∷ xs) h = ground (arith, All-keep p xs)

pub All-map {ℓ κ ι} :
    {A : Type ℓ} (P : A → Type κ) (Q : A → Type ι) (xs : List A)
    → ((x : A) → P x → Q x)
    → All P xs
    → All Q xs
All-map P Q [] f h = tt
All-map P Q (x ∷ xs) f h = (f x h.0, All-map P Q xs f h.1)

-- Reads by position, and the list without its first elements.
module _ {ℓ} {A : Type ℓ} where
  abbrev pub get_elem? : List A → ℕ → Option A
  get_elem? [] i = none
  get_elem? (x ∷ xs) zero = some x
  get_elem? (x ∷ xs) (suc i) = get_elem? xs i

  abbrev pub drop : ℕ → List A → List A
  drop zero xs = xs
  drop (suc n) [] = []
  drop (suc n) (x ∷ xs) = drop n xs

  -- The first list has some elements of the second, in its order.
  pub data Subsequence : List A → List A → Type ℓ where
    nil : {ys : List A} → Subsequence [] ys
    skip : {y : A} {xs ys : List A} → Subsequence xs ys → Subsequence xs (y ∷ ys)
    take : {x : A} {xs ys : List A} → Subsequence xs ys → Subsequence (x ∷ xs) (x ∷ ys)

  pub drop-take :
      (ys : List A) (n i : ℕ) {x : A} {xs : List A}
      → n ≤ i
      → get_elem? ys i ≡ some x
      → Subsequence xs (drop (suc i) ys)
      → Subsequence (x ∷ xs) (drop n ys)
  drop-take [] n i h e s = cc
  drop-take (y ∷ ys) zero zero {x} {xs} h e s =
      subst (λ z. Subsequence (z ∷ xs) (y ∷ ys)) (ground arith) (take s)
  drop-take (y ∷ ys) zero (suc i) h e s = skip (drop-take ys zero i (omega arith) e s)
  drop-take (y ∷ ys) (suc n) zero h e s = absurd (omega arith)
  drop-take (y ∷ ys) (suc n) (suc i) h e s = drop-take ys n i (omega arith) e s

  Subsequence-head :
      {ys : List A} {x : A} {xs : List A}
      → Subsequence (x ∷ xs) ys
      → (i : ℕ) × (get_elem? ys i ≡ some x) × Subsequence xs (drop (suc i) ys)
  Subsequence-head (skip s) = let (i, e, r) = Subsequence-head s in (suc i, e, r)
  Subsequence-head (take s) = (0, refl, s)

  pub drop-take_inv :
      (ys : List A) (n : ℕ) {x : A} {xs : List A}
      → Subsequence (x ∷ xs) (drop n ys)
      → (i : ℕ) × (n ≤ i) × (get_elem? ys i ≡ some x) × Subsequence xs (drop (suc i) ys)
  drop-take_inv ys zero s = let (i, e, r) = Subsequence-head s in (i, omega arith, e, r)
  drop-take_inv [] (suc n) s = let (i, e, r) = Subsequence-head s in cc
  drop-take_inv (y ∷ ys) (suc n) s =
      let (i, h, e, r) = drop-take_inv ys n s in (suc i, omega arith, e, r)
