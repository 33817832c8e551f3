-- ===== src/Prelude/JsMap.antt =====
-- A `Map` with string keys: its entries in insertion order. `set` on a known key keeps its place.

use mathlib.Core.Path.{◌≡◌, refl, sym, subst, subst₂}
use mathlib.Core.Logic.{inl, inr}
use mathlib.Core.Bool.{Bool, false, not, ◌||◌}
use mathlib.Core.Option.{Option, none, some}
use mathlib.Core.List.{List, [], ◌∷◌, ◌++◌}
use native.Mathlib.Omega.{arith}
use vkodex.Prelude.Tests.{if◌then◌else◌, is_none, Bool-cases}
use vkodex.Prelude.JsText.{Text, ◌===◌, ===_iff}

abbrev pub JsMap {ℓ} : Type ℓ → Type ℓ
JsMap V = List (Text × V)

-- `Array.prototype.includes`, and `Set.prototype.has`.
unfoldable pub includes : List Text → Text → Bool
includes [] k = false
includes (j ∷ js) k = j === k || includes js k

-- `new Set(value).size !== value.length`
unfoldable pub has_duplicate : List Text → Bool
has_duplicate [] = false
has_duplicate (k ∷ ks) = includes ks k || has_duplicate ks

pub includes-snoc :
    (ks : List Text) (k j : Text) → includes (ks ++ (k ∷ [])) j ≡ (includes ks j || k === j)
unfolding includes
includes-snoc [] k j = ground arith
includes-snoc (i ∷ ks) k j = ground (arith, includes-snoc ks k j)

pub has_duplicate-snoc :
    (ks : List Text) (k : Text)
    → has_duplicate ks ≡ false
    → includes ks k ≡ false
    → has_duplicate (ks ++ (k ∷ [])) ≡ false
unfolding has_duplicate includes
has_duplicate-snoc [] k d h = refl
has_duplicate-snoc (i ∷ ks) k d h =
    ground (arith, includes-snoc ks k i, has_duplicate-snoc ks k, ===_iff k i, ===_iff i k)

module _ {ℓ} {V : Type ℓ} where
  unfoldable pub get : JsMap V → Text → Option V
  get [] k = none
  get ((j, v) ∷ m) k = if j === k then some v else get m k

  unfoldable pub set : JsMap V → Text → V → JsMap V
  set [] k v = (k, v) ∷ []
  set ((j, w) ∷ m) k v = if j === k then (j, v) ∷ m else (j, w) ∷ set m k v

  unfoldable pub delete : JsMap V → Text → JsMap V
  delete [] k = []
  delete ((j, w) ∷ m) k = let rest = delete m k in if j === k then rest else (j, w) ∷ rest

  abbrev pub has : JsMap V → Text → Bool
  has m k = not (is_none (get m k))

  pub get-set :
      (m : JsMap V) (k j : Text) (v : V) → get (set m k v) j ≡ (if k === j then some v else get m j)
  unfolding get set
  get-set [] k j v = refl
  get-set ((i, w) ∷ m) k j v =
      ground (arith, get-set m k j v, ===_iff i k, ===_iff i j, ===_iff k j)

  pub get-delete :
      (m : JsMap V) (k j : Text) → get (delete m k) j ≡ (if k === j then none else get m j)
  unfolding get delete
  get-delete [] k j = ground arith
  get-delete ((i, w) ∷ m) k j =
      ground (arith, get-delete m k j, ===_iff i k, ===_iff i j, ===_iff k j)

-- A predicate on entries: of the entry that `get` finds, and across `set`.
module _ {ℓ κ} {V : Type ℓ} (P : Text → V → Type κ) where
  abbrev pub AllEntries : JsMap V → Type κ
  AllEntries [] = Unit
  AllEntries ((k, v) ∷ m) = P k v × AllEntries m

  pub AllEntries-get : (m : JsMap V) (k : Text) {v : V} → AllEntries m → get m k ≡ some v → P k v
  unfolding get
  AllEntries-get [] k h e = cc
  AllEntries-get ((j, w) ∷ m) k {v} h e = elim (Bool-cases (j === k)) [
    | inl same ↦ let value : w ≡ v = ground arith in subst₂ P ((===_iff j k).0 same) value h.0
    | inr other ↦ AllEntries-get m k h.1 (rw other at e)
  ]

  pub AllEntries-set :
      (m : JsMap V) (k : Text) (v : V) → P k v → AllEntries m → AllEntries (set m k v)
  unfolding set
  AllEntries-set [] k v p h = (p, tt)
  AllEntries-set ((j, w) ∷ m) k v p h = elim (Bool-cases (j === k)) [
    | inl same ↦ rw same (subst (λ x. P x v) (sym ((===_iff j k).0 same)) p, h.1)
    | inr other ↦ rw other (h.0, AllEntries-set m k v p h.1)
  ]

pub AllEntries-map {ℓ κ ι} :
    {V : Type ℓ} (P : Text → V → Type κ) (Q : Text → V → Type ι) (m : JsMap V)
    → ((k : Text) (v : V) → P k v → Q k v)
    → AllEntries P m
    → AllEntries Q m
AllEntries-map P Q [] f h = tt
AllEntries-map P Q ((k, v) ∷ m) f h = (f k v h.0, AllEntries-map P Q m f h.1)
