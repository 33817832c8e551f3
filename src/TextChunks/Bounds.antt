-- ===== src/TextChunks/Bounds.antt =====
-- src/lib/text.ts: the lengths of the texts in the loop of `chunkText`.
use mathlib.Core.List.{reverse_aux}
use vkodex.Prelude.{
  ℕ, zero, suc, ◌+◌, ◌≤◌, ◌≡◌, refl, Bool, some, List, [], ◌∷◌, leb, length, arith, All, Bool-cases,
  Option-cases, inl, inr,
}
use vkodex.Prelude.JsText.{Text, is_empty, trim, trim_start, trim_end}
use vkodex.TextChunks.{
  take, drop, last_index, starts_with_blank_line, starts_with, or_else, split_at, cut, pushed,
  left_over, last_chunk, chunks, chunk_text,
}

length-trim_start : (s : Text) → length (trim_start s) ≤ length s
unfolding trim_start
length-trim_start [] = omega arith
length-trim_start (c ∷ s) = ground (arith, length-trim_start s)

length-reverse_aux : (s r : Text) → length (reverse_aux s r) ≡ length s + length r
length-reverse_aux [] r = omega arith
length-reverse_aux (c ∷ s) r = omega (arith, length-reverse_aux s (c ∷ r))

length-trim_end : (s : Text) → length (trim_end s) ≤ length s
unfolding trim_end
length-trim_end s = omega (
  arith,
  length-reverse_aux (trim_start (reverse_aux s [])) [],
  length-trim_start (reverse_aux s []),
  length-reverse_aux s [],
)

length-take : (n : ℕ) (s : Text) → length (take n s) ≤ n
unfolding take
length-take zero s = omega arith
length-take (suc n) [] = omega arith
length-take (suc n) (c ∷ s) = omega (arith, length-take n s)

length-take_all : (n : ℕ) (s : Text) → n ≤ length s → length (take n s) ≡ n
unfolding take
length-take_all zero s h = refl
length-take_all (suc n) [] h = omega arith
length-take_all (suc n) (c ∷ s) h = omega (arith, length-take_all n s (omega arith))

length-drop : (n : ℕ) (s : Text) → n ≤ length s → length (drop n s) + n ≡ length s
unfolding drop
length-drop zero s h = omega arith
length-drop (suc n) [] h = omega arith
length-drop (suc n) (c ∷ s) h = omega (arith, length-drop n s (omega arith))

last_index-bound :
    (test : Text → Bool) (s : Text) (i : ℕ) → last_index test s ≡ some i → i + 1 ≤ length s
unfolding last_index
last_index-bound test [] i e = ground arith
last_index-bound test (c ∷ s) i e = elim (Option-cases (last_index test s)) [
  | inl absent ↦ ground arith
  | inr (k, found) ↦ ground (arith, last_index-bound test s k)
]

candidate-bound :
    (test : Text → Bool) (s : Text) (least other max : ℕ)
    → length s ≤ max + 1
    → other ≤ max
    → or_else least (last_index test s) other ≤ max
candidate-bound test s least other max h o = elim (Option-cases (last_index test s)) [
  | inl absent ↦ rw absent o
  | inr (i, found) ↦ rw found (ground (arith, last_index-bound test s i found))
]

split_at-bound : (max : ℕ) (window : Text) → length window ≤ max + 1 → split_at max window ≤ max
unfolding split_at
split_at-bound max window h = candidate-bound starts_with_blank_line window _ _ max h (
    candidate-bound (starts_with 10) window _ _ max h
      (candidate-bound (starts_with 32) window _ _ max h (omega arith)))

length-cut : (max : ℕ) (s : Text) → length (cut max s) ≤ max
unfolding cut
length-cut max s =
    let window = take (max + 1) s in
    let chunk = take (split_at max window) s in
    omega (
      arith,
      length-trim_end chunk,
      length-take (split_at max window) s,
      split_at-bound max window (length-take (max + 1) s),
    )

-- A chunk that may be sent: not empty, and not too long.
abbrev pub Fits : ℕ → Text → Type 0
Fits max chunk = (1 ≤ length chunk) × (length chunk ≤ max)

pushed-Fits :
    (max : ℕ) (s chunk : Text)
    → 1 ≤ max
    → max + 1 ≤ length s
    → length chunk ≤ max
    → Fits max (pushed max s chunk)
pushed-Fits max s [] m l c = ground (arith, length-take_all max s)
pushed-Fits max s (u ∷ chunk) m l c = ground arith

length-left_over :
    (max : ℕ) (s chunk : Text)
    → 1 ≤ max
    → max + 1 ≤ length s
    → length chunk ≤ max
    → length (left_over max s chunk) + 1 ≤ length s
length-left_over max s [] m l c =
    omega (arith, length-trim_start (drop max s), length-drop max s (omega arith))
length-left_over max s (u ∷ chunk) m l c = omega (
  arith,
  length-trim_start (drop (length (u ∷ chunk)) s),
  length-drop (length (u ∷ chunk)) s (omega arith),
)

last_chunk-Fits : (max : ℕ) (s : Text) → length s ≤ max → All (Fits max) (last_chunk s)
last_chunk-Fits max [] h = tt
last_chunk-Fits max (c ∷ s) h = ((omega arith, h), tt)

chunks-Fits :
    (fuel max : ℕ) (s : Text)
    → 1 ≤ max
    → length s ≤ fuel
    → (cs : List Text) × (chunks fuel max s ≡ some cs) × All (Fits max) cs
unfolding chunks
chunks-Fits zero max s m l = (last_chunk s, ground arith, last_chunk-Fits max s (omega arith))
chunks-Fits (suc fuel) max s m l = elim (Bool-cases (leb (length s) max)) [
  | inl short ↦ (last_chunk s, rw short refl, last_chunk-Fits max s (ground arith))
  | inr long ↦
      let long' : max + 1 ≤ length s = ground arith in
      let less = length-left_over max s (cut max s) m long' (length-cut max s) in
      let (cs, rest, fit) =
        chunks-Fits fuel max (left_over max s (cut max s)) m (omega (arith, less)) in
      (
        pushed max s (cut max s) ∷ cs,
        rw long (rw rest refl),
        (pushed-Fits max s (cut max s) m long' (length-cut max s), fit),
      )
]

-- For a maximum of at least 1, `chunkText` ends, and each chunk it gives has between one code unit and
-- the maximum.
pub chunk_text-Fits :
    (text : Text) (max : ℕ)
    → 1 ≤ max
    → (cs : List Text) × (chunk_text text max ≡ some cs) × All (Fits max) cs
unfolding chunk_text
chunk_text-Fits text max m = elim (Bool-cases (is_empty (trim text))) [
  | inl blank ↦ ([], rw blank refl, tt)
  | inr worded ↦ rw worded (chunks-Fits (length (trim text)) max (trim text) m (omega arith))
]
