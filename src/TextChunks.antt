-- ===== src/TextChunks.antt =====
-- src/lib/text.ts: `chunkText`, which cuts a text into messages of bounded length. The loop runs on fuel; one unit for
-- each code unit of the text is enough, since a round takes at least one away.
pub mod Bounds
use mathlib.Core.List.{reverse_aux}
use vkodex.Prelude.{
  ℕ, zero, suc, ◌+◌, ◌*◌, ◌/◌, ◌≤◌, ◌≡◌, refl, Bool, true, false, not, ◌&&◌, Option, none, some,
  List, [], ◌∷◌, leb, ltb, ◌==◌, length, if◌then◌else◌, arith, All, Bool-cases, Option-cases, inl,
  inr,
}
use vkodex.Prelude.JsText.{Text, is_empty, trim, trim_start, trim_end}

-- `s.slice(0, n)` and `s.slice(n)`.
unfoldable pub take : ℕ → Text → Text
take zero s = []
take (suc n) [] = []
take (suc n) (c ∷ s) = c ∷ take n s

unfoldable pub drop : ℕ → Text → Text
drop zero s = s
drop (suc n) [] = []
drop (suc n) (c ∷ s) = drop n s

-- `lastIndexOf`, for a pattern that a test finds at the front of a text.
unfoldable pub last_index : (Text → Bool) → Text → Option ℕ
last_index test [] = none
last_index test (c ∷ s) = elim (last_index test s) [
  | some i ↦ some (suc i)
  | none ↦ if test (c ∷ s) then some 0 else none
]

abbrev starts_with_blank_line : Text → Bool
starts_with_blank_line (c ∷ d ∷ s) = c == 10 && d == 10
starts_with_blank_line _ = false

abbrev starts_with : ℕ → Text → Bool
starts_with u [] = false
starts_with u (c ∷ s) = c == u

-- A candidate that is not too early, or else what follows it.
abbrev pub or_else : ℕ → Option ℕ → ℕ → ℕ
or_else least none other = other
or_else least (some i) other = if leb least i then i else other

-- `splitAt`; `Math.floor(maxLength * 0.55)` is `max * 11 / 20`.
unfoldable pub split_at : ℕ → Text → ℕ
split_at max window =
    let least = max * 11 / 20 in
    or_else least (last_index starts_with_blank_line window) (
      or_else least (last_index (starts_with 10) window)
        (or_else least (last_index (starts_with 32) window) max))

unfoldable pub cut : ℕ → Text → Text
unfolding split_at
cut max remaining = trim_end (take (split_at max (take (max + 1) remaining)) remaining)

-- What a round pushes, and what it leaves.
abbrev pub pushed : ℕ → Text → Text → Text
pushed max remaining chunk = if is_empty chunk then take max remaining else chunk

abbrev pub left_over : ℕ → Text → Text → Text
left_over max remaining chunk =
    trim_start (drop (if is_empty chunk then max else length chunk) remaining)

abbrev last_chunk : Text → List Text
last_chunk [] = []
last_chunk (c ∷ s) = (c ∷ s) ∷ []

abbrev push : Text → Option (List Text) → Option (List Text)
push chunk none = none
push chunk (some rest) = some (chunk ∷ rest)

-- The while loop, and the push behind it; `none` where the fuel runs out.
unfoldable pub chunks : ℕ → ℕ → Text → Option (List Text)
chunks zero max remaining = if leb (length remaining) max then some (last_chunk remaining) else none
chunks (suc fuel) max remaining =
    let rest = chunks fuel max (left_over max remaining (cut max remaining)) in
    if leb (length remaining) max
    then some (last_chunk remaining)
    else push (pushed max remaining (cut max remaining)) rest

unfoldable pub chunk_text : Text → ℕ → Option (List Text)
chunk_text text max =
    if is_empty (trim text) then some [] else chunks (length (trim text)) max (trim text)
