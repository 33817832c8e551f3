-- ===== src/Json/Keys.antt =====
-- The order in which an object enumerates keys that were inserted sorted: array indices first, by
-- number, then the other keys by code units (ECMAScript OrdinaryOwnPropertyKeys).
use vkodex.Prelude.{ℕ, Bool, true, false, ◌&&◌, [], ◌∷◌, leb, ltb, ◌==◌, all, length, if◌then◌else◌}
use vkodex.Prelude.JsText.{Text, codes, text_le}

abbrev is_digit : ℕ → Bool
is_digit c = leb b'0' c && leb c b'9'

-- The decimal spelling of a number with no leading zero.
is_decimal : Text → Bool
is_decimal [] = false
is_decimal (c ∷ s) =
    if c == b'0' then (elim s [ [] ↦ true | _ ∷ _ ↦ false ]) else is_digit c && all is_digit s

-- Decimals compare by length and then by digits.
decimal_le : Text → Text → Bool
decimal_le s t = if ltb (length s) (length t) then true else length s == length t && text_le s t

-- An array index is an integer below 2 ^ 32 - 1.
unfoldable pub is_index : Text → Bool
unfolding is_decimal decimal_le
is_index k = is_decimal k && decimal_le k (codes "4294967294")

unfoldable pub key_le : Text → Text → Bool
unfolding is_index decimal_le
key_le j k =
    if is_index j
    then (if is_index k then decimal_le j k else true)
    else (if is_index k then false else text_le j k)
