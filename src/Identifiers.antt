-- ===== src/Identifiers.antt =====
-- The text checks that src/codex/managed-worker-operation-journal.ts and
-- src/codex/managed-worker-registry.ts share: `bounded`, UUIDs, HMACs, process birth ticks.
use vkodex.Prelude.{
  ℕ, suc, Bool, true, false, not, ◌&&◌, ◌||◌, [], ◌∷◌, ltb, leb, ◌==◌, all, any, length,
  max_safe_integer,
}
use vkodex.Prelude.JsText.{Text, ◌===◌, trim, is_hex, is_lower_hex}

-- `/[\u0000-\u001f\u007f]/u`
abbrev is_control : ℕ → Bool
is_control c = ltb c 32 || c == 127

unfoldable pub is_bounded : ℕ → Text → Bool
is_bounded max s = leb 1 (length s) && leb (length s) max && trim s === s && not (any is_control s)

-- `[0-9a-f]{n}` under the flag `i`, from the front; what follows goes to `rest`.
unfoldable pub hex_run : ℕ → (Text → Bool) → Text → Bool
hex_run ℕ.zero rest s = rest s
hex_run (suc n) rest [] = false
hex_run (suc n) rest (c ∷ s) = is_hex c && hex_run n rest s

unfoldable pub dash : (Text → Bool) → Text → Bool
dash rest [] = false
dash rest (c ∷ s) = c == b'-' && rest s

unfoldable pub at_end : Text → Bool
at_end [] = true
at_end (_ ∷ _) = false

-- `/^[0-9a-f]{8}-[0-9a-f]{4}-[0-9a-f]{4}-[0-9a-f]{4}-[0-9a-f]{12}$/iu`
unfoldable pub matches_uuid : Text → Bool
unfolding hex_run dash at_end
matches_uuid =
    hex_run 8 (dash (hex_run 4 (dash (hex_run 4 (dash (hex_run 4 (dash (hex_run 12 at_end))))))))

unfoldable pub is_uuid : Text → Bool
unfolding is_bounded matches_uuid
is_uuid s = is_bounded 36 s && matches_uuid s

-- `/^[0-9a-f]{64}$/u`
unfoldable pub is_hmac : Text → Bool
is_hmac s = length s == 64 && all is_lower_hex s

abbrev is_digit : ℕ → Bool
is_digit c = leb b'0' c && leb c b'9'

-- `/^[1-9]\d{0,23}$/u`
unfoldable pub is_birth_ticks : Text → Bool
is_birth_ticks [] = false
is_birth_ticks (c ∷ s) = is_digit c && not (c == b'0') && leb (length s) 23 && all is_digit s

-- `Number.isSafeInteger(n) && n >= 1`, for a number that is a natural one.
unfoldable pub is_positive : ℕ → Bool
is_positive n = leb 1 n && leb n max_safe_integer
