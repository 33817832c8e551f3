-- ===== src/Json/Print.antt =====
-- The text that the runtime's `JSON.stringify` gives for a plain JSON value, with no indentation.
use vkodex.Prelude.{
  ℕ, ◌/◌, ◌%◌, ◌+◌, Bool, true, false, ◌&&◌, [], ◌∷◌, ◌++◌, leb, ltb, ◌==◌, if◌then◌else◌,
}
use vkodex.Prelude.JsText.{Text, codes}
use vkodex.Json.{Value, Items, Fields, null, bool, num, str, arr, obj, other, nil, cons, end, field}

hex_digit : ℕ → ℕ
hex_digit d = if ltb d 10 then d + b'0' else d + 87

unicode_escape : ℕ → Text
unfolding hex_digit
unicode_escape c =
    codes "\\u"
    ++ (hex_digit (c / 4096)
        ∷ hex_digit (c / 256 % 16)
        ∷ hex_digit (c / 16 % 16)
        ∷ hex_digit (c % 16)
        ∷ [])

is_high : ℕ → Bool
is_high c = leb 55296 c && leb c 56319

is_low : ℕ → Bool
is_low c = leb 56320 c && leb c 57343

-- One code unit that is no half of a surrogate pair.
quote_unit : ℕ → Text
unfolding unicode_escape
quote_unit c =
    if c == 34
    then codes "\\\""
    else if c == 92
    then codes "\\\\"
    else if c == 8
    then codes "\\b"
    else if c == 12
    then codes "\\f"
    else if c == 10
    then codes "\\n"
    else if c == 13
    then codes "\\r"
    else if c == 9
    then codes "\\t"
    else if ltb c 32
    then unicode_escape c
    else if leb 55296 c && leb c 57343
    then unicode_escape c
    else c ∷ []

-- A surrogate pair stays as it is; a lone half is escaped.
quote_units : Text → Text
unfolding quote_unit is_high is_low
quote_units [] = []
quote_units (c ∷ []) = quote_unit c
quote_units (c ∷ d ∷ s) =
    let pair = c ∷ d ∷ quote_units s in
    let single = quote_unit c ++ quote_units (d ∷ s) in
    if is_high c && is_low d then pair else single

quote : Text → Text
unfolding quote_units
quote s = 34 ∷ quote_units s ++ (34 ∷ [])

unfoldable mutual
  unfolding quote

  pub stringify : Value → Text
  stringify null = codes "null"
  stringify (bool true) = codes "true"
  stringify (bool false) = codes "false"
  stringify (num n) = n
  stringify (str s) = quote s
  stringify (arr vs) = b'[' ∷ stringify_items vs ++ (b']' ∷ [])
  stringify (obj fs) = b'{' ∷ stringify_fields fs ++ (b'}' ∷ [])
  stringify other = codes "null"

  pub stringify_items : Items → Text
  stringify_items nil = []
  stringify_items (cons v nil) = stringify v
  stringify_items (cons v (cons w vs)) = stringify v ++ (b',' ∷ stringify_items (cons w vs))

  pub stringify_fields : Fields → Text
  stringify_fields end = []
  stringify_fields (field k v end) = quote k ++ (b':' ∷ stringify v)
  stringify_fields (field k v (field j w fs)) =
      quote k ++ (b':' ∷ stringify v ++ (b',' ∷ stringify_fields (field j w fs)))
