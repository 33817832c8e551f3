-- ===== src/Json.antt =====
-- JSON values as src/codex/homogeneous-queue-policy.ts reads them, and its canonical text
-- (`isPlainObject`, `canonical`). `Json/Print` is the runtime's `JSON.stringify`.
pub mod Print
pub mod Keys
use vkodex.Prelude.{Bool, true, false, Option, none, some, List, [], ◌∷◌, ◌||◌, if◌then◌else◌}
use vkodex.Prelude.JsText.{Text, codes, ◌===◌}
use vkodex.Json.Keys.{key_le}

-- A runtime value. `num` holds the text that the runtime prints for a finite number; `other` is
-- every value that `canonical` refuses by its kind: `undefined`, a function, a symbol, a bigint, a
-- number that is not finite, a sparse array, an object that is not plain, a cycle.
mutual
  pub data Value : Type 0 where
    null : Value
    bool : Bool → Value
    num : Text → Value
    str : Text → Value
    arr : Items → Value
    obj : Fields → Value
    other : Value

  pub data Items : Type 0 where
    nil : Items
    cons : Value → Items → Items

  -- The own enumerable properties of a plain object.
  pub data Fields : Type 0 where
    end : Fields
    field : Text → Value → Fields → Fields

-- `Object.keys`.
unfoldable pub keys : Fields → List Text
keys end = []
keys (field k v fs) = k ∷ keys fs

-- `o[k]`; `none` is `undefined`.
unfoldable pub prop : Fields → Text → Option Value
prop end k = none
prop (field j v fs) k = if j === k then some v else prop fs k

unfoldable pub unsafe_key : Text → Bool
unsafe_key k = k === codes "__proto__" || k === codes "constructor" || k === codes "prototype"

-- The keys are sorted and written to a fresh object, which enumerates its array indices first.
unfoldable pub insert_field : Text → Value → Fields → Fields
insert_field k v end = field k v end
insert_field k v (field j w fs) =
    let rest = insert_field k v fs in
    if key_le k j then field k v (field j w fs) else field j w rest

abbrev opt_cons : Option Value → Option Items → Option Items
opt_cons (some v) (some vs) = some (cons v vs)
opt_cons (some v) none = none
opt_cons none r = none

abbrev opt_insert : Text → Option Value → Option Fields → Option Fields
opt_insert k (some v) (some fs) = some (insert_field k v fs)
opt_insert k (some v) none = none
opt_insert k none r = none

abbrev opt_arr : Option Items → Option Value
opt_arr none = none
opt_arr (some vs) = some (arr vs)

abbrev opt_obj : Option Fields → Option Value
opt_obj none = none
opt_obj (some fs) = some (obj fs)

-- The recursive `visit` of `canonical`; `none` is a throw.
unfoldable mutual
  pub visit : Value → Option Value
  visit null = some null
  visit (bool b) = some (bool b)
  visit (num n) = some (num n)
  visit (str s) = some (str s)
  visit (arr vs) = opt_arr (visit_items vs)
  visit (obj fs) = opt_obj (visit_fields fs)
  visit other = none

  pub visit_items : Items → Option Items
  visit_items nil = some nil
  visit_items (cons v vs) = opt_cons (visit v) (visit_items vs)

  pub visit_fields : Fields → Option Fields
  visit_fields end = some end
  visit_fields (field k v fs) =
      if unsafe_key k then none else opt_insert k (visit v) (visit_fields fs)
