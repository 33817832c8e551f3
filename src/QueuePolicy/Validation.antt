-- ===== src/QueuePolicy/Validation.antt =====
-- The checks of src/codex/homogeneous-queue-policy.ts on what its callers hand over: `canonical`,
-- `validSettings`, `validInput`, `validIds`.
use vkodex.Prelude.{
  Bool, true, false, not, ◌&&◌, ◌||◌, Option, none, some, List, [], ◌∷◌, ◌++◌, any, if◌then◌else◌,
  Result, ok, err, ◌>>=◌, ◌>>◌, throw_if,
}
use vkodex.Prelude.JsText.{Text, codes, ◌===◌, is_empty, text_le, trim}
use vkodex.Prelude.JsMap.{has_duplicate}
use vkodex.Json.{Value, Items, Fields, null, str, arr, obj, nil, cons, keys, prop, visit}
use vkodex.Json.Print.{stringify}

-- The errors that the policy throws, one for each message; `json` stands for all of `canonical`'s.
pub data PolicyError : Type 0 where
  json incomplete_settings invalid_settings unsupported_input invalid_ids owner_required :
      PolicyError
  stale_ticket reused_ticket stale_observation contradictory_state epoch_mismatch : PolicyError
  reused_client_id unresolved_admission admission_denied invalid_add_outcome : PolicyError
  settings_frozen invalid_settings_outcome new_epoch_required : PolicyError

unfoldable pub canonical : Value → Result PolicyError Text
canonical v = elim (visit v) [ none ↦ err json | some w ↦ ok (stringify w) ]

abbrev setting_keys : List Text
setting_keys =
    codes "cwd"
    ∷ codes "runtimeWorkspaceRoots"
    ∷ codes "approvalPolicy"
    ∷ codes "approvalsReviewer"
    ∷ codes "permissions"
    ∷ codes "sandboxPolicy"
    ∷ codes "model"
    ∷ codes "serviceTier"
    ∷ codes "effort"
    ∷ codes "summary"
    ∷ codes "collaborationMode"
    ∷ codes "personality"
    ∷ []

insert_text : Text → List Text → List Text
insert_text k [] = k ∷ []
insert_text k (j ∷ js) = let rest = insert_text k js in if text_le k j then k ∷ j ∷ js else j ∷ rest

-- `Array.prototype.sort`, and `join("|")`.
unfoldable pub sort : List Text → List Text
unfolding insert_text
sort [] = []
sort (k ∷ ks) = insert_text k (sort ks)

unfoldable pub join_bars : List Text → Text
join_bars [] = []
join_bars (k ∷ []) = k
join_bars (k ∷ j ∷ js) = k ++ (b'|' ∷ join_bars (j ∷ js))

-- `typeof v === "string" && v`, on a property that may be absent.
abbrev is_nonempty_string : Option Value → Bool
is_nonempty_string (some (str s)) = not (is_empty s)
is_nonempty_string _ = false

all_nonempty_strings : Items → Bool
all_nonempty_strings nil = true
all_nonempty_strings (cons v vs) = is_nonempty_string (some v) && all_nonempty_strings vs

is_roots : Option Value → Bool
unfolding all_nonempty_strings
is_roots (some (arr vs)) = all_nonempty_strings vs
is_roots _ = false

is_permissions : Option Value → Bool
is_permissions (some null) = true
is_permissions (some (str s)) = not (is_empty s)
is_permissions _ = false

is_plain_object : Option Value → Bool
is_plain_object (some (obj fs)) = true
is_plain_object _ = false

valid_fields : Fields → Result PolicyError Text
unfolding sort join_bars is_roots is_permissions is_plain_object canonical
valid_fields fs = do
  throw_if (not (join_bars (sort (keys fs)) === join_bars (sort setting_keys))) incomplete_settings
  throw_if
      (not (is_nonempty_string (prop fs (codes "cwd")))
        || not (is_roots (prop fs (codes "runtimeWorkspaceRoots")))
        || not (is_nonempty_string (prop fs (codes "model")))
        || not (is_permissions (prop fs (codes "permissions")))
        || not (is_plain_object (prop fs (codes "sandboxPolicy"))))
      invalid_settings
  canonical (obj fs)

unfoldable pub valid_settings : Value → Result PolicyError Text
unfolding valid_fields
valid_settings (obj fs) = valid_fields fs
valid_settings _ = err incomplete_settings

-- The keys of an input item, and `text_elements` absent or an empty array.
abbrev is_input_key : Text → Bool
is_input_key k = k === codes "type" || k === codes "text" || k === codes "text_elements"

is_text_tag : Option Value → Bool
is_text_tag (some (str s)) = s === codes "text"
is_text_tag _ = false

is_worded : Option Value → Bool
is_worded (some (str s)) = not (is_empty (trim s))
is_worded _ = false

is_empty_elements : Option Value → Bool
is_empty_elements none = true
is_empty_elements (some (arr nil)) = true
is_empty_elements _ = false

is_text_item : Fields → Bool
unfolding is_text_tag is_worded is_empty_elements
is_text_item fs =
    is_text_tag (prop fs (codes "type"))
    && is_worded (prop fs (codes "text"))
    && not (any (λ k. not (is_input_key k)) (keys fs))
    && is_empty_elements (prop fs (codes "text_elements"))

-- `input` is an array of one plain text item.
unfoldable pub valid_input : Items → Result PolicyError (Unit {0})
unfolding is_text_item canonical
valid_input (cons (obj fs) nil) = do
  throw_if (not (is_text_item fs)) unsupported_input
  _ ← canonical (arr (cons (obj fs) nil))
  ok tt
valid_input _ = err unsupported_input

unfoldable pub valid_ids : List Text → Result PolicyError (List Text)
unfolding has_duplicate
valid_ids ids = do throw_if (any is_empty ids || has_duplicate ids) invalid_ids; ok ids
