-- ===== src/ResumePolicy.antt =====
-- src/codex/native-cli-resume-policy.ts: `qualifyNativeCliResumePolicy`, which reads the settings that a native
-- resume response proves. A response is a JSON value.
use vkodex.Prelude.{
  Bool, true, false, not, ◌&&◌, ◌||◌, Option, none, some, List, [], ◌∷◌, if◌then◌else◌,
}
use vkodex.Prelude.JsText.{Text, codes, ◌===◌, is_empty}
use vkodex.Json.{Value, null, bool, str, arr, obj, nil, cons, keys, prop}
use vkodex.QueuePolicy.Validation.{sort, join_bars}

pub record ResumePolicy : Type 0 where
  pub cwd : Text
  pub model : Text
  pub service_tier : Value
  pub effort : Text

-- A property of a value that may not be an object.
unfoldable pub member : Option Value → Text → Option Value
member (some (obj fs)) k = prop fs k
member _ k = none

abbrev is_object : Option Value → Bool
is_object (some (obj fs)) = true
is_object _ = false

abbrev is_list : Option Value → Bool
is_list (some (arr vs)) = true
is_list _ = false

-- `v === t`, for a string `t`.
abbrev is_text : Option Value → Text → Bool
is_text (some (str s)) t = s === t
is_text _ t = false

abbrev is_null : Option Value → Bool
is_null (some null) = true
is_null _ = false

abbrev is_false : Option Value → Bool
is_false (some (bool false)) = true
is_false _ = false

-- A string, or the empty text for any other value.
abbrev text_or_empty : Option Value → Text
text_or_empty (some (str s)) = s
text_or_empty _ = []

-- An array of one item, which is this string.
abbrev is_single_text : Option Value → Text → Bool
is_single_text (some (arr (cons v nil))) t = is_text (some v) t
is_single_text _ t = false

-- The item of an array of one.
abbrev single : Option Value → Option Value
single (some (arr (cons v nil))) = some v
single _ = none

-- An object with exactly these keys.
unfoldable pub has_keys : Option Value → List Text → Bool
has_keys (some (obj fs)) expected = join_bars (sort (keys fs)) === join_bars (sort expected)
has_keys _ expected = false

unfoldable pub is_local_environment : Option Value → Text → Bool
is_local_environment env cwd =
    has_keys env (codes "environmentId" ∷ codes "cwd" ∷ codes "runtimeWorkspaceRoots" ∷ [])
    && is_text (member env (codes "environmentId")) (codes "local")
    && is_text (member env (codes "cwd")) cwd
    && is_single_text (member env (codes "runtimeWorkspaceRoots")) cwd

unfoldable pub is_idle_thread : Option Value → Text → Text → Text → Text → Bool
unfolding is_local_environment
is_idle_thread thread task_id model effort cwd =
    is_object thread
    && is_text (member thread (codes "id")) task_id
    && is_text (member (member thread (codes "status")) (codes "type")) (codes "idle")
    && is_list (member thread (codes "turns"))
    && is_text (member thread (codes "model")) model
    && is_text (member thread (codes "reasoningEffort")) effort
    && is_text (member thread (codes "cwd")) cwd
    && is_local_environment (single (member thread (codes "environments"))) cwd

unfoldable pub is_read_only : Option Value → Bool
is_read_only r =
    is_text (member r (codes "approvalPolicy")) (codes "never")
    && is_text (member r (codes "approvalsReviewer")) (codes "user")
    && (is_text (member r (codes "serviceTier")) (codes "default")
        || is_null (member r (codes "serviceTier")))
    && has_keys (member r (codes "sandbox")) (codes "type" ∷ codes "networkAccess" ∷ [])
    && is_text (member (member r (codes "sandbox")) (codes "type")) (codes "readOnly")
    && is_false (member (member r (codes "sandbox")) (codes "networkAccess"))
    && has_keys (member r (codes "activePermissionProfile")) (codes "id" ∷ codes "extends" ∷ [])
    && is_text (member (member r (codes "activePermissionProfile")) (codes "id"))
        (codes ":read-only")
    && is_null (member (member r (codes "activePermissionProfile")) (codes "extends"))

-- `none` is the failure. The fields of the answer that are constants are left out.
unfoldable pub qualify : Value → Text → Option ResumePolicy
unfolding is_idle_thread is_read_only
qualify v task_id =
    let r = some v in
    let model = text_or_empty (member r (codes "model")) in
    let effort = text_or_empty (member r (codes "reasoningEffort")) in
    let cwd = text_or_empty (member r (codes "cwd")) in
    if not (is_empty task_id)
      && not (is_empty model)
      && not (is_empty effort)
      && not (is_empty cwd)
      && is_idle_thread (member r (codes "thread")) task_id model effort cwd
      && is_single_text (member r (codes "runtimeWorkspaceRoots")) cwd
      && is_read_only r
    then some (record {
      cwd = cwd;
      model = model;
      service_tier = elim (member r (codes "serviceTier")) [ none ↦ null | some t ↦ t ];
      effort = effort;
    })
    else none
