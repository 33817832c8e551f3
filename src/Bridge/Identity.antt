-- ===== src/Bridge/Identity.antt =====
-- src/bridge/store.ts: the process that a record names, and the checks of `managedIdentity` on it.
use vkodex.Prelude.{ℕ, Bool, ◌&&◌, ◌==◌}
use vkodex.Prelude.JsText.{Text, ◌===◌}
use vkodex.Identifiers.{is_positive, is_birth_ticks}

pub record ManagedOwnerProcessIdentity : Type 0 where
  pub pid : ℕ
  pub birth_ticks : Text

-- The object has these two fields, of these types.
unfoldable pub is_identity : ManagedOwnerProcessIdentity → Bool
unfolding is_positive is_birth_ticks
is_identity w = is_positive w.pid && is_birth_ticks w.birth_ticks

abbrev pub same_identity : ManagedOwnerProcessIdentity → ManagedOwnerProcessIdentity → Bool
same_identity v w = v.pid == w.pid && v.birth_ticks === w.birth_ticks
