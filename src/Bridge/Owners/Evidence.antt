-- ===== src/Bridge/Owners/Evidence.antt =====
-- src/bridge/store.ts: what is known of a managed owner, and the checks and comparisons of it. A field that is
-- `none` is absent in a caller's evidence and NULL in a row's.
use vkodex.Prelude.{
  ℕ, Bool, true, false, not, ◌&&◌, ◌||◌, Option, none, some, leb, ltb, ◌==◌, is_none,
  max_safe_integer, Result, throw_if,
}
use vkodex.Prelude.JsText.{Text, ◌===◌}
use vkodex.Identifiers.{is_positive, matches_uuid}
use vkodex.Bridge.Identity.{ManagedOwnerProcessIdentity, is_identity, same_identity}

pub data OwnerError : Type 0 where
  invalid_claim invalid_evidence no_binding already_claimed stale_claim invalid_transition :
      OwnerError
  proof_mismatch incomplete_proof not_handed_off constraint_failed : OwnerError

pub record ManagedOwnerBindingEvidence : Type 0 where
  pub backend_generation : Option ℕ
  pub registry_revision : Option ℕ
  pub endpoint_ref : Option Text
  pub host : Option ManagedOwnerProcessIdentity
  pub backend : Option ManagedOwnerProcessIdentity

module _ {A : Type 0} (test : A → Bool) where
  -- The test, where the field is there.
  abbrev pub passes : Option A → Bool
  passes none = true
  passes (some a) = test a

-- `managedEvidence`, on an object whose fields are of the right types.
unfoldable pub managed_evidence : ManagedOwnerBindingEvidence → Result OwnerError (Unit {0})
managed_evidence e =
    throw_if
      (not (passes is_positive e.backend_generation)
        || not (passes (λ n. leb n max_safe_integer) e.registry_revision)
        || not (passes matches_uuid e.endpoint_ref)
        || not (passes is_identity e.host)
        || not (passes is_identity e.backend))
      invalid_evidence

-- `stored === claimed`, and the fields of an identity; NULL equals nothing.
module _ {A : Type 0} (same : A → A → Bool) where
  abbrev pub equals : Option A → A → Bool
  equals none b = false
  equals (some a) b = same a b

  -- `claimed === undefined || stored === claimed`
  abbrev pub keeps : Option A → Option A → Bool
  keeps stored none = true
  keeps stored (some b) = equals stored b

  -- `stored !== null && claimed !== undefined && stored !== claimed`
  abbrev pub differs : Option A → Option A → Bool
  differs none claimed = false
  differs (some a) none = false
  differs (some a) (some b) = not (same a b)

unfoldable pub same_claim_evidence :
    ManagedOwnerBindingEvidence → ManagedOwnerBindingEvidence → Bool
same_claim_evidence stored claimed =
    keeps ◌==◌ stored.backend_generation claimed.backend_generation
    && keeps ◌==◌ stored.registry_revision claimed.registry_revision
    && keeps ◌===◌ stored.endpoint_ref claimed.endpoint_ref
    && keeps same_identity stored.host claimed.host
    && keeps same_identity stored.backend claimed.backend

abbrev pub falls : Option ℕ → Option ℕ → Bool
falls none next = false
falls (some n) none = false
falls (some n) (some m) = ltb m n

-- A known identity or endpoint is replaced, or the registry goes back.
unfoldable pub mismatches : ManagedOwnerBindingEvidence → ManagedOwnerBindingEvidence → Bool
mismatches prior evidence =
    differs ◌==◌ prior.backend_generation evidence.backend_generation
    || differs ◌===◌ prior.endpoint_ref evidence.endpoint_ref
    || differs same_identity prior.host evidence.host
    || differs same_identity prior.backend evidence.backend
    || falls prior.registry_revision evidence.registry_revision

-- `evidence ?? prior`
abbrev pub latest : {A : Type 0} → Option A → Option A → Option A
latest none prior = prior
latest (some a) prior = some a

unfoldable pub merged :
    ManagedOwnerBindingEvidence → ManagedOwnerBindingEvidence → ManagedOwnerBindingEvidence
merged prior evidence = record {
  backend_generation = latest evidence.backend_generation prior.backend_generation;
  registry_revision = latest evidence.registry_revision prior.registry_revision;
  endpoint_ref = latest evidence.endpoint_ref prior.endpoint_ref;
  host = latest evidence.host prior.host;
  backend = latest evidence.backend prior.backend;
}

unfoldable pub is_complete : ManagedOwnerBindingEvidence → Bool
is_complete e =
    not (is_none e.backend_generation)
    && not (is_none e.registry_revision)
    && not (is_none e.endpoint_ref)
    && not (is_none e.host)
    && not (is_none e.backend)
