-- ===== src/Bridge/Owners/Growth.antt =====
-- src/bridge/store.ts: how a claim's row may grow from one write to a later one.
use vkodex.Prelude.{
  ap, ℕ, ◌≤◌, ◌≡◌, refl, sym, subst, ◌∙◌, Bool, true, false, ◌||◌, Option, none, some, arith,
}
use vkodex.Prelude.JsText.{===_iff}
use vkodex.Bridge.Identity.{ManagedOwnerProcessIdentity, same_identity}
use vkodex.Bridge.Owners.Evidence.{latest, differs, falls}
use vkodex.Bridge.Owners.Calls.{
  ManagedOwnerBindingState, registering, ready, unavailable, handoff_pending, retired, same_state,
  ManagedOwnerBinding,
}

-- A known value stays; a known number does not fall.
abbrev pub Kept : {A : Type 0} → Option A → Option A → Type 0
Kept none next = Unit
Kept (some a) next = next ≡ some a

abbrev pub Risen : Option ℕ → Option ℕ → Type 0
Risen none next = Unit
Risen (some n) none = ⊥
Risen (some n) (some m) = n ≤ m

-- Behind a handoff there is only retirement, and behind retirement nothing.
abbrev pub Follows : ManagedOwnerBinding → ManagedOwnerBindingState → ManagedOwnerBinding → Type 0
Follows r retired r' = r' ≡ r
Follows r handoff_pending r' =
    (same_state r'.state handoff_pending || same_state r'.state retired) ≡ true
Follows r _ r' = Unit

pub record Extends (r r' : ManagedOwnerBinding) : Type 0 where
  pub id : r'.id ≡ r.id
  pub binding_id : r'.binding_id ≡ r.binding_id
  pub task : r'.task ≡ r.task
  pub owner_epoch : r'.owner_epoch ≡ r.owner_epoch
  pub canonical_home : r'.canonical_home ≡ r.canonical_home
  pub family_root : r'.family_root ≡ r.family_root
  pub revision : r.revision ≤ r'.revision
  pub backend_generation : Kept r.evidence.backend_generation r'.evidence.backend_generation
  pub endpoint_ref : Kept r.evidence.endpoint_ref r'.evidence.endpoint_ref
  pub host : Kept r.evidence.host r'.evidence.host
  pub backend : Kept r.evidence.backend r'.evidence.backend
  pub registry_revision : Risen r.evidence.registry_revision r'.evidence.registry_revision
  pub follows : Follows r r.state r'

Kept-refl : {A : Type 0} (o : Option A) → Kept o o
Kept-refl none = tt
Kept-refl (some a) = refl

Kept-trans : {A : Type 0} (a b c : Option A) → Kept a b → Kept b c → Kept a c
Kept-trans none b c h k = tt
Kept-trans (some x) b c h k = subst (λ o. Kept o c) h k

Risen-refl : (o : Option ℕ) → Risen o o
Risen-refl none = tt
Risen-refl (some n) = omega arith

Risen-trans : (a b c : Option ℕ) → Risen a b → Risen b c → Risen a c
Risen-trans none b c h k = tt
Risen-trans (some x) none c h k = absurd h
Risen-trans (some x) (some y) none h k = k
Risen-trans (some x) (some y) (some z) h k = omega (arith, h, k)

pub Kept-latest :
    {A : Type 0} (same : A → A → Bool) (prior offered : Option A)
    → ((a b : A) → same a b ≡ true → a ≡ b)
    → differs same prior offered ≡ false
    → Kept prior (latest offered prior)
Kept-latest same none offered eq h = tt
Kept-latest same (some a) none eq h = refl
Kept-latest same (some a) (some b) eq h = ap some (sym (eq a b (ground arith)))

pub Risen-latest :
    (prior offered : Option ℕ) → falls prior offered ≡ false → Risen prior (latest offered prior)
Risen-latest none offered h = tt
Risen-latest (some n) none h = omega arith
Risen-latest (some n) (some m) h = ground arith

pub same_identity_eq : (v w : ManagedOwnerProcessIdentity) → same_identity v w ≡ true → v ≡ w
same_identity_eq v w h = ground (arith, ===_iff v.birth_ticks w.birth_ticks)

Follows-refl :
    (r : ManagedOwnerBinding) (s : ManagedOwnerBindingState) → r.state ≡ s → Follows r s r
Follows-refl r registering e = tt
Follows-refl r ready e = tt
Follows-refl r unavailable e = tt
Follows-refl r handoff_pending e = rw e refl
Follows-refl r retired e = refl

-- Behind a row that is handed off or retired.
fenced-Follows :
    (b c : ManagedOwnerBinding) (t : ManagedOwnerBindingState)
    → b.state ≡ t
    → (same_state t handoff_pending || same_state t retired) ≡ true
    → Follows b t c
    → (same_state c.state handoff_pending || same_state c.state retired) ≡ true
fenced-Follows b c registering e h k = cc
fenced-Follows b c ready e h k = cc
fenced-Follows b c unavailable e h k = cc
fenced-Follows b c handoff_pending e h k = k
fenced-Follows b c retired e h k =
    subst
      (λ (x : ManagedOwnerBinding).
        (same_state x.state handoff_pending || same_state x.state retired) ≡ true)
      (sym k) (rw e refl)

Follows-trans :
    (a b c : ManagedOwnerBinding) (s : ManagedOwnerBindingState)
    → a.state ≡ s
    → Follows a s b
    → Follows b b.state c
    → Follows a s c
Follows-trans a b c registering e h k = tt
Follows-trans a b c ready e h k = tt
Follows-trans a b c unavailable e h k = tt
Follows-trans a b c handoff_pending e h k = fenced-Follows b c b.state refl h k
Follows-trans a b c retired e h k =
    let gone : b.state ≡ retired = ap (λ (x : ManagedOwnerBinding). x.state) h ∙ e in
    subst (λ t. Follows b t c) gone k ∙ h

pub Extends-refl : (r : ManagedOwnerBinding) → Extends r r
Extends-refl r = record {
  id = refl;
  binding_id = refl;
  task = refl;
  owner_epoch = refl;
  canonical_home = refl;
  family_root = refl;
  revision = omega arith;
  backend_generation = Kept-refl r.evidence.backend_generation;
  endpoint_ref = Kept-refl r.evidence.endpoint_ref;
  host = Kept-refl r.evidence.host;
  backend = Kept-refl r.evidence.backend;
  registry_revision = Risen-refl r.evidence.registry_revision;
  follows = Follows-refl r r.state refl;
}

pub Extends-trans : (a b c : ManagedOwnerBinding) → Extends a b → Extends b c → Extends a c
Extends-trans a b c h k = record {
  id = k.id ∙ h.id;
  binding_id = k.binding_id ∙ h.binding_id;
  task = k.task ∙ h.task;
  owner_epoch = k.owner_epoch ∙ h.owner_epoch;
  canonical_home = k.canonical_home ∙ h.canonical_home;
  family_root = k.family_root ∙ h.family_root;
  revision = omega (arith, h.revision, k.revision);
  backend_generation =
      Kept-trans a.evidence.backend_generation b.evidence.backend_generation
        c.evidence.backend_generation h.backend_generation k.backend_generation;
  endpoint_ref =
      Kept-trans a.evidence.endpoint_ref b.evidence.endpoint_ref c.evidence.endpoint_ref
        h.endpoint_ref k.endpoint_ref;
  host = Kept-trans a.evidence.host b.evidence.host c.evidence.host h.host k.host;
  backend = Kept-trans a.evidence.backend b.evidence.backend c.evidence.backend h.backend k.backend;
  registry_revision =
      Risen-trans a.evidence.registry_revision b.evidence.registry_revision
        c.evidence.registry_revision h.registry_revision k.registry_revision;
  follows = Follows-trans a b c a.state refl h.follows k.follows;
}
