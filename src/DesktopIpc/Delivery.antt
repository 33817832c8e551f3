-- ===== src/DesktopIpc/Delivery.antt =====
-- src/desktop/ipc-client.ts: the messages that the calls of `push` return, also where one of them throws.
use mathlib.Core.List.{append_assoc}
use vkodex.Prelude.{
  ℕ, ◌≡◌, refl, sym, ap, ap₂, ◌∙◌, Option, List, [], ◌∷◌, ◌++◌, ◌⊎◌, inl, inr, Result, ok, err,
  Result-cases, arith,
}
use vkodex.DesktopIpc.Frames.{FrameError, Decoder, after_push, push, push_all}
use vkodex.DesktopIpc.Bytes.{joined, then_push, feed, feed_all, feed_each}
use vkodex.DesktopIpc.Rounds.{IsWaiting, push-feed_all}
use vkodex.DesktopIpc.Chunks.{concat, feed_all-IsWaiting}

module _ {M : Type 0} where
  abbrev outcome : List M × Result FrameError Decoder → Result FrameError (Decoder × List M)
  outcome (ms, ok d) = ok (d, ms)
  outcome (ms, err e) = err e

  outcome-joined :
      (ms : List M) (p : List M × Result FrameError Decoder)
      → outcome (ms ++ p.0, p.1) ≡ joined ms (outcome p)
  outcome-joined ms (ns, ok d) = refl
  outcome-joined ms (ns, err e) = refl

  outcome-after_push :
      (g : Decoder → List M × Result FrameError Decoder) (r : Result FrameError (Decoder × List M))
      → outcome (after_push g r) ≡ then_push (λ x. outcome (g x)) r
  outcome-after_push g (ok (d, ms)) = outcome-joined ms (g d)
  outcome-after_push g (err e) = refl

  outcome-ok :
      (p : List M × Result FrameError Decoder) {d : Decoder} {ms : List M}
      → outcome p ≡ ok (d, ms)
      → p ≡ (ms, ok d)
  outcome-ok (ns, ok d') e = ground arith
  outcome-ok (ns, err x) e = cc

  -- The bytes behind those that were read, where there was no error.
  abbrev resumed :
      (Decoder → List M × Result FrameError Decoder)
      → List M × Result FrameError Decoder
      → List M × Result FrameError Decoder
  resumed g (ms, ok d) = (ms ++ (g d).0, (g d).1)
  resumed g (ms, err e) = (ms, err e)

  resumed_behind :
      (g : Decoder → List M × Result FrameError Decoder) (ms : List M)
      (p : List M × Result FrameError Decoder)
      → (ms ++ (resumed g p).0, (resumed g p).1) ≡ resumed g (ms ++ p.0, p.1)
  resumed_behind g ms (ns, ok d) = ap (λ l. (l, (g d).1)) (sym (append_assoc ms ns (g d).0))
  resumed_behind g ms (ns, err e) = refl

  after_push-resumed :
      (f g : Decoder → List M × Result FrameError Decoder)
      (r : Result FrameError (Decoder × List M))
      → after_push (λ x. resumed g (f x)) r ≡ resumed g (after_push f r)
  after_push-resumed f g (ok (d, ms)) = resumed_behind g ms (f d)
  after_push-resumed f g (err e) = refl

module _ {M : Type 0} (parse : List ℕ → Option M) (limit : ℕ) where
  feed_each-outcome :
      (bs : List ℕ) (d : Decoder) → outcome (feed_each parse limit d bs) ≡ feed_all parse limit d bs
  unfolding feed_each feed_all
  feed_each-outcome [] d = refl
  feed_each-outcome (b ∷ bs) d =
      outcome-after_push (λ x. feed_each parse limit x bs) (feed parse limit d b)
      ∙ (λ i. then_push (λ x. feed_each-outcome bs x i) (feed parse limit d b))

  pub feed_each-ok :
      (bs : List ℕ) (d : Decoder) {d' : Decoder} {ms : List M}
      → feed_all parse limit d bs ≡ ok (d', ms)
      → feed_each parse limit d bs ≡ (ms, ok d')
  feed_each-ok bs d e = outcome-ok (feed_each parse limit d bs) (feed_each-outcome bs d ∙ e)

  feed_each-append :
      (xs ys : List ℕ) (d : Decoder)
      → feed_each parse limit d (xs ++ ys)
        ≡ resumed (λ x. feed_each parse limit x ys) (feed_each parse limit d xs)
  unfolding feed_each
  feed_each-append [] ys d = refl
  feed_each-append (b ∷ xs) ys d =
      (λ i. after_push (λ x. feed_each-append xs ys x i) (feed parse limit d b))
      ∙ after_push-resumed (λ x. feed_each parse limit x xs) (λ x. feed_each parse limit x ys)
          (feed parse limit d b)

  -- A call threw: the messages are those of the chunks before it, and the chunk has the error.
  pub record Thrown (d : Decoder) (chunks : List (List ℕ)) : Type 0 where
    pub before : List (List ℕ)
    pub chunk : List ℕ
    pub behind : List (List ℕ)
    pub state : Decoder
    pub error : FrameError
    pub cut : chunks ≡ before ++ (chunk ∷ behind)
    pub intact :
        feed_each parse limit d (concat before) ≡ ((push_all parse limit d chunks).0, ok state)
    pub fails : (feed_each parse limit state chunk).1 ≡ err error
    pub thrown : (push_all parse limit d chunks).1 ≡ err error

  record Read (d : Decoder) (chunk : List ℕ) (d1 : Decoder) (ms : List M) : Type 0 where
    each : feed_each parse limit d chunk ≡ (ms, ok d1)
    pushed : push parse limit d chunk ≡ ok (d1, ms)
    waiting : IsWaiting d1

  abbrev Delivered : Decoder → List (List ℕ) → Type 0
  Delivered d chunks =
      ((push_all parse limit d chunks).1 ≡ (feed_each parse limit d (concat chunks)).1)
      × (((push_all parse limit d chunks).0 ≡ (feed_each parse limit d (concat chunks)).0)
          ⊎ Thrown d chunks)

  later_chunks :
      (d d1 : Decoder) (chunk : List ℕ) (chunks : List (List ℕ)) (ms : List M)
      → Read d chunk d1 ms
      → Delivered d1 chunks
      → Delivered d (chunk ∷ chunks)
  unfolding push_all concat
  later_chunks d d1 chunk chunks ms r (same, inl equal) =
      rw (feed_each-append chunk (concat chunks) d, r.each, r.pushed)
        (same, inl (ap (λ l. ms ++ l) equal))
  later_chunks d d1 chunk chunks ms r (same, inr t) = (
    rw (feed_each-append chunk (concat chunks) d, r.each, r.pushed) same,
    inr (record {
      before = chunk ∷ t.before;
      chunk = t.chunk;
      behind = t.behind;
      state = t.state;
      error = t.error;
      cut = ap (◌∷◌ chunk) t.cut;
      intact =
          feed_each-append chunk (concat t.before) d
          ∙ rw (r.each, r.pushed)
              (ap₂ (λ a b. (ms ++ a, b)) (ap (λ p. p.0) t.intact) (ap (λ p. p.1) t.intact));
      fails = t.fails;
      thrown = rw r.pushed t.thrown;
    }),
  )

  -- However a stream of bytes is cut into chunks, the calls of `push` end in the state or the error of the decoder that
  -- takes one byte at a time, and return its messages; only where a call throws, they return the messages of the
  -- chunks before that one, and lose those that were complete within its chunk.
  pub push_all-feed_each :
      (d : Decoder) (chunks : List (List ℕ))
      → IsWaiting d
      → ((push_all parse limit d chunks).1 ≡ (feed_each parse limit d (concat chunks)).1)
        × (((push_all parse limit d chunks).0 ≡ (feed_each parse limit d (concat chunks)).0)
            ⊎ Thrown d chunks)
  unfolding push_all concat feed_each
  push_all-feed_each d [] h = (refl, inl refl)
  push_all-feed_each d (chunk ∷ chunks) h =
      let seen = feed_each-outcome chunk d in
      let pushed = push-feed_all parse limit d chunk h in
      elim (Result-cases (feed_each parse limit d chunk).1) [
        | inl (d1, fed) ↦
            let ms = (feed_each parse limit d chunk).0 in
            let each : feed_each parse limit d chunk ≡ (ms, ok d1) = ap (λ r. (ms, r)) fed in
            let all_fed : feed_all parse limit d chunk ≡ ok (d1, ms) = sym seen ∙ ap outcome each in
            let waiting = feed_all-IsWaiting parse limit chunk d h all_fed in
            later_chunks d d1 chunk chunks ms
              (record { each = each; pushed = pushed ∙ all_fed; waiting = waiting })
              (push_all-feed_each d1 chunks waiting)
        | inr (e, failed) ↦
            let ms = (feed_each parse limit d chunk).0 in
            let each : feed_each parse limit d chunk ≡ (ms, err e) = ap (λ r. (ms, r)) failed in
            let threw : push parse limit d chunk ≡ err e = pushed ∙ (sym seen ∙ ap outcome each) in
            (
              rw (feed_each-append chunk (concat chunks) d, each, threw) refl,
              inr (record {
                before = [];
                chunk = chunk;
                behind = chunks;
                state = d;
                error = e;
                cut = refl;
                intact = rw threw refl;
                fails = failed;
                thrown = rw threw refl;
              }),
            )
      ]

  -- Where the bytes hold whole frames alone, every message is returned.
  pub push_all-ok :
      (d : Decoder) (chunks : List (List ℕ)) {d' : Decoder} {ms : List M}
      → IsWaiting d
      → feed_all parse limit d (concat chunks) ≡ ok (d', ms)
      → push_all parse limit d chunks ≡ (ms, ok d')
  push_all-ok d chunks {d'} {ms} h e =
      let each = feed_each-ok (concat chunks) d e in
      let (state, messages) = push_all-feed_each d chunks h in
      let ended : (push_all parse limit d chunks).1 ≡ ok d' = state ∙ ap (λ p. p.1) each in
      elim messages [
        | inl equal ↦
            let all : (push_all parse limit d chunks).0 ≡ ms = equal ∙ ap (λ p. p.0) each in
            ap₂ (λ a b. (a, b)) all ended
        | inr t ↦ let failed = sym ended ∙ t.thrown in cc
      ]
