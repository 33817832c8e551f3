-- ===== src/DesktopIpc/Chunks.antt =====
-- src/desktop/ipc-client.ts: chunks of any lengths, one after the other.
use mathlib.Core.List.{append_assoc}
use vkodex.Prelude.{
  ℕ, ◌≡◌, refl, sym, ap, ◌∙◌, Option, none, some, List, [], ◌∷◌, ◌++◌, arith, length, ltb, Result,
  ok, err, Bool-cases, Result-cases, inl, inr, subst,
}
use vkodex.DesktopIpc.Frames.{
  FrameError, Decoder, header, payload, start, read_uint32, validate_frame_size,
}
use vkodex.DesktopIpc.Bytes.{joined, then_push, feed, feed_all, feed_payload, sized}
use vkodex.DesktopIpc.Rounds.{IsWaiting, valid-positive}

unfoldable pub concat : List (List ℕ) → List ℕ
concat [] = []
concat (chunk ∷ chunks) = chunk ++ concat chunks

module _ {M : Type 0} where
  joined-joined :
      (ms ns : List M) (r : Result FrameError (Decoder × List M))
      → joined ms (joined ns r) ≡ joined (ms ++ ns) r
  joined-joined ms ns (ok (d, ks)) = ap (λ x. ok (d, x)) (sym (append_assoc ms ns ks))
  joined-joined ms ns (err e) = refl

  then_push-joined :
      (g : Decoder → Result FrameError (Decoder × List M)) (ms : List M)
      (r : Result FrameError (Decoder × List M))
      → joined ms (then_push g r) ≡ then_push g (joined ms r)
  then_push-joined g ms (ok (d, ns)) = joined-joined ms ns (g d)
  then_push-joined g ms (err e) = refl

  then_push_assoc :
      (f g : Decoder → Result FrameError (Decoder × List M))
      (r : Result FrameError (Decoder × List M))
      → then_push (λ x. then_push g (f x)) r ≡ then_push g (then_push f r)
  then_push_assoc f g (ok (d, ms)) = then_push-joined g ms (f d)
  then_push_assoc f g (err e) = refl

  joined_none : (r : Result FrameError (Decoder × List M)) → joined [] r ≡ r
  joined_none (ok (d, ms)) = refl
  joined_none (err e) = refl

module _ {M : Type 0} (parse : List ℕ → Option M) (limit : ℕ) where
  feed_all-append :
      (xs ys : List ℕ) (d : Decoder)
      → feed_all parse limit d (xs ++ ys)
        ≡ then_push (λ x. feed_all parse limit x ys) (feed_all parse limit d xs)
  unfolding feed_all
  feed_all-append [] ys d = sym (joined_none (feed_all parse limit d ys))
  feed_all-append (b ∷ xs) ys d =
      (λ i. then_push (λ x. feed_all-append xs ys x i) (feed parse limit d b))
      ∙ then_push_assoc (λ x. feed_all parse limit x xs) (λ x. feed_all parse limit x ys)
          (feed parse limit d b)

  sized-IsWaiting :
      (size : ℕ) (r : Result FrameError (Unit {0})) {d : Decoder} {ms : List M}
      → validate_frame_size size limit ≡ r
      → sized parse limit size r ≡ ok (d, ms)
      → IsWaiting d
  sized-IsWaiting size (err x) valid e = cc
  sized-IsWaiting size (ok u) {d} valid e =
      let same : payload size [] ≡ d = ground arith in
      subst IsWaiting same (valid-positive size limit valid)

  fed-IsWaiting :
      (o : Option M) {d : Decoder} {ms : List M}
      → feed_payload parse limit o ≡ ok (d, ms)
      → IsWaiting d
  fed-IsWaiting none e = cc
  fed-IsWaiting (some m) {d} e =
      let same : start ≡ d = ground arith in subst IsWaiting same (omega arith)

  feed-IsWaiting :
      (d : Decoder) (b : ℕ) {d' : Decoder} {ms : List M}
      → IsWaiting d
      → feed parse limit d b ≡ ok (d', ms)
      → IsWaiting d'
  unfolding feed
  feed-IsWaiting (header got) b {d'} h e = elim (Bool-cases (ltb (length (got ++ (b ∷ []))) 4)) [
    | inl short ↦
        let same : header (got ++ (b ∷ [])) ≡ d' = ground arith in
        subst IsWaiting same (ground arith)
    | inr full ↦
        sized-IsWaiting (read_uint32 (got ++ (b ∷ [])))
          (validate_frame_size (read_uint32 (got ++ (b ∷ []))) limit) refl (rw full at e)
  ]
  feed-IsWaiting (payload size got) b {d'} h e =
      elim (Bool-cases (ltb (length (got ++ (b ∷ []))) size)) [
        | inl short ↦
            let same : payload size (got ++ (b ∷ [])) ≡ d' = ground arith in
            subst IsWaiting same (ground arith)
        | inr full ↦ fed-IsWaiting (parse (got ++ (b ∷ []))) (rw full at e)
      ]

  joined-ok :
      (ms : List M) (r : Result FrameError (Decoder × List M)) {d : Decoder} {ks : List M}
      → joined ms r ≡ ok (d, ks)
      → (ns : List M) × (r ≡ ok (d, ns))
  joined-ok ms (ok (d', ns)) {d} e = (ns, ground arith)
  joined-ok ms (err x) e = cc

  pub feed_all-IsWaiting :
      (bs : List ℕ) (d : Decoder) {d' : Decoder} {ms : List M}
      → IsWaiting d
      → feed_all parse limit d bs ≡ ok (d', ms)
      → IsWaiting d'
  unfolding feed_all
  feed_all-IsWaiting [] d {d'} h e = let same : d ≡ d' = ground arith in subst IsWaiting same h
  feed_all-IsWaiting (b ∷ bs) d {d'} h e = elim (Result-cases (feed parse limit d b)) [
    | inl ((d1, ns), fed) ↦
        let (ks, rest) = joined-ok ns (feed_all parse limit d1 bs) (rw fed at e) in
        feed_all-IsWaiting bs d1 (feed-IsWaiting d b h fed) rest
    | inr (x, failed) ↦ let e' = rw failed at e in cc
  ]
