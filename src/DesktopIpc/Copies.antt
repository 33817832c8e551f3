-- ===== src/DesktopIpc/Copies.antt =====
-- src/desktop/ipc-client.ts: the bytes that one copy of the decoder takes from its chunk.
use mathlib.Core.List.{append-nil, append_assoc}
use vkodex.Prelude.{
  ℕ, ◌+◌, ◌≤◌, ◌<◌, ◌≡◌, refl, sym, ap, true, false, Option, none, some, List, [], ◌∷◌, ◌++◌, zero,
  suc, arith, length, length-append, drop, ltb, Result, ok, err,
}
use vkodex.DesktopIpc.Frames.{
  FrameError, Decoder, header, payload, start, take, emit, read_uint32, validate_frame_size,
  invalid_frame,
}
use vkodex.DesktopIpc.Bytes.{joined, then_push, feed, feed_all, feed_payload, sized}

pub take-all : (n : ℕ) (bs : List ℕ) → length bs ≤ n → take n bs ≡ bs
unfolding take
take-all zero [] h = refl
take-all zero (b ∷ bs) h = absurd (omega arith)
take-all (suc n) [] h = refl
take-all (suc n) (b ∷ bs) h = ap (◌∷◌ b) (take-all n bs (omega arith))

pub length-take : (n : ℕ) (bs : List ℕ) → n ≤ length bs → length (take n bs) ≡ n
unfolding take
length-take zero bs h = refl
length-take (suc n) [] h = absurd (omega arith)
length-take (suc n) (b ∷ bs) h = ap suc (length-take n bs (omega arith))

pub take-drop : (n : ℕ) (bs : List ℕ) → take n bs ++ drop n bs ≡ bs
unfolding take
take-drop zero bs = refl
take-drop (suc n) [] = refl
take-drop (suc n) (b ∷ bs) = ap (◌∷◌ b) (take-drop n bs)

pub length-drop : (n : ℕ) (bs : List ℕ) → n ≤ length bs → length (drop n bs) + n ≡ length bs
length-drop zero bs h = omega arith
length-drop (suc n) [] h = absurd (omega arith)
length-drop (suc n) (b ∷ bs) h = omega (arith, length-drop n bs (omega arith))

joined-nil : {M : Type 0} (r : Result FrameError (Decoder × List M)) → joined [] r ≡ r
joined-nil (ok (d, ms)) = refl
joined-nil (err e) = refl

joined-one :
    {M : Type 0} (m : M) (r : Result FrameError (Decoder × List M)) → joined (m ∷ []) r ≡ emit m r
joined-one m (ok (d, ms)) = refl
joined-one m (err e) = refl

module _ {M : Type 0} (parse : List ℕ → Option M) (limit : ℕ) where
  -- The bytes that do not complete a payload, and those that do.
  pub feed_all-part :
      (size : ℕ) (got bs tail : List ℕ)
      → length got + length bs < size
      → feed_all parse limit (payload size got) (bs ++ tail)
        ≡ feed_all parse limit (payload size (got ++ bs)) tail
  unfolding feed_all feed
  feed_all-part size got [] tail h = rw append-nil refl
  feed_all-part size got (b ∷ bs) tail h =
      let short : ltb (length (got ++ (b ∷ []))) size ≡ true =
        ground (arith, length-append got (b ∷ [])) in
      rw short (
        rw (joined-nil (feed_all parse limit (payload size (got ++ (b ∷ []))) (bs ++ tail))) (
          rw (sym (append_assoc got (b ∷ []) bs)) (
            feed_all-part size (got ++ (b ∷ [])) bs tail
              (omega (arith, length-append got (b ∷ []))))))

  abbrev pub finished : Option M → List ℕ → Result FrameError (Decoder × List M)
  finished none tail = err invalid_frame
  finished (some m) tail = emit m (feed_all parse limit start tail)

  then_finished :
      (o : Option M) (tail : List ℕ)
      → then_push (λ x. feed_all parse limit x tail) (feed_payload parse limit o) ≡ finished o tail
  then_finished none tail = refl
  then_finished (some m) tail = joined-one m (feed_all parse limit start tail)

  pub feed_all-whole :
      (size : ℕ) (got bs tail : List ℕ)
      → length got < size
      → length got + length bs ≡ size
      → feed_all parse limit (payload size got) (bs ++ tail) ≡ finished (parse (got ++ bs)) tail
  unfolding feed_all feed
  feed_all-whole size got [] tail h e = absurd (omega arith)
  feed_all-whole size got (b ∷ []) tail h e =
      let full : ltb (length (got ++ (b ∷ []))) size ≡ false =
        ground (arith, length-append got (b ∷ [])) in
      rw full (then_finished (parse (got ++ (b ∷ []))) tail)
  feed_all-whole size got (b ∷ c ∷ bs) tail h e =
      let short : ltb (length (got ++ (b ∷ []))) size ≡ true =
        ground (arith, length-append got (b ∷ [])) in
      rw short (
        rw (joined-nil (feed_all parse limit (payload size (got ++ (b ∷ []))) ((c ∷ bs) ++ tail))) (
          rw (sym (append_assoc got (b ∷ []) (c ∷ bs))) (
            feed_all-whole size (got ++ (b ∷ [])) (c ∷ bs) tail
              (omega (arith, length-append got (b ∷ [])))
              (omega (arith, length-append got (b ∷ []))))))

  -- The same of a header.
  pub feed_all-header_part :
      (got bs tail : List ℕ)
      → length got + length bs < 4
      → feed_all parse limit (header got) (bs ++ tail)
        ≡ feed_all parse limit (header (got ++ bs)) tail
  unfolding feed_all feed
  feed_all-header_part got [] tail h = rw append-nil refl
  feed_all-header_part got (b ∷ bs) tail h =
      let short : ltb (length (got ++ (b ∷ []))) 4 ≡ true =
        ground (arith, length-append got (b ∷ [])) in
      rw short (
        rw (joined-nil (feed_all parse limit (header (got ++ (b ∷ []))) (bs ++ tail))) (
          rw (sym (append_assoc got (b ∷ []) bs)) (
            feed_all-header_part (got ++ (b ∷ [])) bs tail
              (omega (arith, length-append got (b ∷ []))))))

  abbrev pub opened :
      ℕ → Result FrameError (Unit {0}) → List ℕ → Result FrameError (Decoder × List M)
  opened size (ok u) tail = feed_all parse limit (payload size []) tail
  opened size (err e) tail = err e

  then_opened :
      (size : ℕ) (r : Result FrameError (Unit {0})) (tail : List ℕ)
      → then_push (λ x. feed_all parse limit x tail) (sized parse limit size r) ≡ opened size r tail
  then_opened size (ok u) tail = joined-nil (feed_all parse limit (payload size []) tail)
  then_opened size (err e) tail = refl

  pub feed_all-header :
      (got bs tail : List ℕ)
      → length got < 4
      → length got + length bs ≡ 4
      → feed_all parse limit (header got) (bs ++ tail)
        ≡ opened
            (read_uint32 (got ++ bs))
            (validate_frame_size (read_uint32 (got ++ bs)) limit)
            tail
  unfolding feed_all feed
  feed_all-header got [] tail h e = absurd (omega arith)
  feed_all-header got (b ∷ []) tail h e =
      let full : ltb (length (got ++ (b ∷ []))) 4 ≡ false =
        ground (arith, length-append got (b ∷ [])) in
      rw full (
        then_opened (read_uint32 (got ++ (b ∷ [])))
          (validate_frame_size (read_uint32 (got ++ (b ∷ []))) limit) tail)
  feed_all-header got (b ∷ c ∷ bs) tail h e =
      let short : ltb (length (got ++ (b ∷ []))) 4 ≡ true =
        ground (arith, length-append got (b ∷ [])) in
      rw short (
        rw (joined-nil (feed_all parse limit (header (got ++ (b ∷ []))) ((c ∷ bs) ++ tail))) (
          rw (sym (append_assoc got (b ∷ []) (c ∷ bs))) (
            feed_all-header (got ++ (b ∷ [])) (c ∷ bs) tail
              (omega (arith, length-append got (b ∷ [])))
              (omega (arith, length-append got (b ∷ []))))))
