-- ===== src/DesktopIpc/Rounds.antt =====
-- src/desktop/ipc-client.ts: a round of `FrameDecoder.push`, against the decoder of single bytes.
use mathlib.Core.List.{append-nil}
use vkodex.Prelude.{
  ℕ, ◌-◌, ◌≤◌, ◌<◌, ◌≡◌, refl, sym, ap, ◌∙◌, true, false, Option, none, some, List, [], ◌∷◌, ◌++◌,
  zero, suc, arith, length, length-append, drop, ltb, Result, ok, err, ◌>>=◌, ◌>>◌, Bool-cases,
  Result-cases, inl, inr,
}
use vkodex.DesktopIpc.Frames.{
  FrameError, Decoder, header, payload, start, stopped, completed, take, read_uint32,
  validate_frame_size, parsed, fill_payload, fill_header, round, continue, loop, push,
}
use vkodex.DesktopIpc.Bytes.{feed_all}
use vkodex.DesktopIpc.Copies.{
  take-all, length-take, take-drop, length-drop, feed_all-part, finished, feed_all-whole,
  feed_all-header_part, opened, feed_all-header,
}

-- The decoder waits for at least one more byte.
abbrev pub IsWaiting : Decoder → Type 0
IsWaiting (header got) = length got < 4
IsWaiting (payload size got) = length got < size

pub valid-positive :
    (size limit : ℕ) {u : Unit {0}} → validate_frame_size size limit ≡ ok u → 0 < size
unfolding validate_frame_size
valid-positive size limit e = ground arith

module _ {M : Type 0} (parse : List ℕ → Option M) (limit : ℕ) where
  pub feed_all-nil : (d : Decoder) → feed_all parse limit d [] ≡ ok (d, [])
  unfolding feed_all
  feed_all-nil d = refl

  continue-parsed :
      (o : Option M) (rest : List ℕ)
      → (parsed parse limit o rest >>= continue parse limit (feed_all parse limit start))
        ≡ finished parse limit o rest
  unfolding parsed continue
  continue-parsed none rest = refl
  continue-parsed (some m) rest = refl

  fill_payload-feed_all :
      (size : ℕ) (got chunk : List ℕ)
      → length got < size
      → (fill_payload parse limit size got chunk
          >>= continue parse limit (feed_all parse limit start))
        ≡ feed_all parse limit (payload size got) chunk
  unfolding fill_payload continue
  fill_payload-feed_all size got chunk h =
      elim (Bool-cases (ltb (length chunk) (size - length got))) [
        | inl few ↦
            let short : ltb (length (got ++ chunk)) size ≡ true =
              ground (arith, length-append got chunk) in
            rw (few, take-all (length chunk) chunk (omega arith), short)
              (sym (
                ap (feed_all parse limit (payload size got)) (sym (append-nil chunk))
                ∙ (feed_all-part parse limit size got chunk [] (ground arith)
                    ∙ feed_all-nil (payload size (got ++ chunk)))))
        | inr enough ↦
            let n = size - length got in
            let all : length (take n chunk) ≡ n = length-take n chunk (ground arith) in
            let full : ltb (length (got ++ take n chunk)) size ≡ false =
              ground (arith, length-append got (take n chunk)) in
            rw (enough, full)
              (continue-parsed (parse (got ++ take n chunk)) (drop n chunk)
                ∙ sym (
                    ap (feed_all parse limit (payload size got)) (sym (take-drop n chunk))
                    ∙ feed_all-whole parse limit size got (take n chunk) (drop n chunk) h
                        (omega (arith, all))))
      ]

  continue-opened :
      (size : ℕ) (r : Result FrameError (Unit {0})) (rest : List ℕ)
      → (validate_frame_size size limit ≡ r)
      → ((r >> fill_payload parse limit size [] rest)
          >>= continue parse limit (feed_all parse limit start))
        ≡ opened parse limit size r rest
  continue-opened size (err e) rest valid = refl
  continue-opened size (ok u) rest valid =
      fill_payload-feed_all size [] rest (valid-positive size limit valid)

  fill_header-feed_all :
      (got chunk : List ℕ)
      → length got < 4
      → (fill_header parse limit got chunk >>= continue parse limit (feed_all parse limit start))
        ≡ feed_all parse limit (header got) chunk
  unfolding fill_header continue
  fill_header-feed_all got chunk h = elim (Bool-cases (ltb (length chunk) (4 - length got))) [
    | inl few ↦
        let short : ltb (length (got ++ chunk)) 4 ≡ true =
          ground (arith, length-append got chunk) in
        rw (few, take-all (length chunk) chunk (omega arith), short)
          (sym (
            ap (feed_all parse limit (header got)) (sym (append-nil chunk))
            ∙ (feed_all-header_part parse limit got chunk [] (ground arith)
                ∙ feed_all-nil (header (got ++ chunk)))))
    | inr enough ↦
        let n = 4 - length got in
        let all : length (take n chunk) ≡ n = length-take n chunk (ground arith) in
        let full : ltb (length (got ++ take n chunk)) 4 ≡ false =
          ground (arith, length-append got (take n chunk)) in
        rw (enough, full)
          (continue-opened (read_uint32 (got ++ take n chunk))
              (validate_frame_size (read_uint32 (got ++ take n chunk)) limit) (drop n chunk) refl
            ∙ sym (
                ap (feed_all parse limit (header got)) (sym (take-drop n chunk))
                ∙ feed_all-header parse limit got (take n chunk) (drop n chunk) h
                    (omega (arith, all))))
  ]

  round-feed_all :
      (d : Decoder) (chunk : List ℕ)
      → IsWaiting d
      → (round parse limit d chunk >>= continue parse limit (feed_all parse limit start))
        ≡ feed_all parse limit d chunk
  unfolding round
  round-feed_all (header got) chunk h = fill_header-feed_all got chunk h
  round-feed_all (payload size got) chunk h = fill_payload-feed_all size got chunk h

  parsed-rest :
      (o : Option M) (bytes : List ℕ) {m : M} {rest : List ℕ}
      → parsed parse limit o bytes ≡ ok (completed m rest)
      → rest ≡ bytes
  unfolding parsed
  parsed-rest none bytes e = cc
  parsed-rest (some n) bytes e = ground arith

  -- A round that completes a frame leaves a shorter chunk.
  fill_payload-shorter :
      (size : ℕ) (got chunk : List ℕ) {m : M} {rest : List ℕ}
      → length got < size
      → fill_payload parse limit size got chunk ≡ ok (completed m rest)
      → length rest < length chunk
  unfolding fill_payload
  fill_payload-shorter size got chunk {m} {rest} h e =
      elim (Bool-cases (ltb (length chunk) (size - length got))) [
        | inl few ↦
            let short : ltb (length (got ++ chunk)) size ≡ true =
              ground (arith, length-append got chunk) in
            let e' = rw (few, take-all (length chunk) chunk (omega arith), short) at e in cc
        | inr enough ↦
            let n = size - length got in
            let all : length (take n chunk) ≡ n = length-take n chunk (ground arith) in
            let full : ltb (length (got ++ take n chunk)) size ≡ false =
              ground (arith, length-append got (take n chunk)) in
            let e' = rw (enough, full) at e in
            let same = parsed-rest (parse (got ++ take n chunk)) (drop n chunk) e' in
            omega (arith, ap length same, length-drop n chunk (ground arith))
      ]

  opened-shorter :
      (size : ℕ) (r : Result FrameError (Unit {0})) (bytes : List ℕ) {m : M} {rest : List ℕ}
      → validate_frame_size size limit ≡ r
      → (r >> fill_payload parse limit size [] bytes) ≡ ok (completed m rest)
      → length rest < length bytes
  opened-shorter size (err x) bytes valid e = cc
  opened-shorter size (ok u) bytes valid e =
      fill_payload-shorter size [] bytes (valid-positive size limit valid) e

  fill_header-shorter :
      (got chunk : List ℕ) {m : M} {rest : List ℕ}
      → length got < 4
      → fill_header parse limit got chunk ≡ ok (completed m rest)
      → length rest < length chunk
  unfolding fill_header
  fill_header-shorter got chunk {m} {rest} h e =
      elim (Bool-cases (ltb (length chunk) (4 - length got))) [
        | inl few ↦
            let short : ltb (length (got ++ chunk)) 4 ≡ true =
              ground (arith, length-append got chunk) in
            let e' = rw (few, take-all (length chunk) chunk (omega arith), short) at e in cc
        | inr enough ↦
            let n = 4 - length got in
            let all : length (take n chunk) ≡ n = length-take n chunk (ground arith) in
            let full : ltb (length (got ++ take n chunk)) 4 ≡ false =
              ground (arith, length-append got (take n chunk)) in
            let e' = rw (enough, full) at e in
            let less =
              opened-shorter (read_uint32 (got ++ take n chunk))
                (validate_frame_size (read_uint32 (got ++ take n chunk)) limit) (drop n chunk) refl
                e' in
            omega (arith, less, length-drop n chunk (ground arith))
      ]

  round-shorter :
      (d : Decoder) (chunk : List ℕ) {m : M} {rest : List ℕ}
      → IsWaiting d
      → round parse limit d chunk ≡ ok (completed m rest)
      → length rest < length chunk
  unfolding round
  round-shorter (header got) chunk h e = fill_header-shorter got chunk h e
  round-shorter (payload size got) chunk h e = fill_payload-shorter size got chunk h e

  -- With a round for each byte, the loop is the decoder of single bytes.
  loop-feed_all :
      (fuel : ℕ) (d : Decoder) (chunk : List ℕ)
      → IsWaiting d
      → length chunk ≤ fuel
      → loop parse limit fuel d chunk ≡ feed_all parse limit d chunk
  unfolding loop continue
  loop-feed_all zero d [] h enough = sym (feed_all-nil d)
  loop-feed_all zero d (b ∷ bs) h enough = absurd (omega arith)
  loop-feed_all (suc fuel) d [] h enough = sym (feed_all-nil d)
  loop-feed_all (suc fuel) d (b ∷ bs) h enough =
      elim (Result-cases (round parse limit d (b ∷ bs))) [
        | inl (stopped d', e) ↦ rw e (rw e at (round-feed_all d (b ∷ bs) h))
        | inl (completed m rest, e) ↦
            let less = round-shorter d (b ∷ bs) h e in
            rw e (
              rw (loop-feed_all fuel start rest (omega arith) (omega (arith, less)))
                (rw e at (round-feed_all d (b ∷ bs) h)))
        | inr (x, e) ↦ rw e (rw e at (round-feed_all d (b ∷ bs) h))
      ]

  pub push-feed_all :
      (d : Decoder) (chunk : List ℕ)
      → IsWaiting d
      → push parse limit d chunk ≡ feed_all parse limit d chunk
  unfolding push
  push-feed_all d chunk h = loop-feed_all (length chunk) d chunk h (omega arith)
