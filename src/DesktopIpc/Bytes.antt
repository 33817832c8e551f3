-- ===== src/DesktopIpc/Bytes.antt =====
-- src/desktop/ipc-client.ts: a decoder that takes one byte at a time, to compare `FrameDecoder` with.
use vkodex.Prelude.{
  ℕ, Option, none, some, List, [], ◌∷◌, ◌++◌, ltb, if◌then◌else◌, length, Result, ok, err,
}
use vkodex.DesktopIpc.Frames.{
  FrameError, validate_frame_size, invalid_frame, read_uint32, Decoder, header, payload, start,
  after_push,
}

abbrev pub joined :
    {M : Type 0}
    → List M
    → Result FrameError (Decoder × List M)
    → Result FrameError (Decoder × List M)
joined ms (ok (d, ns)) = ok (d, ms ++ ns)
joined ms (err e) = err e

abbrev pub then_push :
    {M : Type 0}
    → (Decoder → Result FrameError (Decoder × List M))
    → Result FrameError (Decoder × List M)
    → Result FrameError (Decoder × List M)
then_push more (ok (d, ms)) = joined ms (more d)
then_push more (err e) = err e

module _ {M : Type 0} (parse : List ℕ → Option M) (limit : ℕ) where
  abbrev pub feed_payload : Option M → Result FrameError (Decoder × List M)
  feed_payload none = err invalid_frame
  feed_payload (some m) = ok (start, m ∷ [])

  abbrev pub sized : ℕ → Result FrameError (Unit {0}) → Result FrameError (Decoder × List M)
  sized size (ok u) = ok (payload size [], [])
  sized size (err e) = err e

  unfoldable pub feed : Decoder → ℕ → Result FrameError (Decoder × List M)
  feed (header got) b =
      let held = got ++ (b ∷ []) in
      if ltb (length held) 4
      then ok (header held, [])
      else sized (read_uint32 held) (validate_frame_size (read_uint32 held) limit)
  feed (payload size got) b =
      let held = got ++ (b ∷ []) in
      if ltb (length held) size then ok (payload size held, []) else feed_payload (parse held)

  unfoldable pub feed_all : Decoder → List ℕ → Result FrameError (Decoder × List M)
  feed_all d [] = ok (d, [])
  feed_all d (b ∷ bs) = then_push (λ x. feed_all x bs) (feed d b)

  -- The same with the messages that were complete before an error.
  unfoldable pub feed_each : Decoder → List ℕ → List M × Result FrameError Decoder
  feed_each d [] = ([], ok d)
  feed_each d (b ∷ bs) = after_push (λ x. feed_each x bs) (feed d b)
