-- ===== src/DesktopIpc/Frames.antt =====
-- src/desktop/ipc-client.ts: the frames of the connection, a length of four bytes and so many bytes behind it
-- (`FrameDecoder`, `encodeFrame`). Bytes are numbers. `print` and `parse` stand for what the runtime does
-- with an object and its bytes, JSON in UTF-8; `parse` gives none for bytes that hold no JSON object.
use vkodex.Prelude.{
  ℕ, ◌+◌, ◌-◌, ◌*◌, ◌/◌, ◌%◌, Option, none, some, List, [], ◌∷◌, ◌++◌, zero, suc, ltb, ◌==◌,
  if◌then◌else◌, length, drop, Result, ok, err, ◌>>=◌, ◌>>◌, throw_if,
}

pub data FrameError : Type 0 where
  empty_frame oversized_frame invalid_frame : FrameError

abbrev pub max_frame_bytes : ℕ
max_frame_bytes = 256 * 1024 * 1024

unfoldable pub validate_frame_size : ℕ → ℕ → Result FrameError (Unit {0})
validate_frame_size size limit =
    throw_if (size == 0) empty_frame >> throw_if (ltb limit size) oversized_frame

-- `readUInt32LE` and `writeUInt32LE`.
unfoldable pub read_uint32 : List ℕ → ℕ
read_uint32 (a ∷ b ∷ c ∷ d ∷ bytes) = a + 256 * b + 65536 * c + 16777216 * d
read_uint32 _ = 0

unfoldable pub write_uint32 : ℕ → List ℕ
write_uint32 n = (n % 256) ∷ (n / 256 % 256) ∷ (n / 65536 % 256) ∷ (n / 16777216 % 256) ∷ []

-- What the decoder waits for: the rest of a header, or of a payload of a given size. Each holds the bytes
-- that were copied so far.
pub data Decoder : Type 0 where
  header : List ℕ → Decoder
  payload : ℕ → List ℕ → Decoder

abbrev pub start : Decoder
start = header []

-- One round of the loop: the chunk is used up, or a frame is complete and the rest of the chunk follows.
pub data Round (M : Type 0) : Type 0 where
  stopped : Decoder → Round M
  completed : M → List ℕ → Round M

unfoldable pub take : ℕ → List ℕ → List ℕ
take zero bs = []
take (suc n) [] = []
take (suc n) (b ∷ bs) = b ∷ take n bs

-- `Math.min`
abbrev pub min : ℕ → ℕ → ℕ
min a b = if ltb b a then b else a

abbrev pub emit :
    {M : Type 0} → M → Result FrameError (Decoder × List M) → Result FrameError (Decoder × List M)
emit m (ok (d, ms)) = ok (d, m ∷ ms)
emit m (err e) = err e

-- A call of `push` that returns adds its messages to those that follow; one that throws returns none.
abbrev pub after_push :
    {M : Type 0}
    → (Decoder → List M × Result FrameError Decoder)
    → Result FrameError (Decoder × List M)
    → List M × Result FrameError Decoder
after_push more (ok (d, ms)) = (ms ++ (more d).0, (more d).1)
after_push more (err e) = ([], err e)

module _ {M : Type 0} (parse : List ℕ → Option M) (limit : ℕ) where
  unfoldable pub parsed : Option M → List ℕ → Result FrameError (Round M)
  parsed none rest = err invalid_frame
  parsed (some m) rest = ok (completed m rest)

  unfoldable pub fill_payload : ℕ → List ℕ → List ℕ → Result FrameError (Round M)
  fill_payload size got chunk =
      let bytes = min (size - length got) (length chunk) in
      let held = got ++ take bytes chunk in
      if ltb (length held) size
      then ok (stopped (payload size held))
      else parsed (parse held) (drop bytes chunk)

  unfoldable pub fill_header : List ℕ → List ℕ → Result FrameError (Round M)
  fill_header got chunk =
      let bytes = min (4 - length got) (length chunk) in
      let held = got ++ take bytes chunk in
      if ltb (length held) 4
      then ok (stopped (header held))
      else (validate_frame_size (read_uint32 held) limit
          >> fill_payload (read_uint32 held) [] (drop bytes chunk))

  unfoldable pub round : Decoder → List ℕ → Result FrameError (Round M)
  round (header got) chunk = fill_header got chunk
  round (payload size got) chunk = fill_payload size got chunk

  unfoldable pub continue :
      (List ℕ → Result FrameError (Decoder × List M))
      → Round M
      → Result FrameError (Decoder × List M)
  continue more (stopped d) = ok (d, [])
  continue more (completed m rest) = emit m (more rest)

  -- `while (offset < chunk.length)`; the chunk is what lies behind the offset.
  unfoldable pub loop : ℕ → Decoder → List ℕ → Result FrameError (Decoder × List M)
  loop zero d chunk = ok (d, [])
  loop (suc fuel) d [] = ok (d, [])
  loop (suc fuel) d (b ∷ bs) = round d (b ∷ bs) >>= continue (loop fuel start)

  -- A round uses a byte of the chunk, so there are no more rounds than bytes.
  unfoldable pub push : Decoder → List ℕ → Result FrameError (Decoder × List M)
  push d chunk = loop (length chunk) d chunk

  -- The calls of `push` on the chunks as the pipe supplies them: the messages that they returned, and the last state
  -- or the error of a call that threw. A decoder that threw is not used again.
  unfoldable pub push_all : Decoder → List (List ℕ) → List M × Result FrameError Decoder
  push_all d [] = ([], ok d)
  push_all d (chunk ∷ chunks) = after_push (λ x. push_all x chunks) (push d chunk)

unfoldable pub encode_frame : {M : Type 0} → (M → List ℕ) → M → Result FrameError (List ℕ)
encode_frame print m =
    validate_frame_size (length (print m)) max_frame_bytes
    >> ok (write_uint32 (length (print m)) ++ print m)

-- The frames of some messages, one behind the other.
unfoldable pub encode_all : {M : Type 0} → (M → List ℕ) → List M → Result FrameError (List ℕ)
encode_all print [] = ok []
encode_all print (m ∷ ms) =
    encode_frame print m >>= λ frame. encode_all print ms >>= λ rest. ok (frame ++ rest)
