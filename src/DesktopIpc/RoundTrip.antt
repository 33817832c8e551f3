-- ===== src/DesktopIpc/RoundTrip.antt =====
-- src/desktop/ipc-client.ts: `encodeFrame` and `FrameDecoder`, one against the other.
use mathlib.Core.List.{append_assoc}
use vkodex.Prelude.{
  ℕ, ◌<◌, ◌≤◌, ◌≡◌, refl, ap, ◌∙◌, subst, Option, some, List, [], ◌∷◌, ◌++◌, arith, length, ok,
  Result-cases, inl, inr, All,
}
use vkodex.DesktopIpc.Frames.{
  start, emit, read_uint32, write_uint32, validate_frame_size, max_frame_bytes, encode_frame,
  encode_all, push_all,
}
use vkodex.DesktopIpc.Bytes.{feed_all}
use vkodex.DesktopIpc.Copies.{feed_all-whole, feed_all-header}
use vkodex.DesktopIpc.Rounds.{feed_all-nil}
use vkodex.DesktopIpc.Chunks.{concat}
use vkodex.DesktopIpc.Delivery.{push_all-ok}

read-write : (n : ℕ) → n < 4294967296 → read_uint32 (write_uint32 n) ≡ n
unfolding read_uint32 write_uint32
read-write n h = omega arith

length-write_uint32 : (n : ℕ) → length (write_uint32 n) ≡ 4
unfolding write_uint32
length-write_uint32 n = refl

record Encoded {M : Type 0} (print : M → List ℕ) (m : M) (frame : List ℕ) : Type 0 where
  valid : validate_frame_size (length (print m)) max_frame_bytes ≡ ok tt
  bounds : (0 < length (print m)) × (length (print m) ≤ max_frame_bytes)
  written : frame ≡ write_uint32 (length (print m)) ++ print m

encode_frame-ok :
    {M : Type 0} (print : M → List ℕ) (m : M) {frame : List ℕ}
    → encode_frame print m ≡ ok frame
    → Encoded print m frame
unfolding encode_frame validate_frame_size
encode_frame-ok print m e = record {
  valid = ground arith;
  bounds = (ground arith, ground arith);
  written = ground arith;
}

module _ {M : Type 0} (print : M → List ℕ) (parse : List ℕ → Option M) where
  feed_all-frame :
      (m : M) (frame tail : List ℕ)
      → parse (print m) ≡ some m
      → Encoded print m frame
      → feed_all parse max_frame_bytes start (frame ++ tail)
        ≡ emit m (feed_all parse max_frame_bytes start tail)
  feed_all-frame m frame tail law h =
      let size = length (print m) in
      let w = write_uint32 size in
      let (positive, fits) = h.bounds in
      rw h.written (
        ap (feed_all parse max_frame_bytes start) (append_assoc w (print m) tail)
        ∙ (feed_all-header parse max_frame_bytes [] w (print m ++ tail) (omega arith)
              (omega (arith, length-write_uint32 size))
            ∙ rw (read-write size (omega arith), h.valid)
                (feed_all-whole parse max_frame_bytes size [] (print m) tail positive (omega arith)
                  ∙ rw law refl)))

  feed_all-encode_all :
      (ms : List M) {bytes : List ℕ}
      → All (λ m. parse (print m) ≡ some m) ms
      → encode_all print ms ≡ ok bytes
      → feed_all parse max_frame_bytes start bytes ≡ ok (start, ms)
  unfolding encode_all
  feed_all-encode_all [] law e =
      subst (λ b. feed_all parse max_frame_bytes start b ≡ ok (start, [])) (ground arith)
        (feed_all-nil parse max_frame_bytes start)
  feed_all-encode_all (m ∷ ms) {bytes} law e = elim (Result-cases (encode_frame print m)) [
    | inr (x, failed) ↦ let e' = rw failed at e in cc
    | inl (frame, framed) ↦ elim (Result-cases (encode_all print ms)) [
      | inr (x, failed) ↦ let e' = rw (framed, failed) at e in cc
      | inl (rest, encoded) ↦
          let same : frame ++ rest ≡ bytes = ground arith in
          subst (λ b. feed_all parse max_frame_bytes start b ≡ ok (start, m ∷ ms)) same
            (feed_all-frame m frame rest law.0 (encode_frame-ok print m framed)
              ∙ ap (emit m) (feed_all-encode_all ms law.1 encoded))
    ]
  ]

-- Messages that are encoded one behind the other, and cut into chunks in any way, are decoded to the same
-- messages in the same order, and no byte is left over. The text of each message is one that the runtime
-- reads back as that message.
pub encode_decode :
    {M : Type 0} (print : M → List ℕ) (parse : List ℕ → Option M) (ms : List M)
    (chunks : List (List ℕ)) {bytes : List ℕ}
    → All (λ m. parse (print m) ≡ some m) ms
    → encode_all print ms ≡ ok bytes
    → concat chunks ≡ bytes
    → push_all parse max_frame_bytes start chunks ≡ (ms, ok start)
encode_decode print parse ms chunks law e same =
    push_all-ok parse max_frame_bytes start chunks (omega arith)
      (ap (feed_all parse max_frame_bytes start) same ∙ feed_all-encode_all print parse ms law e)
