-- ===== src/Tests/Frames.antt =====
-- src/desktop/ipc-client.ts: concrete frames.
use vkodex.Prelude.{ℕ, ◌≡◌, refl, Option, none, some, List, [], ◌∷◌, ok, err, ◌⊎◌, arith}
use vkodex.DesktopIpc.Frames.{
  start, push, push_all, loop, round, fill_header, fill_payload, parsed, continue, take,
  encode_frame, encode_all, write_uint32, read_uint32, validate_frame_size, max_frame_bytes,
  oversized_frame,
}
use vkodex.DesktopIpc.Bytes.{feed, feed_each}
use vkodex.DesktopIpc.Chunks.{concat}
use vkodex.DesktopIpc.Delivery.{Thrown, push_all-feed_each}
use vkodex.DesktopIpc.RoundTrip.{encode_decode}

-- A toy text of a message: its bytes behind an opening bracket.
abbrev print : List ℕ → List ℕ
print m = 123 ∷ m

abbrev parse : List ℕ → Option (List ℕ)
parse [] = none
parse (b ∷ m) = some m

abbrev messages : List (List ℕ)
messages = (1 ∷ 2 ∷ []) ∷ (9 ∷ []) ∷ []

abbrev stream : List ℕ
stream = 3 ∷ 0 ∷ 0 ∷ 0 ∷ 123 ∷ 1 ∷ 2 ∷ 2 ∷ 0 ∷ 0 ∷ 0 ∷ 123 ∷ 9 ∷ []

abbrev pieces : List (List ℕ)
pieces = (3 ∷ 0 ∷ []) ∷ (0 ∷ 0 ∷ 123 ∷ []) ∷ (1 ∷ 2 ∷ 2 ∷ 0 ∷ 0 ∷ 0 ∷ 123 ∷ 9 ∷ []) ∷ []

encodes : encode_all print messages ≡ ok stream
unfolding encode_all encode_frame write_uint32 validate_frame_size
encodes = refl

joins : concat pieces ≡ stream
unfolding concat
joins = refl

encode_decode_example : push_all parse max_frame_bytes start pieces ≡ (messages, ok start)
encode_decode_example = encode_decode print parse messages pieces (refl, (refl, tt)) encodes joins

-- A whole frame and a header that is too long, in one chunk, behind a chunk with a whole frame.
abbrev broken : List (List ℕ)
broken = (1 ∷ 0 ∷ 0 ∷ 0 ∷ 123 ∷ []) ∷ (1 ∷ 0 ∷ 0 ∷ 0 ∷ 123 ∷ 9 ∷ 0 ∷ 0 ∷ 0 ∷ []) ∷ []

push_all-feed_each_example :
    ((push_all parse 8 start broken).1 ≡ (feed_each parse 8 start (concat broken)).1)
    × (((push_all parse 8 start broken).0 ≡ (feed_each parse 8 start (concat broken)).0)
        ⊎ Thrown parse 8 start broken)
push_all-feed_each_example = push_all-feed_each parse 8 start broken (omega arith)

-- The message of the second chunk is lost, and one that takes single bytes has it.
loses : push_all parse 8 start broken ≡ ([] ∷ [], err oversized_frame)
unfolding push_all push loop round fill_header fill_payload parsed continue take read_uint32
    validate_frame_size
loses = refl

keeps_it : feed_each parse 8 start (concat broken) ≡ ([] ∷ [] ∷ [], err oversized_frame)
unfolding feed_each feed concat read_uint32 validate_frame_size
keeps_it = refl

-- A frame over the decoder's limit is refused.
too_long : push parse 2 start stream ≡ err oversized_frame
unfolding push loop round fill_header take read_uint32 validate_frame_size
too_long = refl
