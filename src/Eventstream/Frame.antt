-- ===== src/Eventstream/Frame.antt =====
-- Frames, their decoder and their encoder (crates/kiro-trust-protocol/src/eventstream.rs).
pub mod Bounds
pub mod Cases
pub mod RoundTrip
pub mod Stable
use kiro_trust.Prelude.{
  ℕ, zero, suc, ◌+◌, ◌*◌, ◌-◌, ◌%◌, ◌^◌, Bool, true, false, Option, none, some, List, [], ◌&&◌, ◌∷◌,
  ◌++◌, length, take, drop, slice, ltb, ◌==◌, not, if◌then◌else◌, Result, ok, err, ◌>>=◌,
}
use kiro_trust.Text.{Text, Bytes, codes, text_eq}
use kiro_trust.Wire.{from_be_bytes, u32_to_be_bytes}
use kiro_trust.Eventstream.Header.{
  HeaderValue, string, Headers, FrameError, prelude_crc, message_crc, too_large, too_small,
  headers_overrun, truncated, parse_headers, push_header,
}

abbrev pub max_frame_bytes : ℕ
max_frame_bytes = 4 * 1024 * 1024

abbrev pub max_headers_bytes : ℕ
max_headers_bytes = 128 * 1024

abbrev pub prelude_len : ℕ
prelude_len = 12

abbrev pub min_frame_len : ℕ
min_frame_len = 16

pub record Frame : Type 0 where
  pub headers : Headers
  pub payload : Bytes

-- The first string header of this name.
unfoldable pub find_str : Text → Headers → Option Text
find_str name [] = none
find_str name ((n, string s) ∷ hs) = if text_eq n name then some s else find_str name hs
find_str name ((n, _) ∷ hs) = find_str name hs

unfoldable pub header_str : Frame → Text → Option Text
unfolding find_str
header_str frame name = find_str name frame.headers

abbrev pub message_type : Frame → Option Text
message_type frame = header_str frame (codes ":message-type")

abbrev pub event_type : Frame → Option Text
event_type frame = header_str frame (codes ":event-type")

abbrev pub exception_type : Frame → Option Text
exception_type frame = header_str frame (codes ":exception-type")

-- The bytes received, of which the first `start` are consumed.
pub record FrameDecoder : Type 0 where
  pub buf : Bytes
  pub start : ℕ

abbrev pub new : FrameDecoder
new = record { buf = []; start = 0 }

-- Drop the consumed bytes when they are more than half of the buffer, then append.
unfoldable pub push : FrameDecoder → Bytes → FrameDecoder
push d bytes =
    if ltb 0 d.start && ltb (length d.buf) (d.start * 2)
    then record { buf = drop d.start d.buf ++ bytes; start = 0 }
    else record d { buf = d.buf ++ bytes }

unfoldable pub pending : FrameDecoder → ℕ
pending d = length d.buf - d.start

unfoldable pub finish : FrameDecoder → Result (Unit {0}) FrameError
unfolding pending
finish d = if pending d == 0 then ok tt else err (truncated (pending d))

-- `crc32fast::hash`, which is not part of the repository.
module _ (hash : Bytes → ℕ) where
  -- The prelude's fields and the tests on them: the total and the header length.
  unfoldable pub check_prelude : Bytes → Result (ℕ × ℕ) FrameError
  check_prelude buffered =
      let total = from_be_bytes (slice 0 4 buffered) in
      let headers_len = from_be_bytes (slice 4 4 buffered) in
      let expected = from_be_bytes (slice 8 4 buffered) in
      let computed = hash (slice 0 8 buffered) in
      if not (computed == expected)
      then err (prelude_crc computed expected)
      else if ltb total min_frame_len
      then err (too_small total)
      else if ltb max_frame_bytes total
      then err (too_large total max_frame_bytes)
      else if ltb (total - prelude_len - 4) headers_len
      then err (headers_overrun headers_len)
      else if ltb max_headers_bytes headers_len
      then err (headers_overrun headers_len)
      else ok (total, headers_len)

  -- The message CRC, the headers and the payload of a whole frame.
  unfoldable pub read_frame : ℕ → ℕ → Bytes → Result Frame FrameError
  read_frame total headers_len frame_bytes =
      let expected = from_be_bytes (slice (total - 4) 4 frame_bytes) in
      let computed = hash (slice 0 (total - 4) frame_bytes) in
      if not (computed == expected) then err (message_crc computed expected) else do
        headers ← parse_headers (slice prelude_len headers_len frame_bytes)
        ok (record {
          headers = headers;
          payload =
              slice (prelude_len + headers_len) (total - 4 - (prelude_len + headers_len))
                frame_bytes;
        })

  -- `next_frame` on the bytes that are not consumed: a frame and its length, or `none` for more.
  unfoldable pub frame_at : Bytes → Result (Option (Frame × ℕ)) FrameError
  frame_at buffered = if ltb (length buffered) prelude_len then ok none else do
    (total, headers_len) ← check_prelude buffered
    if ltb (length buffered) total
        then ok none
        else do frame ← read_frame total headers_len (take total buffered); ok (some (frame, total))

  -- An error leaves the decoder as it was.
  unfoldable pub next_frame : FrameDecoder → Result (Option Frame) FrameError × FrameDecoder
  next_frame d = elim (frame_at (drop d.start d.buf)) [
    | err e ↦ (err e, d)
    | ok none ↦ (ok none, d)
    | ok (some (frame, total)) ↦ (ok (some frame), record d { start = d.start + total })
  ]

  unfoldable pub encode_frame : Bytes → Bytes → Bytes
  encode_frame headers payload =
      let total = (prelude_len + length headers + length payload + 4) % 2 ^ 32 in
      let lengths = u32_to_be_bytes total ++ u32_to_be_bytes (length headers % 2 ^ 32) in
      let framed = lengths ++ (u32_to_be_bytes (hash lengths) ++ (headers ++ payload)) in
      framed ++ u32_to_be_bytes (hash framed)

  -- The three headers of a message, in the order in which they are pushed.
  message_headers : Text → Text → Text → Bytes
  message_headers message kind value =
      push_header
        (push_header (push_header [] (codes ":message-type") (string message)) kind (string value))
        (codes ":content-type") (string (codes "application/json"))

  unfoldable pub encode_event_frame : Text → Bytes → Bytes
  unfolding message_headers
  encode_event_frame event payload =
      encode_frame (message_headers (codes "event") (codes ":event-type") event) payload

  unfoldable pub encode_exception_frame : Text → Bytes → Bytes
  unfolding message_headers
  encode_exception_frame exception payload =
      encode_frame (message_headers (codes "exception") (codes ":exception-type") exception) payload
