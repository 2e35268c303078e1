-- ===== src/Eventstream/Tests.antt =====
-- Runs of the decoder on a small frame, and the theorems at concrete bytes. The checksum of these
-- runs is the sum of the bytes.
use kiro_trust.Prelude.{
  ℕ, ◌+◌, ◌%◌, ◌^◌, ◌<◌, ◌≡◌, ◌⊎◌, refl, true, none, some, List, [], ◌∷◌, ◌++◌, length, take, drop,
  ok, err, arith,
}
use kiro_trust.Text.{Bytes, codes}
use kiro_trust.Text.Utf8.{encode_char, as_bytes, from_utf8, len}
use kiro_trust.Wire.{from_be_bytes, u32_to_be_bytes, pos}
use kiro_trust.Eventstream.Header.{bool, int, string, Headers, too_small, parse_headers}
use kiro_trust.Eventstream.Header.RoundTrip.{
  encode_headers, FitsHeaders, parse_headers-encode_headers,
}
use kiro_trust.Eventstream.Frame.{
  Frame, FrameDecoder, max_frame_bytes, new, pending, frame_at, encode_frame, check_prelude,
  read_frame, next_frame,
}
use kiro_trust.Eventstream.Frame.RoundTrip.{frame_at-encode_frame}
use kiro_trust.Eventstream.Frame.Stable.{frame_at-append}
use kiro_trust.Eventstream.Frame.Bounds.{FrameBounds, frame_at_bounds}
use kiro_trust.Eventstream.Stream.{view, flatten, drain, read_stream, decode_stream}
use kiro_trust.Eventstream.Stream.Views.{drain-waits}
use kiro_trust.Eventstream.Stream.Chunks.{chunks_irrelevant}

abbrev total_of : Bytes → ℕ
total_of [] = 0
total_of (b ∷ bs) = b + total_of bs

abbrev checksum : Bytes → ℕ
checksum bs = total_of bs % 2 ^ 32

checksum_fits : (bs : Bytes) → checksum bs < 2 ^ 32
checksum_fits bs = omega arith

-- One header, `a`, that is true.
abbrev block : Bytes
block = 1 ∷ 97 ∷ 0 ∷ []

abbrev block_headers : Headers
block_headers = (codes "a", bool true) ∷ []

abbrev payload : Bytes
payload = 7 ∷ 8 ∷ []

abbrev prelude : Bytes
prelude = 0 ∷ 0 ∷ 0 ∷ 21 ∷ 0 ∷ 0 ∷ 0 ∷ 3 ∷ 0 ∷ 0 ∷ 0 ∷ 24 ∷ []

abbrev frame_bytes : Bytes
frame_bytes = prelude ++ block ++ payload ++ 0 ∷ 0 ∷ 0 ∷ 161 ∷ []

abbrev frame : Frame
frame = record { headers = block_headers; payload = payload }

block_parses : parse_headers block ≡ ok block_headers
unfolding parse_headers from_utf8 from_be_bytes
block_parses = refl

frame_encodes : encode_frame checksum block payload ≡ frame_bytes
unfolding encode_frame u32_to_be_bytes
frame_encodes = refl

frame_decodes : frame_at checksum frame_bytes ≡ ok (some (frame, 21))
unfolding frame_at check_prelude read_frame parse_headers from_utf8 from_be_bytes
frame_decodes = refl

-- A prelude that passes its own checksum, with a total below 16.
short_total :
    frame_at checksum (0 ∷ 0 ∷ 0 ∷ 15 ∷ 0 ∷ 0 ∷ 0 ∷ 0 ∷ 0 ∷ 0 ∷ 0 ∷ 15 ∷ []) ≡ err (too_small 15)
unfolding frame_at check_prelude from_be_bytes
short_total = refl

abbrev headers : Headers
headers =
    (codes "a", bool true) ∷ (codes "n", int (pos 7)) ∷ (codes "s", string (codes "kiro")) ∷ []

headers_fit : FitsHeaders headers
unfolding len as_bytes encode_char
headers_fit = ground arith

parse_headers-encode_headers_example : parse_headers (encode_headers headers) ≡ ok headers
parse_headers-encode_headers_example = parse_headers-encode_headers headers headers_fit

frame_at-encode_frame_example :
    frame_at checksum (encode_frame checksum block payload ++ 1 ∷ 2 ∷ [])
    ≡ ok (some (frame, length (encode_frame checksum block payload)))
frame_at-encode_frame_example =
    frame_at-encode_frame checksum checksum_fits block payload (omega arith) (omega arith)
      block_headers (1 ∷ 2 ∷ []) block_parses

frame_at-append_example :
    (frame_at checksum frame_bytes ≡ ok none)
    ⊎ (frame_at checksum (frame_bytes ++ 5 ∷ []) ≡ frame_at checksum frame_bytes)
frame_at-append_example = frame_at-append checksum frame_bytes (5 ∷ [])

frame_at_bounds_example : FrameBounds checksum frame_bytes frame 21
frame_at_bounds_example = frame_at_bounds checksum frame_bytes frame_decodes

abbrev chunks : List Bytes
chunks = take 7 frame_bytes ∷ (drop 7 frame_bytes ++ take 3 frame_bytes) ∷ []

chunks_irrelevant_example :
    read_stream checksum new chunks ≡ decode_stream checksum (flatten chunks)
chunks_irrelevant_example = chunks_irrelevant checksum chunks

abbrev received : FrameDecoder
received = record { buf = frame_bytes ++ 0 ∷ 0 ∷ []; start = 0 }

received_drains : (drain checksum (pending received) received).error ≡ none
unfolding drain next_frame pending frame_at check_prelude read_frame parse_headers from_utf8
    from_be_bytes
received_drains = refl

drain-waits_example :
    (frame_at checksum (view (drain checksum (pending received) received).left) ≡ ok none)
    × (pending (drain checksum (pending received) received).left < max_frame_bytes)
drain-waits_example = drain-waits checksum received (omega arith) received_drains
