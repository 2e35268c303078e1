-- ===== src/Eventstream/Frame/Bounds.antt =====
-- Sizes: what `next_frame` accepts, and what it can leave in the buffer.
use kiro_trust.Prelude.{
  ℕ, ◌+◌, ◌-◌, ◌≤◌, ◌<◌, ◌≡◌, Option, none, some, length, length-take, drop, slice, ◌==◌, Result,
  ok, err, arith, bind-eq-ok, Bool-cases, inl, inr, ap,
}
use kiro_trust.Text.{Bytes}
use kiro_trust.Wire.{from_be_bytes}
use kiro_trust.Eventstream.Header.{FrameError, parse_headers}
use kiro_trust.Eventstream.Frame.Cases.{
  FrameAt, short, bad_prelude, partial, bad_frame, whole, frame_at-FrameAt,
}
use kiro_trust.Eventstream.Frame.{
  Frame, check_prelude, read_frame, frame_at, max_frame_bytes, max_headers_bytes, prelude_len,
  min_frame_len,
}

payload_length : Result Frame FrameError → ℕ
payload_length (ok frame) = length frame.payload
payload_length (err _) = 0

module _ (hash : Bytes → ℕ) where
  pub record PreludeBounds (total headers_len : ℕ) : Type 0 where
    pub at_least : min_frame_len ≤ total
    pub at_most : total ≤ max_frame_bytes
    pub headers_fit : prelude_len + headers_len + 4 ≤ total
    pub headers_at_most : headers_len ≤ max_headers_bytes

  pub check_prelude_bounds :
      (buffered : Bytes) {total headers_len : ℕ}
      → check_prelude hash buffered ≡ ok (total, headers_len)
      → PreludeBounds total headers_len
  unfolding check_prelude
  check_prelude_bounds buffered h = ground arith

  pub record FrameBounds (buffered : Bytes) (frame : Frame) (total : ℕ) : Type 0 where
    pub at_least : min_frame_len ≤ total
    pub at_most : total ≤ max_frame_bytes
    pub received : total ≤ length buffered
    pub payload_fits : length frame.payload + min_frame_len ≤ total

  pub read_frame_payload :
      (total headers_len : ℕ) (bytes : Bytes) {frame : Frame}
      → prelude_len + headers_len + 4 ≤ total
      → read_frame hash total headers_len bytes ≡ ok frame
      → length frame.payload + min_frame_len ≤ total
  unfolding read_frame payload_length
  read_frame_payload total headers_len bytes p h =
      elim (Bool-cases
        (hash (slice 0 (total - 4) bytes) == from_be_bytes (slice (total - 4) 4 bytes))) [
          | inr bad ↦ ground arith
          | inl good ↦
              let (hs, e, f) =
                bind-eq-ok (parse_headers (slice prelude_len headers_len bytes)) _ (rw good at h) in
              omega (
                arith,
                ap {B = ℕ} payload_length f,
                length-take (total - 4 - (prelude_len + headers_len))
                    (drop (prelude_len + headers_len) bytes),
              )
        ]

  FrameAt-bounds :
      {buffered : Bytes} {r : Result (Option (Frame × ℕ)) FrameError} {frame : Frame} {total : ℕ}
      → FrameAt hash buffered r
      → r ≡ ok (some (frame, total))
      → FrameBounds buffered frame total
  FrameAt-bounds (short _) h = cc
  FrameAt-bounds (bad_prelude _ _) h = cc
  FrameAt-bounds (partial _ _ _) h = cc
  FrameAt-bounds (bad_frame _ _ _ _) h = cc
  FrameAt-bounds (whole {total = n} {headers_len} {frame = f} enough good all read) h =
      let b = check_prelude_bounds _ good in
      let l = read_frame_payload n headers_len _ b.headers_fit read in ground arith

  -- A frame that is handed out has 16 bytes to 4 MiB, all of them received, and its payload is
  -- 16 bytes shorter at least.
  pub frame_at_bounds :
      (buffered : Bytes) {frame : Frame} {total : ℕ}
      → frame_at hash buffered ≡ ok (some (frame, total))
      → FrameBounds buffered frame total
  frame_at_bounds buffered h = FrameAt-bounds (frame_at-FrameAt hash buffered) h

  FrameAt-none :
      {buffered : Bytes} {r : Result (Option (Frame × ℕ)) FrameError}
      → FrameAt hash buffered r
      → r ≡ ok none
      → length buffered < max_frame_bytes
  FrameAt-none (short few) h = omega arith
  FrameAt-none (partial _ good few) h = omega (arith, (check_prelude_bounds _ good).at_most)
  FrameAt-none (bad_prelude _ _) h = cc
  FrameAt-none (bad_frame _ _ _ _) h = cc
  FrameAt-none (whole _ _ _ _) h = cc

  -- While `next_frame` asks for more, less than one largest frame is waiting.
  pub frame_at-none :
      (buffered : Bytes) → frame_at hash buffered ≡ ok none → length buffered < max_frame_bytes
  frame_at-none buffered h = FrameAt-none (frame_at-FrameAt hash buffered) h
