-- ===== src/Eventstream/Stream/Views.antt =====
-- The decoder, its buffer and its consumed prefix implement decoding of the bytes not consumed.
use kiro_trust.Prelude.{
  ℕ, zero, suc, ◌+◌, ◌*◌, ◌≤◌, ◌<◌, ◌≡◌, refl, sym, ap, ◌∙◌, Bool-cases, Option, none, some, [],
  ◌∷◌, ◌++◌, length, length-append, length-drop, drop, drop-append, drop-drop, Result, ok, err,
  Result-cases, inl, inr, arith, ◌&&◌, ltb,
}
use kiro_trust.Text.{Bytes}
use kiro_trust.Eventstream.Header.{FrameError}
use kiro_trust.Eventstream.Frame.{
  Frame, FrameDecoder, push, pending, frame_at, next_frame, max_frame_bytes,
}
use kiro_trust.Eventstream.Frame.Cases.{short, FrameAt-eq}
use kiro_trust.Eventstream.Frame.Bounds.{frame_at_bounds, frame_at-none}
use kiro_trust.Eventstream.Stream.{view, Drained, add_frame, drain, decode}

-- No more is consumed than was received.
abbrev pub IsValid : FrameDecoder → Type 0
IsValid d = d.start ≤ length d.buf

-- Compaction loses nothing: after a `push` the bytes not consumed are those from before, and the
-- new ones behind them.
pub view-push :
    (d : FrameDecoder) (bytes : Bytes) → IsValid d → view (push d bytes) ≡ view d ++ bytes
unfolding push
view-push d bytes v = elim (Bool-cases (ltb 0 d.start && ltb (length d.buf) (d.start * 2))) [
  | inl wide ↦ rw wide refl
  | inr narrow ↦ rw narrow (drop-append d.start d.buf bytes v)
]

pub push-IsValid : (d : FrameDecoder) (bytes : Bytes) → IsValid d → IsValid (push d bytes)
unfolding push
push-IsValid d bytes v = ground (arith, length-append d.buf bytes)

pub pending-view : (d : FrameDecoder) → pending d ≡ length (view d)
unfolding pending
pending-view d = sym (length-drop d.start d.buf)

module _ (hash : Bytes → ℕ) where
  -- `next_frame` after its decision on the bytes not consumed.
  abbrev advance :
      FrameDecoder
      → Result (Option (Frame × ℕ)) FrameError
      → Result (Option Frame) FrameError × FrameDecoder
  advance d (err e) = (err e, d)
  advance d (ok none) = (ok none, d)
  advance d (ok (some (frame, total))) = (ok (some frame), record d { start = d.start + total })

  pub next_frame-eq :
      (d : FrameDecoder) {r : Result (Option (Frame × ℕ)) FrameError}
      → frame_at hash (view d) ≡ r
      → next_frame hash d ≡ advance d r
  unfolding next_frame
  next_frame-eq d {r = err e} q = rw (q, next_frame)
  next_frame-eq d {r = ok none} q = rw (q, next_frame)
  next_frame-eq d {r = ok (some (frame, n))} q = rw (q, next_frame)

  -- The same frames and error, and the same bytes left over.
  pub record Agrees (r : Drained FrameDecoder) (s : Drained Bytes) : Type 0 where
    pub frames : r.frames ≡ s.frames
    pub error : r.error ≡ s.error
    pub left : view r.left ≡ s.left
    pub valid : IsValid r.left

  Agrees-add_frame :
      {r : Drained FrameDecoder} {s : Drained Bytes} (frame : Frame)
      → Agrees r s
      → Agrees (add_frame frame r) (add_frame frame s)
  Agrees-add_frame frame a = record {
    frames = ap (◌∷◌ frame) a.frames;
    error = a.error;
    left = a.left;
    valid = a.valid;
  }

  stopped :
      (d : FrameDecoder) (e : Option FrameError) {r : Result (Option Frame) FrameError}
      {next : Result (Option Frame) FrameError × FrameDecoder}
      → IsValid d
      → next ≡ (r, d)
      → Agrees
          (record { frames = []; error = e; left = next.1 })
          (record { frames = []; error = e; left = view d })
  stopped d e v q = rw q (record { frames = refl; error = refl; left = refl; valid = v })

  pub drain-Agrees :
      (f : ℕ) (d : FrameDecoder) → IsValid d → Agrees (drain hash f d) (decode hash f (view d))
  unfolding drain decode
  drain-Agrees zero d v = record { frames = refl; error = refl; left = refl; valid = v }
  drain-Agrees (suc f) d v = elim (Result-cases (frame_at hash (view d))) [
    | inr (e, q) ↦
        rw (q, next_frame-eq d q, decode, drain) (stopped d (some e) v (next_frame-eq d q))
    | inl (none, q) ↦
        rw (q, next_frame-eq d q, decode, drain) (stopped d none v (next_frame-eq d q))
    | inl (some (frame, n), q) ↦
        let b = frame_at_bounds hash (view d) q in
        let e = ap {B = FrameDecoder} (λ p. p.1) (next_frame-eq d q) in
        rw (q, next_frame-eq d q, decode, drain)
          (Agrees-add_frame frame (
            rw (e, drop-drop n d.start d.buf)
              (drain-Agrees f (record d { start = d.start + n })
                (omega (arith, b.received, length-drop d.start d.buf)))))
  ]

  decode_left_none :
      (f : ℕ) (xs : Bytes)
      → length xs ≤ f
      → (decode hash f xs).error ≡ none
      → frame_at hash (decode hash f xs).left ≡ ok none
  unfolding decode
  decode_left_none zero [] h e = FrameAt-eq hash (short (omega arith))
  decode_left_none zero (x ∷ xs) h e = absurd (omega arith)
  decode_left_none (suc f) xs h e = elim (Result-cases (frame_at hash xs)) [
    | inr (bad, q) ↦ cc (rw (q, decode) at e)
    | inl (none, q) ↦ rw (q, decode) q
    | inl (some (frame, n), q) ↦
        let b = frame_at_bounds hash xs q in
        rw (q, decode)
          (decode_left_none f (drop n xs) (omega (arith, b.at_least, b.received, length-drop n xs))
            (rw (q, decode) at e))
  ]

  -- After the loop has taken every frame that a chunk completed, without an error, less than
  -- 4 MiB wait in the decoder, and `next_frame` asks for more.
  pub drain-waits :
      (d : FrameDecoder)
      → IsValid d
      → (drain hash (pending d) d).error ≡ none
      → (frame_at hash (view (drain hash (pending d) d).left) ≡ ok none)
        × (pending (drain hash (pending d) d).left < max_frame_bytes)
  drain-waits d v e =
      let a = drain-Agrees (pending d) d v in
      let waits : frame_at hash (view (drain hash (pending d) d).left) ≡ ok none =
        rw a.left (
          decode_left_none (pending d) (view d) (omega (arith, pending-view d))
            (sym a.error ∙ e)) in
      (
        waits,
        omega (arith, pending-view (drain hash (pending d) d).left, frame_at-none hash _ waits),
      )
