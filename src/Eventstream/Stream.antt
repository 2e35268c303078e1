-- ===== src/Eventstream/Stream.antt =====
-- Decoding a stream that arrives in chunks: `push` and `next_frame` in the loop of `Pump::next`
-- (crates/kiro-trust/src/server/pump.rs), and `finish` at its end. The specification decodes the
-- bytes of the whole stream at once.
pub mod Chunks
pub mod Views
use kiro_trust.Prelude.{
  ℕ, zero, suc, ◌+◌, Option, none, some, List, [], ◌∷◌, ◌++◌, length, drop, Result, ok, err, ◌==◌,
  if◌then◌else◌,
}
use kiro_trust.Text.{Bytes}
use kiro_trust.Eventstream.Header.{FrameError, truncated}
use kiro_trust.Eventstream.Frame.{Frame, FrameDecoder, push, pending, finish, frame_at, next_frame}

-- The bytes that are not consumed.
abbrev pub view : FrameDecoder → Bytes
view d = drop d.start d.buf

pub record Drained (S : Type 0) : Type 0 where
  pub frames : List Frame
  pub error : Option FrameError
  pub left : S

abbrev pub Outcome : Type 0
Outcome = List Frame × Result (Unit {0}) FrameError

abbrev pub add_frame : {S : Type 0} → Frame → Drained S → Drained S
add_frame frame r = record r { frames = frame ∷ r.frames }

abbrev pub flatten : List Bytes → Bytes
flatten [] = []
flatten (c ∷ cs) = c ++ flatten cs

-- The verdict at the end of a stream, after an error or with these bytes left.
abbrev pub verdict : Option FrameError → Bytes → Result (Unit {0}) FrameError
verdict (some e) left = err e
verdict none left = if length left == 0 then ok tt else err (truncated (length left))

abbrev pub conclude : Drained Bytes → Outcome
conclude r = (r.frames, verdict r.error r.left)

module _ (hash : Bytes → ℕ) where
  -- `next_frame` until it asks for more bytes or fails.
  unfoldable pub drain : ℕ → FrameDecoder → Drained FrameDecoder
  drain zero d = record { frames = []; error = none; left = d }
  drain (suc fuel) d = elim (next_frame hash d).0 [
    | err e ↦ record { frames = []; error = some e; left = (next_frame hash d).1 }
    | ok none ↦ record { frames = []; error = none; left = (next_frame hash d).1 }
    | ok (some frame) ↦ add_frame frame (drain fuel (next_frame hash d).1)
  ]

  -- The frames of a stream, and its error or the verdict at its end.
  unfoldable pub read_stream : FrameDecoder → List Bytes → Outcome
  read_stream d [] = ([], finish d)
  read_stream d (chunk ∷ chunks) =
      let r = drain (pending (push d chunk)) (push d chunk) in
      let rest = read_stream r.left chunks in
      elim r.error [ some e ↦ (r.frames, err e) | none ↦ (r.frames ++ rest.0, rest.1) ]

  -- The specification: frame after frame from the front of all the bytes.
  unfoldable pub decode : ℕ → Bytes → Drained Bytes
  decode zero xs = record { frames = []; error = none; left = xs }
  decode (suc fuel) xs = elim (frame_at hash xs) [
    | err e ↦ record { frames = []; error = some e; left = xs }
    | ok none ↦ record { frames = []; error = none; left = xs }
    | ok (some (frame, total)) ↦ add_frame frame (decode fuel (drop total xs))
  ]

  unfoldable pub decode_stream : Bytes → Outcome
  decode_stream xs = conclude (decode (length xs) xs)
