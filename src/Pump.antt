-- ===== src/Pump.antt =====
-- The pump of one response: bytes of the upstream in, events for the client out
-- (crates/kiro-trust/src/server/pump.rs). What the stream of bytes gives next is an argument.
pub mod Settles
pub mod Sends
pub mod Completes
pub mod Prime
pub mod Fuel
mod Tests
use kiro_trust.Prelude.{
  ℕ, zero, suc, ◌+◌, Bool, true, false, not, ◌&&◌, ◌||◌, Option, none, some, List, [], ◌∷◌, ◌++◌,
  if◌then◌else◌, Result, ok, err,
}
use kiro_trust.Text.{Text, Bytes, codes}
use kiro_trust.Text.Search.{is_empty}
use kiro_trust.Json.{SerdeJson}
use kiro_trust.Eventstream.Header.{FrameError}
use kiro_trust.Eventstream.Frame
use kiro_trust.Eventstream.Frame.{Frame, FrameDecoder, pending, next_frame}
use kiro_trust.Eventstream.Events
use kiro_trust.Eventstream.Events.{EventError, ToolUseAccumulator, no_tool, Ev, parse}
use kiro_trust.Response.Emitter.{Events}
use kiro_trust.Response.State.{ResponseTranslator, ResponseOptions, Failure}
use kiro_trust.Response.State
use kiro_trust.Response.Push.{latched, push, finish}
use kiro_trust.Upstream.{UpstreamError, protocol, transport, upstream_error}

pub record Pump : Type 0 where
  pub decoder : FrameDecoder
  pub parser : ToolUseAccumulator
  pub translator : ResponseTranslator
  pub frames : ℕ
  pub ended : Bool
  pub broken : Option UpstreamError

pub data Chunk (V : Type 0) : Type 0 where
  events : Events V → Chunk V
  failed : Events V → Failure → Chunk V
  broke : Events V → UpstreamError → Chunk V
  done : Chunk V

-- What `self.bytes.next()` gives: the end, an error or a chunk of bytes.
pub data Read : Type 0 where
  end_ : Read
  fails : UpstreamError → Read
  brings : Bytes → Read

unfoldable pub new : ResponseOptions → Pump
new opts = record {
  decoder = Frame.new;
  parser = no_tool;
  translator = State.new opts;
  frames = 0;
  ended = false;
  broken = none;
}

abbrev pub protocol_error : Text → UpstreamError
protocol_error msg = upstream_error protocol none none 0 none msg

module _ {V : Type 0} where
  -- After an event: a failure, or a stop, ends the read.
  abbrev pub outcome : Option Failure → Bool → Events V → Option (Chunk V)
  outcome (some f) stopped out = some (failed out f)
  outcome none true out = some (events out)
  outcome none false out = none

  abbrev pub break_with : Events V → UpstreamError → Pump → Chunk V × Pump
  break_with out e p = (broke out e, record p { broken = some e })

  abbrev pub go_on : Option (Chunk V) → Pump → Chunk V × Pump → Chunk V × Pump
  go_on (some c) p rest = (c, p)
  go_on none p rest = rest

  -- What `next` gives without reading, if it does.
  abbrev pub settled :
      Option Failure → Option UpstreamError → Bool → Pump → Chunk V × Pump → Chunk V × Pump
  settled (some f) broken over p reading = (failed [] f, p)
  settled none (some e) over p reading = (broke [] e, p)
  settled none none true p reading = (done, p)
  settled none none false p reading = reading

  abbrev pub events_of : Chunk V → Events V
  events_of (events out) = out
  events_of (failed out f) = out
  events_of (broke out e) = out
  events_of done = []

-- `hash` is `crc32fast::hash`; `fresh` gives the UUID of each frame; the texts of the errors are
-- those that thiserror generates.
module _ (json : SerdeJson) (hash : Bytes → ℕ) (fresh : ℕ → Text) (show_frame : FrameError → Text)
    (show_event : EventError → Text) where
  abbrev V : Type 0
  V = json.Value

  abbrev F : Type 0
  F = json.F64

  -- The events of one frame, with the events to send so far; `none` goes on.
  unfoldable pub push_events :
      List (Ev json)
      → Events V
      → ResponseTranslator
      → Option (Chunk V) × Events V × ResponseTranslator
  push_events [] out t = (none, out, t)
  push_events (ev ∷ evs) out t =
      let t' = (push F V ev t).0 in
      let out' = out ++ (push F V ev t).1 in
      elim (outcome t'.failure (latched t') out') [
        | some c ↦ (some c, out', t')
        | none ↦ push_events evs out' t'
      ]

  -- The body of the loop behind `frames += 1`: `more` is the loop.
  abbrev pub on_events :
      Result (List (Ev json)) EventError
      → Events V
      → Pump
      → (Events V → Pump → Chunk V × Pump)
      → Chunk V × Pump
  on_events (err e) out p more = break_with out (protocol_error (show_event e)) p
  on_events (ok evs) out p more =
      let (stop, out', t') = push_events evs out p.translator in
      let p' = record p { translator = t' } in go_on stop p' (more out' p')

  abbrev pub on_frame :
      Result (Option Frame) FrameError
      → Events V
      → Pump
      → (Events V → Pump → Chunk V × Pump)
      → Chunk V × Pump
  on_frame (err e) out p more = break_with out (protocol_error (show_frame e)) p
  on_frame (ok none) out p more = (events out, p)
  on_frame (ok (some frame)) out p more =
      let (r, parser') = parse json (fresh p.frames) frame p.parser in
      on_events r out (record p { parser = parser'; frames = p.frames + 1 }) more

  -- The loop over the frames; the bytes pending are fuel enough, since a frame has 16 at least.
  unfoldable pub take_frames : ℕ → Events V → Pump → Chunk V × Pump
  unfolding push_events
  take_frames zero out p = (events out, p)
  take_frames (suc fuel) out p =
      let (r, decoder') = next_frame hash p.decoder in
      on_frame r out (record p { decoder = decoder' }) (take_frames fuel)

  abbrev pub push_last : Option (Ev json) → ResponseTranslator → ResponseTranslator × Events V
  push_last none t = (t, [])
  push_last (some ev) t = push F V ev t

  -- The clean end: the call in flight is flushed and the message finished.
  unfoldable pub at_end : Result (Unit {0}) FrameError → Pump → Chunk V × Pump
  at_end (err e) p = break_with [] (protocol_error (show_frame e)) p
  at_end (ok _) p =
      let (last, parser') = Events.finish json p.parser in
      let (t1, out1) = push_last last p.translator in
      let (t2, out2) = finish F V t1 in
      (events (out1 ++ out2), record p { parser = parser'; translator = t2 })

  unfoldable pub on_read : Read → Pump → Chunk V × Pump
  unfolding at_end take_frames
  on_read end_ p = at_end (Frame.finish p.decoder) (record p { ended = true })
  on_read (fails e) p = break_with [] e p
  on_read (brings chunk) p =
      let p' = record p { decoder = Frame.push p.decoder chunk } in
      take_frames (pending p'.decoder) [] p'

  -- A failure outranks a broken stream, and both outrank the end.
  unfoldable pub next : Read → Pump → Chunk V × Pump
  unfolding on_read
  next read p =
      settled p.translator.failure p.broken (p.ended || latched p.translator) p (on_read read p)

  -- What is sent while the stream gives these reads, one for each call of `next`.
  unfoldable pub run : List Read → Pump → Events V × Pump
  unfolding next
  run [] p = ([], p)
  run (read ∷ reads) p =
      let (c, p') = next read p in let (out, p'') = run reads p' in (events_of c ++ out, p'')
