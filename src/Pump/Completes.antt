-- ===== src/Pump/Completes.antt =====
-- A clean end completes the message.
use kiro_trust.Prelude.{
  ℕ, ◌≡◌, refl, sym, ap, ◌∙◌, true, false, ◌||◌, none, some, List, [], ◌∷◌, ◌++◌, append_assoc, ok,
}
use kiro_trust.Text.{Text, Bytes}
use kiro_trust.Json.{SerdeJson}
use kiro_trust.Eventstream.Header.{FrameError}
use kiro_trust.Eventstream.Frame
use kiro_trust.Eventstream.Frame.{Frame, pending, next_frame}
use kiro_trust.Eventstream.Events
use kiro_trust.Eventstream.Events.{EventError, Ev, parse}
use kiro_trust.Response.State.{ResponseOptions}
use kiro_trust.Response.Push.{latched}
use kiro_trust.Response.Protocol.{before, ended, accepts}
use kiro_trust.Response.Protocol.Blocks.{IsValid}
use kiro_trust.Response.Protocol.Stream.{phase}
use kiro_trust.Response.Protocol.Upstream.{phase-finish, IsValid-new}
use kiro_trust.Pump.{
  Pump, Chunk, Read, end_, new, push_last, at_end, on_read, settled, next, events_of, run,
}
use kiro_trust.Pump.Sends.{Steps-push_last, Ledger-run, pump_accepted}

-- The pump still reads, and no half frame is pending.
abbrev pub ReadsOn : Pump → Type 0
ReadsOn p =
    (p.translator.failure ≡ none)
    × (p.broken ≡ none)
    × ((p.ended || latched p.translator) ≡ false)
    × (Frame.finish p.decoder ≡ ok tt)

module _ (json : SerdeJson) (hash : Bytes → ℕ) (fresh : ℕ → Text) (show_frame : FrameError → Text)
    (show_event : EventError → Text) where
  abbrev V : Type 0
  V = json.Value

  abbrev F : Type 0
  F = json.F64

  settled_reading :
      (p : Pump) (r : Chunk V × Pump)
      → p.translator.failure ≡ none
      → p.broken ≡ none
      → (p.ended || latched p.translator) ≡ false
      → settled p.translator.failure p.broken (p.ended || latched p.translator) p r ≡ r
  settled_reading p r f b o = rw (f, b, o) refl

  phase-at_end :
      (p : Pump)
      → IsValid p.translator.emitter
      → phase (at_end json hash fresh show_frame show_event (ok tt) p).1.translator ≡ ended
  unfolding at_end
  phase-at_end p v =
      let ev = (Events.finish json p.parser).0 in
      let r = push_last json hash fresh show_frame show_event ev p.translator in
      phase-finish F V r.0
        (Steps-push_last json hash fresh show_frame show_event ev p.translator v).valid

  run-append :
      (reads more : List Read) (p : Pump)
      → let (out, p') = run json hash fresh show_frame show_event reads p in
        let (rest, p'') = run json hash fresh show_frame show_event more p' in
        run json hash fresh show_frame show_event (reads ++ more) p ≡ (out ++ rest, p'')
  unfolding run
  run-append [] more p = refl
  run-append (read ∷ reads) more p =
      let r = next json hash fresh show_frame show_event read p in
      let q = run json hash fresh show_frame show_event reads r.1 in
      let m = run json hash fresh show_frame show_event more q.1 in
      ap (λ q. (events_of r.0 ++ q.0, q.1)) (run-append reads more r.1)
      ∙ ap (λ o. (o, m.1)) (sym (append_assoc (events_of r.0) q.0 m.0))

  phase-next :
      (p : Pump)
      → IsValid p.translator.emitter
      → p.translator.failure ≡ none
      → p.broken ≡ none
      → (p.ended || latched p.translator) ≡ false
      → Frame.finish p.decoder ≡ ok tt
      → phase (next json hash fresh show_frame show_event end_ p).1.translator ≡ ended
  unfolding next on_read
  phase-next p v f b o clean =
      rw (settled_reading p (on_read json hash fresh show_frame show_event end_ p) f b o, clean)
        (phase-at_end (record p { ended = true }) v)

  -- When the bytes end while the pump still reads, with no failure and no half frame left, then
  -- the events of all the calls of `next` are one complete well-formed message.
  pub pump_completes :
      (opts : ResponseOptions) (reads : List Read)
      → ReadsOn (run json hash fresh show_frame show_event reads (new opts)).1
      → accepts before (run json hash fresh show_frame show_event (reads ++ end_ ∷ []) (new opts)).0
        ≡ some ended
  pump_completes opts reads (f, b, o, clean) =
      let q = run json hash fresh show_frame show_event reads (new opts) in
      let l =
        Ledger-run json hash fresh show_frame show_event reads (new opts)
          (unfold new in IsValid-new F V opts) in
      pump_accepted json hash fresh show_frame show_event opts (reads ++ end_ ∷ [])
      ∙ ap some (
          rw (run-append reads (end_ ∷ []) (new opts))
            (unfold run in phase-next q.1 l.valid f b o clean))
