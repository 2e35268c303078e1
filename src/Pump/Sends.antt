-- ===== src/Pump/Sends.antt =====
-- What the pump sends is along the protocol.
use kiro_trust.Prelude.{
  ℕ, zero, suc, ◌+◌, ◌≡◌, refl, ap, subst, ◌∙◌, Bool, true, false, ◌||◌, Option, Option-cases, none,
  some, inl, inr, List, [], ◌∷◌, ◌++◌, Result, ok, err,
}
use kiro_trust.Text.{Text, Bytes}
use kiro_trust.Json.{SerdeJson}
use kiro_trust.Eventstream.Header.{FrameError}
use kiro_trust.Eventstream.Frame
use kiro_trust.Eventstream.Frame.{Frame, pending, next_frame}
use kiro_trust.Eventstream.Events
use kiro_trust.Eventstream.Events.{EventError, Ev, parse}
use kiro_trust.Response.Emitter.{Events}
use kiro_trust.Response.State
use kiro_trust.Response.State.{ResponseTranslator, ResponseOptions, Failure}
use kiro_trust.Response.Push.{latched, push, finish}
use kiro_trust.Response.Protocol.{Phase, before, accepts, accepts-append}
use kiro_trust.Response.Protocol.Blocks.{IsValid}
use kiro_trust.Response.Protocol.Stream.{phase}
use kiro_trust.Response.Protocol.Upstream.{Steps, Steps-nothing, Steps-push, Steps-end, IsValid-new}
use kiro_trust.Upstream.{UpstreamError}
use kiro_trust.Pump.{
  Pump, Chunk, Read, end_, fails, brings, new, outcome, push_events, go_on, on_events, on_frame,
  take_frames, push_last, at_end, on_read, settled, next, events_of, run,
}

module _ (json : SerdeJson) (hash : Bytes → ℕ) (fresh : ℕ → Text) (show_frame : FrameError → Text)
    (show_event : EventError → Text) where
  abbrev V : Type 0
  V = json.Value

  abbrev F : Type 0
  F = json.F64

  -- From phase `s`, these events lead to the phase of the translator.
  pub record Ledger (s : Phase) (out : Events V) (t : ResponseTranslator) : Type 0 where
    pub valid : IsValid t.emitter
    pub accepted : accepts s out ≡ some (phase t)

  Ledger-Steps :
      {s : Phase} {out : Events V} {t : ResponseTranslator} (r : ResponseTranslator × Events V)
      → Ledger s out t
      → Steps F V t r
      → Ledger s (out ++ r.1) r.0
  Ledger-Steps {s} {out} {t} r l st = record {
    valid = st.valid;
    accepted = accepts-append s out r.1 l.accepted st.accepted;
  }

  -- A chunk sends the events that the ledger has.
  abbrev Sends : Option (Chunk V) → Events V → Type 0
  Sends none out = Unit
  Sends (some c) out = events_of c ≡ out

  outcome-Sends : (f : Option Failure) (b : Bool) (out : Events V) → Sends (outcome f b out) out
  outcome-Sends (some f) b out = refl
  outcome-Sends none true out = refl
  outcome-Sends none false out = tt

  -- What `push_events` gives: the ledger goes on, and a chunk sends it.
  record Pushed (s : Phase) (r : Option (Chunk V) × Events V × ResponseTranslator) : Type 0 where
    pub ledger : Ledger s r.1 r.2
    pub sends : Sends r.0 r.1

  Pushed-push_events :
      (s : Phase) (evs : List (Ev json)) (out : Events V) (t : ResponseTranslator)
      → Ledger s out t
      → Pushed s (push_events json hash fresh show_frame show_event evs out t)
  unfolding push_events
  Pushed-push_events s [] out t l = record { ledger = l; sends = tt }
  Pushed-push_events s (ev ∷ evs) out t l =
      let r = push F V ev t in
      let l' = Ledger-Steps r l (Steps-push F V ev t l.valid) in
      let go = Pushed-push_events s evs (out ++ r.1) r.0 l' in
      elim (Option-cases (outcome r.0.failure (latched r.0) (out ++ r.1))) [
        | inl e ↦ rw (e, push_events) go
        | inr (c, e) ↦
            rw (e, push_events)
              (record {
                ledger = l';
                sends =
                    subst (λ o. Sends o (out ++ r.1)) e
                      (outcome-Sends r.0.failure (latched r.0) (out ++ r.1));
              })
      ]

  -- What a call of `next` gives: the ledger goes on with the events of its chunk.
  abbrev Call : Phase → Chunk V × Pump → Type 0
  Call s r = Ledger s (events_of r.0) r.1.translator

  Call-go_on :
      (s : Phase) (c : Option (Chunk V)) (out : Events V) (p : Pump) (rest : Chunk V × Pump)
      → Ledger s out p.translator
      → Sends c out
      → Call s rest
      → Call s (go_on c p rest)
  Call-go_on s (some c) out p rest l e r = record {
    valid = l.valid;
    accepted = ap (accepts s) e ∙ l.accepted;
  }
  Call-go_on s none out p rest l e r = r

  Call-on_events :
      (s : Phase) (r : Result (List (Ev json)) EventError) (out : Events V) (p : Pump)
      (more : Events V → Pump → Chunk V × Pump)
      → Ledger s out p.translator
      → ((out : Events V) (p : Pump) → Ledger s out p.translator → Call s (more out p))
      → Call s (on_events json hash fresh show_frame show_event r out p more)
  Call-on_events s (err e) out p more l h = l
  Call-on_events s (ok evs) out p more l h =
      let r = push_events json hash fresh show_frame show_event evs out p.translator in
      let q = Pushed-push_events s evs out p.translator l in
      let p' = record p { translator = r.2 } in
      let l' = q.ledger in Call-go_on s r.0 r.1 p' (more r.1 p') l' q.sends (h r.1 p' l')

  Call-on_frame :
      (s : Phase) (r : Result (Option Frame) FrameError) (out : Events V) (p : Pump)
      (more : Events V → Pump → Chunk V × Pump)
      → Ledger s out p.translator
      → ((out : Events V) (p : Pump) → Ledger s out p.translator → Call s (more out p))
      → Call s (on_frame json hash fresh show_frame show_event r out p more)
  Call-on_frame s (err e) out p more l h = l
  Call-on_frame s (ok none) out p more l h = l
  Call-on_frame s (ok (some frame)) out p more l h =
      let r = parse json (fresh p.frames) frame p.parser in
      Call-on_events s r.0 out (record p { parser = r.1; frames = p.frames + 1 }) more l h

  Call-take_frames :
      (s : Phase) (fuel : ℕ) (out : Events V) (p : Pump)
      → Ledger s out p.translator
      → Call s (take_frames json hash fresh show_frame show_event fuel out p)
  unfolding take_frames
  Call-take_frames s zero out p l = l
  Call-take_frames s (suc fuel) out p l =
      let r = next_frame hash p.decoder in
      Call-on_frame s r.0 out (record p { decoder = r.1 })
        (take_frames json hash fresh show_frame show_event fuel) l (Call-take_frames s fuel)

  pub Steps-push_last :
      (ev : Option (Ev json)) (t : ResponseTranslator)
      → IsValid t.emitter
      → Steps F V t (push_last json hash fresh show_frame show_event ev t)
  Steps-push_last none t v = Steps-nothing F V t v
  Steps-push_last (some ev) t v = Steps-push F V ev t v

  Steps-at_end :
      (s : Phase) (ev : Option (Ev json)) (t : ResponseTranslator)
      → Ledger s [] t
      → (let (t1, out1) = push_last json hash fresh show_frame show_event ev t in
          let (t2, out2) = finish F V t1 in Ledger s (out1 ++ out2) t2)
  Steps-at_end s ev t l =
      let r = push_last json hash fresh show_frame show_event ev t in
      let l1 = Ledger-Steps r l (Steps-push_last ev t l.valid) in
      Ledger-Steps (finish F V r.0) l1 (Steps-end F V r.0 l1.valid)

  Call-at_end :
      (s : Phase) (r : Result (Unit {0}) FrameError) (p : Pump)
      → Ledger s [] p.translator
      → Call s (at_end json hash fresh show_frame show_event r p)
  unfolding at_end
  Call-at_end s (err e) p l = l
  Call-at_end s (ok _) p l = Steps-at_end s (Events.finish json p.parser).0 p.translator l

  Call-on_read :
      (s : Phase) (read : Read) (p : Pump)
      → Ledger s [] p.translator
      → Call s (on_read json hash fresh show_frame show_event read p)
  unfolding on_read
  Call-on_read s end_ p l = Call-at_end s (Frame.finish p.decoder) (record p { ended = true }) l
  Call-on_read s (fails e) p l = l
  Call-on_read s (brings chunk) p l =
      let p' = record p { decoder = Frame.push p.decoder chunk } in
      Call-take_frames s (pending p'.decoder) [] p' l

  Call-settled :
      (s : Phase) (f : Option Failure) (b : Option UpstreamError) (over : Bool) (p : Pump)
      (r : Chunk V × Pump)
      → Ledger s [] p.translator
      → Call s r
      → Call s (settled f b over p r)
  Call-settled s (some f) b over p r l h = l
  Call-settled s none (some e) over p r l h = l
  Call-settled s none none true p r l h = l
  Call-settled s none none false p r l h = h

  pub Call-next :
      (s : Phase) (read : Read) (p : Pump)
      → Ledger s [] p.translator
      → Call s (next json hash fresh show_frame show_event read p)
  unfolding next
  Call-next s read p l =
      Call-settled s p.translator.failure p.broken (p.ended || latched p.translator) p _ l
        (Call-on_read s read p l)

  pub Ledger-new : (t : ResponseTranslator) → IsValid t.emitter → Ledger (phase t) [] t
  Ledger-new t v = record { valid = v; accepted = unfold accepts in refl }

  pub Ledger-run :
      (reads : List Read) (p : Pump)
      → IsValid p.translator.emitter
      → let (out, p') = run json hash fresh show_frame show_event reads p in
        Ledger (phase p.translator) out p'.translator
  unfolding run
  Ledger-run [] p v = Ledger-new p.translator v
  Ledger-run (read ∷ reads) p v =
      let r = next json hash fresh show_frame show_event read p in
      let l = Call-next (phase p.translator) read p (Ledger-new p.translator v) in
      let m = Ledger-run reads r.1 l.valid in
      record {
        valid = m.valid;
        accepted =
            accepts-append (phase p.translator) (events_of r.0)
              (run json hash fresh show_frame show_event reads r.1).0 l.accepted m.accepted;
      }

  -- Whatever the upstream sends, in chunks of whatever size, and wherever it fails or ends, the
  -- events of all the calls of `next` are the well-formed beginning of a message that leads to
  -- the phase of the translator.
  pub pump_accepted :
      (opts : ResponseOptions) (reads : List Read)
      → let (out, p) = run json hash fresh show_frame show_event reads (new opts) in
        accepts before out ≡ some (phase p.translator)
  unfolding new State.new
  pump_accepted opts reads = (Ledger-run reads (new opts) (IsValid-new F V opts)).accepted
