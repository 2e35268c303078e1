-- ===== src/Pump/Settles.antt =====
-- A failure, a broken stream and the end stay: every later call of `next` gives them again.
use kiro_trust.Prelude.{
  ℕ, zero, suc, ◌+◌, ◌≡◌, refl, subst, Bool, true, false, ◌||◌, Option, none, some, List, [], ◌∷◌,
  ◌++◌, Option-cases, inl, inr, Result, ok, err,
}
use kiro_trust.Text.{Text, Bytes}
use kiro_trust.Json.{SerdeJson}
use kiro_trust.Eventstream.Header.{FrameError}
use kiro_trust.Eventstream.Frame
use kiro_trust.Eventstream.Frame.{Frame, pending, next_frame}
use kiro_trust.Eventstream.Events.{EventError, Ev, parse}
use kiro_trust.Response.Emitter.{Events}
use kiro_trust.Response.State.{ResponseTranslator, Failure}
use kiro_trust.Response.Push.{latched, push}
use kiro_trust.Upstream.{UpstreamError}
use kiro_trust.Pump.{
  Pump, Chunk, events, failed, broke, done, Read, end_, fails, brings, outcome, push_events, go_on,
  on_events, on_frame, take_frames, at_end, on_read, settled, next,
}

module _ {V : Type 0} where
  -- The pump keeps why the chunk stopped.
  abbrev pub Kept : Chunk V → Pump → Type 0
  Kept (events out) p = Unit
  Kept (failed out f) p = p.translator.failure ≡ some f
  Kept (broke out e) p = (p.translator.failure ≡ none) × (p.broken ≡ some e)
  Kept done p =
      (p.translator.failure ≡ none) × (p.broken ≡ none) × ((p.ended || latched p.translator) ≡ true)

  -- A call behind this chunk: it reads nothing, sends nothing and changes nothing.
  abbrev pub Stays : Chunk V → Pump → Chunk V × Pump → Type 0
  Stays (events out) p r = Unit
  Stays (failed out f) p r = r ≡ (failed [] f, p)
  Stays (broke out e) p r = r ≡ (broke [] e, p)
  Stays done p r = r ≡ (done, p)

  Stays-settled :
      (c : Chunk V) (p : Pump) (r : Chunk V × Pump)
      → Kept c p
      → Stays c p (settled p.translator.failure p.broken (p.ended || latched p.translator) p r)
  Stays-settled (events out) p r k = tt
  Stays-settled (failed out f) p r k = rw (k) refl
  Stays-settled (broke out e) p r (f, b) = rw (f, b) refl
  Stays-settled done p r (f, b, o) = rw (f, b, o) refl

  -- What a chunk behind an event says of the translator.
  abbrev Said : Option (Chunk V) → ResponseTranslator → Type 0
  Said none t = t.failure ≡ none
  Said (some (failed out f)) t = t.failure ≡ some f
  Said (some (events out)) t = Unit
  Said (some (broke out e)) t = ⊥
  Said (some done) t = ⊥

  Said-outcome :
      (f : Option Failure) (b : Bool) (out : Events V) (t : ResponseTranslator)
      → t.failure ≡ f
      → Said (outcome f b out) t
  Said-outcome (some f) b out t e = e
  Said-outcome none true out t e = tt
  Said-outcome none false out t e = e

  Kept-go_on :
      (c : Option (Chunk V)) (p : Pump) (r : Chunk V × Pump)
      → Said c p.translator
      → (p.translator.failure ≡ none → Kept r.0 r.1)
      → let (c', p') = go_on c p r in Kept c' p'
  Kept-go_on none p r s h = h s
  Kept-go_on (some (events out)) p r s h = tt
  Kept-go_on (some (failed out f)) p r s h = s
  Kept-go_on (some (broke out e)) p r s h = absurd s
  Kept-go_on (some done) p r s h = absurd s

  Kept-settled :
      (f : Option Failure) (b : Option UpstreamError) (over : Bool) (p : Pump) (r : Chunk V × Pump)
      → p.translator.failure ≡ f
      → p.broken ≡ b
      → (p.ended || latched p.translator) ≡ over
      → (p.translator.failure ≡ none → Kept r.0 r.1)
      → let (c, p') = settled f b over p r in Kept c p'
  Kept-settled (some f) b over p r e1 e2 e3 h = e1
  Kept-settled none (some e) over p r e1 e2 e3 h = (e1, e2)
  Kept-settled none none true p r e1 e2 e3 h = (e1, e2, e3)
  Kept-settled none none false p r e1 e2 e3 h = h e1

module _ (json : SerdeJson) (hash : Bytes → ℕ) (fresh : ℕ → Text) (show_frame : FrameError → Text)
    (show_event : EventError → Text) where
  abbrev V : Type 0
  V = json.Value

  abbrev F : Type 0
  F = json.F64

  Said-push_events :
      (evs : List (Ev json)) (out : Events V) (t : ResponseTranslator)
      → t.failure ≡ none
      → let (c, out', t') = push_events json hash fresh show_frame show_event evs out t in Said c t'
  unfolding push_events
  Said-push_events [] out t n = n
  Said-push_events (ev ∷ evs) out t n =
      let r = push F V ev t in
      let s = Said-outcome r.0.failure (latched r.0) (out ++ r.1) r.0 refl in
      elim (Option-cases (outcome r.0.failure (latched r.0) (out ++ r.1))) [
        | inl e ↦
            rw (e, push_events)
              (Said-push_events evs (out ++ r.1) r.0 (subst (λ c. Said c r.0) e s))
        | inr (c, e) ↦ rw (e, push_events) (subst (λ c. Said c r.0) e s)
      ]

  abbrev KeptCall : Chunk V × Pump → Type 0
  KeptCall r = Kept r.0 r.1

  Kept-on_events :
      (r : Result (List (Ev json)) EventError) (out : Events V) (p : Pump)
      (more : Events V → Pump → Chunk V × Pump)
      → p.translator.failure ≡ none
      → ((out : Events V) (p : Pump) → p.translator.failure ≡ none → KeptCall (more out p))
      → KeptCall (on_events json hash fresh show_frame show_event r out p more)
  Kept-on_events (err e) out p more n h = (n, refl)
  Kept-on_events (ok evs) out p more n h =
      let r = push_events json hash fresh show_frame show_event evs out p.translator in
      let p' = record p { translator = r.2 } in
      Kept-go_on r.0 p' (more r.1 p') (Said-push_events evs out p.translator n) (h r.1 p')

  Kept-on_frame :
      (r : Result (Option Frame) FrameError) (out : Events V) (p : Pump)
      (more : Events V → Pump → Chunk V × Pump)
      → p.translator.failure ≡ none
      → ((out : Events V) (p : Pump) → p.translator.failure ≡ none → KeptCall (more out p))
      → KeptCall (on_frame json hash fresh show_frame show_event r out p more)
  Kept-on_frame (err e) out p more n h = (n, refl)
  Kept-on_frame (ok none) out p more n h = tt
  Kept-on_frame (ok (some frame)) out p more n h =
      let r = parse json (fresh p.frames) frame p.parser in
      Kept-on_events r.0 out (record p { parser = r.1; frames = p.frames + 1 }) more n h

  Kept-take_frames :
      (fuel : ℕ) (out : Events V) (p : Pump)
      → p.translator.failure ≡ none
      → KeptCall (take_frames json hash fresh show_frame show_event fuel out p)
  unfolding take_frames
  Kept-take_frames zero out p n = tt
  Kept-take_frames (suc fuel) out p n =
      let r = next_frame hash p.decoder in
      Kept-on_frame r.0 out (record p { decoder = r.1 })
        (take_frames json hash fresh show_frame show_event fuel) n (Kept-take_frames fuel)

  Kept-at_end :
      (r : Result (Unit {0}) FrameError) (p : Pump)
      → p.translator.failure ≡ none
      → KeptCall (at_end json hash fresh show_frame show_event r p)
  unfolding at_end
  Kept-at_end (err e) p n = (n, refl)
  Kept-at_end (ok _) p n = tt

  Kept-on_read :
      (read : Read) (p : Pump)
      → p.translator.failure ≡ none
      → KeptCall (on_read json hash fresh show_frame show_event read p)
  unfolding on_read
  Kept-on_read end_ p n = Kept-at_end (Frame.finish p.decoder) (record p { ended = true }) n
  Kept-on_read (fails e) p n = (n, refl)
  Kept-on_read (brings chunk) p n =
      let p' = record p { decoder = Frame.push p.decoder chunk } in
      Kept-take_frames (pending p'.decoder) [] p' n

  Kept-next :
      (read : Read) (p : Pump) → KeptCall (next json hash fresh show_frame show_event read p)
  unfolding next
  Kept-next read p =
      Kept-settled p.translator.failure p.broken (p.ended || latched p.translator) p _ refl refl
        refl (Kept-on_read read p)

  -- Once a call of `next` has given a failure, a broken stream or the end, every later call gives
  -- it again, with no events, whatever there is to read, and leaves the pump as it is.
  pub next_settles :
      (read later : Read) (p : Pump)
      → let (c, p') = next json hash fresh show_frame show_event read p in
        Stays c p' (next json hash fresh show_frame show_event later p')
  next_settles read later p =
      let r = next json hash fresh show_frame show_event read p in
      unfold next in
      Stays-settled r.0 r.1 (on_read json hash fresh show_frame show_event later r.1)
        (Kept-next read p)
