-- ===== src/Pump/Fuel.antt =====
-- The loop over the frames of one read ends: the bytes that are pending are fuel enough.
use kiro_trust.Prelude.{
  ℕ, zero, suc, ◌+◌, ◌≤◌, ◌<◌, ◌≡◌, refl, subst, sym, ap, Option, none, some, List, length-drop,
  inl, inr, Result, Result-cases, ok, err, arith,
}
use kiro_trust.Text.{Text, Bytes}
use kiro_trust.Json.{SerdeJson}
use kiro_trust.Eventstream.Header.{FrameError}
use kiro_trust.Eventstream.Frame.{Frame, FrameDecoder, pending, next_frame, frame_at}
use kiro_trust.Eventstream.Frame.Bounds.{frame_at_bounds}
use kiro_trust.Eventstream.Frame.Cases.{short, FrameAt-eq}
use kiro_trust.Eventstream.Stream.{view}
use kiro_trust.Eventstream.Stream.Views.{pending-view, next_frame-eq}
use kiro_trust.Eventstream.Events.{EventError, Ev, parse}
use kiro_trust.Response.Emitter.{Events}
use kiro_trust.Pump.{Pump, Chunk, push_events, go_on, on_events, on_frame, take_frames}

-- A frame that is handed out consumes bytes, and with none pending there is none.
abbrev Consumes : FrameDecoder → Result (Option Frame) FrameError × FrameDecoder → Type 0
Consumes d (err e, d') = Unit
Consumes d (ok none, d') = Unit
Consumes d (ok (some frame), d') = 1 + pending d' ≤ pending d

module _ (hash : Bytes → ℕ) where
  next_frame-Consumes : (d : FrameDecoder) → Consumes d (next_frame hash d)
  next_frame-Consumes d = elim (Result-cases (frame_at hash (view d))) [
    | inr (e, q) ↦ rw (next_frame-eq hash d q) tt
    | inl (none, q) ↦ rw (next_frame-eq hash d q) tt
    | inl (some (frame, n), q) ↦
        let b = frame_at_bounds hash (view d) q in
        rw (next_frame-eq hash d q) (
          omega (
            arith,
            b.at_least,
            b.received,
            length-drop d.start d.buf,
            length-drop (d.start + n) d.buf,
            pending-view d,
            pending-view (record d { start = d.start + n }),
          ))
  ]

  next_frame_waits : (d : FrameDecoder) → pending d ≤ 0 → next_frame hash d ≡ (ok none, d)
  next_frame_waits d h =
      next_frame-eq hash d (FrameAt-eq hash (short (omega (arith, h, pending-view d))))

module _ (json : SerdeJson) (hash : Bytes → ℕ) (fresh : ℕ → Text) (show_frame : FrameError → Text)
    (show_event : EventError → Text) where
  abbrev V : Type 0
  V = json.Value

  on_events-more :
      (r : Result (List (Ev json)) EventError) (out : Events V) (p : Pump)
      (f g : Events V → Pump → Chunk V × Pump)
      → ((out : Events V) (q : Pump) → q.decoder ≡ p.decoder → f out q ≡ g out q)
      → on_events json hash fresh show_frame show_event r out p f
        ≡ on_events json hash fresh show_frame show_event r out p g
  on_events-more (err e) out p f g h = refl
  on_events-more (ok evs) out p f g h =
      let r = push_events json hash fresh show_frame show_event evs out p.translator in
      let p' = record p { translator = r.2 } in ap (go_on r.0 p') (h r.1 p' refl)

  on_frame-more :
      (d : FrameDecoder) (r : Result (Option Frame) FrameError) (out : Events V) (p : Pump)
      (f g : Events V → Pump → Chunk V × Pump)
      → Consumes d (r, p.decoder)
      → ((out : Events V) (q : Pump) → 1 + pending q.decoder ≤ pending d → f out q ≡ g out q)
      → on_frame json hash fresh show_frame show_event r out p f
        ≡ on_frame json hash fresh show_frame show_event r out p g
  on_frame-more d (err e) out p f g c h = refl
  on_frame-more d (ok none) out p f g c h = refl
  on_frame-more d (ok (some frame)) out p f g c h =
      let r = parse json (fresh p.frames) frame p.parser in
      on_events-more r.0 out (record p { parser = r.1; frames = p.frames + 1 }) f g
        (λ out q e. h out q (subst (λ d'. 1 + pending d' ≤ pending d) (sym e) c))

  -- The loop, with `bottom` in the place of what it gives when its fuel is spent.
  unfoldable pub take_frames_or :
      (Events V → Pump → Chunk V × Pump) → ℕ → Events V → Pump → Chunk V × Pump
  take_frames_or bottom zero out p = bottom out p
  take_frames_or bottom (suc fuel) out p =
      let (r, decoder') = next_frame hash p.decoder in
      on_frame json hash fresh show_frame show_event r out (record p { decoder = decoder' })
        (take_frames_or bottom fuel)

  rounds_end :
      (bottom : Events V → Pump → Chunk V × Pump) (f g : ℕ) (out : Events V) (p : Pump)
      → pending p.decoder < f
      → pending p.decoder ≤ g
      → take_frames_or bottom f out p ≡ take_frames json hash fresh show_frame show_event g out p
  unfolding take_frames take_frames_or
  rounds_end bottom zero g out p h k = absurd (omega arith)
  rounds_end bottom (suc f) zero out p h k = rw (next_frame_waits hash p.decoder (omega arith)) refl
  rounds_end bottom (suc f) (suc g) out p h k =
      let r = next_frame hash p.decoder in
      on_frame-more p.decoder r.0 out (record p { decoder = r.1 }) (take_frames_or bottom f)
        (take_frames json hash fresh show_frame show_event g) (next_frame-Consumes hash p.decoder)
        (λ out q e. rounds_end bottom f g out q (omega arith) (omega arith))

  -- With one round more than there are bytes pending, the loop over the frames of a read comes to
  -- its own end: what stands for spent fuel does not matter, whatever it is, and the result is that
  -- of the fuel which `on_read` gives, the bytes pending.
  pub take_frames_ends :
      (bottom : Events V → Pump → Chunk V × Pump) (f : ℕ) (out : Events V) (p : Pump)
      → pending p.decoder < f
      → take_frames_or bottom f out p
        ≡ take_frames json hash fresh show_frame show_event (pending p.decoder) out p
  take_frames_ends bottom f out p h = rounds_end bottom f (pending p.decoder) out p h (omega arith)
