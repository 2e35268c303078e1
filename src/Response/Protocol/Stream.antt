-- ===== src/Response/Protocol/Stream.antt =====
-- The translator's events follow the protocol, whatever the upstream sends.
use kiro_trust.Prelude.{
  ◌≡◌, ◌≢◌, refl, ap, ◌∙◌, Bool, true, false, not, ◌&&◌, none, some, [], ◌∷◌, if◌then◌else◌, arith,
  Bool-cases, Option-cases, inl, inr,
}
use kiro_trust.Text.{Text}
use kiro_trust.Text.Search.{is_empty}
use kiro_trust.Anthropic.{StreamEvent}
use kiro_trust.Response.Emitter.{
  Emitter, Events, Writer, ◌>>◌, nothing, ensure_started, close_active,
}
use kiro_trust.Response.State.{ResponseTranslator}
use kiro_trust.Response.Push.{
  latched, take_thinking, take_text, take_pending, emitting, modify, when_, say_thinking, say_text,
  say_pending, flush_tags, flush_pending, end_message, finish,
}
use kiro_trust.Response.Protocol.{Phase, before, ended, accept, accepts, accepts-append}
use kiro_trust.Response.Protocol.Blocks.{
  IsValid, Follows, phase_of, ensure_started-Follows, started-ensure_started, close_active-Follows,
  active-close_active, emit_text-Follows, emit_thinking-Follows,
}

-- Where a translator stands in the protocol.
abbrev pub phase : ResponseTranslator → Phase
phase t = if t.finished then ended else phase_of t.emitter

accept-ne-before : {V : Type 0} (p : Phase) (ev : StreamEvent V) → accept p ev ≢ some before
accept-ne-before p ev h = ground arith

phase_of-ne-before : (e : Emitter) → e.started ≡ true → phase_of e ≢ before
phase_of-ne-before e s h = ground arith

started_of_ne : (e : Emitter) → phase_of e ≢ before → e.started ≡ true
started_of_ne e h = elim (Bool-cases e.started) [ inl s ↦ s | inr s ↦ absurd (h (ground arith)) ]

module _ (F V : Type 0) where
  -- From `t` to `r`, the events are what the emitter's phase allows, and nothing finishes.
  pub record Good (t : ResponseTranslator) (r : ResponseTranslator × Events V) : Type 0 where
    pub valid : IsValid r.0.emitter
    pub accepted : accepts (phase_of t.emitter) r.1 ≡ some (phase_of r.0.emitter)
    pub same : r.0.finished ≡ t.finished

  abbrev pub Emits : Writer ResponseTranslator V → ResponseTranslator → Type 0
  Emits m t = Good t (m t)

  pub Good-if :
      {t : ResponseTranslator} (b : Bool) {r s : ResponseTranslator × Events V}
      → (b ≡ true → Good t r)
      → (b ≡ false → Good t s)
      → Good t (if b then r else s)
  Good-if true f g = f refl
  Good-if false f g = g refl

  pub Emits->> :
      (m k : Writer ResponseTranslator V) (t : ResponseTranslator)
      → Emits m t
      → Emits k (m t).0
      → Emits (m >> k) t
  Emits->> m k t f g = record {
    valid = g.valid;
    accepted = accepts-append (phase_of t.emitter) (m t).1 (k (m t).0).1 f.accepted g.accepted;
    same = g.same ∙ f.same;
  }

  pub Emits-emitting :
      (m : Writer Emitter V) (t : ResponseTranslator)
      → Follows m t.emitter
      → Emits (emitting F V m) t
  Emits-emitting m t f = record { valid = f.valid; accepted = f.accepted; same = refl }

  pub Emits-modify :
      (f : ResponseTranslator → ResponseTranslator) (t : ResponseTranslator)
      → IsValid t.emitter
      → (f t).emitter ≡ t.emitter
      → (f t).finished ≡ t.finished
      → Emits (modify F V f) t
  unfolding accepts
  Emits-modify f t v e s = record { valid = rw e v; accepted = rw e refl; same = s }

  pub Emits-nothing : (t : ResponseTranslator) → IsValid t.emitter → Emits nothing t
  unfolding accepts
  Emits-nothing t v = record { valid = v; accepted = refl; same = refl }

  pub Emits-when :
      (test : ResponseTranslator → Bool) (m : Writer ResponseTranslator V) (t : ResponseTranslator)
      → IsValid t.emitter
      → (test t ≡ true → Emits m t)
      → Emits (when_ F V test m) t
  Emits-when test m t v f = Good-if (test t) f (λ _. Emits-nothing t v)

  pub Emits-say_thinking :
      (s : Text) (t : ResponseTranslator) → IsValid t.emitter → Emits (say_thinking F V s) t
  unfolding say_thinking take_thinking
  Emits-say_thinking s t v =
      let f = emit_thinking-Follows V (take_thinking s t).0 t.emitter v in
      record { valid = f.valid; accepted = f.accepted; same = refl }

  pub Emits-say_text :
      (s : Text) (t : ResponseTranslator) → IsValid t.emitter → Emits (say_text F V s) t
  unfolding say_text take_text
  Emits-say_text s t v =
      let f = emit_text-Follows V (take_text s t).0 t.emitter v in
      record { valid = f.valid; accepted = f.accepted; same = refl }

  Emits-say_pending :
      (s : Text) (t : ResponseTranslator) → IsValid t.emitter → Emits (say_pending F V s) t
  unfolding say_pending take_pending
  Emits-say_pending s t v =
      let f = emit_text-Follows V (take_pending s t).0 t.emitter v in
      record { valid = f.valid; accepted = f.accepted; same = refl }

  Emits-flush_tags : (t : ResponseTranslator) → IsValid t.emitter → Emits (flush_tags F V) t
  unfolding flush_tags
  Emits-flush_tags t v =
      let t' = record t { tags = record t.tags { tag_buf = [] } } in
      let quiet : Good t (t', []) = Emits-modify (λ _. t') t v refl refl in
      let moved = λ (r : ResponseTranslator × Events V) (g : Good t' r).
        let h : Good t r = record { valid = g.valid; accepted = g.accepted; same = g.same } in h in
      Good-if (is_empty t.tags.tag_buf) (λ _. quiet)
        λ _.
          Good-if t.tags.tag_inside (λ _. moved _ (Emits-say_thinking t.tags.tag_buf t' v))
            λ _.
              Good-if (not (latched t)) (λ _. moved _ (Emits-say_text t.tags.tag_buf t' v))
                (λ _. quiet)

  Emits-flush_pending : (t : ResponseTranslator) → IsValid t.emitter → Emits (flush_pending F V) t
  unfolding flush_pending
  Emits-flush_pending t v =
      let t' = record t { limits = record t.limits { stop_pending = [] } } in
      Good-if (not (is_empty t.limits.stop_pending) && not (latched t))
        (λ _.
          let g = Emits-say_pending t.limits.stop_pending t' v in
          record { valid = g.valid; accepted = g.accepted; same = g.same })
        (λ _. Emits-modify (λ _. t') t v refl refl)

  accepts-ne-before :
      (p : Phase) (evs : Events V) {q : Phase} → p ≢ before → accepts p evs ≡ some q → q ≢ before
  unfolding accepts
  accepts-ne-before p [] n h = λ e. n (cc (h, e))
  accepts-ne-before p (ev ∷ evs) n h = elim (Option-cases (accept p ev)) [
    | inl x ↦ cc (rw (x, accepts) at h)
    | inr (q, x) ↦
        accepts-ne-before q evs (λ e. accept-ne-before p ev (x ∙ ap some e)) (rw (x, accepts) at h)
  ]

  -- Once a message has been started it stays so.
  pub Good-started :
      {t : ResponseTranslator} {r : ResponseTranslator × Events V}
      → Good t r
      → t.emitter.started ≡ true
      → r.0.emitter.started ≡ true
  Good-started {t} {r} g s =
      started_of_ne r.0.emitter
        (accepts-ne-before (phase_of t.emitter) r.1 (phase_of-ne-before t.emitter s) g.accepted)

  pub record Ends (t : ResponseTranslator) (r : ResponseTranslator × Events V) : Type 0 where
    pub valid : IsValid r.0.emitter
    pub accepted : accepts (phase_of t.emitter) r.1 ≡ some ended
    pub finished : r.0.finished ≡ true

  Ends-end_message :
      (t : ResponseTranslator)
      → IsValid t.emitter
      → t.emitter.started ≡ true
      → t.emitter.active ≡ none
      → t.finished ≡ true
      → Ends t (end_message F V t)
  unfolding end_message accepts
  Ends-end_message t v s n f = record { valid = v; accepted = ground arith; finished = f }

  Ends-after :
      (m k : Writer ResponseTranslator V) (t : ResponseTranslator)
      → Emits m t
      → Ends (m t).0 (k (m t).0)
      → Ends t ((m >> k) t)
  Ends-after m k t f g = record {
    valid = g.valid;
    accepted = accepts-append (phase_of t.emitter) (m t).1 (k (m t).0).1 f.accepted g.accepted;
    finished = g.finished;
  }

  Ends-if :
      {t : ResponseTranslator} (b : Bool) {r : ResponseTranslator × Events V}
      (s : ResponseTranslator × Events V)
      → b ≡ true
      → Ends t r
      → Ends t (if b then r else s)
  Ends-if b s e g = rw e g

  pub Ends-finish :
      (t : ResponseTranslator) → IsValid t.emitter → t.finished ≡ false → Ends t (finish F V t)
  unfolding finish
  Ends-finish t v f =
      let t0 = record t { finished = true } in
      let start = Emits-emitting (ensure_started V) t0 (ensure_started-Follows V t.emitter v) in
      let t1 = (emitting F V (ensure_started V) t0).0 in
      let tags = Emits-flush_tags t1 start.valid in
      let t2 = (flush_tags F V t1).0 in
      let pending = Emits-flush_pending t2 tags.valid in
      let t3 = (flush_pending F V t2).0 in
      let closed =
        Emits-emitting (close_active V) t3 (close_active-Follows V t3.emitter pending.valid) in
      let t4 = (emitting F V (close_active V) t3).0 in
      let s3 = Good-started pending (Good-started tags (started-ensure_started V t.emitter)) in
      let g =
        Ends-after
          (emitting F V (ensure_started V)
            >> flush_tags F V
            >> flush_pending F V
            >> emitting F V (close_active V))
          (end_message F V) t0
          (Emits->> (emitting F V (ensure_started V) >> flush_tags F V >> flush_pending F V)
            (emitting F V (close_active V)) t0
            (Emits->> (emitting F V (ensure_started V) >> flush_tags F V) (flush_pending F V) t0
              (Emits->> (emitting F V (ensure_started V)) (flush_tags F V) t0 start tags) pending)
            closed)
          (Ends-end_message t4 closed.valid (Good-started closed s3)
            (active-close_active V t3.emitter)
            (closed.same ∙ pending.same ∙ tags.same ∙ start.same)) in
      Ends-if (not t.finished) (t, []) (rw f refl)
        (record { valid = g.valid; accepted = g.accepted; finished = g.finished })
