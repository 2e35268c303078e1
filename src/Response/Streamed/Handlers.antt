-- ===== src/Response/Streamed/Handlers.antt =====
-- Each handler of the translator collects what it sends.
use kiro_trust.Prelude.{
  ◌≡◌, refl, sym, ap, ◌∙◌, Bool, true, not, ◌&&◌, [], ◌++◌, append_assoc, append-nil, if◌then◌else◌,
  if_both,
}
use kiro_trust.Text.{Text}
use kiro_trust.Text.Search.{is_empty}
use kiro_trust.Anthropic.{Delta}
use kiro_trust.Response.Limits.{apply_max_tokens, limit_text}
use kiro_trust.Response.Emitter.{Events, Writer, ◌>>◌, ensure_started, close_active}
use kiro_trust.Response.State.{ResponseTranslator}
use kiro_trust.Response.Push.{
  latched, take_thinking, take_text, take_pending, emitting, modify, when_, say_thinking, say_text,
  say_pending, flush_tags, flush_pending, end_message, finish,
}
use kiro_trust.Response.Streamed.{
  text_of, thinking_of, sent_text, sent_thinking, sent, sent-append, Says, Silent,
  Silent-ensure_started, Silent-close_active, Says-emit_text, Says-emit_thinking,
}

module _ (F V : Type 0) where
  abbrev Outcome : Type 0
  Outcome = ResponseTranslator × Events V

  -- What is collected is what was collected before, with what is sent behind it.
  abbrev pub Collects : ResponseTranslator → Outcome → Type 0
  Collects t r =
      (r.0.acc.text ≡ t.acc.text ++ sent_text V r.1)
      × (r.0.acc.thinking ≡ t.acc.thinking ++ sent_thinking V r.1)

  joined :
      (f : Delta → Text) (a b c : Text) (out1 out2 : Events V)
      → b ≡ a ++ sent V f out1
      → c ≡ b ++ sent V f out2
      → c ≡ a ++ sent V f (out1 ++ out2)
  joined f a b c out1 out2 h k =
      k
      ∙ ap (λ x. x ++ sent V f out2) h
      ∙ append_assoc a (sent V f out1) (sent V f out2)
      ∙ ap (λ x. a ++ x) (sym (sent-append V f out1 out2))

  Collects-then :
      (t : ResponseTranslator) (r s : Outcome)
      → Collects t r
      → Collects r.0 s
      → Collects t (s.0, r.1 ++ s.1)
  Collects-then t r s (h, k) (m, n) = (
    joined text_of t.acc.text r.0.acc.text s.0.acc.text r.1 s.1 h m,
    joined thinking_of t.acc.thinking r.0.acc.thinking s.0.acc.thinking r.1 s.1 k n,
  )

  -- The translator collects this text and this thinking, and sends them.
  collected :
      (text think : Text) (t : ResponseTranslator) (r : Outcome)
      → r.0.acc.text ≡ t.acc.text ++ text
      → r.0.acc.thinking ≡ t.acc.thinking ++ think
      → Says V text think r.1
      → Collects t r
  collected text think t r a b (h, k) =
      (a ∙ ap (λ x. t.acc.text ++ x) (sym h), b ∙ ap (λ x. t.acc.thinking ++ x) (sym k))

  pub still :
      (t : ResponseTranslator) (r : Outcome)
      → r.0.acc.text ≡ t.acc.text
      → r.0.acc.thinking ≡ t.acc.thinking
      → Silent V r.1
      → Collects t r
  still t r a b s =
      collected [] [] t r (a ∙ sym (append-nil t.acc.text)) (b ∙ sym (append-nil t.acc.thinking)) s

  pub nothing_said : Silent V []
  unfolding sent
  nothing_said = (refl, refl)

  pub unchanged : (t : ResponseTranslator) → Collects t (t, [])
  unchanged t = still t (t, []) refl refl nothing_said

  pub Collects-if :
      (t : ResponseTranslator) (b : Bool) (r s : Outcome)
      → Collects t r
      → Collects t s
      → Collects t (if b then r else s)
  Collects-if t b r s h k = if_both (Collects t) b r s (λ _. h) (λ _. k)

  pub Collects-say_thinking :
      (out : Text) (t : ResponseTranslator) → Collects t (say_thinking F V out t)
  unfolding say_thinking take_thinking
  Collects-say_thinking out t =
      let said = (apply_max_tokens out t.limits).0 in
      collected [] said t (say_thinking F V out t) (sym (append-nil t.acc.text)) refl
        (Says-emit_thinking V said t.emitter)

  pub Collects-say_text : (out : Text) (t : ResponseTranslator) → Collects t (say_text F V out t)
  unfolding say_text take_text
  Collects-say_text out t =
      let said = (limit_text out t.limits).0 in
      collected said [] t (say_text F V out t) refl (sym (append-nil t.acc.thinking))
        (Says-emit_text V said t.emitter)

  Collects-say_pending : (out : Text) (t : ResponseTranslator) → Collects t (say_pending F V out t)
  unfolding say_pending take_pending
  Collects-say_pending out t =
      let said = (apply_max_tokens out t.limits).0 in
      collected said [] t (say_pending F V out t) refl (sym (append-nil t.acc.thinking))
        (Says-emit_text V said t.emitter)

  pub Collects-ensure_started :
      (t : ResponseTranslator) → Collects t (emitting F V (ensure_started V) t)
  Collects-ensure_started t =
      still t (emitting F V (ensure_started V) t) refl refl (Silent-ensure_started V t.emitter)

  Collects-close_active : (t : ResponseTranslator) → Collects t (emitting F V (close_active V) t)
  Collects-close_active t =
      still t (emitting F V (close_active V) t) refl refl (Silent-close_active V t.emitter)

  Collects-flush_tags : (t : ResponseTranslator) → Collects t (flush_tags F V t)
  unfolding flush_tags
  Collects-flush_tags t =
      let t' = record t { tags = record t.tags { tag_buf = [] } } in
      Collects-if t (is_empty t.tags.tag_buf) (t', []) _ (unchanged t)
        (Collects-if t t.tags.tag_inside (say_thinking F V t.tags.tag_buf t') _
          (Collects-say_thinking t.tags.tag_buf t')
          (Collects-if t (not (latched t)) (say_text F V t.tags.tag_buf t') (t', [])
            (Collects-say_text t.tags.tag_buf t') (unchanged t)))

  Collects-flush_pending : (t : ResponseTranslator) → Collects t (flush_pending F V t)
  unfolding flush_pending
  Collects-flush_pending t =
      let t' = record t { limits = record t.limits { stop_pending = [] } } in
      Collects-if t (not (is_empty t.limits.stop_pending) && not (latched t))
        (say_pending F V t.limits.stop_pending t') (t', [])
        (Collects-say_pending t.limits.stop_pending t') (unchanged t)

  Collects-end_message : (t : ResponseTranslator) → Collects t (end_message F V t)
  unfolding end_message sent
  Collects-end_message t = still t (end_message F V t) refl refl (refl, refl)

  abbrev Push : Type 0
  Push = Writer ResponseTranslator V

  pub then_ :
      (m k : Push)
      → ((t : ResponseTranslator) → Collects t (m t))
      → ((t : ResponseTranslator) → Collects t (k t))
      → (t : ResponseTranslator) → Collects t ((m >> k) t)
  then_ m k h g t = Collects-then t (m t) (k (m t).0) (h t) (g (m t).0)

  pub Collects-when :
      (test : ResponseTranslator → Bool) (m : Push)
      → ((t : ResponseTranslator) → Collects t (m t))
      → (t : ResponseTranslator) → Collects t (when_ F V test m t)
  Collects-when test m h t = Collects-if t (test t) (m t) (t, []) (h t) (unchanged t)

  pub Collects-finish : (t : ResponseTranslator) → Collects t (finish F V t)
  unfolding finish
  Collects-finish =
      let start : Push = modify F V (λ t. record t { finished = true }) in
      let started : Push = emitting F V (ensure_started V) in
      let closed : Push = emitting F V (close_active V) in
      Collects-when (λ t. not t.finished)
        (start >> started >> flush_tags F V >> flush_pending F V >> closed >> end_message F V)
        (then_ (start >> started >> flush_tags F V >> flush_pending F V >> closed) (end_message F V)
          (then_ (start >> started >> flush_tags F V >> flush_pending F V) closed
            (then_ (start >> started >> flush_tags F V) (flush_pending F V)
              (then_ (start >> started) (flush_tags F V)
                (then_ start started unchanged Collects-ensure_started) Collects-flush_tags)
              Collects-flush_pending)
            Collects-close_active)
          Collects-end_message)
