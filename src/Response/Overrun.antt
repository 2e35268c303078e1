-- ===== src/Response/Overrun.antt =====
-- What is still sent after a local stop is latched.
use kiro_trust.Prelude.{
  ◌≡◌, refl, sym, ◌∙◌, Bool, true, false, not, ◌&&◌, ◌||◌, List, [], ◌∷◌, ◌++◌, if◌then◌else◌,
  arith,
}
use kiro_trust.Text.{Text}
use kiro_trust.Text.Search.{is_empty}
use kiro_trust.Kiro.{assistant_response}
use kiro_trust.Anthropic.{StreamEvent}
use kiro_trust.Response.Tags.{parse_tags}
use kiro_trust.Response.Limits.{Limits, apply_max_tokens, limit_text, latch, is_latched}
use kiro_trust.Response.Emitter.{Writer, ◌>>◌, ensure_started, close_active}
use kiro_trust.Response.State.{ResponseTranslator}
use kiro_trust.Response.Push.{
  latched, take_thinking, take_text, emitting, modify, when_, say_thinking, say_text, say_pending,
  flush_tags, flush_pending, end_message, finish, finish_if_latched, failed, push_response,
  push_event, push,
}
use kiro_trust.Response.Streamed.{sent_text}
use kiro_trust.Response.Streamed.Folded.{Keeps-push}
use kiro_trust.Response.Budget.{apply_max_tokens-filter}

and_not : (a b : Bool) → (a && not b) ≡ true → b ≡ true → ⊥
and_not a b h k = ground arith

apart : {b : Bool} → b ≡ true → b ≡ false → ⊥
apart e f = cc

-- Behind the same text, equal texts follow.
cancel : (a b c : Text) → a ++ b ≡ a ++ c → b ≡ c
cancel [] b c e = e
cancel (x ∷ a) b c e = cancel a b c cc

module _ (F V : Type 0) where
  take_text-latched :
      (out : Text) (t : ResponseTranslator)
      → t.limits.stop_sequences ≡ []
      → latched t ≡ true
      → (take_text out t).1.acc.text ≡ t.acc.text ++ out
  unfolding take_text limit_text
  take_text-latched out t u f = ground arith

  take_text-stays :
      (out : Text) (t : ResponseTranslator)
      → t.limits.stop_sequences ≡ []
      → latched t ≡ true
      → latched (take_text out t).1 ≡ true
  unfolding take_text limit_text
  take_text-stays out t u f = ground arith

  apply_max_tokens-latched :
      (delta : Text) (l : Limits)
      → is_latched l ≡ true
      → is_latched (apply_max_tokens delta l).1 ≡ true
  unfolding apply_max_tokens latch
  apply_max_tokens-latched delta l f = ground arith

  say_thinking-text :
      (out : Text) (t : ResponseTranslator) → (say_thinking F V out t).0.acc.text ≡ t.acc.text
  unfolding say_thinking take_thinking
  say_thinking-text out t = refl

  say_thinking-latched :
      (out : Text) (t : ResponseTranslator)
      → latched t ≡ true
      → latched (say_thinking F V out t).0 ≡ true
  unfolding say_thinking take_thinking
  say_thinking-latched out t f = apply_max_tokens-latched out t.limits f

  -- What holds of a translator whose local stop is latched and whose text is `text`.
  abbrev Sealed : Text → ResponseTranslator → Type 0
  Sealed text t = (latched t ≡ true) × (t.acc.text ≡ text)

  Sealed-if :
      {text : Text} (b : Bool) (r s : ResponseTranslator × List (StreamEvent V))
      → (b ≡ true → Sealed text r.0)
      → (b ≡ false → Sealed text s.0)
      → Sealed text (if b then r else s).0
  Sealed-if true r s f g = f refl
  Sealed-if false r s f g = g refl

  Sealed-flush_tags :
      {text : Text} (t : ResponseTranslator) → Sealed text t → Sealed text (flush_tags F V t).0
  unfolding flush_tags
  Sealed-flush_tags t h =
      let remaining = t.tags.tag_buf in
      let t' = record t { tags = record t.tags { tag_buf = [] } } in
      Sealed-if (is_empty remaining) _ _ (λ _. h)
        λ _.
          Sealed-if t.tags.tag_inside _ _
            (λ _. (say_thinking-latched remaining t' h.0, say_thinking-text remaining t' ∙ h.1))
            λ _. Sealed-if (not (latched t)) (say_text F V remaining t') (t', []) (λ n. cc) (λ _. h)

  Sealed-flush_pending :
      {text : Text} (t : ResponseTranslator) → Sealed text t → Sealed text (flush_pending F V t).0
  unfolding flush_pending
  Sealed-flush_pending t h =
      let t' = record t { limits = record t.limits { stop_pending = [] } } in
      Sealed-if (not (is_empty t.limits.stop_pending) && not (latched t))
        (say_pending F V t.limits.stop_pending t') (t', []) (λ n. absurd (and_not _ _ n h.0))
        (λ _. h)

  Sealed-finish :
      {text : Text} (t : ResponseTranslator) → Sealed text t → Sealed text (finish F V t).0
  unfolding finish end_message
  Sealed-finish t h =
      let t1 = (emitting F V (ensure_started V) (record t { finished = true })).0 in
      let m =
        modify F V (λ t. record t { finished = true })
        >> emitting F V (ensure_started V)
        >> flush_tags F V
        >> flush_pending F V
        >> emitting F V (close_active V)
        >> end_message F V in
      Sealed-if (not t.finished) (m t) (t, [])
        (λ _. Sealed-flush_pending (flush_tags F V t1).0 (Sealed-flush_tags t1 h)) (λ _. h)

  abbrev parts : Text → Text → Writer ResponseTranslator V
  parts think text =
      when_ F V (λ _. not (is_empty think)) (say_thinking F V think)
      >> when_ F V (λ _. not (is_empty text)) (say_text F V text)
      >> finish_if_latched F V

  Sealed-parts :
      (think text : Text) (t : ResponseTranslator)
      → t.limits.stop_sequences ≡ []
      → is_empty think ≡ false
      → is_empty text ≡ false
      → is_latched (apply_max_tokens think t.limits).1 ≡ true
      → Sealed (t.acc.text ++ text) (parts think text t).0
  unfolding say_thinking take_thinking say_text
  Sealed-parts [] text t u a b l = cc
  Sealed-parts (c ∷ think) [] t u a b l = cc
  Sealed-parts (c ∷ think) (d ∷ text) t u a b l =
      let t1 = (say_thinking F V (c ∷ think) t).0 in
      let t2 = (say_text F V (d ∷ text) t1).0 in
      let u1 = apply_max_tokens-filter (c ∷ think) t.limits ∙ u in
      let h : Sealed (t.acc.text ++ d ∷ text) t2 =
        (take_text-stays (d ∷ text) t1 u1 l, take_text-latched (d ∷ text) t1 u1 l) in
      Sealed-if (latched t2) (finish F V t2) (t2, []) (λ _. Sealed-finish t2 h) (λ _. h)

  -- All of the text behind the thinking is collected.
  text_collected :
      (content : Text) (t : ResponseTranslator)
      → (t.finished || failed F V t) ≡ false
      → (is_empty content || latched t) ≡ false
      → t.limits.stop_sequences ≡ []
      → is_empty (parse_tags t.tags content).think ≡ false
      → is_empty (parse_tags t.tags content).text ≡ false
      → is_latched (apply_max_tokens (parse_tags t.tags content).think t.limits).1 ≡ true
      → (push F V (assistant_response content) t).0.acc.text
        ≡ t.acc.text ++ (parse_tags t.tags content).text
  unfolding push push_event push_response
  text_collected content t live o u th tx l =
      let p = parse_tags t.tags content in
      let t' = record t { tags = p.tags } in
      (Sealed-if {text = t.acc.text ++ p.text} (t.finished || failed F V t) (t, [])
        (push_response F V content t) (λ e. absurd (apart e live))
        λ _.
          Sealed-if (is_empty content || latched t) (t, []) (parts p.think p.text t')
            (λ e. absurd (apart e o)) (λ _. Sealed-parts p.think p.text t' u th tx l)).1

  -- For a translator that is neither finished nor failed nor stopped and has no stop sequences: if
  -- the thinking of a chunk of content latches the budget, the text deltas that are sent for this
  -- chunk are, joined, all of the text in it, however long that is.
  pub text_behind_thinking :
      (content : Text) (t : ResponseTranslator)
      → (t.finished || failed F V t) ≡ false
      → (is_empty content || latched t) ≡ false
      → t.limits.stop_sequences ≡ []
      → is_empty (parse_tags t.tags content).think ≡ false
      → is_empty (parse_tags t.tags content).text ≡ false
      → is_latched (apply_max_tokens (parse_tags t.tags content).think t.limits).1 ≡ true
      → sent_text V (push F V (assistant_response content) t).1 ≡ (parse_tags t.tags content).text
  text_behind_thinking content t live o u th tx l = cancel t.acc.text _ _ (
      sym (Keeps-push F V (assistant_response content) t).0
      ∙ text_collected content t live o u th tx l)
