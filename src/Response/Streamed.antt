-- ===== src/Response/Streamed.antt =====
-- What the translator sends as text and as thinking, and what it collects for a response that is
-- not streamed (crates/kiro-trust-protocol/src/translate/response.rs).
pub mod Folded
pub mod Handlers
use kiro_trust.Prelude.{
  ◌≡◌, refl, sym, ap, ◌∙◌, Bool, Bool-cases, true, false, not, ◌&&◌, ◌||◌, inl, inr, Option, none,
  some, List, [], ◌∷◌, ◌++◌, append_assoc, append-nil, if◌then◌else◌, if_both,
}
use kiro_trust.Text.{Text}
use kiro_trust.Text.Search.{is_empty}
use kiro_trust.Kiro.{
  Event, assistant_response, reasoning_content, tool_use, metadata, metering, invalid_state,
  exception, ignored,
}
use kiro_trust.Anthropic.{
  StreamEvent, content_block_delta, Delta, BlockStart, signature_delta, input_json_delta,
}
use kiro_trust.Response.Tags.{parse_tags}
use kiro_trust.Response.Limits.{apply_max_tokens, limit_text}
use kiro_trust.Response.Emitter.{
  Emitter, Active, is_active, Events, Writer, ◌>>◌, ensure_started, close_active, open_block,
  switch_block, send_delta, set_visible, emit_text, emit_thinking, send_deltas, filled_block,
  whole_block,
}
use kiro_trust.Response.State.{
  ResponseTranslator, ResponseOptions, new, take_metadata, take_metering,
}
use kiro_trust.Response.Push.{
  latched, take_thinking, take_text, take_pending, emitting, modify, when_, say_thinking, say_text,
  say_pending, flush_tags, flush_pending, end_message, finish, finish_if_latched, failed,
  push_response, push_redacted, send_signature, push_thinking, set_signature, push_reasoning,
  push_tool_use, push_event, push, push_all,
}

abbrev pub text_of : Delta → Text
text_of (Delta.text_delta t) = t
text_of _ = []

abbrev pub thinking_of : Delta → Text
thinking_of (Delta.thinking_delta t) = t
thinking_of _ = []

module _ (V : Type 0) where
  abbrev said : (Delta → Text) → StreamEvent V → Text
  said f (content_block_delta i d) = f d
  said f _ = []

  -- What the deltas of a stream of events say, joined.
  unfoldable pub sent : (Delta → Text) → Events V → Text
  sent f [] = []
  sent f (e ∷ es) = said f e ++ sent f es

  abbrev pub sent_text : Events V → Text
  sent_text = sent text_of

  abbrev pub sent_thinking : Events V → Text
  sent_thinking = sent thinking_of

  pub sent-append : (f : Delta → Text) (a b : Events V) → sent f (a ++ b) ≡ sent f a ++ sent f b
  unfolding sent
  sent-append f [] b = refl
  sent-append f (e ∷ a) b =
      ap (λ x. said f e ++ x) (sent-append f a b)
      ∙ sym (append_assoc (said f e) (sent f a) (sent f b))

  -- The events say this text and this thinking.
  abbrev pub Says : Text → Text → Events V → Type 0
  Says text think out = (sent_text out ≡ text) × (sent_thinking out ≡ think)

  abbrev pub Silent : Events V → Type 0
  Silent out = Says [] [] out

  pub Silent-append : (a b : Events V) → Silent a → Silent b → Silent (a ++ b)
  Silent-append a b (h, k) (m, n) = (
    sent-append text_of a b ∙ ap (λ x. x ++ sent_text b) h ∙ m,
    sent-append thinking_of a b ∙ ap (λ x. x ++ sent_thinking b) k ∙ n,
  )

  Says-behind :
      (text think : Text) (a b : Events V) → Silent a → Says text think b → Says text think (a ++ b)
  Says-behind text think a b (h, k) (m, n) = (
    sent-append text_of a b ∙ ap (λ x. x ++ sent_text b) h ∙ m,
    sent-append thinking_of a b ∙ ap (λ x. x ++ sent_thinking b) k ∙ n,
  )

  pub Silent-ensure_started : (e : Emitter) → Silent (ensure_started V e).1
  unfolding ensure_started sent
  Silent-ensure_started e =
      if_both (λ (r : Emitter × Events V). Silent r.1) e.started (e, []) _ (λ _. (refl, refl))
        (λ _. (refl, refl))

  closed : (o : Option Active) (e : Emitter) → o ≡ e.active → Silent (close_active V e).1
  unfolding close_active sent
  closed none e h = rw (sym h, close_active) (refl, refl)
  closed (some k) e h = rw (sym h, close_active) (refl, refl)

  pub Silent-close_active : (e : Emitter) → Silent (close_active V e).1
  Silent-close_active e = closed e.active e refl

  Silent-open_block : (kind : Active) (e : Emitter) → Silent (open_block V kind e).1
  unfolding open_block sent
  Silent-open_block kind e = (refl, refl)

  Silent-switch_block : (kind : Active) (e : Emitter) → Silent (switch_block V kind e).1
  unfolding switch_block sent
  Silent-switch_block kind e =
      if_both (λ (r : Emitter × Events V). Silent r.1) (is_active kind e.active) (e, []) _
        (λ _. (refl, refl))
        (λ _.
          Silent-append (close_active V e).1 (open_block V kind (close_active V e).0).1
            (Silent-close_active e) (Silent-open_block kind (close_active V e).0))

  pub Says-emit_text : (t : Text) (e : Emitter) → Says t [] (emit_text V t e).1
  unfolding emit_text send_delta sent
  Says-emit_text [] e = (refl, refl)
  Says-emit_text (c ∷ t) e =
      let (e1, out1) = ensure_started V e in
      let e2 : Emitter = record e1 { visible = true } in
      let (e3, out3) = switch_block V Active.text e2 in
      let (e4, out4) = send_delta V (Delta.text_delta (c ∷ t)) e3 in
      Says-behind (c ∷ t) [] ((out1 ++ []) ++ out3) out4
        (Silent-append (out1 ++ []) out3
          (Silent-append out1 [] (Silent-ensure_started e) (refl, refl))
          (Silent-switch_block Active.text e2))
        (append-nil (c ∷ t), refl)

  pub Says-emit_thinking : (t : Text) (e : Emitter) → Says [] t (emit_thinking V t e).1
  unfolding emit_thinking send_delta sent
  Says-emit_thinking [] e = (refl, refl)
  Says-emit_thinking (c ∷ t) e =
      let (e1, out1) = ensure_started V e in
      let (e3, out3) = switch_block V Active.thinking e1 in
      let (e4, out4) = send_delta V (Delta.thinking_delta (c ∷ t)) e3 in
      Says-behind [] (c ∷ t) (out1 ++ out3) out4
        (Silent-append out1 out3 (Silent-ensure_started e) (Silent-switch_block Active.thinking e1))
        (refl, append-nil (c ∷ t))
