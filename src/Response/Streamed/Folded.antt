-- ===== src/Response/Streamed/Folded.antt =====
-- Whatever comes from the upstream, the response that is folded says what is streamed.
use kiro_trust.Prelude.{
  arith, ℕ, ◌≡◌, refl, Bool, not, ◌&&◌, ◌||◌, Option, none, some, List, [], ◌∷◌, ◌++◌,
}
use kiro_trust.Text.{Text}
use kiro_trust.Text.Search.{is_empty}
use kiro_trust.Kiro.{
  Event, assistant_response, reasoning_content, tool_use, metadata, metering, invalid_state,
  exception, ignored,
}
use kiro_trust.Anthropic.{content_block_stop, Delta, BlockStart, signature_delta, input_json_delta}
use kiro_trust.Response.Tags.{parse_tags}
use kiro_trust.Response.Limits.{account_opaque}
use kiro_trust.Response.Emitter.{
  increment, as_u32, Emitter, Active, is_active, Writer, ◌>>◌, ensure_started, close_active,
  send_delta, set_visible, send_deltas, filled_block, whole_block,
}
use kiro_trust.Response.State.{
  ResponseTranslator, ResponseOptions, Accumulated, original_name, new, take_metadata,
  take_metering,
}
use kiro_trust.Response.Push.{
  latched, emitting, modify, when_, say_thinking, say_text, finish, finish_if_latched, failed,
  push_response, push_redacted, send_signature, push_thinking, set_signature, push_reasoning,
  push_tool_use, push_event, push, push_all,
}
use kiro_trust.Response.Streamed.{
  sent_text, sent_thinking, sent, Silent, Silent-append, Silent-close_active,
}
use kiro_trust.Response.Streamed.Handlers.{
  Collects, still, nothing_said, unchanged, Collects-if, Collects-say_thinking, Collects-say_text,
  Collects-ensure_started, then_, Collects-when, Collects-finish,
}

metadata_text :
    (uncached output read write : ℕ) (a : Accumulated)
    → ((take_metadata uncached output read write a).text ≡ a.text)
      × ((take_metadata uncached output read write a).thinking ≡ a.thinking)
unfolding take_metadata
metadata_text uncached output read write a = ground arith

metering_text :
    (input output : ℕ) (a : Accumulated)
    → ((take_metering input output a).text ≡ a.text)
      × ((take_metering input output a).thinking ≡ a.thinking)
unfolding take_metering
metering_text input output a = ground arith

module _ (F V : Type 0) where
  abbrev Push : Type 0
  Push = Writer ResponseTranslator V

  abbrev Keeps : Push → Type 0
  Keeps m = (t : ResponseTranslator) → Collects F V t (m t)

  Silent-whole_block :
      (start : BlockStart V) (deltas : List Delta) (e : Emitter)
      → ((i : ℕ) → Silent V (send_deltas V i deltas))
      → Silent V (whole_block V start deltas e).1
  unfolding whole_block filled_block sent
  Silent-whole_block start deltas e h =
      let (e1, out1) = close_active V e in
      let i = as_u32 (increment e1.block_index) in
      Silent-append V out1 (filled_block V start deltas e1).1 (Silent-close_active V e)
        (Silent-append V (send_deltas V i deltas) (content_block_stop i ∷ []) (h i) (refl, refl))

  Keeps-whole_block :
      (start : BlockStart V) (deltas : List Delta)
      → ((i : ℕ) → Silent V (send_deltas V i deltas))
      → Keeps (emitting F V (whole_block V start deltas))
  Keeps-whole_block start deltas h t =
      still F V t (emitting F V (whole_block V start deltas) t) refl refl
        (Silent-whole_block start deltas t.emitter h)

  Keeps-finish_if_latched : Keeps (finish_if_latched F V)
  Keeps-finish_if_latched = Collects-when F V latched (finish F V) (Collects-finish F V)

  Keeps-push_response : (content : Text) → Keeps (push_response F V content)
  unfolding push_response
  Keeps-push_response content t =
      let p = parse_tags t.tags content in
      let t' = record t { tags = p.tags } in
      let think : Push = when_ F V (λ _. not (is_empty p.think)) (say_thinking F V p.think) in
      let speak : Push = when_ F V (λ _. not (is_empty p.text)) (say_text F V p.text) in
      Collects-if F V t (is_empty content || latched t) (t, [])
        ((think >> speak >> finish_if_latched F V) t') (unchanged F V t)
        (then_ F V (think >> speak) (finish_if_latched F V)
          (then_ F V think speak
            (Collects-when F V (λ _. not (is_empty p.think)) (say_thinking F V p.think)
              (Collects-say_thinking F V p.think))
            (Collects-when F V (λ _. not (is_empty p.text)) (say_text F V p.text)
              (Collects-say_text F V p.text)))
          Keeps-finish_if_latched t')

  Keeps-push_redacted : (content : Text) → Keeps (push_redacted F V content)
  unfolding push_redacted
  Keeps-push_redacted content =
      let note : Push = modify F V (λ t. record t {
        acc = record t.acc { redacted = t.acc.redacted ++ content ∷ [] };
        limits = account_opaque content t.limits;
      }) in
      let started : Push = emitting F V (ensure_started V) in
      let block : Push = emitting F V (whole_block V (BlockStart.redacted_thinking content) []) in
      then_ F V (note >> started >> block) (finish_if_latched F V)
        (then_ F V (note >> started) block
          (then_ F V note started (λ t. unchanged F V t) (Collects-ensure_started F V))
          (Keeps-whole_block (BlockStart.redacted_thinking content) [] (λ i. nothing_said F V)))
        Keeps-finish_if_latched

  Keeps-send_signature : (o : Option Text) → Keeps (send_signature F V o)
  unfolding send_delta sent
  Keeps-send_signature none t = unchanged F V t
  Keeps-send_signature (some sig) t =
      let r = emitting F V (send_delta V (signature_delta sig)) t in
      Collects-if F V t (is_active Active.thinking t.emitter.active) r (t, [])
        (still F V t r refl refl (refl, refl)) (unchanged F V t)

  Keeps-push_thinking :
      (thought : Text) (signature : Option Text) → Keeps (push_thinking F V thought signature)
  unfolding push_thinking
  Keeps-push_thinking thought signature t =
      let test : ResponseTranslator → Bool = λ t. not (is_empty thought) && not (latched t) in
      let think : Push = when_ F V test (say_thinking F V thought) in
      Collects-if F V t t.tags.suppress_reasoning (t, [])
        ((think >> send_signature F V signature >> finish_if_latched F V) t) (unchanged F V t)
        (then_ F V (think >> send_signature F V signature) (finish_if_latched F V)
          (then_ F V think (send_signature F V signature)
            (Collects-when F V test (say_thinking F V thought) (Collects-say_thinking F V thought))
            (Keeps-send_signature signature))
          Keeps-finish_if_latched t)

  Keeps-set_signature : (o : Option Text) → Keeps (modify F V (set_signature F V o))
  Keeps-set_signature none t = unchanged F V t
  Keeps-set_signature (some sig) t =
      still F V t (modify F V (set_signature F V (some sig)) t) refl refl (nothing_said F V)

  Keeps-push_reasoning :
      (thought : Text) (signature redacted : Option Text)
      → Keeps (push_reasoning F V thought signature redacted)
  unfolding push_reasoning
  Keeps-push_reasoning thought signature (some content) =
      then_ F V (modify F V (set_signature F V signature)) (push_redacted F V content)
        (Keeps-set_signature signature) (Keeps-push_redacted content)
  Keeps-push_reasoning thought signature none =
      then_ F V (modify F V (set_signature F V signature)) (push_thinking F V thought signature)
        (Keeps-set_signature signature) (Keeps-push_thinking thought signature)

  input-Silent : (input : Text) (i : ℕ) → Silent V (send_deltas V i (input_json_delta input ∷ []))
  unfolding sent
  input-Silent input i = (refl, refl)

  Keeps-push_tool_use : (id name input : Text) → Keeps (push_tool_use F V id name input)
  unfolding push_tool_use
  Keeps-push_tool_use id name input t =
      let original = original_name t.opts.tool_names name in
      let start : BlockStart V = BlockStart.tool_use id original [] in
      let note : Push = modify F V (λ t. record t {
        limits = account_opaque input t.limits;
        acc = record t.acc {
          tool_calls = t.acc.tool_calls ++ record { id = id; name = original; input = input } ∷ [];
        };
      }) in
      let started : Push = emitting F V (ensure_started V) in
      let seen : Push = emitting F V (set_visible V) in
      let block : Push = emitting F V (whole_block V start (input_json_delta input ∷ [])) in
      Collects-if F V t (latched t) (t, [])
        ((note >> started >> seen >> block >> finish_if_latched F V) t) (unchanged F V t)
        (then_ F V (note >> started >> seen >> block) (finish_if_latched F V)
          (then_ F V (note >> started >> seen) block
            (then_ F V (note >> started) seen
              (then_ F V note started (λ t. unchanged F V t) (Collects-ensure_started F V))
              (λ t. unchanged F V t))
            (Keeps-whole_block start (input_json_delta input ∷ []) (input-Silent input)))
          Keeps-finish_if_latched t)

  Keeps-push_event : (ev : Event F) → Keeps (push_event F V ev)
  unfolding push_event
  Keeps-push_event (assistant_response content) t = Keeps-push_response content t
  Keeps-push_event (reasoning_content text signature redacted) t =
      Keeps-push_reasoning text signature redacted t
  Keeps-push_event (tool_use id name input) t = Keeps-push_tool_use id name input t
  Keeps-push_event (metadata uncached output total read write) t =
      still F V t (push_event F V (metadata uncached output total read write) t)
        (metadata_text uncached output read write t.acc).0
        (metadata_text uncached output read write t.acc).1 (nothing_said F V)
  Keeps-push_event (metering credits input output) t =
      still F V t (push_event F V (metering credits input output) t)
        (metering_text input output t.acc).0 (metering_text input output t.acc).1 (nothing_said F V)
  Keeps-push_event (invalid_state reason message) t = unchanged F V t
  Keeps-push_event (exception exception_type message) t = unchanged F V t
  Keeps-push_event (ignored _) t = unchanged F V t

  -- What an event adds to the text and the thinking that are collected is what is sent for it.
  pub Keeps-push : (ev : Event F) (t : ResponseTranslator) → Collects F V t (push F V ev t)
  unfolding push
  Keeps-push ev t =
      Collects-if F V t (t.finished || failed F V t) (t, []) (push_event F V ev t) (unchanged F V t)
        (Keeps-push_event ev t)

  Keeps-push_all : (evs : List (Event F)) → Keeps (push_all F V evs)
  unfolding push_all
  Keeps-push_all [] t = unchanged F V t
  Keeps-push_all (ev ∷ evs) t =
      then_ F V (push F V ev) (push_all F V evs) (Keeps-push ev) (Keeps-push_all evs) t

  -- Whatever events come, when the response is finished, the text and the thinking that the
  -- translator has collected for a response that is not streamed are the text deltas and the
  -- thinking deltas that it has sent, joined.
  pub folded_is_streamed :
      (opts : ResponseOptions) (evs : List (Event F))
      → let (t, out) = (push_all F V evs >> finish F V) (new opts) in
        (t.acc.text ≡ sent_text V out) × (t.acc.thinking ≡ sent_thinking V out)
  unfolding new
  folded_is_streamed opts evs =
      then_ F V (push_all F V evs) (finish F V) (Keeps-push_all evs) (Collects-finish F V)
        (new opts)
