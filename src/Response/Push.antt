-- ===== src/Response/Push.antt =====
-- The translator's handlers: `push` and `finish`
-- (crates/kiro-trust-protocol/src/translate/response.rs).
use kiro_trust.Prelude.{
  Bool, true, false, not, ◌&&◌, ◌||◌, Option, none, some, List, [], ◌∷◌, ◌++◌, if◌then◌else◌,
}
use kiro_trust.Text.{Text}
use kiro_trust.Text.Search.{is_empty}
use kiro_trust.Kiro.{
  Event, assistant_response, reasoning_content, tool_use, metadata, metering, invalid_state,
  exception, ignored,
}
use kiro_trust.Anthropic.{
  message_delta, message_stop, BlockStart, signature_delta, input_json_delta,
}
use kiro_trust.Response.Tags.{parse_tags}
use kiro_trust.Response.Limits.{is_latched, apply_max_tokens, account_opaque, limit_text}
use kiro_trust.Response.Emitter.{
  Emitter, Active, is_active, Writer, ◌>>◌, nothing, ensure_started, close_active, send_delta,
  set_visible, emit_text, emit_thinking, whole_block,
}
use kiro_trust.Response.State.{
  ResponseTranslator, FailureKind, original_name, stop_reason, usage, take_metadata, take_metering,
}

abbrev pub latched : ResponseTranslator → Bool
latched t = is_latched t.limits

-- The text that `take_thinking` lets through, and the translator after it.
unfoldable pub take_thinking : Text → ResponseTranslator → Text × ResponseTranslator
take_thinking thought t =
    let (out, l) = apply_max_tokens thought t.limits in
    (out, record t { limits = l; acc = record t.acc { thinking = t.acc.thinking ++ out } })

unfoldable pub take_text : Text → ResponseTranslator → Text × ResponseTranslator
take_text text_out t =
    let (out, l) = limit_text text_out t.limits in
    (out, record t { limits = l; acc = record t.acc { text = t.acc.text ++ out } })

-- The flush of the stop-sequence hold-back in `finish`.
unfoldable pub take_pending : Text → ResponseTranslator → Text × ResponseTranslator
take_pending pending t =
    let (out, l) = apply_max_tokens pending t.limits in
    (out, record t { limits = l; acc = record t.acc { text = t.acc.text ++ out } })

-- `F` is the type of floats, `V` that of JSON values.
module _ (F V : Type 0) where
  abbrev Push : Type 0
  Push = Writer ResponseTranslator V

  -- An operation of the emitter.
  abbrev pub emitting : Writer Emitter V → Push
  emitting m t = let (e, out) = m t.emitter in (record t { emitter = e }, out)

  abbrev pub modify : (ResponseTranslator → ResponseTranslator) → Push
  modify f t = (f t, [])

  abbrev pub when_ : (ResponseTranslator → Bool) → Push → Push
  when_ test m t = if test t then m t else (t, [])

  -- `let t = self.take_thinking(..); self.emit_thinking(t, &mut out)`, and so for text
  unfoldable pub say_thinking : Text → Push
  say_thinking thought t =
      let (out, t') = take_thinking thought t in emitting (emit_thinking V out) t'

  unfoldable pub say_text : Text → Push
  say_text text_out t = let (out, t') = take_text text_out t in emitting (emit_text V out) t'

  unfoldable pub say_pending : Text → Push
  say_pending pending t = let (out, t') = take_pending pending t in emitting (emit_text V out) t'

  unfoldable pub flush_tags : Push
  flush_tags t =
      let remaining = t.tags.tag_buf in
      let t' = record t { tags = record t.tags { tag_buf = [] } } in
      if is_empty remaining
      then (t', [])
      else if t.tags.tag_inside
      then say_thinking remaining t'
      else if not (latched t)
      then say_text remaining t'
      else (t', [])

  unfoldable pub flush_pending : Push
  flush_pending t =
      let pending = t.limits.stop_pending in
      let t' = record t { limits = record t.limits { stop_pending = [] } } in
      if not (is_empty pending) && not (latched t) then say_pending pending t' else (t', [])

  unfoldable pub end_message : Push
  end_message t =
      let (reason, seq) = stop_reason t in
      (
        t,
        message_delta (record { stop_reason = reason; stop_sequence = seq }) (usage t)
            ∷ message_stop
            ∷ [],
      )

  unfoldable pub finish : Push
  finish =
      when_ (λ t. not t.finished)
        (modify (λ t. record t { finished = true })
          >> emitting (ensure_started V)
          >> flush_tags
          >> flush_pending
          >> emitting (close_active V)
          >> end_message)

  -- `if self.local_stop.is_some() { out.extend(self.finish()) }`
  abbrev pub finish_if_latched : Push
  finish_if_latched = when_ latched finish

  unfoldable pub push_response : Text → Push
  push_response content t =
      if is_empty content || latched t
      then (t, [])
      else (let p = parse_tags t.tags content in
          (when_ (λ _. not (is_empty p.think)) (say_thinking p.think)
              >> when_ (λ _. not (is_empty p.text)) (say_text p.text)
              >> finish_if_latched)
            (record t { tags = p.tags }))

  unfoldable pub push_redacted : Text → Push
  push_redacted content =
      modify (λ t. record t {
        acc = record t.acc { redacted = t.acc.redacted ++ content ∷ [] };
        limits = account_opaque content t.limits;
      })
      >> emitting (ensure_started V)
      >> emitting (whole_block V (BlockStart.redacted_thinking content) [])
      >> finish_if_latched

  abbrev pub send_signature : Option Text → Push
  send_signature none t = (t, [])
  send_signature (some sig) t =
      if is_active Active.thinking t.emitter.active
      then emitting (send_delta V (signature_delta sig)) t
      else (t, [])

  unfoldable pub push_thinking : Text → Option Text → Push
  push_thinking thought signature t =
      if t.tags.suppress_reasoning
      then (t, [])
      else (when_ (λ t. not (is_empty thought) && not (latched t)) (say_thinking thought)
            >> send_signature signature
            >> finish_if_latched)
          t

  abbrev pub set_signature : Option Text → ResponseTranslator → ResponseTranslator
  set_signature none t = t
  set_signature (some sig) t = record t { acc = record t.acc { signature = some sig } }

  unfoldable pub push_reasoning : Text → Option Text → Option Text → Push
  push_reasoning thought signature (some content) =
      modify (set_signature signature) >> push_redacted content
  push_reasoning thought signature none =
      modify (set_signature signature) >> push_thinking thought signature

  unfoldable pub push_tool_use : Text → Text → Text → Push
  push_tool_use id name input t =
      if latched t
      then (t, [])
      else (let original = original_name t.opts.tool_names name in
          (modify (λ t. record t {
            limits = account_opaque input t.limits;
            acc = record t.acc {
              tool_calls =
                  t.acc.tool_calls ++ record { id = id; name = original; input = input } ∷ [];
            };
          })
              >> emitting (ensure_started V)
              >> emitting (set_visible V)
              >> emitting
                  (whole_block V (BlockStart.tool_use id original []) (input_json_delta input ∷ []))
              >> finish_if_latched)
            t)

  unfoldable pub push_event : Event F → Push
  push_event (assistant_response content) = push_response content
  push_event (reasoning_content text signature redacted) = push_reasoning text signature redacted
  push_event (tool_use id name input) = push_tool_use id name input
  push_event (metadata uncached output total read write) =
      modify (λ t. record t { acc = take_metadata uncached output read write t.acc })
  push_event (metering credits input output) =
      modify (λ t. record t { acc = take_metering input output t.acc })
  push_event (invalid_state reason message) = modify (λ t. record t {
    failure = some (record { kind = FailureKind.invalid_state reason; message = message });
  })
  push_event (exception exception_type message) = modify (λ t. record t {
    failure = some (record { kind = FailureKind.exception exception_type; message = message });
  })
  push_event (ignored _) = nothing

  abbrev pub failed : ResponseTranslator → Bool
  failed t = elim t.failure [ none ↦ false | some _ ↦ true ]

  unfoldable pub push : Event F → Push
  push ev t = if t.finished || failed t then (t, []) else push_event ev t

  -- The events sent for a list of upstream events.
  unfoldable pub push_all : List (Event F) → Push
  push_all [] = nothing
  push_all (ev ∷ evs) = push ev >> push_all evs
