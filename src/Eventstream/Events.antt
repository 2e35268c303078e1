-- ===== src/Eventstream/Events.antt =====
-- The parser of events and its accumulator of tool calls
-- (crates/kiro-trust-protocol/src/eventstream.rs).
pub mod Cases
pub mod Sizes
pub mod Fragments
mod Tests
use kiro_trust.Prelude.{
  ℕ, ◌+◌, ◌*◌, Bool, true, false, not, ◌&&◌, ◌||◌, Option, none, some, List, [], ◌∷◌, ◌++◌, ltb,
  if◌then◌else◌, Result, ok, err,
}
use kiro_trust.Text.{Text, Bytes, codes, text_eq}
use kiro_trust.Text.Utf8.{len}
use kiro_trust.Text.Search.{is_empty}
use kiro_trust.Json.{SerdeJson}
use kiro_trust.Kiro.{
  Event, assistant_response, reasoning_content, tool_use, metadata, metering, invalid_state,
  exception, ignored,
}
use kiro_trust.Eventstream.Frame.{Frame, message_type, event_type, exception_type}

abbrev pub max_tool_input_bytes : ℕ
max_tool_input_bytes = 16 * 1024 * 1024

pub data EventError : Type 0 where
  bad_json : (event_type : Text) → EventError
  tool_input_too_large : (tool_use_id : Text) (max : ℕ) → EventError

pub record ToolUseAccumulator : Type 0 where
  pub id : Text
  pub name : Text
  pub input : Text

abbrev pub no_tool : ToolUseAccumulator
no_tool = record { id = []; name = []; input = [] }

-- `unwrap_or`
abbrev pub unwrap_or : {A : Type 0} → A → Option A → A
unwrap_or d none = d
unwrap_or d (some a) = a

abbrev pub is_some : {A : Type 0} → Option A → Bool
is_some none = false
is_some (some a) = true

abbrev pub is_true : Option Bool → Bool
is_true (some true) = true
is_true _ = false

abbrev nonempty : Option Text → Option Text
nonempty none = none
nonempty (some s) = if is_empty s then none else some s

abbrev pub is_text : Option Text → Text → Bool
is_text none t = false
is_text (some s) t = text_eq s t

-- The events whose payload must be JSON, and those that are left out when it is not.
abbrev pub is_strict : Text → Bool
is_strict kind =
    text_eq kind (codes "assistantResponseEvent")
    || text_eq kind (codes "reasoningContentEvent")
    || text_eq kind (codes "invalidStateEvent")

abbrev pub is_lenient : Text → Bool
is_lenient kind = text_eq kind (codes "metadataEvent") || text_eq kind (codes "meteringEvent")

module _ (json : SerdeJson) where
  open json use {
    Value, F64, zero_f64, null, from_slice, to_string, get, as_str, as_u64, as_f64, as_bool,
    is_null,
  }

  abbrev pub Ev : Type 0
  Ev = Event F64

  -- `ToolUseAccumulator::take`, the event; what is left is `no_tool`.
  abbrev pub tool_event : ToolUseAccumulator → Ev
  tool_event t = tool_use t.id t.name t.input

  unfoldable pub u64_field : Value → Text → ℕ
  u64_field v key = elim (get key v) [ none ↦ 0 | some x ↦ unwrap_or 0 (as_u64 x) ]

  unfoldable pub str_field : Value → Text → Option Text
  str_field v key = elim (get key v) [ none ↦ none | some x ↦ nonempty (as_str x) ]

  abbrev pub text_field : Value → Text → Text
  text_field v key = unwrap_or [] (str_field v key)

  -- A tool call is begun by a new id, or by a name when there is no id at all.
  unfoldable pub is_new : Value → ToolUseAccumulator → Bool
  is_new v t =
      let given = text_field v (codes "toolUseId") in
      if not (is_empty given) && not (text_eq given t.id)
      then true
      else is_empty given && is_empty t.id && is_some (get (codes "name") v)

  abbrev pub flush : ToolUseAccumulator → List Ev
  flush t = if is_empty t.id then [] else tool_event t ∷ []

  -- The call in flight is handed out when a new one begins.
  unfoldable pub begin_tool : Text → Value → ToolUseAccumulator → List Ev × ToolUseAccumulator
  unfolding is_new
  begin_tool fresh v t =
      let given = text_field v (codes "toolUseId") in
      if is_new v t
      then (flush t, record { id = if is_empty given then fresh else given; name = []; input = [] })
      else ([], t)

  abbrev pub set_name : Option Text → ToolUseAccumulator → ToolUseAccumulator
  set_name none t = t
  set_name (some name) t = record t { name = name }

  -- The fragment of the input, or `none` when it is over the limit.
  unfoldable pub add_input : Option Value → ToolUseAccumulator → Option ToolUseAccumulator
  add_input none t = some t
  add_input (some x) t = elim (as_str x) [
    | some s ↦
        if ltb max_tool_input_bytes (len t.input + len s)
        then none
        else some (record t { input = t.input ++ s })
    | none ↦
        if is_null x
        then some t
        else if ltb max_tool_input_bytes (len (to_string x))
        then none
        else some (record t { input = to_string x })
  ]

  -- The end of `tool_use`, by the value of "stop": `out` is the vector so far.
  unfoldable pub settle_tool :
      List Ev
      → Bool
      → Text
      → Option ToolUseAccumulator
      → Result (List Ev) EventError × ToolUseAccumulator
  settle_tool out stop id none = (err (tool_input_too_large id max_tool_input_bytes), no_tool)
  settle_tool out stop id (some u) =
      if stop then (ok (out ++ tool_event u ∷ []), no_tool) else (ok out, u)

  abbrev pub stops : Value → Bool
  stops v = is_true (elim (get (codes "stop") v) [ none ↦ none | some x ↦ as_bool x ])

  abbrev pub end_tool :
      List Ev → Value → ToolUseAccumulator → Result (List Ev) EventError × ToolUseAccumulator
  end_tool out v t = settle_tool out (stops v) t.id (add_input (get (codes "input") v) t)

  -- `fresh` is the UUID of this call.
  unfoldable pub tool_fragment :
      Text → Value → ToolUseAccumulator → Result (List Ev) EventError × ToolUseAccumulator
  unfolding begin_tool settle_tool add_input
  tool_fragment fresh v t =
      let (out, t') = begin_tool fresh v t in
      end_tool out v (set_name (str_field v (codes "name")) t')

  -- The events that are not about tools, from a payload that is JSON.
  unfoldable pub plain_event : Text → Value → Ev
  unfolding u64_field
  plain_event kind v =
      if text_eq kind (codes "assistantResponseEvent")
      then assistant_response (text_field v (codes "content"))
      else if text_eq kind (codes "reasoningContentEvent")
      then reasoning_content (text_field v (codes "text")) (str_field v (codes "signature"))
          (str_field v (codes "redactedContent"))
      else if text_eq kind (codes "metadataEvent")
      then (let tu = unwrap_or null (get (codes "tokenUsage") v) in
          metadata (u64_field tu (codes "uncachedInputTokens"))
            (u64_field tu (codes "outputTokens")) (u64_field tu (codes "totalTokens"))
            (u64_field tu (codes "cacheReadInputTokens"))
            (u64_field tu (codes "cacheWriteInputTokens")))
      else if text_eq kind (codes "meteringEvent")
      then metering
          (elim (get (codes "usage") v) [
            | none ↦ zero_f64
            | some x ↦ unwrap_or zero_f64 (as_f64 x)
          ])
          (u64_field v (codes "inputTokens")) (u64_field v (codes "outputTokens"))
      else invalid_state (text_field v (codes "reason")) (text_field v (codes "message"))

  -- What is done with the payload, by whether it is JSON.
  abbrev pub on_json : {R : Type 0} → R → (Value → R) → Option Value → R
  on_json d f none = d
  on_json d f (some v) = f v

  -- The match on the event type.
  unfoldable pub parse_event :
      Text → Text → Bytes → ToolUseAccumulator → Result (List Ev) EventError × ToolUseAccumulator
  unfolding tool_fragment plain_event
  parse_event fresh kind payload t =
      if text_eq kind (codes "toolUseEvent")
      then on_json (ok [], t) (λ v. tool_fragment fresh v t) (from_slice payload)
      else if is_strict kind
      then on_json (err (bad_json kind), t) (λ v. (ok (plain_event kind v ∷ []), t))
          (from_slice payload)
      else if is_lenient kind
      then on_json (ok [], t) (λ v. (ok (plain_event kind v ∷ []), t)) (from_slice payload)
      else (ok (ignored kind ∷ []), t)

  abbrev pub exception_event : Frame → Ev
  exception_event frame =
      exception (unwrap_or [] (exception_type frame))
        (text_field (unwrap_or null (from_slice frame.payload)) (codes "message"))

  abbrev pub typed :
      Text
      → Option Text
      → Bytes
      → ToolUseAccumulator
      → Result (List Ev) EventError × ToolUseAccumulator
  typed fresh none payload t = (ok [], t)
  typed fresh (some kind) payload t = parse_event fresh kind payload t

  -- `EventParser::parse`
  unfoldable pub parse :
      Text → Frame → ToolUseAccumulator → Result (List Ev) EventError × ToolUseAccumulator
  unfolding parse_event str_field
  parse fresh frame t =
      if is_text (message_type frame) (codes "exception")
      then (ok (exception_event frame ∷ []), t)
      else typed fresh (event_type frame) frame.payload t

  -- `EventParser::finish`
  unfoldable pub finish : ToolUseAccumulator → Option Ev × ToolUseAccumulator
  finish t = if is_empty t.id then (none, t) else (some (tool_event t), no_tool)
