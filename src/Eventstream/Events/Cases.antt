-- ===== src/Eventstream/Events/Cases.antt =====
-- What `parse` can do with a frame.
use kiro_trust.Prelude.{if_both, Option, none, some, List, [], ◌∷◌, Result, ok, err}
use kiro_trust.Text.{Text, Bytes, codes, text_eq}
use kiro_trust.Json.{SerdeJson}
use kiro_trust.Kiro.{tool_use, ignored}
use kiro_trust.Eventstream.Frame.{Frame, message_type, event_type}
use kiro_trust.Eventstream.Events.{
  EventError, bad_json, is_strict, is_lenient, ToolUseAccumulator, Ev, typed, on_json,
  exception_event, is_text, tool_fragment, plain_event, parse_event, parse,
}

module _ (json : SerdeJson) where
  open json use {Value, from_slice}

  abbrev pub IsPlain : Ev json → Type 0
  IsPlain (tool_use id name input) = ⊥
  IsPlain _ = Unit

  IsPlain-plain_event : (kind : Text) (v : Value) → IsPlain (plain_event json kind v)
  unfolding plain_event
  IsPlain-plain_event kind v =
      if_both IsPlain (text_eq kind (codes "assistantResponseEvent")) _ _ (λ _. tt)
        λ _.
          if_both IsPlain (text_eq kind (codes "reasoningContentEvent")) _ _ (λ _. tt)
            λ _.
              if_both IsPlain (text_eq kind (codes "metadataEvent")) _ _ (λ _. tt)
                λ _. if_both IsPlain (text_eq kind (codes "meteringEvent")) _ _ (λ _. tt) (λ _. tt)

  abbrev pub Outcome : Type 0
  Outcome = Result (List (Ev json)) EventError × ToolUseAccumulator

  -- What holds of each result that `parse` can have.
  pub record Covers (P : Outcome → Type 0) (t : ToolUseAccumulator) : Type 0 where
    pub nothing : P (ok [], t)
    pub plain : (e : Ev json) → IsPlain e → P (ok (e ∷ []), t)
    pub bad : (kind : Text) → P (err (bad_json kind), t)
    pub tool : (fresh : Text) (v : Value) → P (tool_fragment json fresh v t)

  module _ (P : Outcome → Type 0) (t : ToolUseAccumulator) (c : Covers P t) where
    on_json-Covers :
        (d : Outcome) (f : Value → Outcome) (o : Option Value)
        → P d
        → ((v : Value) → P (f v))
        → P (on_json json d f o)
    on_json-Covers d f none h k = h
    on_json-Covers d f (some v) h k = k v

    parse_event-Covers :
        (fresh kind : Text) (payload : Bytes) → P (parse_event json fresh kind payload t)
    unfolding parse_event
    parse_event-Covers fresh kind payload =
        let plain = λ (v : Value). c.plain (plain_event json kind v) (IsPlain-plain_event kind v) in
        if_both P (text_eq kind (codes "toolUseEvent")) _ _
          (λ _. on_json-Covers (ok [], t) _ (from_slice payload) c.nothing (c.tool fresh))
          λ _.
            if_both P (is_strict kind) _ _
              (λ _.
                on_json-Covers (err (bad_json kind), t) _ (from_slice payload) (c.bad kind) plain)
              λ _.
                if_both P (is_lenient kind) _ (ok (ignored kind ∷ []), t)
                  (λ _. on_json-Covers (ok [], t) _ (from_slice payload) c.nothing plain)
                  (λ _. c.plain (ignored kind) tt)

    typed-Covers :
        (fresh : Text) (kind : Option Text) (payload : Bytes) → P (typed json fresh kind payload t)
    typed-Covers fresh none payload = c.nothing
    typed-Covers fresh (some kind) payload = parse_event-Covers fresh kind payload

    pub parse-Covers : (fresh : Text) (frame : Frame) → P (parse json fresh frame t)
    unfolding parse
    parse-Covers fresh frame =
        if_both P (is_text (message_type frame) (codes "exception"))
          (ok (exception_event json frame ∷ []), t) _ (λ _. c.plain (exception_event json frame) tt)
          (λ _. typed-Covers fresh (event_type frame) frame.payload)
