-- ===== src/Eventstream/Events/Sizes.antt =====
-- The inputs of tool calls stay within their limit.
use kiro_trust.Prelude.{
  if_both, ◌≤◌, ◌≡◌, refl, Bool, Option, Option-cases, none, some, List, [], ◌∷◌, ◌++◌, Result, ok,
  err, arith, inl, inr,
}
use kiro_trust.Text.{Text, codes}
use kiro_trust.Text.Utf8.{len, as_bytes}
use kiro_trust.Text.Utf8.RoundTrip.{len-append}
use kiro_trust.Text.Search.{is_empty}
use kiro_trust.Json.{SerdeJson}
use kiro_trust.Kiro.{
  assistant_response, reasoning_content, tool_use, metadata, metering, invalid_state, exception,
  ignored,
}
use kiro_trust.Eventstream.Frame.{Frame}
use kiro_trust.Eventstream.Events.Cases.{IsPlain, parse-Covers}
use kiro_trust.Eventstream.Events.{
  tool_input_too_large, max_tool_input_bytes, EventError, bad_json, ToolUseAccumulator, Ev,
  tool_event, begin_tool, add_input, settle_tool, stops, no_tool, flush, is_new, set_name,
  str_field, tool_fragment, parse,
}

abbrev pub Fits : ToolUseAccumulator → Type 0
Fits t = len t.input ≤ max_tool_input_bytes

module _ (json : SerdeJson) where
  open json use {Value, get, as_str, is_null, to_string, from_slice}

  abbrev pub FitsEvent : Ev json → Type 0
  FitsEvent (tool_use id name input) = len input ≤ max_tool_input_bytes
  FitsEvent _ = Unit

  abbrev pub FitsEvents : List (Ev json) → Type 0
  FitsEvents [] = Unit
  FitsEvents (e ∷ es) = FitsEvent e × FitsEvents es

  -- The events that are handed out, and the call in flight, are within the limit.
  abbrev pub FitsStep : Result (List (Ev json)) EventError × ToolUseAccumulator → Type 0
  FitsStep (ok evs, t) = FitsEvents evs × Fits t
  FitsStep (err e, t) = Fits t

  FitsEvents-append : (a b : List (Ev json)) → FitsEvents a → FitsEvents b → FitsEvents (a ++ b)
  FitsEvents-append [] b h k = k
  FitsEvents-append (e ∷ a) b h k = (h.0, FitsEvents-append a b h.1 k)

  add_input-Fits :
      (x : Option Value) (t u : ToolUseAccumulator) → add_input json x t ≡ some u → Fits t → Fits u
  unfolding add_input
  add_input-Fits none t u e f = ground arith
  add_input-Fits (some x) t u e f = elim (Option-cases (as_str x)) [
    | inl none_ ↦ ground arith
    | inr (s, q) ↦ ground (arith, len-append t.input s)
  ]

  Fits-no_tool : len [] ≤ max_tool_input_bytes
  unfolding as_bytes
  Fits-no_tool = omega arith

  FitsStep-settle_tool :
      (out : List (Ev json)) (stop : Bool) (id : Text) (o : Option ToolUseAccumulator)
      → FitsEvents out
      → ((u : ToolUseAccumulator) → o ≡ some u → Fits u)
      → FitsStep (settle_tool json out stop id o)
  unfolding settle_tool
  FitsStep-settle_tool out stop id none h f = Fits-no_tool
  FitsStep-settle_tool out stop id (some u) h f =
      if_both FitsStep stop (ok (out ++ tool_event json u ∷ []), no_tool) (ok out, u)
        (λ _. (FitsEvents-append out (tool_event json u ∷ []) h (f u refl, tt), Fits-no_tool))
        (λ _. (h, f u refl))

  FitsEvents-flush : (t : ToolUseAccumulator) → Fits t → FitsEvents (flush json t)
  FitsEvents-flush t f =
      if_both FitsEvents (is_empty t.id) [] (tool_event json t ∷ []) (λ _. tt) (λ _. (f, tt))

  Fits-begin_tool :
      (fresh : Text) (v : Value) (t : ToolUseAccumulator)
      → Fits t
      → FitsEvents (begin_tool json fresh v t).0 × Fits (begin_tool json fresh v t).1
  unfolding begin_tool
  Fits-begin_tool fresh v t f =
      if_both (λ (r : List (Ev json) × ToolUseAccumulator). FitsEvents r.0 × Fits r.1)
        (is_new json v t) _ ([], t) (λ _. (FitsEvents-flush t f, Fits-no_tool)) (λ _. (tt, f))

  Fits-set_name : (o : Option Text) (t : ToolUseAccumulator) → Fits t → Fits (set_name json o t)
  Fits-set_name none t f = f
  Fits-set_name (some name) t f = f

  FitsStep-tool_fragment :
      (fresh : Text) (v : Value) (t : ToolUseAccumulator)
      → Fits t
      → FitsStep (tool_fragment json fresh v t)
  unfolding tool_fragment
  FitsStep-tool_fragment fresh v t f =
      let (h, k) = Fits-begin_tool fresh v t f in
      let t' = (begin_tool json fresh v t).1 in
      let u = set_name json (str_field json v (codes "name")) t' in
      FitsStep-settle_tool (begin_tool json fresh v t).0 (stops json v) u.id
        (add_input json (get (codes "input") v) u) h
        (λ w e. add_input-Fits (get (codes "input") v) u w e (Fits-set_name _ t' k))

  FitsEvent-IsPlain : (e : Ev json) → IsPlain json e → FitsEvent e
  FitsEvent-IsPlain (tool_use id name input) h = absurd h
  FitsEvent-IsPlain (assistant_response content) h = tt
  FitsEvent-IsPlain (reasoning_content text signature redacted) h = tt
  FitsEvent-IsPlain (metadata a b c d e) h = tt
  FitsEvent-IsPlain (metering a b c) h = tt
  FitsEvent-IsPlain (invalid_state a b) h = tt
  FitsEvent-IsPlain (exception a b) h = tt
  FitsEvent-IsPlain (ignored a) h = tt

  -- If the input of the call in flight is within 16 MiB, so are, after any frame, the input of the
  -- call in flight and those of the tool calls that are handed out.
  pub parse-Fits :
      (fresh : Text) (frame : Frame) (t : ToolUseAccumulator)
      → Fits t
      → FitsStep (parse json fresh frame t)
  parse-Fits fresh frame t f =
      parse-Covers json FitsStep t
        (record {
          nothing = (tt, f);
          plain = λ e h. ((FitsEvent-IsPlain e h, tt), f);
          bad = λ kind. f;
          tool = λ fresh v. FitsStep-tool_fragment fresh v t f;
        })
        fresh frame

  abbrev pub RejectsClean :
      ToolUseAccumulator → Result (List (Ev json)) EventError × ToolUseAccumulator → Type 0
  RejectsClean t (ok evs, u) = Unit
  RejectsClean t (err (bad_json kind), u) = u ≡ t
  RejectsClean t (err (tool_input_too_large id max), u) =
      (u ≡ no_tool) × (max ≡ max_tool_input_bytes)

  RejectsClean-settle_tool :
      (out : List (Ev json)) (stop : Bool) (id : Text) (o : Option ToolUseAccumulator)
      (t : ToolUseAccumulator)
      → RejectsClean t (settle_tool json out stop id o)
  unfolding settle_tool
  RejectsClean-settle_tool out stop id none t = (refl, refl)
  RejectsClean-settle_tool out stop id (some u) t =
      if_both (RejectsClean t) stop (ok (out ++ tool_event json u ∷ []), no_tool) (ok out, u)
        (λ _. tt) (λ _. tt)

  RejectsClean-tool_fragment :
      (fresh : Text) (v : Value) (t : ToolUseAccumulator)
      → RejectsClean t (tool_fragment json fresh v t)
  unfolding tool_fragment
  RejectsClean-tool_fragment fresh v t = RejectsClean-settle_tool _ (stops json v) _ _ t

  -- A frame that is refused leaves no half of a tool call behind: a payload that is not JSON
  -- leaves the call in flight as it was, and an input over the limit, which is 16 MiB, drops it.
  pub parse-RejectsClean :
      (fresh : Text) (frame : Frame) (t : ToolUseAccumulator)
      → RejectsClean t (parse json fresh frame t)
  parse-RejectsClean fresh frame t =
      parse-Covers json (RejectsClean t) t
        (record {
          nothing = tt;
          plain = λ e h. tt;
          bad = λ kind. refl;
          tool = λ fresh v. RejectsClean-tool_fragment fresh v t;
        })
        fresh frame
