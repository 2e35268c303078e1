-- ===== src/Eventstream/Events/Fragments.antt =====
-- A tool call that arrives in fragments is handed out whole, and once.
use kiro_trust.Prelude.{
  ◌+◌, ◌≤◌, ◌≡◌, refl, sym, ap, ◌∙◌, Bool, true, false, ◌||◌, Option, none, some, List, [], ◌∷◌,
  ◌++◌, append_assoc, append-nil, ltb, le→ltb, if_true, if_false, Result, ok, err, arith,
}
use kiro_trust.Text.{Text, codes, text_eq}
use kiro_trust.Text.Utf8.{len}
use kiro_trust.Text.Search.{is_empty}
use kiro_trust.Json.{SerdeJson}
use kiro_trust.Eventstream.Events.{
  max_tool_input_bytes, EventError, ToolUseAccumulator, no_tool, Ev, tool_event, text_field,
  str_field, unwrap_or, set_name, is_new, begin_tool, add_input, settle_tool, stops, tool_fragment,
}
use kiro_trust.Text.Utf8.RoundTrip.{len-append}

module _ (json : SerdeJson) where
  open json use {Value, get, as_str, is_null}

  -- What a payload adds to the input: its string, or nothing if it has no input or a null one.
  pub data Brings (s : Text) (v : Value) : Type 0 where
    string_input : (x : Value) → get (codes "input") v ≡ some x → as_str x ≡ some s → Brings s v
    no_input : get (codes "input") v ≡ none → s ≡ [] → Brings s v
    null_input :
        (x : Value)
        → get (codes "input") v ≡ some x
        → as_str x ≡ none
        → is_null x ≡ true
        → s ≡ []
        → Brings s v

  -- A payload that goes on with call `id` of this name: its id and its name are those or missing,
  -- and it adds `s` to the input.
  pub record Continues (id name s : Text) (v : Value) : Type 0 where
    pub same :
        (is_empty (text_field json v (codes "toolUseId"))
          || text_eq (text_field json v (codes "toolUseId")) id)
        ≡ true
    pub same_name : unwrap_or name (str_field json v (codes "name")) ≡ name
    pub brings : Brings s v

  -- The strings of the fragments and their payloads, with the UUIDs at hand when they come.
  abbrev pub Fragments : Type 0
  Fragments = List (Text × Text × Value)

  abbrev pub AllContinue : Text → Text → Fragments → Type 0
  AllContinue id name [] = Unit
  AllContinue id name ((fresh, s, v) ∷ fs) =
      (Continues id name s v × (stops json v ≡ false)) × AllContinue id name fs

  abbrev pub joined : Fragments → Text
  joined [] = []
  joined ((fresh, s, v) ∷ fs) = s ++ joined fs

  abbrev Outcome : Type 0
  Outcome = Result (List (Ev json)) EventError × ToolUseAccumulator

  abbrev prepend : List (Ev json) → Outcome → Outcome
  prepend a (err e, t) = (err e, t)
  prepend a (ok b, t) = (ok (a ++ b), t)

  -- The events of one call before those of the rest; an error ends the stream.
  abbrev pub then_ : Outcome → (ToolUseAccumulator → Outcome) → Outcome
  then_ (err e, t) f = (err e, t)
  then_ (ok a, t) f = prepend a (f t)

  -- `tool_use` for payload after payload.
  unfoldable pub feed : Fragments → ToolUseAccumulator → Outcome
  feed [] t = (ok [], t)
  feed ((fresh, s, v) ∷ fs) t = then_ (tool_fragment json fresh v t) (feed fs)

  not-is_new :
      (id name s : Text) (v : Value) (t : ToolUseAccumulator)
      → Continues id name s v
      → t.id ≡ id
      → is_empty id ≡ false
      → is_new json v t ≡ false
  unfolding is_new
  not-is_new id name s v t c e n = ground (arith, c.same)

  set_name-same :
      (o : Option Text) (t : ToolUseAccumulator)
      → unwrap_or t.name o ≡ t.name
      → set_name json o t ≡ t
  set_name-same none t e = refl
  set_name-same (some name) t e = ap (λ (x : Text). record t { name = x }) e

  brings_nothing :
      (s : Text) (t : ToolUseAccumulator)
      → s ≡ []
      → some t ≡ some (record t { input = t.input ++ s })
  brings_nothing s t e =
      ap (λ (x : Text). some (record t { input = x }))
        (sym (append-nil t.input) ∙ ap (λ x. t.input ++ x) (sym e))

  add_input-Brings :
      (s : Text) (v : Value) (t : ToolUseAccumulator)
      → Brings s v
      → len t.input + len s ≤ max_tool_input_bytes
      → add_input json (get (codes "input") v) t ≡ some (record t { input = t.input ++ s })
  unfolding add_input
  add_input-Brings s v t (string_input x i e) l = rw i (
      rw (e, add_input)
        (if_false (ltb max_tool_input_bytes (len t.input + len s)) none _ (le→ltb _ _ l)))
  add_input-Brings s v t (no_input i e) l = rw i (brings_nothing s t e)
  add_input-Brings s v t (null_input x i a n e) l =
      rw i (rw (a, add_input) (if_true (is_null x) _ _ n ∙ brings_nothing s t e))

  fragment-Continues :
      (fresh s : Text) (v : Value) (t : ToolUseAccumulator)
      → Continues t.id t.name s v
      → is_empty t.id ≡ false
      → len t.input + len s ≤ max_tool_input_bytes
      → tool_fragment json fresh v t
        ≡ settle_tool json [] (stops json v) t.id (some (record t { input = t.input ++ s }))
  unfolding tool_fragment begin_tool
  fragment-Continues fresh s v t c n l = rw (not-is_new t.id t.name s v t c refl n) (
      rw (set_name-same (str_field json v (codes "name")) t c.same_name)
        (rw (add_input-Brings s v t c.brings l) refl))

  settle_tool-goes_on :
      (id : Text) (u : ToolUseAccumulator) (b : Bool)
      → b ≡ false
      → settle_tool json [] b id (some u) ≡ (ok [], u)
  unfolding settle_tool
  settle_tool-goes_on id u b e = if_false b _ _ e

  settle_tool-stops :
      (id : Text) (u : ToolUseAccumulator) (b : Bool)
      → b ≡ true
      → settle_tool json [] b id (some u) ≡ (ok (tool_event json u ∷ []), no_tool)
  unfolding settle_tool
  settle_tool-stops id u b e = if_true b _ _ e

  fed :
      (fs : Fragments) (t : ToolUseAccumulator)
      → is_empty t.id ≡ false
      → AllContinue t.id t.name fs
      → len t.input + len (joined fs) ≤ max_tool_input_bytes
      → feed fs t ≡ (ok [], record t { input = t.input ++ joined fs })
  unfolding feed
  fed [] t n a l = ap (λ (x : Text). (ok [], record t { input = x })) (sym (append-nil t.input))
  fed ((fresh, s, v) ∷ fs) t n ((c, g), a) l =
      let u = record t { input = t.input ++ s } in
      let size = len-append s (joined fs) in
      let e =
        fragment-Continues fresh s v t c n (omega (arith, l, size))
        ∙ settle_tool-goes_on t.id u (stops json v) g in
      let r = fed fs u n a (omega (arith, l, size, len-append t.input s)) in
      ap (λ (x : Outcome). then_ x (feed fs)) e
      ∙ ap (prepend []) r
      ∙ ap (λ (x : Text). (ok [], record t { input = x })) (append_assoc t.input s (joined fs))

  -- A call is in flight, and each of a sequence of payloads goes on with it: the payload's id and
  -- name are those of the call or missing, its input is a string, null or missing, and it does not
  -- say stop. A last payload goes on with it and says stop. If the strings are within the limit
  -- together with the input so far, nothing is handed out before the last payload, which hands out
  -- the call, once, with all the strings appended to its input, and leaves no call in flight.
  pub fragments_joined :
      (fs : Fragments) (fresh s : Text) (v : Value) (t : ToolUseAccumulator)
      → is_empty t.id ≡ false
      → AllContinue t.id t.name fs
      → Continues t.id t.name s v
      → stops json v ≡ true
      → len t.input + len (joined fs) + len s ≤ max_tool_input_bytes
      → then_ (feed fs t) (tool_fragment json fresh v)
        ≡ (ok (tool_event json (record t { input = (t.input ++ joined fs) ++ s }) ∷ []), no_tool)
  fragments_joined fs fresh s v t n a c stop l =
      let u = record t { input = t.input ++ joined fs } in
      let size = len-append t.input (joined fs) in
      let e =
        fragment-Continues fresh s v u c n (omega (arith, l, size))
        ∙ settle_tool-stops t.id (record u { input = u.input ++ s }) (stops json v) stop in
      ap (λ (x : Outcome). then_ x (tool_fragment json fresh v)) (fed fs t n a (omega (arith, l)))
      ∙ ap (prepend []) e
