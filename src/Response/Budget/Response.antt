-- ===== src/Response/Budget/Response.antt =====
-- Every handler of the translator keeps a response within its budget.
use kiro_trust.Prelude.{
  ℕ, ◌*◌, ◌≤◌, ◌≡◌, refl, sym, ◌∙◌, Bool, true, false, not, ◌&&◌, ◌||◌, Option, none, some, List,
  [], ◌∷◌, ◌++◌, arith,
}
use kiro_trust.Text.{Text}
use kiro_trust.Text.Search.{is_empty}
use kiro_trust.Kiro.{
  Event, assistant_response, reasoning_content, tool_use, metadata, metering, invalid_state,
  exception, ignored,
}
use kiro_trust.Anthropic.{BlockStart, signature_delta, input_json_delta}
use kiro_trust.Response.Tags.{parse_tags}
use kiro_trust.Response.Limits.{effective_max_tokens, account_opaque, keep_nonempty, new_limits}
use kiro_trust.Response.Emitter.{
  Active, is_active, Writer, ◌>>◌, ensure_started, send_delta, set_visible, whole_block,
}
use kiro_trust.Response.State.{
  ResponseTranslator, ResponseOptions, Accumulated, new, original_name, take_metadata,
  take_metering,
}
use kiro_trust.Response.Push.{
  latched, emitting, when_, say_thinking, say_text, finish, finish_if_latched, failed,
  push_response, push_redacted, push_thinking, push_reasoning, push_tool_use, push_event, push,
  push_all, set_signature, send_signature,
}
use kiro_trust.Response.Budget.Within.{
  shown, Within-thinking, Within-text, Within-opaque, effective-eq,
}
use kiro_trust.Response.Budget.Finish.{
  InBudget, Keeps, InBudget-if, InBudget-finish, InBudget-finish_if_latched,
}

left_of : (a b : Bool) → (a || b) ≡ false → (a ≡ false) × (b ≡ false)
left_of a b h = ground arith

both_of : (a b : Bool) → (a && b) ≡ true → (a ≡ true) × (b ≡ true)
both_of a b h = ground arith

-- A chunk of content has no thinking or no text.
abbrev pub unsplit : ResponseTranslator → Text → Bool
unsplit t content =
    is_empty (parse_tags t.tags content).think || is_empty (parse_tags t.tags content).text

module _ (F V : Type 0) where
  -- An event that the tag parser does not split into thinking and text.
  abbrev pub unsplit_event : ResponseTranslator → Event F → Bool
  unsplit_event t (assistant_response content) = unsplit t content
  unsplit_event t _ = true

  -- No event of the list is split when its turn comes.
  abbrev pub unsplit_events : List (Event F) → ResponseTranslator → Bool
  unsplit_events [] t = true
  unsplit_events (ev ∷ evs) t = unsplit_event t ev && unsplit_events evs (push F V ev t).0

module _ (F V : Type 0) (requested : ℕ) where
  abbrev thinking_part : Text → Writer ResponseTranslator V
  thinking_part think = when_ F V (λ _. not (is_empty think)) (say_thinking F V think)

  abbrev text_part : Text → Writer ResponseTranslator V
  text_part text = when_ F V (λ _. not (is_empty text)) (say_text F V text)

  InBudget-parts :
      (think text : Text) (t : ResponseTranslator)
      → (is_empty think || is_empty text) ≡ true
      → latched t ≡ false
      → InBudget F V requested t
      → InBudget F V requested ((thinking_part think >> text_part text) t).0
  unfolding say_thinking say_text
  InBudget-parts [] [] t u f w = w
  InBudget-parts [] (c ∷ text) t u f w = Within-text (c ∷ text) t f refl w
  InBudget-parts (c ∷ think) [] t u f w = Within-thinking (c ∷ think) t w
  InBudget-parts (c ∷ think) (d ∷ text) t u f w = cc

  InBudget-push_response :
      (content : Text) (t : ResponseTranslator)
      → unsplit t content ≡ true
      → InBudget F V requested t
      → InBudget F V requested (push_response F V content t).0
  unfolding push_response
  InBudget-push_response content t u w =
      let p = parse_tags t.tags content in
      let t' = record t { tags = p.tags } in
      let m = thinking_part p.think >> text_part p.text in
      InBudget-if F V requested (is_empty content || latched t) (t, [])
        ((m >> finish_if_latched F V) t') (λ _. w)
        λ o.
          InBudget-finish_if_latched F V requested (m t').0
            (InBudget-parts p.think p.text t' u (left_of (is_empty content) (latched t) o).1 w)

  InBudget-push_redacted : (content : Text) → Keeps F V requested (push_redacted F V content)
  unfolding push_redacted
  InBudget-push_redacted content t w =
      let t0 = record t {
        acc = record t.acc { redacted = t.acc.redacted ++ content ∷ [] };
        limits = account_opaque content t.limits;
      } in
      let block = whole_block V (BlockStart.redacted_thinking content) [] in
      let t1 = (emitting F V (ensure_started V) t0).0 in
      let v = Within-opaque content t.limits t.acc w in
      InBudget-finish_if_latched F V requested (emitting F V block t1).0 (record {
        counted = v.counted;
        bounded = v.bounded;
        requested_eq = v.requested_eq;
        unfiltered = v.unfiltered;
      })

  InBudget-push_tool_use :
      (id name input : Text) → Keeps F V requested (push_tool_use F V id name input)
  unfolding push_tool_use
  InBudget-push_tool_use id name input t w =
      let original = original_name t.opts.tool_names name in
      let t0 = record t {
        limits = account_opaque input t.limits;
        acc = record t.acc {
          tool_calls = t.acc.tool_calls ++ record { id = id; name = original; input = input } ∷ [];
        };
      } in
      let v = Within-opaque input t.limits t.acc w in
      let block =
        whole_block V (BlockStart.tool_use id original []) (input_json_delta input ∷ []) in
      let m =
        emitting F V (ensure_started V) >> emitting F V (set_visible V) >> emitting F V block in
      InBudget-if F V requested (latched t) (t, []) ((m >> finish_if_latched F V) t0) (λ _. w)
        λ _. InBudget-finish_if_latched F V requested (m t0).0 (record {
          counted = v.counted;
          bounded = v.bounded;
          requested_eq = v.requested_eq;
          unfiltered = v.unfiltered;
        })

  InBudget-send_signature :
      (signature : Option Text) → Keeps F V requested (send_signature F V signature)
  InBudget-send_signature none t w = w
  InBudget-send_signature (some sig) t w =
      InBudget-if F V requested (is_active Active.thinking t.emitter.active)
        (emitting F V (send_delta V (signature_delta sig)) t) (t, []) (λ _. w) (λ _. w)

  InBudget-push_thinking :
      (thought : Text) (signature : Option Text)
      → Keeps F V requested (push_thinking F V thought signature)
  unfolding push_thinking say_thinking
  InBudget-push_thinking thought signature t w =
      let test = λ (t : ResponseTranslator). not (is_empty thought) && not (latched t) in
      let m = when_ F V test (say_thinking F V thought) in
      let k = send_signature F V signature in
      InBudget-if F V requested t.tags.suppress_reasoning (t, [])
        ((m >> k >> finish_if_latched F V) t) (λ _. w)
        λ _. InBudget-finish_if_latched F V requested (k (m t).0).0 (
          InBudget-send_signature signature (m t).0 (
            InBudget-if F V requested (test t) (say_thinking F V thought t) (t, [])
              (λ _. Within-thinking thought t w) (λ _. w)))

  InBudget-set_signature :
      (signature : Option Text) (t : ResponseTranslator)
      → InBudget F V requested t
      → InBudget F V requested (set_signature F V signature t)
  InBudget-set_signature none t w = w
  InBudget-set_signature (some sig) t w = record {
    counted = w.counted;
    bounded = w.bounded;
    requested_eq = w.requested_eq;
    unfiltered = w.unfiltered;
  }

  take_metadata-shown :
      (uncached output read write : ℕ) (a : Accumulated)
      → shown (take_metadata uncached output read write a) ≡ shown a
  unfolding take_metadata
  take_metadata-shown uncached output read write a = ground arith

  take_metering-shown :
      (input output : ℕ) (a : Accumulated) → shown (take_metering input output a) ≡ shown a
  unfolding take_metering
  take_metering-shown input output a = ground arith

  InBudget-acc :
      (t : ResponseTranslator) (a : Accumulated)
      → shown a ≡ shown t.acc
      → InBudget F V requested t
      → InBudget F V requested (record t { acc = a })
  InBudget-acc t a e w = record {
    counted = rw e w.counted;
    bounded = rw e w.bounded;
    requested_eq = w.requested_eq;
    unfiltered = w.unfiltered;
  }

  InBudget-push_event :
      (ev : Event F) (t : ResponseTranslator)
      → unsplit_event F V t ev ≡ true
      → InBudget F V requested t
      → InBudget F V requested (push_event F V ev t).0
  unfolding push_event push_reasoning
  InBudget-push_event (assistant_response content) t u w = InBudget-push_response content t u w
  InBudget-push_event (reasoning_content thought signature none) t u w =
      InBudget-push_thinking thought signature (set_signature F V signature t)
        (InBudget-set_signature signature t w)
  InBudget-push_event (reasoning_content thought signature (some content)) t u w =
      InBudget-push_redacted content (set_signature F V signature t)
        (InBudget-set_signature signature t w)
  InBudget-push_event (tool_use id name input) t u w = InBudget-push_tool_use id name input t w
  InBudget-push_event (metadata uncached output total read write) t u w =
      InBudget-acc t _ (take_metadata-shown uncached output read write t.acc) w
  InBudget-push_event (metering credits input output) t u w =
      InBudget-acc t _ (take_metering-shown input output t.acc) w
  InBudget-push_event (invalid_state reason message) t u w = w
  InBudget-push_event (exception exception_type message) t u w = w
  InBudget-push_event (ignored _) t u w = w

  pub InBudget-push :
      (ev : Event F) (t : ResponseTranslator)
      → unsplit_event F V t ev ≡ true
      → InBudget F V requested t
      → InBudget F V requested (push F V ev t).0
  unfolding push
  InBudget-push ev t u w =
      InBudget-if F V requested (t.finished || failed F V t) (t, []) (push_event F V ev t) (λ _. w)
        (λ _. InBudget-push_event ev t u w)

  InBudget-push_all :
      (evs : List (Event F)) (t : ResponseTranslator)
      → unsplit_events F V evs t ≡ true
      → InBudget F V requested t
      → InBudget F V requested (push_all F V evs t).0
  unfolding push_all
  InBudget-push_all [] t u w = w
  InBudget-push_all (ev ∷ evs) t u w =
      let (u1, u2) =
        both_of (unsplit_event F V t ev) (unsplit_events F V evs (push F V ev t).0) u in
      InBudget-push_all evs (push F V ev t).0 u2 (InBudget-push ev t u1 w)

module _ (F V : Type 0) where
  new_limits-max_tokens :
      (requested : ℕ) (sequences : List Text)
      → (new_limits requested sequences).max_tokens ≡ requested
  unfolding new_limits
  new_limits-max_tokens requested sequences = refl

  InBudget-new :
      (opts : ResponseOptions)
      → keep_nonempty opts.stop_sequences ≡ []
      → InBudget F V opts.max_tokens (new opts)
  unfolding new new_limits
  InBudget-new opts e = record {
    counted = omega arith;
    bounded = omega arith;
    requested_eq = refl;
    unfiltered = e;
  }

  -- Without stop sequences, and if no chunk of content has, when its turn comes, both thinking and
  -- text in it, in whichever order, the text and the thinking of the finished response have
  -- together at most four characters for each token of the budget.
  pub response_in_budget :
      (opts : ResponseOptions) (evs : List (Event F))
      → keep_nonempty opts.stop_sequences ≡ []
      → unsplit_events F V evs (new opts) ≡ true
      → shown ((push_all F V evs >> finish F V) (new opts)).0.acc
        ≤ effective_max_tokens (new_limits opts.max_tokens opts.stop_sequences) * 4
  response_in_budget opts evs e u =
      let w = InBudget-push_all F V opts.max_tokens evs (new opts) u (InBudget-new opts e) in
      let r = InBudget-finish F V opts.max_tokens (push_all F V evs (new opts)).0 w in
      let q =
        effective-eq (finish F V (push_all F V evs (new opts)).0).0.limits
          (new_limits opts.max_tokens opts.stop_sequences)
          (r.requested_eq ∙ sym (new_limits-max_tokens opts.max_tokens opts.stop_sequences)) in
      omega (arith, q, r.bounded)
