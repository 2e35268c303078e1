-- ===== src/Response/Protocol/Upstream.antt =====
-- Every upstream event, and every sequence of them, is translated along the protocol.
use kiro_trust.Prelude.{
  ◌≡◌, refl, sym, ap, subst, ◌∙◌, Bool, true, false, not, ◌&&◌, ◌||◌, Option, none, some, List, [],
  ◌∷◌, ◌++◌, if◌then◌else◌, arith, Bool-cases, inl, inr,
}
use kiro_trust.Text.{Text}
use kiro_trust.Text.Search.{is_empty}
use kiro_trust.Kiro.{Event, assistant_response, reasoning_content, tool_use, ignored}
use kiro_trust.Anthropic.{BlockStart, signature_delta, input_json_delta}
use kiro_trust.Response.Tags.{parse_tags}
use kiro_trust.Response.Limits.{account_opaque}
use kiro_trust.Response.Emitter.{
  Emitter, Active, is_active, Events, Writer, ◌>>◌, ensure_started, send_delta, set_visible,
  whole_block,
}
use kiro_trust.Response.State.{ResponseTranslator, ResponseOptions, new, original_name}
use kiro_trust.Response.Push.{
  latched, emitting, modify, when_, say_thinking, say_text, finish, finish_if_latched,
  push_response, push_redacted, push_thinking, push_reasoning, push_tool_use, push_event, push,
  push_all, failed, set_signature, send_signature,
}
use kiro_trust.Response.Protocol.{before, ended, accepts, accepts-append}
use kiro_trust.Response.Protocol.Blocks.{
  IsValid, phase_of, ensure_started-Follows, started-ensure_started, whole_block-Follows,
  send_delta-Follows, set_visible-Follows,
}
use kiro_trust.Response.Protocol.Stream.{
  phase, Good, Emits, Good-if, Emits->>, Emits-emitting, Emits-modify, Emits-nothing, Emits-when,
  Emits-say_thinking, Emits-say_text, Ends-finish,
}

is_active-eq : (a : Option Active) → is_active Active.thinking a ≡ true → a ≡ some Active.thinking
is_active-eq a e = ground arith

left_false : (a b : Bool) → (a || b) ≡ false → a ≡ false
left_false a b h = ground arith

started_of_active : (e : Emitter) → IsValid e → e.active ≡ some Active.thinking → e.started ≡ true
started_of_active e v a = ground arith

phase-unfinished : (t : ResponseTranslator) → t.finished ≡ false → phase t ≡ phase_of t.emitter
phase-unfinished t f = ap (λ b. if b then ended else phase_of t.emitter) f

phase-finished : (t : ResponseTranslator) → t.finished ≡ true → phase t ≡ ended
phase-finished t f = ap (λ b. if b then ended else phase_of t.emitter) f

if_negated : {A : Type 0} (b : Bool) (x y : A) → b ≡ true → (if not b then x else y) ≡ y
if_negated true x y e = refl
if_negated false x y e = cc

module _ (F V : Type 0) where
  -- From `t` to `r`, the events are what the phase of `t` allows, and lead to that of `r`.
  pub record Steps (t : ResponseTranslator) (r : ResponseTranslator × Events V) : Type 0 where
    pub valid : IsValid r.0.emitter
    pub accepted : accepts (phase t) r.1 ≡ some (phase r.0)

  pub Steps-nothing : (t : ResponseTranslator) → IsValid t.emitter → Steps t (t, [])
  unfolding accepts
  Steps-nothing t v = record { valid = v; accepted = refl }

  Steps-Good :
      {t : ResponseTranslator} {r : ResponseTranslator × Events V}
      → t.finished ≡ false
      → Good F V t r
      → Steps t r
  Steps-Good {t} {r} f g = record {
    valid = g.valid;
    accepted = rw (phase-unfinished t f, phase-unfinished r.0 (g.same ∙ f)) g.accepted;
  }

  Steps-after :
      (m k : Writer ResponseTranslator V) (t : ResponseTranslator)
      → t.finished ≡ false
      → Emits F V m t
      → Steps (m t).0 (k (m t).0)
      → Steps t ((m >> k) t)
  Steps-after m k t f g h =
      let s = Steps-Good f g in
      record {
        valid = h.valid;
        accepted = accepts-append (phase t) (m t).1 (k (m t).0).1 s.accepted h.accepted;
      }

  Steps-if :
      {t : ResponseTranslator} (b : Bool) {r s : ResponseTranslator × Events V}
      → (b ≡ true → Steps t r)
      → (b ≡ false → Steps t s)
      → Steps t (if b then r else s)
  Steps-if true f g = f refl
  Steps-if false f g = g refl

  Steps-finish :
      (t : ResponseTranslator) → IsValid t.emitter → t.finished ≡ false → Steps t (finish F V t)
  Steps-finish t v f =
      let g = Ends-finish F V t v f in
      record {
        valid = g.valid;
        accepted = rw (phase-unfinished t f, phase-finished (finish F V t).0 g.finished) g.accepted;
      }

  Steps-finish_if_latched :
      (t : ResponseTranslator)
      → IsValid t.emitter
      → t.finished ≡ false
      → Steps t (finish_if_latched F V t)
  Steps-finish_if_latched t v f =
      Steps-if (latched t) (λ _. Steps-finish t v f) (λ _. Steps-nothing t v)

  -- An operation that only emits, and then finishes if a local stop has been latched.
  Steps-latched :
      (m : Writer ResponseTranslator V) (t : ResponseTranslator)
      → t.finished ≡ false
      → Emits F V m t
      → Steps t ((m >> finish_if_latched F V) t)
  Steps-latched m t f g =
      Steps-after m (finish_if_latched F V) t f g
        (Steps-finish_if_latched (m t).0 g.valid (g.same ∙ f))

  Steps-push_response :
      (content : Text) (t : ResponseTranslator)
      → IsValid t.emitter
      → t.finished ≡ false
      → Steps t (push_response F V content t)
  unfolding push_response
  Steps-push_response content t v f =
      let p = parse_tags t.tags content in
      let t' = record t { tags = p.tags } in
      let think =
        Emits-when F V (λ _. not (is_empty p.think)) (say_thinking F V p.think) t' v
          (λ _. Emits-say_thinking F V p.think t' v) in
      let m = when_ F V (λ _. not (is_empty p.think)) (say_thinking F V p.think) in
      let t2 = (m t').0 in
      let k = when_ F V (λ _. not (is_empty p.text)) (say_text F V p.text) in
      let text =
        Emits-when F V (λ _. not (is_empty p.text)) (say_text F V p.text) t2 think.valid
          (λ _. Emits-say_text F V p.text t2 think.valid) in
      Steps-if (is_empty content || latched t) (λ _. Steps-nothing t v)
        λ _.
          let s = Steps-latched (m >> k) t' f (Emits->> F V m k t' think text) in
          record { valid = s.valid; accepted = s.accepted }

  Steps-push_redacted :
      (content : Text) (t : ResponseTranslator)
      → IsValid t.emitter
      → t.finished ≡ false
      → Steps t (push_redacted F V content t)
  unfolding push_redacted
  Steps-push_redacted content t v f =
      let t0 = record t {
        acc = record t.acc { redacted = t.acc.redacted ++ content ∷ [] };
        limits = account_opaque content t.limits;
      } in
      let start = Emits-emitting F V (ensure_started V) t0 (ensure_started-Follows V t.emitter v) in
      let t1 = (emitting F V (ensure_started V) t0).0 in
      let block = whole_block V (BlockStart.redacted_thinking content) [] in
      let whole = Emits-emitting F V block t1 (
        whole_block-Follows V (BlockStart.redacted_thinking content) [] t1.emitter start.valid
          (started-ensure_started V t.emitter) tt) in
      let s =
        Steps-latched (emitting F V (ensure_started V) >> emitting F V block) t0 f
          (Emits->> F V (emitting F V (ensure_started V)) (emitting F V block) t0 start whole) in
      record { valid = s.valid; accepted = s.accepted }

  Emits-send_signature :
      (signature : Option Text) (t : ResponseTranslator)
      → IsValid t.emitter
      → Emits F V (send_signature F V signature) t
  Emits-send_signature none t v = Emits-nothing F V t v
  Emits-send_signature (some sig) t v =
      Good-if F V (is_active Active.thinking t.emitter.active)
        (λ e. Emits-emitting F V (send_delta V (signature_delta sig)) t (
          send_delta-Follows V (signature_delta sig) t.emitter {k = Active.thinking} v
            (started_of_active t.emitter v (is_active-eq t.emitter.active e))
            (is_active-eq t.emitter.active e) refl))
        (λ _. Emits-nothing F V t v)

  Steps-push_thinking :
      (thought : Text) (signature : Option Text) (t : ResponseTranslator)
      → IsValid t.emitter
      → t.finished ≡ false
      → Steps t (push_thinking F V thought signature t)
  unfolding push_thinking
  Steps-push_thinking thought signature t v f =
      let test = λ (t : ResponseTranslator). not (is_empty thought) && not (latched t) in
      let m = when_ F V test (say_thinking F V thought) in
      let say =
        Emits-when F V test (say_thinking F V thought) t v
          (λ _. Emits-say_thinking F V thought t v) in
      Steps-if t.tags.suppress_reasoning (λ _. Steps-nothing t v)
        λ _. Steps-latched (m >> send_signature F V signature) t f (
          Emits->> F V m (send_signature F V signature) t say
            (Emits-send_signature signature (m t).0 say.valid))

  Steps-push_tool_use :
      (id name input : Text) (t : ResponseTranslator)
      → IsValid t.emitter
      → t.finished ≡ false
      → Steps t (push_tool_use F V id name input t)
  unfolding push_tool_use
  Steps-push_tool_use id name input t v f =
      let original = original_name t.opts.tool_names name in
      let t0 = record t {
        limits = account_opaque input t.limits;
        acc = record t.acc {
          tool_calls = t.acc.tool_calls ++ record { id = id; name = original; input = input } ∷ [];
        };
      } in
      let start = Emits-emitting F V (ensure_started V) t0 (ensure_started-Follows V t.emitter v) in
      let t1 = (emitting F V (ensure_started V) t0).0 in
      let shown =
        Emits-emitting F V (set_visible V) t1 (set_visible-Follows V t1.emitter start.valid) in
      let t2 = (emitting F V (set_visible V) t1).0 in
      let start_block = BlockStart.tool_use id original [] in
      let block = whole_block V start_block (input_json_delta input ∷ []) in
      let whole = Emits-emitting F V block t2 (
        whole_block-Follows V start_block (input_json_delta input ∷ []) t2.emitter shown.valid
          (started-ensure_started V t.emitter) (refl, tt)) in
      let m = emitting F V (ensure_started V) >> emitting F V (set_visible V) in
      Steps-if (latched t) (λ _. Steps-nothing t v)
        λ _.
          let s = Steps-latched (m >> emitting F V block) t0 f (
            Emits->> F V m (emitting F V block) t0
              (Emits->> F V (emitting F V (ensure_started V)) (emitting F V (set_visible V)) t0
                start shown)
              whole) in
          record { valid = s.valid; accepted = s.accepted }

  Steps-set_signature :
      (signature : Option Text) (m : Writer ResponseTranslator V) (t : ResponseTranslator)
      → ((t : ResponseTranslator) → IsValid t.emitter → t.finished ≡ false → Steps t (m t))
      → IsValid t.emitter
      → t.finished ≡ false
      → Steps t ((modify F V (set_signature F V signature) >> m) t)
  Steps-set_signature none m t h v f = h t v f
  Steps-set_signature (some sig) m t h v f =
      let s = h (record t { acc = record t.acc { signature = some sig } }) v f in
      record { valid = s.valid; accepted = s.accepted }

  Steps-push_event :
      (ev : Event F) (t : ResponseTranslator)
      → IsValid t.emitter
      → t.finished ≡ false
      → Steps t (push_event F V ev t)
  unfolding push_event push_reasoning
  Steps-push_event (assistant_response content) t v f = Steps-push_response content t v f
  Steps-push_event (reasoning_content thought signature none) t v f =
      Steps-set_signature signature (push_thinking F V thought signature) t
        (Steps-push_thinking thought signature) v f
  Steps-push_event (reasoning_content thought signature (some content)) t v f =
      Steps-set_signature signature (push_redacted F V content) t (Steps-push_redacted content) v f
  Steps-push_event (tool_use id name input) t v f = Steps-push_tool_use id name input t v f
  Steps-push_event (ignored _) t v f = Steps-nothing t v
  Steps-push_event ev t v f =
      Steps-Good f (Emits-modify F V (λ t. (push_event F V ev t).0) t v refl refl)

  -- Any one upstream event keeps the translator on the protocol.
  pub Steps-push :
      (ev : Event F) (t : ResponseTranslator) → IsValid t.emitter → Steps t (push F V ev t)
  unfolding push
  Steps-push ev t v =
      Steps-if (t.finished || failed F V t) (λ _. Steps-nothing t v)
        (λ e. Steps-push_event ev t v (left_false t.finished (failed F V t) e))

  pub Steps-push_all :
      (evs : List (Event F)) (t : ResponseTranslator)
      → IsValid t.emitter
      → Steps t (push_all F V evs t)
  unfolding push_all
  Steps-push_all [] t v = Steps-nothing t v
  Steps-push_all (ev ∷ evs) t v =
      let s = Steps-push ev t v in
      let r = Steps-push_all evs (push F V ev t).0 s.valid in
      record {
        valid = r.valid;
        accepted =
            accepts-append (phase t) (push F V ev t).1 (push_all F V evs (push F V ev t).0).1
              s.accepted r.accepted;
      }

  pub finish_done : (t : ResponseTranslator) → t.finished ≡ true → finish F V t ≡ (t, [])
  unfolding finish
  finish_done t done = if_negated t.finished _ _ done

  -- Also a message that is finished: its end adds nothing.
  pub Steps-end : (t : ResponseTranslator) → IsValid t.emitter → Steps t (finish F V t)
  Steps-end t v = elim (Bool-cases t.finished) [
    | inl done ↦ subst (Steps t) (sym (finish_done t done)) (Steps-nothing t v)
    | inr open_ ↦ Steps-finish t v open_
  ]

  pub phase-finish : (t : ResponseTranslator) → IsValid t.emitter → phase (finish F V t).0 ≡ ended
  phase-finish t v = elim (Bool-cases t.finished) [
    | inl done ↦ rw (finish_done t done) (phase-finished t done)
    | inr open_ ↦ phase-finished (finish F V t).0 (Ends-finish F V t v open_).finished
  ]

  pub finish-accepted :
      (t : ResponseTranslator) → IsValid t.emitter → accepts (phase t) (finish F V t).1 ≡ some ended
  finish-accepted t v = elim (Bool-cases t.finished) [
    | inl done ↦ rw (finish_done t done, phase-finished t done) (unfold accepts in refl)
    | inr open_ ↦ rw (phase-unfinished t open_) (Ends-finish F V t v open_).accepted
  ]

  pub IsValid-new : (opts : ResponseOptions) → IsValid (new opts).emitter
  unfolding new
  IsValid-new opts = record { in_range = tt; fresh = (refl, refl) }

  -- Whatever events the upstream sends, and wherever it stops, the events that the translator has
  -- sent so far are a well-formed beginning of a message.
  pub push_all_accepted :
      (opts : ResponseOptions) (evs : List (Event F))
      → accepts before (push_all F V evs (new opts)).1
        ≡ some (phase (push_all F V evs (new opts)).0)
  unfolding new
  push_all_accepted opts evs = (Steps-push_all evs (new opts) (IsValid-new opts)).accepted

  -- Whatever events the upstream sends, the events of `push` for each of them, with those of
  -- `finish` behind them, are one complete well-formed message.
  pub message_complete :
      (opts : ResponseOptions) (evs : List (Event F))
      → accepts before ((push_all F V evs >> finish F V) (new opts)).1 ≡ some ended
  message_complete opts evs =
      let s = Steps-push_all evs (new opts) (IsValid-new opts) in
      accepts-append before (push_all F V evs (new opts)).1 _ (push_all_accepted opts evs)
        (finish-accepted (push_all F V evs (new opts)).0 s.valid)
