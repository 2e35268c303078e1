-- ===== src/Response/Budget/Finish.antt =====
-- `finish` keeps a response within its budget.
use kiro_trust.Prelude.{ℕ, ◌≡◌, refl, Bool, true, false, not, ◌&&◌, List, [], if◌then◌else◌, arith}
use kiro_trust.Text.Search.{is_empty}
use kiro_trust.Anthropic.{StreamEvent}
use kiro_trust.Response.Limits.{effective_max_tokens}
use kiro_trust.Response.Emitter.{Writer, ◌>>◌, ensure_started, close_active}
use kiro_trust.Response.State.{ResponseTranslator}
use kiro_trust.Response.Push.{
  latched, emitting, modify, say_thinking, say_text, say_pending, flush_tags, flush_pending,
  end_message, finish, finish_if_latched,
}
use kiro_trust.Response.Budget.Within.{Within, Within-thinking, Within-pending, Within-text}

negated : (a : Bool) → not a ≡ true → a ≡ false
negated a h = ground arith

module _ (F V : Type 0) (requested : ℕ) where
  abbrev pub InBudget : ResponseTranslator → Type 0
  InBudget t = Within requested t.limits t.acc

  abbrev pub Keeps : Writer ResponseTranslator V → Type 0
  Keeps m = (t : ResponseTranslator) → InBudget t → InBudget (m t).0

  pub InBudget-if :
      (b : Bool) (r s : ResponseTranslator × List (StreamEvent V))
      → (b ≡ true → InBudget r.0)
      → (b ≡ false → InBudget s.0)
      → InBudget (if b then r else s).0
  InBudget-if true r s f g = f refl
  InBudget-if false r s f g = g refl

  InBudget-flush_tags : Keeps (flush_tags F V)
  unfolding flush_tags say_thinking say_text
  InBudget-flush_tags t w =
      let remaining = t.tags.tag_buf in
      let t' = record t { tags = record t.tags { tag_buf = [] } } in
      InBudget-if (is_empty remaining) _ _ (λ _. w)
        λ n.
          InBudget-if t.tags.tag_inside _ _ (λ _. Within-thinking remaining t' w)
            λ _.
              InBudget-if (not (latched t)) _ _
                (λ f. Within-text remaining t' (negated (latched t) f) n w) (λ _. w)

  unheld :
      (t : ResponseTranslator)
      → InBudget t
      → InBudget (record t { limits = record t.limits { stop_pending = [] } })
  unfolding effective_max_tokens
  unheld t w = record {
    counted = w.counted;
    bounded = w.bounded;
    requested_eq = w.requested_eq;
    unfiltered = w.unfiltered;
  }

  InBudget-flush_pending : Keeps (flush_pending F V)
  unfolding flush_pending say_pending
  InBudget-flush_pending t w =
      let pending = t.limits.stop_pending in
      let t' = record t { limits = record t.limits { stop_pending = [] } } in
      InBudget-if (not (is_empty pending) && not (latched t)) _ _
        (λ _. Within-pending pending t' (unheld t w)) (λ _. unheld t w)

  pub InBudget-finish : Keeps (finish F V)
  unfolding finish end_message
  InBudget-finish t w =
      let t1 = (emitting F V (ensure_started V) (record t { finished = true })).0 in
      let t2 = (flush_tags F V t1).0 in
      let m =
        modify F V (λ t. record t { finished = true })
        >> emitting F V (ensure_started V)
        >> flush_tags F V
        >> flush_pending F V
        >> emitting F V (close_active V)
        >> end_message F V in
      InBudget-if (not t.finished) (m t) (t, [])
        (λ _. InBudget-flush_pending t2 (InBudget-flush_tags t1 w)) (λ _. w)

  pub InBudget-finish_if_latched : Keeps (finish_if_latched F V)
  InBudget-finish_if_latched t w =
      InBudget-if (latched t) (finish F V t) (t, []) (λ _. InBudget-finish t w) (λ _. w)
