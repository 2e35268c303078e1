-- ===== src/Response/Budget/Within.antt =====
-- The budget over a whole response: every handler keeps what it let through within the budget.
use kiro_trust.Prelude.{ℕ, ◌+◌, ◌*◌, ◌≤◌, ◌≡◌, ◌∙◌, false, [], ◌++◌, length, arith, length-append}
use kiro_trust.Text.{Text}
use kiro_trust.Text.Search.{is_empty}
use kiro_trust.Response.Limits.{
  Limits, effective_max_tokens, apply_max_tokens, account_opaque, limit_text, latch, is_latched,
}
use kiro_trust.Response.State.{ResponseTranslator, Accumulated}
use kiro_trust.Response.Push.{latched, take_thinking, take_text, take_pending}
use kiro_trust.Response.Budget.{
  apply_max_tokens-output_chars, apply_max_tokens-within, apply_max_tokens-max_tokens,
  apply_max_tokens-filter,
}

-- The characters of text and of thinking that the response has.
abbrev pub shown : Accumulated → ℕ
shown a = length a.text + length a.thinking

-- The response has no stop sequence, and is within the budget that `requested` gives.
pub record Within (requested : ℕ) (l : Limits) (a : Accumulated) : Type 0 where
  pub counted : shown a ≤ l.output_chars
  pub bounded : shown a ≤ effective_max_tokens l * 4
  pub requested_eq : l.max_tokens ≡ requested
  pub unfiltered : l.stop_sequences ≡ []

pub effective-eq :
    (l m : Limits) → l.max_tokens ≡ m.max_tokens → effective_max_tokens l ≡ effective_max_tokens m
unfolding effective_max_tokens
effective-eq l m e = cc

abbrev add_text : Text → Accumulated → Accumulated
add_text out a = record a { text = a.text ++ out }

abbrev add_thinking : Text → Accumulated → Accumulated
add_thinking out a = record a { thinking = a.thinking ++ out }

limit_text-unfiltered :
    (out : Text) (l : Limits)
    → l.stop_sequences ≡ []
    → is_latched l ≡ false
    → is_empty out ≡ false
    → limit_text out l ≡ apply_max_tokens out l
unfolding limit_text
limit_text-unfiltered out l u f n = ground arith

account_opaque-facts :
    (content : Text) (l : Limits)
    → (l.output_chars ≤ (account_opaque content l).output_chars)
      × ((account_opaque content l).max_tokens ≡ l.max_tokens)
      × ((account_opaque content l).stop_sequences ≡ l.stop_sequences)
unfolding account_opaque latch
account_opaque-facts content l = ground arith

module _ {requested : ℕ} where
  Within-apply :
      (delta : Text) (l : Limits) (a b : Accumulated)
      → shown b ≡ shown a + length (apply_max_tokens delta l).0
      → Within requested l a
      → Within requested (apply_max_tokens delta l).1 b
  Within-apply delta l a b e w =
      let q = apply_max_tokens-max_tokens delta l in
      let f = effective-eq (apply_max_tokens delta l).1 l q in
      record {
        counted = omega (arith, e, w.counted, apply_max_tokens-output_chars delta l);
        bounded =
            omega (arith, e, f, apply_max_tokens-within delta l (shown a) w.counted w.bounded);
        requested_eq = q ∙ w.requested_eq;
        unfiltered = apply_max_tokens-filter delta l ∙ w.unfiltered;
      }

  pub Within-thinking :
      (out : Text) (t : ResponseTranslator)
      → Within requested t.limits t.acc
      → Within requested (take_thinking out t).1.limits (take_thinking out t).1.acc
  unfolding take_thinking
  Within-thinking out t w =
      let sent = (apply_max_tokens out t.limits).0 in
      Within-apply out t.limits t.acc (add_thinking sent t.acc)
        (omega (arith, length-append t.acc.thinking sent)) w

  pub Within-pending :
      (out : Text) (t : ResponseTranslator)
      → Within requested t.limits t.acc
      → Within requested (take_pending out t).1.limits (take_pending out t).1.acc
  unfolding take_pending
  Within-pending out t w =
      let sent = (apply_max_tokens out t.limits).0 in
      Within-apply out t.limits t.acc (add_text sent t.acc)
        (omega (arith, length-append t.acc.text sent)) w

  pub Within-text :
      (out : Text) (t : ResponseTranslator)
      → latched t ≡ false
      → is_empty out ≡ false
      → Within requested t.limits t.acc
      → Within requested (take_text out t).1.limits (take_text out t).1.acc
  unfolding take_text
  Within-text out t f n w =
      let sent = (apply_max_tokens out t.limits).0 in
      rw (limit_text-unfiltered out t.limits w.unfiltered f n) (
        Within-apply out t.limits t.acc (add_text sent t.acc)
          (omega (arith, length-append t.acc.text sent)) w)

  pub Within-opaque :
      (content : Text) (l : Limits) (a : Accumulated)
      → Within requested l a
      → Within requested (account_opaque content l) a
  Within-opaque content l a w =
      let (grows, same, filter) = account_opaque-facts content l in
      let f = effective-eq (account_opaque content l) l same in
      record {
        counted = omega (arith, grows, w.counted);
        bounded = omega (arith, f, w.bounded);
        requested_eq = same ∙ w.requested_eq;
        unfiltered = filter ∙ w.unfiltered;
      }
