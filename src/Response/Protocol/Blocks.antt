-- ===== src/Response/Protocol/Blocks.antt =====
-- The emitter's operations follow the protocol.
use kiro_trust.Prelude.{
  ℕ, zero, ◌+◌, ◌%◌, ◌^◌, ◌≡◌, refl, sym, ap, Bool, true, false, Option, none, some, List, [], ◌∷◌,
  ◌++◌, append_assoc, ◌∙◌, ==_refl, if◌then◌else◌, arith, Bool-cases, inl, inr,
}
use kiro_trust.Text.{Text}
use kiro_trust.Text.Search.{is_empty}
use kiro_trust.Wire.{ℤ, pos, negsuc}
use kiro_trust.Anthropic.{StreamEvent, BlockStart, Delta}
use kiro_trust.Response.Emitter.{
  Emitter, Active, Writer, ◌>>◌, increment, ensure_started, close_active, open_block, switch_block,
  send_delta, set_visible, emit_text, emit_thinking, whole_block, filled_block, is_active, nothing,
  send_deltas,
}
use kiro_trust.Response.Protocol.{
  Phase, before, between, inside, BlockKind, text, thinking, accepts, accepts-append, kind_of, fits,
}

abbrev pub kind_of_active : Active → BlockKind
kind_of_active Active.text = text
kind_of_active Active.thinking = thinking

-- The number of the next block, and of the block at this index.
abbrev pub next_number : ℤ → ℕ
next_number (pos n) = n + 1
next_number (negsuc _) = 0

abbrev pub number_of : ℤ → ℕ
number_of (pos n) = n
number_of (negsuc _) = 0

abbrev open_phase : ℤ → Option Active → Phase
open_phase i none = between (next_number i)
open_phase i (some k) = inside (number_of i) (kind_of_active k)

-- Where an emitter stands in the protocol.
abbrev pub phase_of : Emitter → Phase
phase_of e = if e.started then open_phase e.block_index e.active else before

abbrev pub InRange : ℤ → Option Active → Type 0
InRange (pos n) a = Unit
InRange (negsuc zero) none = Unit
InRange _ _ = ⊥

abbrev pub Fresh : Bool → ℤ → Option Active → Type 0
Fresh true i a = Unit
Fresh false i a = (i ≡ negsuc 0) × (a ≡ none)

-- The index is at least -1, a block is open only at an index from 0 on, and nothing is emitted
-- before the start.
pub record IsValid (e : Emitter) : Type 0 where
  pub in_range : InRange e.block_index e.active
  pub fresh : Fresh e.started e.block_index e.active

-- `m` keeps the emitter valid, and its events lead from the emitter's phase to the new one's.
pub record Follows {V : Type 0} (m : Writer Emitter V) (e : Emitter) : Type 0 where
  pub valid : IsValid (m e).0
  pub accepted : accepts (phase_of e) (m e).1 ≡ some (phase_of (m e).0)

module _ (V : Type 0) where
  Follows->> :
      (m k : Writer Emitter V) (e : Emitter) → Follows m e → Follows k (m e).0 → Follows (m >> k) e
  Follows->> m k e f g = record {
    valid = g.valid;
    accepted = accepts-append (phase_of e) (m e).1 (k (m e).0).1 f.accepted g.accepted;
  }

  pub ensure_started-Follows : (e : Emitter) → IsValid e → Follows (ensure_started V) e
  unfolding ensure_started accepts
  ensure_started-Follows e v = ground arith

  pub started-ensure_started : (e : Emitter) → (ensure_started V e).0.started ≡ true
  unfolding ensure_started
  started-ensure_started e = ground arith

  pub close_active-Follows : (e : Emitter) → IsValid e → Follows (close_active V) e
  unfolding close_active accepts
  close_active-Follows e v = ground arith

  pub open_block-Follows :
      (kind : Active) (e : Emitter)
      → IsValid e
      → e.started ≡ true
      → e.active ≡ none
      → Follows (open_block V kind) e
  unfolding open_block accepts
  open_block-Follows kind e v s n = ground arith

  pub send_delta-Follows :
      (d : Delta) (e : Emitter) {k : Active}
      → IsValid e
      → e.started ≡ true
      → e.active ≡ some k
      → fits (kind_of_active k) d ≡ true
      → Follows (send_delta V d) e
  unfolding send_delta accepts
  send_delta-Follows d e v s n f = ground arith

  close_active-eq : (e : Emitter) → (close_active V e).0 ≡ record e { active = none }
  unfolding close_active
  close_active-eq e = ground arith

  -- Operations that do the same at `e`.
  Follows-eq : {m k : Writer Emitter V} {e : Emitter} → m e ≡ k e → Follows k e → Follows m e
  Follows-eq {e = e} q f = record { valid = rw q f.valid; accepted = rw q f.accepted }

  Follows-nothing : (e : Emitter) → IsValid e → Follows {V = V} nothing e
  unfolding accepts
  Follows-nothing e v = record { valid = v; accepted = refl }

  -- What the operations leave behind.
  started-close_active : (e : Emitter) → (close_active V e).0.started ≡ e.started
  unfolding close_active
  started-close_active e = ground arith

  pub active-close_active : (e : Emitter) → (close_active V e).0.active ≡ none
  unfolding close_active
  active-close_active e = ground arith

  pub switch_block-Follows :
      (kind : Active) (e : Emitter) → IsValid e → e.started ≡ true → Follows (switch_block V kind) e
  unfolding switch_block
  switch_block-Follows kind e v s = elim (Bool-cases (is_active kind e.active)) [
    | inl same ↦ Follows-eq {k = nothing} (rw same) (Follows-nothing e v)
    | inr other ↦
        let f = close_active-Follows e v in
        Follows-eq {k = close_active V >> open_block V kind} (rw other) (
          Follows->> (close_active V) (open_block V kind) e f (
            open_block-Follows kind (close_active V e).0 f.valid (started-close_active e ∙ s)
              (active-close_active e)))
  ]

  active-switch_block : (kind : Active) (e : Emitter) → (switch_block V kind e).0.active ≡ some kind
  unfolding switch_block open_block
  active-switch_block kind e = ground arith

  started-switch_block :
      (kind : Active) (e : Emitter) → (switch_block V kind e).0.started ≡ e.started
  unfolding switch_block open_block close_active
  started-switch_block kind e = ground arith

  pub set_visible-Follows : (e : Emitter) → IsValid e → Follows (set_visible V) e
  unfolding accepts
  set_visible-Follows e v = record {
    valid = record { in_range = v.in_range; fresh = v.fresh };
    accepted = refl;
  }

  -- A delta in a block of its kind, switched to first.
  switch-send-Follows :
      (kind : Active) (d : Delta) (e : Emitter)
      → IsValid e
      → e.started ≡ true
      → fits (kind_of_active kind) d ≡ true
      → Follows (switch_block V kind >> send_delta V d) e
  switch-send-Follows kind d e v s f =
      let g = switch_block-Follows kind e v s in
      Follows->> (switch_block V kind) (send_delta V d) e g (
        send_delta-Follows d (switch_block V kind e).0 g.valid (started-switch_block kind e ∙ s)
          (active-switch_block kind e) f)

  Follows->>_assoc :
      (m k l : Writer Emitter V) (e : Emitter) → Follows (m >> (k >> l)) e → Follows (m >> k >> l) e
  Follows->>_assoc m k l e f = Follows-eq {k = m >> (k >> l)} (rw append_assoc) f

  pub emit_thinking-Follows : (t : Text) (e : Emitter) → IsValid e → Follows (emit_thinking V t) e
  unfolding emit_thinking
  emit_thinking-Follows t e v = elim (Bool-cases (is_empty t)) [
    | inl nil ↦ Follows-eq {k = nothing} (rw nil) (Follows-nothing e v)
    | inr more ↦
        let f = ensure_started-Follows e v in
        Follows-eq
          {k = ensure_started V
            >> switch_block V Active.thinking
            >> send_delta V (Delta.thinking_delta t)}
          (rw more)
          (Follows->>_assoc (ensure_started V) (switch_block V Active.thinking)
            (send_delta V (Delta.thinking_delta t)) e
            (Follows->> (ensure_started V)
              (switch_block V Active.thinking >> send_delta V (Delta.thinking_delta t)) e f
              (switch-send-Follows Active.thinking (Delta.thinking_delta t) (ensure_started V e).0
                f.valid (started-ensure_started e) refl)))
  ]

  pub emit_text-Follows : (t : Text) (e : Emitter) → IsValid e → Follows (emit_text V t) e
  unfolding emit_text
  emit_text-Follows t e v = elim (Bool-cases (is_empty t)) [
    | inl nil ↦ Follows-eq {k = nothing} (rw nil) (Follows-nothing e v)
    | inr more ↦
        let f = ensure_started-Follows e v in
        let g =
          Follows->> (ensure_started V) (set_visible V) e f
            (set_visible-Follows (ensure_started V e).0 f.valid) in
        Follows-eq
          {k = (ensure_started V >> set_visible V)
            >> switch_block V Active.text
            >> send_delta V (Delta.text_delta t)}
          (rw more)
          (Follows->>_assoc (ensure_started V >> set_visible V) (switch_block V Active.text)
            (send_delta V (Delta.text_delta t)) e
            (Follows->> (ensure_started V >> set_visible V)
              (switch_block V Active.text >> send_delta V (Delta.text_delta t)) e g
              (switch-send-Follows Active.text (Delta.text_delta t)
                ((ensure_started V >> set_visible V) e).0 g.valid (started-ensure_started e) refl)))
  ]

  -- Every delta of a whole block is of its kind.
  abbrev pub AllFit : BlockKind → List Delta → Type 0
  AllFit k [] = Unit
  AllFit k (d ∷ ds) = (fits k d ≡ true) × AllFit k ds

  accepts-send_deltas :
      (n : ℕ) (k : BlockKind) (ds : List Delta)
      → AllFit k ds
      → accepts {V = V}
          (inside n k)
          (send_deltas V (n % 2 ^ 32) ds ++ StreamEvent.content_block_stop (n % 2 ^ 32) ∷ [])
        ≡ some (between (n + 1))
  unfolding accepts
  accepts-send_deltas n k [] f = rw (accepts, ==_refl (n % 2 ^ 32)) refl
  accepts-send_deltas n k (d ∷ ds) (g, f) =
      rw (accepts, ==_refl (n % 2 ^ 32), g) (accepts-send_deltas n k ds f)

  increment-next_number : (i : ℤ) → InRange i none → increment i ≡ pos (next_number i)
  unfolding increment
  increment-next_number i v = ground arith

  phase_of-between :
      (e : Emitter)
      → e.started ≡ true
      → e.active ≡ none
      → phase_of e ≡ between (next_number e.block_index)
  phase_of-between e s n = ground arith

  accepts-filled_block :
      (n : ℕ) (b : BlockStart V) (ds : List Delta)
      → AllFit (kind_of b) ds
      → accepts {V = V} (between n) (
          StreamEvent.content_block_start (n % 2 ^ 32) b
          ∷ (send_deltas V (n % 2 ^ 32) ds ++ StreamEvent.content_block_stop (n % 2 ^ 32) ∷ []))
        ≡ some (between (n + 1))
  unfolding accepts
  accepts-filled_block n b ds f =
      rw (accepts, ==_refl (n % 2 ^ 32)) (accepts-send_deltas n (kind_of b) ds f)

  filled_block-Follows :
      (b : BlockStart V) (ds : List Delta) (e : Emitter)
      → IsValid e
      → e.started ≡ true
      → e.active ≡ none
      → AllFit (kind_of b) ds
      → Follows (filled_block V b ds) e
  unfolding filled_block accepts
  filled_block-Follows b ds e v s n f = record {
    valid =
        rw (increment-next_number e.block_index (rw n at v.in_range))
          (record { in_range = tt; fresh = rw s tt });
    accepted =
        rw (increment-next_number e.block_index (rw n at v.in_range), phase_of-between e s n)
          (accepts-filled_block (next_number e.block_index) b ds f
            ∙ ap some (
                sym (
                  phase_of-between (record e { block_index = pos (next_number e.block_index) }) s
                    n)));
  }

  pub whole_block-Follows :
      (b : BlockStart V) (ds : List Delta) (e : Emitter)
      → IsValid e
      → e.started ≡ true
      → AllFit (kind_of b) ds
      → Follows (whole_block V b ds) e
  unfolding whole_block
  whole_block-Follows b ds e v s f =
      let g = close_active-Follows e v in
      Follows->> (close_active V) (filled_block V b ds) e g (
        filled_block-Follows b ds (close_active V e).0 g.valid (started-close_active e ∙ s)
          (active-close_active e) f)
