-- ===== src/Response/Emitter.antt =====
-- The emission of streaming events, with the numbering and nesting of content blocks
-- (crates/kiro-trust-protocol/src/translate/response.rs).
use kiro_trust.Prelude.{
  ℕ, zero, suc, ◌+◌, ◌-◌, ◌%◌, ◌^◌, Bool, true, false, Option, none, some, List, [], ◌∷◌, ◌++◌,
  if◌then◌else◌,
}
use kiro_trust.Text.{Text, codes}
use kiro_trust.Text.Search.{is_empty}
use kiro_trust.Wire.{ℤ, pos, negsuc}
use kiro_trust.Anthropic.{
  StreamEvent, message_start, content_block_start, content_block_delta, content_block_stop,
  BlockStart, Delta, no_usage,
}

pub data Active : Type 0 where
  text thinking : Active

-- The fields of the translator that are about emission, and the options that they read.
pub record Emitter : Type 0 where
  pub message_id : Text
  pub model : Text
  pub started : Bool
  pub block_index : ℤ
  pub active : Option Active
  pub visible : Bool

abbrev pub same_active : Active → Active → Bool
same_active text text = true
same_active thinking thinking = true
same_active _ _ = false

abbrev pub is_active : Active → Option Active → Bool
is_active k none = false
is_active k (some j) = same_active j k

unfoldable pub increment : ℤ → ℤ
increment (pos n) = pos (n + 1)
increment (negsuc zero) = pos 0
increment (negsuc (suc n)) = negsuc n

-- `block_index as u32`
unfoldable pub as_u32 : ℤ → ℕ
as_u32 (pos n) = n % 2 ^ 32
as_u32 (negsuc n) = 2 ^ 32 - 1 - n % 2 ^ 32

abbrev pub Events : Type 0 → Type 0
Events V = List (StreamEvent V)

-- An operation on a state, and the events that it appends to `out`.
abbrev pub Writer : Type 0 → Type 0 → Type 0
Writer S V = S → S × Events V

infixl 5 ◌>>◌
abbrev pub ◌>>◌ : {S V : Type 0} → Writer S V → Writer S V → Writer S V
◌>>◌ m k s = let (s', out) = m s in let (s'', out') = k s' in (s'', out ++ out')

abbrev pub nothing : {S V : Type 0} → Writer S V
nothing s = (s, [])

module _ (V : Type 0) where
  abbrev Emit : Type 0
  Emit = Writer Emitter V

  unfoldable pub ensure_started : Emit
  ensure_started e = if e.started then (e, []) else (
    record e { started = true },
    message_start (record {
      id = e.message_id;
      kind = codes "message";
      role = codes "assistant";
      content = [];
      model = e.model;
      stop_reason = none;
      stop_sequence = none;
      usage = no_usage;
    })
        ∷ [],
  )

  unfoldable pub close_active : Emit
  unfolding as_u32
  close_active e = elim e.active [
    | none ↦ (e, [])
    | some _ ↦ (record e { active = none }, content_block_stop (as_u32 e.block_index) ∷ [])
  ]

  unfoldable pub block_start : Active → BlockStart V
  block_start text = BlockStart.text []
  block_start thinking = BlockStart.thinking [] none

  -- `self.block_index += 1; self.active = Some(kind)` and the start of the block
  unfoldable pub open_block : Active → Emit
  unfolding as_u32 increment block_start
  open_block kind e =
      let e' = record e { block_index = increment e.block_index; active = some kind } in
      (e', content_block_start (as_u32 e'.block_index) (block_start kind) ∷ [])

  unfoldable pub switch_block : Active → Emit
  switch_block kind e =
      if is_active kind e.active then (e, []) else (close_active >> open_block kind) e

  unfoldable pub send_delta : Delta → Emit
  unfolding as_u32
  send_delta delta e = (e, content_block_delta (as_u32 e.block_index) delta ∷ [])

  abbrev pub set_visible : Emit
  set_visible e = (record e { visible = true }, [])

  unfoldable pub emit_text : Text → Emit
  emit_text t e =
      if is_empty t
      then (e, [])
      else (ensure_started >> set_visible >> switch_block text >> send_delta (Delta.text_delta t)) e

  unfoldable pub emit_thinking : Text → Emit
  emit_thinking t e =
      if is_empty t
      then (e, [])
      else (ensure_started >> switch_block thinking >> send_delta (Delta.thinking_delta t)) e

  abbrev pub send_deltas : ℕ → List Delta → Events V
  send_deltas i [] = []
  send_deltas i (d ∷ ds) = content_block_delta i d ∷ send_deltas i ds

  -- `self.block_index += 1`, then the start of a block, its deltas and its stop.
  unfoldable pub filled_block : BlockStart V → List Delta → Emit
  unfolding as_u32 increment
  filled_block start deltas e =
      let e' = record e { block_index = increment e.block_index } in
      let i = as_u32 e'.block_index in
      (e', content_block_start i start ∷ (send_deltas i deltas ++ content_block_stop i ∷ []))

  -- A block that is emitted at once, as `push` does for redacted thinking and for tool calls.
  unfoldable pub whole_block : BlockStart V → List Delta → Emit
  whole_block start deltas = close_active >> filled_block start deltas
