-- ===== src/Response/Protocol.antt =====
-- The streaming protocol as a client reads it, independently of the translator: one
-- `message_start`; content blocks numbered from 0, each started, filled with deltas of its own kind
-- and stopped before the next; one `message_delta`; one `message_stop`; nothing behind it.
pub mod Blocks
pub mod Upstream
pub mod After
pub mod Stream
use kiro_trust.Prelude.{
  ℕ, zero, suc, ◌+◌, ◌%◌, ◌^◌, ◌≡◌, refl, Bool, true, false, ◌&&◌, Option, Option-cases, inl, inr,
  arith, none, some, List, [], ◌∷◌, ◌++◌, ◌==◌, if◌then◌else◌,
}
use kiro_trust.Anthropic.{
  StreamEvent, message_start, content_block_start, content_block_delta, content_block_stop,
  message_delta, message_stop, error, BlockStart, Delta,
}
use kiro_trust.Response.Emitter.{Events}

pub data BlockKind : Type 0 where
  text thinking redacted tool : BlockKind

-- The next block has number `n`; or block `n` of this kind is open.
pub data Phase : Type 0 where
  before : Phase
  between : (n : ℕ) → Phase
  inside : (n : ℕ) (kind : BlockKind) → Phase
  closing : Phase
  ended : Phase

abbrev pub kind_of : {V : Type 0} → BlockStart V → BlockKind
kind_of (BlockStart.text _) = text
kind_of (BlockStart.thinking _ _) = thinking
kind_of (BlockStart.redacted_thinking _) = redacted
kind_of (BlockStart.tool_use _ _ _) = tool

abbrev pub fits : BlockKind → Delta → Bool
fits text (Delta.text_delta _) = true
fits thinking (Delta.thinking_delta _) = true
fits thinking (Delta.signature_delta _) = true
fits tool (Delta.input_json_delta _) = true
fits _ _ = false

-- Numbers are `u32` on the wire.
abbrev pub is_number : ℕ → ℕ → Bool
is_number n i = i == n % 2 ^ 32

abbrev pub accept_start : {V : Type 0} → ℕ → ℕ → BlockStart V → Option Phase
accept_start n i b = if is_number n i then some (inside n (kind_of b)) else none

abbrev pub accept_delta : ℕ → BlockKind → ℕ → Delta → Option Phase
accept_delta n k i d = if is_number n i && fits k d then some (inside n k) else none

abbrev pub accept_stop : ℕ → ℕ → Option Phase
accept_stop n i = if is_number n i then some (between (n + 1)) else none

abbrev pub accept : {V : Type 0} → Phase → StreamEvent V → Option Phase
accept before (message_start _) = some (between 0)
accept (between n) (content_block_start i b) = accept_start n i b
accept (between n) (message_delta _ _) = some closing
accept (inside n k) (content_block_delta i d) = accept_delta n k i d
accept (inside n k) (content_block_stop i) = accept_stop n i
accept closing message_stop = some ended
accept _ _ = none

-- The phase after these events, or `none` where one of them is out of place.
unfoldable pub accepts : {V : Type 0} → Phase → Events V → Option Phase
accepts p [] = some p
accepts p (ev ∷ evs) = elim (accept p ev) [ none ↦ none | some q ↦ accepts q evs ]

pub accepts-append :
    {V : Type 0} (p : Phase) (xs ys : Events V) {q r : Phase}
    → accepts p xs ≡ some q
    → accepts q ys ≡ some r
    → accepts p (xs ++ ys) ≡ some r
unfolding accepts
accepts-append p [] ys h k = ground arith
accepts-append p (x ∷ xs) ys h k = elim (Option-cases (accept p x)) [
  | inl q ↦ cc (rw (q, accepts) at h)
  | inr (q, e) ↦ rw (e, accepts) (accepts-append q xs ys (rw (e, accepts) at h) k)
]
