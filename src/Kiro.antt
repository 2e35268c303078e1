-- ===== src/Kiro.antt =====
-- The events that the upstream sends (crates/kiro-trust-protocol/src/kiro.rs). `F` is the type of
-- floats.
use kiro_trust.Prelude.{ℕ, Option}
use kiro_trust.Text.{Text}

pub data Event (F : Type 0) : Type 0 where
  assistant_response : (content : Text) → Event F
  reasoning_content : (text : Text) (signature redacted_content : Option Text) → Event F
  tool_use : (tool_use_id name input : Text) → Event F
  metadata :
      (uncached_input_tokens output_tokens total_tokens cache_read_input_tokens : ℕ)
      (cache_write_input_tokens : ℕ)
      → Event F
  metering : (credits : F) (input_tokens output_tokens : ℕ) → Event F
  invalid_state : (reason message : Text) → Event F
  exception : (exception_type message : Text) → Event F
  ignored : (event_type : Text) → Event F
