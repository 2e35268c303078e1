-- ===== src/Anthropic.antt =====
-- The response side of the Messages API (crates/kiro-trust-protocol/src/anthropic.rs). `V` is the
-- type of JSON values.
pub mod Messages
use kiro_trust.Prelude.{ℕ, Option, List}
use kiro_trust.Text.{Text, codes}

pub record Usage : Type 0 where
  pub input_tokens : ℕ
  pub output_tokens : ℕ
  pub cache_read_input_tokens : ℕ
  pub cache_creation_input_tokens : ℕ

abbrev pub no_usage : Usage
no_usage = record {
  input_tokens = 0;
  output_tokens = 0;
  cache_read_input_tokens = 0;
  cache_creation_input_tokens = 0;
}

pub data StopReason : Type 0 where
  end_turn tool_use max_tokens stop_sequence : StopReason

pub data OutBlock (V : Type 0) : Type 0 where
  thinking : (thinking : Text) (signature : Option Text) → OutBlock V
  redacted_thinking : (data_ : Text) → OutBlock V
  text : (text : Text) → OutBlock V
  tool_use : (id name : Text) (input : V) → OutBlock V

pub record OutMessage (V : Type 0) : Type 0 where
  pub id : Text
  pub kind : Text
  pub role : Text
  pub content : List (OutBlock V)
  pub model : Text
  pub stop_reason : Option StopReason
  pub stop_sequence : Option Text
  pub usage : Usage

pub data BlockStart (V : Type 0) : Type 0 where
  text : (text : Text) → BlockStart V
  thinking : (thinking : Text) (signature : Option Text) → BlockStart V
  redacted_thinking : (data_ : Text) → BlockStart V
  tool_use : (id name : Text) (input : List (Text × V)) → BlockStart V

pub data Delta : Type 0 where
  text_delta : (text : Text) → Delta
  thinking_delta : (thinking : Text) → Delta
  signature_delta : (signature : Text) → Delta
  input_json_delta : (partial_json : Text) → Delta

pub record MessageDeltaBody : Type 0 where
  pub stop_reason : StopReason
  pub stop_sequence : Option Text

pub record ApiError : Type 0 where
  pub kind : Text
  pub message : Text

pub data StreamEvent (V : Type 0) : Type 0 where
  message_start : (message : OutMessage V) → StreamEvent V
  content_block_start : (index : ℕ) (content_block : BlockStart V) → StreamEvent V
  content_block_delta : (index : ℕ) (delta : Delta) → StreamEvent V
  content_block_stop : (index : ℕ) → StreamEvent V
  message_delta : (delta : MessageDeltaBody) (usage : Usage) → StreamEvent V
  message_stop : StreamEvent V
  error : (error : ApiError) → StreamEvent V

-- The SSE `event:` name.
unfoldable pub event_name : {V : Type 0} → StreamEvent V → Text
event_name (message_start _) = codes "message_start"
event_name (content_block_start _ _) = codes "content_block_start"
event_name (content_block_delta _ _) = codes "content_block_delta"
event_name (content_block_stop _) = codes "content_block_stop"
event_name (message_delta _ _) = codes "message_delta"
event_name message_stop = codes "message_stop"
event_name (error _) = codes "error"
