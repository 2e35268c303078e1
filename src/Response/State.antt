-- ===== src/Response/State.antt =====
-- The state of the translator and its accounts: `ResponseTranslator`, its options and its usage
-- (crates/kiro-trust-protocol/src/translate/response.rs).
use kiro_trust.Prelude.{
  ℕ, ◌/◌, max, Bool, true, false, not, ◌&&◌, ◌||◌, Option, none, some, List, [], ◌∷◌, if◌then◌else◌,
  ltb, ◌==◌, saturating_add,
}
use kiro_trust.Text.{Text, text_eq}
use kiro_trust.Text.Search.{is_empty}
use kiro_trust.Wire.{negsuc}
use kiro_trust.Anthropic.{Usage, StopReason, end_turn, tool_use}
use kiro_trust.Response.Tags.{Tags, no_tags}
use kiro_trust.Response.Limits.{Limits, new_limits}
use kiro_trust.Response.Emitter.{Emitter}

pub record ReportedTokens : Type 0 where
  pub input : ℕ
  pub output : ℕ
  pub cache_read : ℕ
  pub cache_write : ℕ

pub record EstimatedTokens : Type 0 where
  pub input : ℕ
  pub output : ℕ

pub record UsageSnapshot : Type 0 where
  pub reported : ReportedTokens
  pub estimated : EstimatedTokens

pub record ResponseOptions : Type 0 where
  pub model : Text
  pub message_id : Text
  pub stop_sequences : List Text
  pub max_tokens : ℕ
  pub tool_names : List (Text × Text)
  pub estimated_input_tokens : ℕ

pub data FailureKind : Type 0 where
  invalid_state : (reason : Text) → FailureKind
  exception : (exception_type : Text) → FailureKind

pub record Failure : Type 0 where
  pub kind : FailureKind
  pub message : Text

pub record ToolCall : Type 0 where
  pub id : Text
  pub name : Text
  pub input : Text

-- The fields under "accumulated".
pub record Accumulated : Type 0 where
  pub text : Text
  pub thinking : Text
  pub tool_calls : List ToolCall
  pub redacted : List Text
  pub signature : Option Text
  pub has_metadata : Bool
  pub input_tokens : ℕ
  pub output_tokens : ℕ
  pub cache_read : ℕ
  pub cache_write : ℕ

pub record ResponseTranslator : Type 0 where
  pub opts : ResponseOptions
  pub acc : Accumulated
  pub limits : Limits
  pub tags : Tags
  pub emitter : Emitter
  pub finished : Bool
  pub failure : Option Failure

unfoldable pub new : ResponseOptions → ResponseTranslator
unfolding new_limits
new opts = record {
  opts = opts;
  acc = record {
    text = [];
    thinking = [];
    tool_calls = [];
    redacted = [];
    signature = none;
    has_metadata = false;
    input_tokens = 0;
    output_tokens = 0;
    cache_read = 0;
    cache_write = 0;
  };
  limits = new_limits opts.max_tokens opts.stop_sequences;
  tags = no_tags;
  emitter = record {
    message_id = opts.message_id;
    model = opts.model;
    started = false;
    block_index = negsuc 0;
    active = none;
    visible = false;
  };
  finished = false;
  failure = none;
}

-- `tool_names.get(name).unwrap_or(name)`
unfoldable pub original_name : List (Text × Text) → Text → Text
original_name [] name = name
original_name ((short, original) ∷ names) name =
    if text_eq short name then original else original_name names name

unfoldable pub is_empty_visible_end_turn : ResponseTranslator → Bool
is_empty_visible_end_turn t =
    elim t.limits.local_stop [ none ↦ true | some _ ↦ false ]
    && (not (is_empty t.acc.thinking) || not (is_empty t.acc.redacted))
    && is_empty t.acc.text
    && is_empty t.acc.tool_calls

unfoldable pub stop_reason : ResponseTranslator → StopReason × Option Text
stop_reason t = elim t.limits.local_stop [
  | some (r, s) ↦ (r, s)
  | none ↦ if not (is_empty t.acc.tool_calls) then (tool_use, none) else (end_turn, none)
]

abbrev pub estimated_output : ℕ → ℕ
estimated_output chars = if chars == 0 then 0 else max (chars / 4) 1

abbrev pub is_reported : Accumulated → Bool
is_reported a = ltb 0 a.input_tokens || ltb 0 a.output_tokens

unfoldable pub usage : ResponseTranslator → Usage
usage t = record {
  input_tokens = if is_reported t.acc then t.acc.input_tokens else t.opts.estimated_input_tokens;
  output_tokens =
      if is_reported t.acc then t.acc.output_tokens else estimated_output t.limits.output_chars;
  cache_read_input_tokens = t.acc.cache_read;
  cache_creation_input_tokens = t.acc.cache_write;
}

abbrev pub reported_with : Accumulated → ℕ → ℕ → ReportedTokens
reported_with a input output = record {
  input = input;
  output = output;
  cache_read = a.cache_read;
  cache_write = a.cache_write;
}

unfoldable pub usage_snapshot : ResponseTranslator → UsageSnapshot
usage_snapshot t =
    if is_reported t.acc
    then record {
      reported = reported_with t.acc t.acc.input_tokens t.acc.output_tokens;
      estimated = record { input = 0; output = 0 };
    }
    else record {
      reported = reported_with t.acc 0 0;
      estimated = record {
        input = t.opts.estimated_input_tokens;
        output = estimated_output t.limits.output_chars;
      };
    }

-- The handler of `Event::Metadata`.
unfoldable pub take_metadata : ℕ → ℕ → ℕ → ℕ → Accumulated → Accumulated
take_metadata uncached output read write a =
    let input = saturating_add uncached read in
    if ltb 0 input || ltb 0 output
    then record a {
      has_metadata = true;
      input_tokens = input;
      output_tokens = output;
      cache_read = read;
      cache_write = write;
    }
    else record a { cache_read = max a.cache_read read; cache_write = max a.cache_write write }

-- The handler of `Event::Metering`.
unfoldable pub take_metering : ℕ → ℕ → Accumulated → Accumulated
take_metering input output a =
    if not a.has_metadata && (ltb 0 input || ltb 0 output)
    then record a { input_tokens = input; output_tokens = output }
    else a
