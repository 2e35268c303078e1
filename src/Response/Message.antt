-- ===== src/Response/Message.antt =====
-- The message of a response that is not streamed: `into_message` and `dedupe_tool_calls`
-- (crates/kiro-trust-protocol/src/translate/response.rs).
pub mod Calls
pub mod Longest
mod Tests
use kiro_trust.Prelude.{
  Bool, true, false, not, ◌&&◌, ◌||◌, Option, none, some, List, [], ◌∷◌, ◌++◌, map, ltb,
  if◌then◌else◌,
}
use kiro_trust.Text.{Text, codes, text_eq}
use kiro_trust.Text.Utf8.{len}
use kiro_trust.Text.Search.{is_empty}
use kiro_trust.Json.{SerdeJson}
use kiro_trust.Anthropic
use kiro_trust.Anthropic.{OutBlock, OutMessage}
use kiro_trust.Response.State.{ResponseTranslator, ToolCall, stop_reason, usage}
use kiro_trust.Response.Push.{finish}

-- Of two calls with one id, the first takes the second's place if its input is longer.
abbrev pub longer : ToolCall → ToolCall → ToolCall
longer c existing = if ltb (len existing.input) (len c.input) then c else existing

-- One round of the first loop.
unfoldable pub keep_longest : ToolCall → List ToolCall → List ToolCall
keep_longest c [] = c ∷ []
keep_longest c (e ∷ by_id) =
    let rest = keep_longest c by_id in if text_eq e.id c.id then longer c e ∷ by_id else e ∷ rest

unfoldable pub longest_by_id : List ToolCall → List ToolCall → List ToolCall
unfolding keep_longest
longest_by_id by_id [] = by_id
longest_by_id by_id (c ∷ calls) = longest_by_id (keep_longest c by_id) calls

abbrev pub Key : Type 0
Key = Text × Text

unfoldable pub seen_key : Key → List Key → Bool
seen_key key [] = false
seen_key (name, input) ((n, i) ∷ seen) =
    text_eq n name && text_eq i input || seen_key (name, input) seen

module _ (json : SerdeJson) where
  abbrev pub shown : Text → Option json.Value → Text
  shown input none = input
  shown input (some v) = json.to_string v

  abbrev pub key_of : ToolCall → Key
  key_of c = (c.name, shown c.input (json.from_str c.input))

  -- The second loop: exact repeats are dropped.
  unfoldable pub drop_repeats : List Key → List ToolCall → List ToolCall
  unfolding seen_key
  drop_repeats seen [] = []
  drop_repeats seen (c ∷ calls) = elim (seen_key (key_of c) seen) [
    | true ↦ drop_repeats seen calls
    | false ↦ c ∷ drop_repeats (seen ++ key_of c ∷ []) calls
  ]

  unfoldable pub dedupe_tool_calls : List ToolCall → List ToolCall
  unfolding longest_by_id drop_repeats
  dedupe_tool_calls calls = drop_repeats [] (longest_by_id [] calls)

  abbrev pub input_value : Option json.Value → json.Value
  input_value none = json.empty_object
  input_value (some v) = v

  abbrev pub tool_block : ToolCall → OutBlock json.Value
  tool_block c = OutBlock.tool_use c.id c.name (input_value (json.from_str c.input))

  unfoldable pub content_blocks : ResponseTranslator → List (OutBlock json.Value)
  unfolding dedupe_tool_calls
  content_blocks t =
      (if not (is_empty t.acc.thinking)
        then OutBlock.thinking t.acc.thinking t.acc.signature ∷ []
        else [])
      ++ (if not (is_empty t.acc.text) then OutBlock.text t.acc.text ∷ [] else [])
      ++ map tool_block (dedupe_tool_calls t.acc.tool_calls)
      ++ map OutBlock.redacted_thinking t.acc.redacted

  unfoldable pub into_message : ResponseTranslator → OutMessage json.Value
  unfolding content_blocks
  into_message t0 =
      let t = if not t0.finished then (finish json.F64 json.Value t0).0 else t0 in
      let (reason, sequence) = stop_reason t in
      record {
        id = t.opts.message_id;
        kind = codes "message";
        role = codes "assistant";
        content = content_blocks t;
        model = t.opts.model;
        stop_reason = some reason;
        stop_sequence = sequence;
        usage = usage t;
      }
