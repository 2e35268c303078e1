-- ===== src/Response/Tests.antt =====
-- Runs of the translator, and the theorems about it at concrete events. Floats and JSON values do
-- not matter to them: numbers stand for both.
use kiro_trust.Prelude.{
  arith, length, ℕ, ◌*◌, ◌≤◌, ◌≡◌, refl, true, false, none, some, List, [], ◌∷◌,
}
use kiro_trust.Text.{Text, codes, text_eq}
use kiro_trust.Text.Search.{is_empty, has_char, strip_prefix, find_split}
use kiro_trust.Kiro.{Event, assistant_response, reasoning_content, tool_use}
use kiro_trust.Anthropic.{stop_sequence}
use kiro_trust.Response.Tags.{Tags, Parsed, parse_loop, parse_tags, partial_tag_suffix}
use kiro_trust.Response.Tags.Fuel.{parse_loop_or, parse_loop_ends}
use kiro_trust.Response.Limits.{
  keep_nonempty, effective_max_tokens, new_limits, limit_text, is_latched, apply_max_tokens, latch,
}
use kiro_trust.Response.Emitter.{
  ◌>>◌, emit_text, emit_thinking, ensure_started, switch_block, close_active, open_block,
  block_start, send_delta, as_u32, increment,
}
use kiro_trust.Response.State.{ResponseTranslator, ResponseOptions, new}
use kiro_trust.Response.Push.{
  push_event, push_response, say_text, take_text, say_thinking, take_thinking, flush_tags,
  flush_pending, end_message, push, push_all, finish,
}
use kiro_trust.Response.Protocol.{before, ended, accepts}
use kiro_trust.Response.Protocol.Stream.{phase}
use kiro_trust.Response.Protocol.After.{after_finish}
use kiro_trust.Response.Protocol.Upstream.{push_all_accepted, message_complete}
use kiro_trust.Response.Budget.Within.{shown}
use kiro_trust.Response.Budget.Response.{unsplit_events, response_in_budget}
use kiro_trust.Response.Accounts.{Splits, usage_snapshot-usage}
use kiro_trust.Response.Overrun.{text_behind_thinking}
use kiro_trust.Response.Streamed.{sent, sent_text, sent_thinking}
use kiro_trust.Response.Streamed.Folded.{folded_is_streamed}

abbrev limited : ℕ → ResponseOptions
limited budget = record {
  model = codes "m";
  message_id = codes "msg_1";
  stop_sequences = [];
  max_tokens = budget;
  tool_names = [];
  estimated_input_tokens = 3;
}

abbrev answer : List (Event ℕ)
answer =
    reasoning_content (codes "hm") (some (codes "sig")) none
    ∷ assistant_response (codes "hello")
    ∷ tool_use (codes "t1") (codes "read") (codes "{}")
    ∷ []

message_complete_example :
    accepts before ((push_all ℕ ℕ answer >> finish ℕ ℕ) (new (limited 100))).1 ≡ some ended
message_complete_example = message_complete ℕ ℕ (limited 100) answer

push_all_accepted_example :
    accepts before (push_all ℕ ℕ answer (new (limited 100))).1
    ≡ some (phase (push_all ℕ ℕ answer (new (limited 100))).0)
push_all_accepted_example = push_all_accepted ℕ ℕ (limited 100) answer

abbrev greeting : List (Event ℕ)
greeting = assistant_response (codes "hello") ∷ assistant_response (codes " world") ∷ []

greeting_unsplit : unsplit_events ℕ ℕ greeting (new (limited 1)) ≡ true
unfolding new new_limits keep_nonempty push push_event push_response parse_tags has_char say_text
    take_text limit_text apply_max_tokens effective_max_tokens latch emit_text finish end_message
    flush_tags flush_pending
greeting_unsplit = refl

response_in_budget_example :
    shown ((push_all ℕ ℕ greeting >> finish ℕ ℕ) (new (limited 1))).0.acc
    ≤ effective_max_tokens (new_limits 1 []) * 4
unfolding keep_nonempty
response_in_budget_example = response_in_budget ℕ ℕ (limited 1) greeting refl greeting_unsplit

abbrev chunk : Text
chunk = codes "<thinking>abcdefgh</thinking>more than the budget"

abbrev fresh_translator : ResponseTranslator
unfolding new new_limits keep_nonempty
fresh_translator = new (limited 1)

chunk_thinks : is_empty (parse_tags fresh_translator.tags chunk).think ≡ false
unfolding parse_tags partial_tag_suffix text_eq has_char find_split strip_prefix new
chunk_thinks = refl

chunk_speaks : is_empty (parse_tags fresh_translator.tags chunk).text ≡ false
unfolding parse_tags partial_tag_suffix text_eq has_char find_split strip_prefix new
chunk_speaks = refl

chunk_latches :
    is_latched
      (apply_max_tokens (parse_tags fresh_translator.tags chunk).think fresh_translator.limits).1
    ≡ true
unfolding parse_tags partial_tag_suffix text_eq has_char find_split strip_prefix new
    apply_max_tokens effective_max_tokens latch new_limits
chunk_latches = refl

text_behind_thinking_example :
    sent_text ℕ (push ℕ ℕ (assistant_response chunk) fresh_translator).1
    ≡ (parse_tags fresh_translator.tags chunk).text
unfolding new
text_behind_thinking_example =
    text_behind_thinking ℕ ℕ chunk fresh_translator refl refl refl chunk_thinks chunk_speaks
      chunk_latches

folded_is_streamed_example :
    let (t, out) = (push_all ℕ ℕ answer >> finish ℕ ℕ) (new (limited 100)) in
    (t.acc.text ≡ sent_text ℕ out) × (t.acc.thinking ≡ sent_thinking ℕ out)
folded_is_streamed_example = folded_is_streamed ℕ ℕ (limited 100) answer

-- Stopped by a sequence while the tag parser holds back `</th`.
abbrev stopped : ResponseTranslator
unfolding new
stopped =
    let t = new (limited 100) in
    record t {
      limits = record t.limits { local_stop = some (stop_sequence, some (codes "STOP")) };
      tags = record { tag_inside = true; tag_buf = codes "</th"; suppress_reasoning = true };
    }

-- The thinking that is held back is sent behind the stop.
held_back_sent : sent_thinking ℕ (finish ℕ ℕ stopped).1 ≡ codes "</th"
unfolding new new_limits keep_nonempty finish flush_tags flush_pending end_message say_thinking
    take_thinking apply_max_tokens effective_max_tokens emit_thinking ensure_started switch_block
    close_active open_block block_start send_delta sent as_u32 increment
held_back_sent = refl

-- The upstream has counted seven tokens in and two out.
abbrev counted : ResponseTranslator
counted =
    let t = new (limited 100) in
    record t { acc = record t.acc { input_tokens = 7; output_tokens = 2 } }

usage_snapshot-usage_example : Splits counted
usage_snapshot-usage_example = usage_snapshot-usage counted

abbrev tags_of_chunk : Text → Tags
tags_of_chunk content = record { tag_inside = false; tag_buf = content; suppress_reasoning = false }

abbrev spent : Text → Text → Tags → Parsed
spent text think t = record { text = codes "spent"; think = []; tags = t }

parse_loop_ends_example :
    parse_loop_or spent 60 [] [] (tags_of_chunk chunk)
    ≡ parse_loop (length chunk) [] [] (tags_of_chunk chunk)
parse_loop_ends_example = parse_loop_ends spent 60 [] [] (tags_of_chunk chunk) (omega arith)

after_finish_example :
    (push_all ℕ ℕ greeting >> finish ℕ ℕ)
      ((push_all ℕ ℕ answer >> finish ℕ ℕ) (new (limited 100))).0
    ≡ (((push_all ℕ ℕ answer >> finish ℕ ℕ) (new (limited 100))).0, [])
after_finish_example = after_finish ℕ ℕ (limited 100) answer greeting
