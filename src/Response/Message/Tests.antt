-- ===== src/Response/Message/Tests.antt =====
-- The tool calls of a message, at concrete calls.
use kiro_trust.Prelude.{List, [], ◌∷◌}
use kiro_trust.Text.{Text, codes}
use kiro_trust.Json.Example.{small_json}
use kiro_trust.Response.State.{ToolCall}
use kiro_trust.Response.Message.{dedupe_tool_calls}
use kiro_trust.Response.Message.Longest.{All, FirstLongest}
use kiro_trust.Response.Message.Calls.{dedupe_tool_calls-longest}

abbrev call : Text → Text → ToolCall
call id input = record { id = id; name = codes "read"; input = input }

abbrev calls : List ToolCall
calls =
    call (codes "a") (codes "1")
    ∷ call (codes "b") (codes "22")
    ∷ call (codes "a") (codes "22")
    ∷ []

dedupe_tool_calls-longest_example :
    All (λ c. FirstLongest c calls) (dedupe_tool_calls small_json calls)
dedupe_tool_calls-longest_example = dedupe_tool_calls-longest small_json calls
