-- ===== src/Request/History.antt =====
-- The history of a request (crates/kiro-trust-protocol/src/translate/history.rs)
pub mod Turns
use kiro_trust.Prelude.{
  ℕ, ◌+◌, ◌≡◌, Bool, true, false, not, ◌||◌, ◌&&◌, Option, none, some, List, [], ◌∷◌, ◌++◌, map,
  length, ltb, leb, if◌then◌else◌, Result, ok, err,
}
use kiro_trust.Text.{Text, Bytes, codes}
use kiro_trust.Text.Search.{is_empty}
use kiro_trust.Json.{SerdeJson}
use kiro_trust.Anthropic.Messages
use kiro_trust.Anthropic.Messages.{
  Role, ContentBlock, Message, MessageContent, plain, blocks, fields, role_eq, is_tool_use,
}
use kiro_trust.Request.Names.{ToolNameMap, shorten}
use kiro_trust.Request.Content.{filter, unwrap_or, extract_text}
use kiro_trust.Request.Images.{
  ImageError, ToolResult, Image, extract_tool_results, reorder_tool_results,
}

abbrev pub synthetic_ack : Text
synthetic_ack =
    codes
      "I will fully incorporate this information when generating my responses, and explicitly acknowledge relevant parts of the summary when answering questions."

pub record HistoryToolUse (V : Type 0) : Type 0 where
  pub tool_use_id : Text
  pub name : Text
  pub input : V

-- The context of a history entry holds tool results only; the fields that the history leaves
-- `None` or empty are not kept.
pub data HistoryEntry (V : Type 0) : Type 0 where
  user_input_message : (content : Text) (tool_results : List ToolResult) → HistoryEntry V
  assistant_response_message :
      (message_id content : Text) (tool_uses : List (HistoryToolUse V)) → HistoryEntry V

-- The state that goes through: the tool names and the count of images.
pub record Scan : Type 0 where
  pub names : ToolNameMap
  pub counter : ℕ

-- `sha256` is `Sha256::digest`, `base64` the standard engine's `decode`, `decimal` the digits of a
-- number and `v5` the UUID of a URL's name.
module _ (json : SerdeJson) (sha256 : Bytes → Bytes) (base64 : Text → Option Bytes)
    (decimal : ℕ → Text) (v5 : Text → Text) where
  abbrev V : Type 0
  V = json.Value

  abbrev M : Type 0
  M = Message V

  abbrev E : Type 0
  E = HistoryEntry V

  abbrev pub history_tool_use : ContentBlock V → HistoryToolUse V
  history_tool_use b = record {
    tool_use_id = unwrap_or [] (fields b).id;
    name = unwrap_or [] (fields b).name;
    input = unwrap_or json.empty_object (fields b).input;
  }

  unfoldable pub extract_tool_uses : MessageContent V → List (HistoryToolUse V)
  unfolding filter
  extract_tool_uses (plain t) = []
  extract_tool_uses (blocks bs) = map history_tool_use (filter is_tool_use bs)

  unfoldable pub extract_tool_use_ids : MessageContent V → List Text
  unfolding extract_tool_uses
  extract_tool_use_ids c = map (λ u. u.tool_use_id) (extract_tool_uses c)

  unfoldable pub shorten_uses :
      List (HistoryToolUse V) → ToolNameMap → List (HistoryToolUse V) × ToolNameMap
  shorten_uses [] names = ([], names)
  shorten_uses (u ∷ us) names =
      let (short, names') = shorten sha256 u.name names in
      let (us', names'') = shorten_uses us names' in (record u { name = short } ∷ us', names'')

  unfoldable pub seed : Text → List (HistoryToolUse V) → Text
  seed s [] = s
  seed s (u ∷ us) = seed (s ++ codes ":" ++ u.tool_use_id) us

  abbrev pub after_assistant : Option M → Bool
  after_assistant none = false
  after_assistant (some m) = role_eq m.role Role.assistant

  abbrev pub content_before : Option M → List Text
  content_before none = []
  content_before (some m) = extract_tool_use_ids m.content

  -- `before` is the message `msgs[i - 1]`.
  abbrev pub in_order : Option M → List ToolResult → List ToolResult
  in_order before results =
      if ltb 1 (length results) && after_assistant before
      then reorder_tool_results results (content_before before)
      else results

  abbrev pub user_entry :
      Option M
      → M
      → Result (List ToolResult × List Image) ImageError × ℕ
      → ToolNameMap
      → Result E ImageError × Scan
  user_entry before m (err e, n) names = (err e, record { names = names; counter = n })
  user_entry before m (ok (results, images), n) names = (
    ok (user_input_message (extract_text m.content) (in_order before results)),
    record { names = names; counter = n },
  )

  abbrev pub assistant_entry : M → Scan → Result E ImageError × Scan
  assistant_entry m s =
      let content = extract_text m.content in
      let (uses, names') = shorten_uses (extract_tool_uses m.content) s.names in
      let id = v5 (seed (codes "assistant-msg:" ++ content) uses) in
      (
        ok (assistant_response_message id content uses),
        record { names = names'; counter = s.counter },
      )

  abbrev pub entry : Role → Option M → M → Scan → Result E ImageError × Scan
  entry Role.assistant before m s = assistant_entry m s
  entry r before m s =
      user_entry before m (extract_tool_results base64 decimal m.content s.counter) s.names

  abbrev pub push_entry : E → Result (List E) ImageError × Scan → Result (List E) ImageError × Scan
  push_entry x (err e, s) = (err e, s)
  push_entry x (ok es, s) = (ok (x ∷ es), s)

  abbrev pub and_then :
      Result E ImageError × Scan
      → (Scan → Result (List E) ImageError × Scan)
      → Result (List E) ImageError × Scan
  and_then (err e, s) more = (err e, s)
  and_then (ok x, s) more = push_entry x (more s)

  unfoldable pub build_from : Option M → List M → Scan → Result (List E) ImageError × Scan
  unfolding extract_tool_use_ids shorten_uses seed
  build_from before [] s = (ok [], s)
  build_from before (m ∷ msgs) s = and_then (entry m.role before m s) (build_from (some m) msgs)

  abbrev pub build_history : List M → Scan → Result (List E) ImageError × Scan
  build_history msgs s = build_from none msgs s

  -- The system prompt, and the acknowledgement of it.
  unfoldable pub place_system_prompt : Text → List E → List E
  place_system_prompt system history =
      if is_empty system
      then history
      else user_input_message system []
        ∷ assistant_response_message (v5 (codes "synthetic-ack:" ++ synthetic_ack)) synthetic_ack []
        ∷ history
