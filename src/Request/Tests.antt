-- ===== src/Request/Tests.antt =====
-- The theorems about requests, at concrete messages and names.
use mathlib.Core.List.{Perm}
use kiro_trust.Prelude.{
  if◌then◌else◌, ℕ, ◌≤◌, ◌≡◌, refl, sym, ◌∙◌, true, false, some, none, Option, List, [], ◌∷◌, ◌++◌,
  map, ok,
}
use kiro_trust.Text.{Text, Bytes, codes, text_eq}
use kiro_trust.Text.Utf8.{len}
use kiro_trust.Json.Example.{Small, small_json}
use kiro_trust.Anthropic.Messages.{
  Role, Message, ContentBlock, MessageContent, fields, is_tool_use, is_tool_result, block, absent,
  blocks,
}
use kiro_trust.Request.Names.{no_names, shorten, restore}
use kiro_trust.Request.Names.Restored.{shorten_all, restore-shorten}
use kiro_trust.Request.Names.Fits.{AllFit, shorten-fits}
use kiro_trust.Request.Normalize.{
  normalize_messages, textualize_orphans, textualize_orphan, merge_adjacent_same_role, merge_loop,
  ensure_starts_with_user, alternate, ids_of,
}
use kiro_trust.Request.Content.{filter, contains}
use kiro_trust.Request.Normalize.Roles.{TurnsFrom, normalize_messages-TurnsFrom}
use kiro_trust.Request.Normalize.Tools.{Each, IsToolFree, normalize_messages-IsToolFree}
use kiro_trust.Request.Images.{
  Image, ToolResult, scan_blocks, convert_image, scan_current_message, reorder_tool_results,
}
use kiro_trust.Request.Images.Limits.{Admits, images_of, scan_current_message-Admits}
use kiro_trust.Request.Images.Order.{reorder_tool_results-Perm}
use kiro_trust.Request.History.{Scan, build_history}
use kiro_trust.Request.History.Turns.{TurnedWith, history_turns}

abbrev V : Type 0
V = Small

abbrev block_of : Text → Option Text → ContentBlock V
block_of kind id =
    block
      (record {
        kind = kind;
        text = none;
        thinking = none;
        signature = none;
        data_ = none;
        id = id;
        name = some (codes "read");
        input = none;
        tool_use_id = id;
        is_error = false;
        source = some (record {
          kind = codes "base64";
          media_type = codes "image/png";
          data_ = codes "AA==";
        });
        cache_control = none;
      })
      absent

abbrev said : Role → ContentBlock V → Message V
said r b = record { role = r; content = blocks (b ∷ []) }

-- The assistant speaks first, and then another role answers it twice.
abbrev conversation : List (Message V)
conversation =
    said Role.assistant (block_of (codes "tool_use") (some (codes "t1")))
    ∷ said Role.user (block_of (codes "tool_result") (some (codes "t1")))
    ∷ said Role.other (block_of (codes "tool_result") (some (codes "t2")))
    ∷ []

normalize_messages-TurnsFrom_example :
    TurnsFrom Role.user (normalize_messages small_json conversation true)
normalize_messages-TurnsFrom_example = normalize_messages-TurnsFrom small_json conversation true

normalize_messages-IsToolFree_example :
    Each IsToolFree (normalize_messages small_json conversation false)
normalize_messages-IsToolFree_example = normalize_messages-IsToolFree small_json conversation

abbrev digest : Bytes → Bytes
digest bs = 0x12 ∷ bs

abbrev x20 : Text
x20 = codes "xxxxxxxxxxxxxxxxxxxx"

-- A name of 80 bytes
abbrev long_name : Text
long_name = x20 ++ x20 ++ x20 ++ x20

abbrev IsLong : Text → Type 0
IsLong name = name ≡ long_name

restore-shorten_example :
    let (sent_names, m) = shorten_all digest (long_name ∷ long_name ∷ []) no_names in
    map (restore m) sent_names ≡ long_name ∷ long_name ∷ []
restore-shorten_example =
    restore-shorten digest IsLong (λ a b u v e. u ∙ sym v) (long_name ∷ long_name ∷ [])
      (refl, (refl, tt))

shorten-fits_example :
    let (s, m) = shorten digest long_name no_names in (len s ≤ 64) × AllFit m.to_short
shorten-fits_example = shorten-fits digest long_name no_names tt

abbrev base64 : Text → Option Bytes
base64 t = some (0 ∷ [])

abbrev decimal : ℕ → Text
decimal n = codes "1"

abbrev uuid : Text → Text
uuid t = codes "00000000-0000-0000-0000-000000000000"

-- Two images, of which the second is the tenth of the request.
abbrev two_images : MessageContent V
two_images = blocks (block_of (codes "image") none ∷ block_of (codes "image") none ∷ [])

two_accepted :
    let image : Image = record { format = codes "png"; bytes = codes "AA==" } in
    scan_current_message base64 decimal two_images 8 ≡ (ok ([], image ∷ image ∷ []), 10)
unfolding scan_current_message scan_blocks convert_image text_eq contains is_tool_result
two_accepted = refl

scan_current_message-Admits_example :
    Admits base64 images_of 8 (scan_current_message base64 decimal two_images 8)
scan_current_message-Admits_example = scan_current_message-Admits base64 decimal two_images 8

abbrev result : Text → ToolResult
result id = record {
  tool_use_id = id;
  status = codes "success";
  json = record { exit_status = codes "0"; stdout = []; stderr = [] };
}

reorder_tool_results-Perm_example :
    Perm
      (reorder_tool_results (result (codes "a") ∷ result (codes "b") ∷ []) (codes "b" ∷ []))
      (result (codes "a") ∷ result (codes "b") ∷ [])
reorder_tool_results-Perm_example =
    reorder_tool_results-Perm (result (codes "a") ∷ result (codes "b") ∷ []) (codes "b" ∷ [])

abbrev fresh_scan : Scan
fresh_scan = record { names = no_names; counter = 0 }

history_turns_example : TurnedWith small_json digest base64 decimal uuid (codes "be brief") (
    build_history small_json digest base64 decimal uuid
      (normalize_messages small_json conversation true)
      fresh_scan)
history_turns_example =
    history_turns small_json digest base64 decimal uuid conversation true (codes "be brief")
      fresh_scan

abbrev tool_use_id_of : MessageContent V → Option Text
tool_use_id_of (blocks (b ∷ bs)) = if is_tool_result b then (fields b).tool_use_id else none
tool_use_id_of c = none

-- The id that the last message's first block answers.
abbrev last_answered : List (Message V) → Option Text
last_answered [] = none
last_answered (m ∷ []) = tool_use_id_of m.content
last_answered (m ∷ n ∷ msgs) = last_answered (n ∷ msgs)

-- The result that the third message carries answers no tool use, and it is left as it is, since
-- the message gets the role of the user only later.
third_result_stays :
    last_answered (normalize_messages small_json conversation true) ≡ some (codes "t2")
unfolding normalize_messages textualize_orphans textualize_orphan merge_adjacent_same_role
    merge_loop ensure_starts_with_user alternate is_tool_result is_tool_use text_eq ids_of filter
    contains
third_result_stays = refl
