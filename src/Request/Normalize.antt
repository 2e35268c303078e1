-- ===== src/Request/Normalize.antt =====
-- Messages are normalized before the history is built
-- (crates/kiro-trust-protocol/src/translate/normalize.rs)
pub mod Roles
pub mod Fuel
pub mod Tools
use kiro_trust.Prelude.{
  ℕ, zero, suc, length, ◌+◌, ◌≡◌, Bool, true, false, not, ◌||◌, ◌&&◌, Option, none, some, List, [],
  ◌∷◌, ◌++◌, map, if◌then◌else◌,
}
use kiro_trust.Text.{Text, codes}
use kiro_trust.Json.{SerdeJson}
use kiro_trust.Anthropic.Messages
use kiro_trust.Anthropic.Messages.{
  Role, ContentBlock, Message, MessageContent, block, plain, blocks, absent, fields, role_eq,
  is_kind, is_tool_use, is_tool_result,
}
use kiro_trust.Request.Content.{
  join, filter, contains, unwrap_or, extract_text, extract_tool_result_text,
}

abbrev pub synthetic_empty : Text
synthetic_empty = codes "(empty)"

module _ (json : SerdeJson) where
  abbrev V : Type 0
  V = json.Value

  abbrev M : Type 0
  M = Message V

  abbrev pub text_block : Text → ContentBlock V
  text_block t =
      block
        (record {
          kind = codes "text";
          text = some t;
          thinking = none;
          signature = none;
          data_ = none;
          id = none;
          name = none;
          input = none;
          tool_use_id = none;
          is_error = false;
          source = none;
          cache_control = none;
        })
        absent

  abbrev pub on_blocks :
      (List (ContentBlock V) → List (ContentBlock V)) → MessageContent V → MessageContent V
  on_blocks f (plain t) = plain t
  on_blocks f (blocks bs) = blocks (f bs)

  abbrev pub map_content : (List (ContentBlock V) → List (ContentBlock V)) → M → M
  map_content f m = record { role = m.role; content = on_blocks f m.content }

  abbrev pub input_text : Option V → Text
  input_text none = codes "null"
  input_text (some v) = json.to_string v

  abbrev pub tool_text : ContentBlock V → ContentBlock V
  tool_text b = text_block (
      codes "[Tool: "
      ++ unwrap_or [] (fields b).name
      ++ codes " ("
      ++ unwrap_or [] (fields b).id
      ++ codes ")]\n"
      ++ input_text (fields b).input)

  abbrev pub tool_result_text : ContentBlock V → ContentBlock V
  tool_result_text b = text_block (
      codes "[Tool Result ("
      ++ unwrap_or [] (fields b).tool_use_id
      ++ codes ")]\n"
      ++ extract_tool_result_text b)

  unfoldable pub textualize : ContentBlock V → ContentBlock V
  textualize b =
      if is_tool_use b then tool_text b else if is_tool_result b then tool_result_text b else b

  unfoldable pub textualize_all_tool_content : List M → List M
  unfolding textualize
  textualize_all_tool_content msgs = map (map_content (map textualize)) msgs

  -- `filter_map(|b| b.id)`
  unfoldable pub ids_of : List (ContentBlock V) → List Text
  ids_of [] = []
  ids_of (b ∷ bs) = let rest = ids_of bs in elim (fields b).id [ none ↦ rest | some id ↦ id ∷ rest ]

  -- The tool uses that the message before allows an answer to.
  abbrev pub use_ids : Option M → List Text
  use_ids none = []
  use_ids (some prev) = elim prev.content [
    | plain t ↦ []
    | blocks bs ↦ if role_eq prev.role Role.assistant then ids_of (filter is_tool_use bs) else []
  ]

  unfoldable pub textualize_orphan : List Text → ContentBlock V → ContentBlock V
  unfolding contains
  textualize_orphan ids b =
      if is_tool_result b && not (contains ids (unwrap_or [] (fields b).tool_use_id))
      then tool_result_text b
      else b

  -- `before` is the message `msgs[i - 1]`.
  unfoldable pub textualize_orphans : Option M → List M → List M
  unfolding textualize_orphan ids_of
  textualize_orphans before [] = []
  textualize_orphans before (m ∷ msgs) =
      let m' =
        if role_eq m.role Role.user
        then map_content (map (textualize_orphan (use_ids before))) m
        else m in
      m' ∷ textualize_orphans (some m) msgs

  abbrev pub textualize_orphan_tool_results : List M → List M
  textualize_orphan_tool_results msgs = textualize_orphans none msgs

  abbrev pub all_text : List (ContentBlock V) → Bool
  all_text [] = true
  all_text (b ∷ bs) = is_kind (codes "text") b && all_text bs

  abbrev pub is_plain_text : MessageContent V → Bool
  is_plain_text (plain t) = true
  is_plain_text (blocks bs) = all_text bs

  -- The run of plain messages of the role `r` in front, and what is behind it.
  unfoldable pub plain_run : Role → List M → List M × List M
  plain_run r [] = ([], [])
  plain_run r (m ∷ msgs) =
      let (run, rest) = plain_run r msgs in
      if role_eq m.role r && is_plain_text m.content then (m ∷ run, rest) else ([], m ∷ msgs)

  -- The messages `i..j`, of which `m` is the first.
  abbrev pub merged : M → List M → M
  merged m [] = m
  merged m (n ∷ run) = record {
    role = m.role;
    content = plain (join (codes "\n") (map (λ m. extract_text m.content) (m ∷ n ∷ run)));
  }

  -- Each round takes a message at least, so their number is fuel enough.
  unfoldable pub merge_loop : ℕ → List M → List M
  unfolding plain_run
  merge_loop zero msgs = []
  merge_loop (suc fuel) [] = []
  merge_loop (suc fuel) (m ∷ msgs) = elim (is_plain_text m.content) [
    | true ↦ merged m (plain_run m.role msgs).0 ∷ merge_loop fuel (plain_run m.role msgs).1
    | false ↦ m ∷ merge_loop fuel msgs
  ]

  unfoldable pub merge_adjacent_same_role : List M → List M
  unfolding merge_loop
  merge_adjacent_same_role msgs = merge_loop (length msgs) msgs

  abbrev pub user_role : Role → Role
  user_role Role.other = Role.user
  user_role r = r

  abbrev pub with_user_role : M → M
  with_user_role m = record m { role = user_role m.role }

  abbrev pub normalize_roles : List M → List M
  normalize_roles msgs = map with_user_role msgs

  abbrev pub empty_message : Role → M
  empty_message r = record { role = r; content = plain synthetic_empty }

  unfoldable pub ensure_starts_with_user : List M → List M
  ensure_starts_with_user [] = []
  ensure_starts_with_user (m ∷ msgs) =
      if role_eq m.role Role.user then m ∷ msgs else empty_message Role.user ∷ m ∷ msgs

  abbrev pub opposite : Role → Role
  opposite r = if role_eq r Role.assistant then Role.user else Role.assistant

  -- `last` is the role of the last message pushed.
  unfoldable pub alternate : Option Role → List M → List M
  alternate last [] = []
  alternate none (m ∷ msgs) = m ∷ alternate (some m.role) msgs
  alternate (some r) (m ∷ msgs) =
      let rest = alternate (some m.role) msgs in
      if role_eq r m.role then empty_message (opposite m.role) ∷ m ∷ rest else m ∷ rest

  abbrev pub ensure_alternating_roles : List M → List M
  ensure_alternating_roles msgs = alternate none msgs

  unfoldable pub normalize_messages : List M → Bool → List M
  unfolding textualize_all_tool_content textualize_orphans merge_adjacent_same_role
      ensure_starts_with_user alternate
  normalize_messages msgs has_tools =
      let msgs1 =
        if has_tools
        then textualize_orphan_tool_results msgs
        else textualize_all_tool_content msgs in
      ensure_alternating_roles
        (ensure_starts_with_user (merge_adjacent_same_role (normalize_roles msgs1)))
