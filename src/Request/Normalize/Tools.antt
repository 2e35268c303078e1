-- ===== src/Request/Normalize/Tools.antt =====
-- The tool blocks of a normalized conversation.
use kiro_trust.Prelude.{
  ℕ, zero, suc, ◌≡◌, refl, Bool-cases, inl, inr, false, ◌&&◌, Option, none, some, List, [], ◌∷◌,
  map, length, if◌then◌else◌, if_both,
}
use kiro_trust.Text.{Text, text_eq}
use kiro_trust.Json.{SerdeJson}
use kiro_trust.Anthropic.Messages.{
  Role, ContentBlock, Message, MessageContent, plain, blocks, role_eq, is_tool_use, is_tool_result,
}
use kiro_trust.Request.Normalize.{
  text_block, on_blocks, map_content, textualize, normalize_roles, plain_run, merged, merge_loop,
  merge_adjacent_same_role, empty_message, ensure_starts_with_user, opposite, alternate,
  is_plain_text, normalize_messages, textualize_all_tool_content, tool_text, tool_result_text,
}

-- Every block of every message satisfies `P`.
module _ {V : Type 0} (P : ContentBlock V → Type 0) where
  abbrev pub EachBlock : List (ContentBlock V) → Type 0
  EachBlock [] = Unit
  EachBlock (b ∷ bs) = P b × EachBlock bs

  abbrev pub EachContent : MessageContent V → Type 0
  EachContent (plain t) = Unit
  EachContent (blocks bs) = EachBlock bs

  abbrev pub Each : List (Message V) → Type 0
  Each [] = Unit
  Each (m ∷ msgs) = EachContent m.content × Each msgs

-- A block of another kind than a tool's.
abbrev pub IsToolFree : {V : Type 0} → ContentBlock V → Type 0
IsToolFree b = (is_tool_use b ≡ false) × (is_tool_result b ≡ false)

module _ (json : SerdeJson) where
  abbrev V : Type 0
  V = json.Value

  abbrev M : Type 0
  M = Message V

  -- The later passes keep what holds of every block.
  module _ (P : ContentBlock V → Type 0) where
    Each-normalize_roles : (msgs : List M) → Each P msgs → Each P (normalize_roles json msgs)
    Each-normalize_roles [] h = tt
    Each-normalize_roles (m ∷ msgs) (h, hs) = (h, Each-normalize_roles msgs hs)

    Each-plain_run : (r : Role) (msgs : List M) → Each P msgs → Each P (plain_run json r msgs).1
    unfolding plain_run
    Each-plain_run r [] k = tt
    Each-plain_run r (m ∷ msgs) (k, ks) =
        let q = plain_run json r msgs in
        if_both (λ (z : List M × List M). Each P z.1)
          (role_eq m.role r && is_plain_text json m.content) (m ∷ q.0, q.1) ([], m ∷ msgs)
          (λ _. Each-plain_run r msgs ks) (λ _. (k, ks))

    EachContent-merged :
        (m : M) (run : List M) → EachContent P m.content → EachContent P (merged json m run).content
    EachContent-merged m [] h = h
    EachContent-merged m (n ∷ run) h = tt

    Each-merge_loop : (fuel : ℕ) (msgs : List M) → Each P msgs → Each P (merge_loop json fuel msgs)
    unfolding merge_loop
    Each-merge_loop zero msgs k = tt
    Each-merge_loop (suc fuel) [] k = tt
    Each-merge_loop (suc fuel) (m ∷ msgs) (k, ks) =
        elim (Bool-cases (is_plain_text json m.content)) [
          | inl e ↦
              rw (e, merge_loop)
                (
                  EachContent-merged m (plain_run json m.role msgs).0 k,
                  Each-merge_loop fuel (plain_run json m.role msgs).1
                      (Each-plain_run m.role msgs ks),
                )
          | inr e ↦ rw (e, merge_loop) (k, Each-merge_loop fuel msgs ks)
        ]

    Each-ensure_starts_with_user :
        (msgs : List M) → Each P msgs → Each P (ensure_starts_with_user json msgs)
    unfolding ensure_starts_with_user
    Each-ensure_starts_with_user [] h = tt
    Each-ensure_starts_with_user (m ∷ msgs) h =
        if_both (Each P) (role_eq m.role Role.user) (m ∷ msgs)
          (empty_message json Role.user ∷ m ∷ msgs) (λ _. h) (λ _. (tt, h))

    Each-alternate :
        (last : Option Role) (msgs : List M) → Each P msgs → Each P (alternate json last msgs)
    unfolding alternate
    Each-alternate last [] h = tt
    Each-alternate none (m ∷ msgs) (h, hs) = (h, Each-alternate (some m.role) msgs hs)
    Each-alternate (some r) (m ∷ msgs) (h, hs) =
        let rest = alternate json (some m.role) msgs in
        let i = Each-alternate (some m.role) msgs hs in
        if_both (Each P) (role_eq r m.role) (empty_message json (opposite json m.role) ∷ m ∷ rest)
          (m ∷ rest) (λ _. (tt, (h, i))) (λ _. (h, i))

    EachBlock-map :
        (f : ContentBlock V → ContentBlock V)
        → ((b : ContentBlock V) → P (f b))
        → (bs : List (ContentBlock V)) → EachBlock P (map f bs)
    EachBlock-map f h [] = tt
    EachBlock-map f h (b ∷ bs) = (h b, EachBlock-map f h bs)

    EachContent-on_blocks :
        (f : ContentBlock V → ContentBlock V)
        → ((b : ContentBlock V) → P (f b))
        → (c : MessageContent V) → EachContent P (on_blocks json (map f) c)
    EachContent-on_blocks f h (plain t) = tt
    EachContent-on_blocks f h (blocks bs) = EachBlock-map f h bs

    Each-map_content :
        (f : ContentBlock V → ContentBlock V)
        → ((b : ContentBlock V) → P (f b))
        → (msgs : List M) → Each P (map (map_content json (map f)) msgs)
    Each-map_content f h [] = tt
    Each-map_content f h (m ∷ msgs) =
        (EachContent-on_blocks f h m.content, Each-map_content f h msgs)

    Each-late :
        (msgs : List M)
        → Each P msgs
        → Each P (
            alternate json none (
              ensure_starts_with_user json
                (merge_adjacent_same_role json (normalize_roles json msgs))))
    unfolding merge_adjacent_same_role
    Each-late msgs h =
        let n = normalize_roles json msgs in
        let k = merge_loop json (length n) n in
        Each-alternate none (ensure_starts_with_user json k) (
          Each-ensure_starts_with_user k
            (Each-merge_loop (length n) n (Each-normalize_roles msgs h)))

  text_block-IsToolFree : (t : Text) → IsToolFree (text_block json t)
  unfolding is_tool_use is_tool_result text_eq
  text_block-IsToolFree t = (refl, refl)

  textualize-IsToolFree : (b : ContentBlock V) → IsToolFree (textualize json b)
  unfolding textualize
  textualize-IsToolFree b =
      if_both IsToolFree (is_tool_use b) (tool_text json b)
        (if is_tool_result b then tool_result_text json b else b) (λ _. text_block-IsToolFree _)
        (λ u.
          if_both IsToolFree (is_tool_result b) (tool_result_text json b) b
            (λ _. text_block-IsToolFree _) (λ r. (u, r)))

  -- For a request without tools, no tool use and no tool result is left in any message.
  pub normalize_messages-IsToolFree :
      (msgs : List M) → Each IsToolFree (normalize_messages json msgs false)
  unfolding normalize_messages textualize_all_tool_content
  normalize_messages-IsToolFree msgs =
      Each-late IsToolFree (textualize_all_tool_content json msgs)
        (Each-map_content IsToolFree (textualize json) textualize-IsToolFree msgs)
