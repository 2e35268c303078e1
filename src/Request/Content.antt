-- ===== src/Request/Content.antt =====
-- Content of messages (crates/kiro-trust-protocol/src/translate/content.rs)
use kiro_trust.Prelude.{
  Bool, false, ◌||◌, Option, none, some, List, [], ◌∷◌, ◌++◌, map, if◌then◌else◌,
}
use kiro_trust.Text.{Text, codes, text_eq}
use kiro_trust.Text.Search.{is_empty}
use kiro_trust.Anthropic.Messages.{
  ContentBlock, MessageContent, ToolResultContent, plain, blocks, absent, fields, content_of,
  listed, is_kind,
}

-- `join`
unfoldable pub join : Text → List Text → Text
join sep [] = []
join sep (s ∷ []) = s
join sep (s ∷ t ∷ ss) = s ++ sep ++ join sep (t ∷ ss)

unfoldable pub filter {ℓ} : {A : Type ℓ} → (A → Bool) → List A → List A
filter p [] = []
filter p (x ∷ xs) = let rest = filter p xs in if p x then x ∷ rest else rest

abbrev pub unwrap_or {ℓ} : {A : Type ℓ} → A → Option A → A
unwrap_or d none = d
unwrap_or d (some x) = x

abbrev pub or_option : Option Text → Option Text → Option Text
or_option (some s) t = some s
or_option none t = t

abbrev pub skipped : List Text
skipped =
    codes "thinking"
    ∷ codes "redacted_thinking"
    ∷ codes "tool_use"
    ∷ codes "tool_result"
    ∷ codes "image"
    ∷ codes "tool_reference"
    ∷ codes "server_tool_use"
    ∷ codes "tool_search_tool_result"
    ∷ []

unfoldable pub contains : List Text → Text → Bool
contains [] s = false
contains (t ∷ ts) s = text_eq t s || contains ts s

-- `[type: name]`
abbrev pub tagged : Text → Text → Text
tagged kind ident =
    if is_empty ident
    then codes "[" ++ kind ++ codes "]"
    else codes "[" ++ kind ++ codes ": " ++ ident ++ codes "]"

module _ {V : Type 0} where
  unfoldable pub block_text : ContentBlock V → Option Text
  unfolding contains
  block_text b =
      if is_kind (codes "text") b
      then some (unwrap_or [] (fields b).text)
      else if contains skipped (fields b).kind
      then none
      else some (tagged (fields b).kind (unwrap_or [] (or_option (fields b).name (fields b).id)))

  unfoldable pub texts_of : List (ContentBlock V) → List Text
  unfolding block_text
  texts_of [] = []
  texts_of (b ∷ bs) =
      let rest = texts_of bs in elim (block_text b) [ none ↦ rest | some t ↦ t ∷ rest ]

  unfoldable pub extract_text : MessageContent V → Text
  unfolding texts_of join
  extract_text (plain t) = t
  extract_text (blocks bs) = join (codes " ") (texts_of bs)

  unfoldable pub result_text : ToolResultContent V → Text
  unfolding join filter
  result_text absent = []
  result_text (ToolResultContent.text t) = t
  result_text (ToolResultContent.blocks bs) =
      join (codes "\n")
        (map (λ b. unwrap_or [] (fields b).text) (filter (is_kind (codes "text")) (listed bs)))

  abbrev pub extract_tool_result_text : ContentBlock V → Text
  extract_tool_result_text b = result_text (content_of b)
