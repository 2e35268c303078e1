-- ===== src/Request/Images.antt =====
-- Images and tool results of messages (crates/kiro-trust-protocol/src/translate/content.rs)
pub mod Limits
pub mod Order
use kiro_trust.Prelude.{
  ℕ, zero, suc, ◌+◌, ◌*◌, ◌≡◌, Bool, true, false, not, ◌||◌, ◌&&◌, Option, none, some, List, [],
  ◌∷◌, ◌++◌, map, length, ltb, leb, ◌==◌, if◌then◌else◌, Result, ok, err,
}
use kiro_trust.Text.{Text, Bytes, codes, text_eq}
use kiro_trust.Text.Search.{is_empty}
use kiro_trust.Anthropic.Messages
use kiro_trust.Anthropic.Messages.{
  ImageSource, ContentBlock, MessageContent, ToolResultContent, plain, blocks, absent, fields,
  content_of, listed, is_kind, is_tool_use, is_tool_result,
}
use kiro_trust.Request.Content.{filter, contains, unwrap_or, extract_tool_result_text}

abbrev pub max_images_per_request : ℕ
max_images_per_request = 10

abbrev pub max_image_bytes : ℕ
max_image_bytes = 10 * 1024 * 1024

abbrev pub image_formats : List Text
image_formats = codes "gif" ∷ codes "jpeg" ∷ codes "png" ∷ codes "webp" ∷ []

pub data ImageError : Type 0 where
  unsupported_media_type : (media_type : Text) → ImageError
  invalid_base64 : ImageError
  too_large : (decoded_bytes : ℕ) → ImageError
  too_many : (count : ℕ) → ImageError

-- `source.bytes` of an `Image` of crates/kiro-trust-protocol/src/kiro.rs is `bytes` here.
pub record Image : Type 0 where
  pub format : Text
  pub bytes : Text

-- A tool result has one content, whose `json` this holds.
pub record ResultJson : Type 0 where
  pub exit_status : Text
  pub stdout : Text
  pub stderr : Text

pub record ToolResult : Type 0 where
  pub tool_use_id : Text
  pub status : Text
  pub json : ResultJson

-- A fallible step on the request's count of images.
abbrev pub Counted {ℓ} : Type ℓ → Type ℓ
Counted A = ℕ → Result A ImageError × ℕ

module _ {A B : Type 0} where
  abbrev pub continue_with : (A → Counted B) → Result A ImageError × ℕ → Result B ImageError × ℕ
  continue_with f (err e, n) = (err e, n)
  continue_with f (ok x, n) = f x n

  infixl 1 ◌>>=◌
  -- `?` behind a step
  abbrev pub ◌>>=◌ : Counted A → (A → Counted B) → Counted B
  (m >>= f) n = continue_with f (m n)

abbrev pub give : {A : Type 0} → A → Counted A
give x n = (ok x, n)

-- `rsplit('/').next()`: what is behind the last slash, or all of it.
unfoldable pub last_part : Text → Text → Text
last_part part [] = part
last_part part (c ∷ s) = if c == 0x2F then last_part s s else last_part part s

abbrev pub result_json : Text → Bool → ResultJson
result_json text is_error = record {
  exit_status = if is_error then codes "1" else codes "0";
  stdout = text;
  stderr = [];
}

abbrev pub count_image : Image → Counted (Option Image)
count_image image n =
    if leb (suc n) max_images_per_request
    then (ok (some image), suc n)
    else (err (too_many (suc n)), suc n)

abbrev pub on_decoded : Option Bytes → Image → Counted (Option Image)
on_decoded none image n = (err invalid_base64, n)
on_decoded (some decoded) image n =
    if ltb max_image_bytes (length decoded)
    then (err (too_large (length decoded)), n)
    else count_image image n

abbrev pub with_image : Option Image → List Image → List Image
with_image none images = images
with_image (some image) images = image ∷ images

-- `base64` is the standard engine's `decode`, which is not part of the repository.
module _ (base64 : Text → Option Bytes) where
  abbrev pub convert_source : ImageSource → Counted (Option Image)
  convert_source src n =
      let format = last_part src.media_type src.media_type in
      if not (text_eq src.kind (codes "base64"))
      then (ok none, n)
      else if not (contains image_formats format)
      then (err (unsupported_media_type src.media_type), n)
      else on_decoded (base64 src.data_) (record { format = format; bytes = src.data_ }) n

  abbrev pub convert : Option ImageSource → Counted (Option Image)
  convert none n = (ok none, n)
  convert (some src) n = convert_source src n

-- `decimal` is the digits of a number.
module _ (decimal : ℕ → Text) where
  abbrev pub noticed : Text → List Image → Text
  noticed text [] = text
  noticed text (i ∷ is) =
      let notice =
        codes "["
        ++ decimal (length (i ∷ is))
        ++ codes " image(s) from this tool result attached to the message]" in
      if is_empty text then notice else text ++ codes "\n" ++ notice

module _ {V : Type 0} where
  unfoldable pub tool_result : ContentBlock V → Text → ToolResult
  tool_result b text =
      let text' = if is_empty text then codes "(empty result)" else text in
      record {
        tool_use_id = unwrap_or [] (fields b).tool_use_id;
        status = if (fields b).is_error then codes "error" else codes "success";
        json = result_json text' (fields b).is_error;
      }

  module _ (base64 : Text → Option Bytes) (decimal : ℕ → Text) where
    unfoldable pub convert_image : ContentBlock V → Counted (Option Image)
    unfolding last_part contains
    convert_image b = convert base64 (fields b).source

    unfoldable pub promote : List (ContentBlock V) → Counted (List Image)
    promote [] = give []
    promote (b ∷ bs) = convert_image b >>= λ o. promote bs >>= λ images. give (with_image o images)

    unfoldable pub promote_tool_result_images : ToolResultContent V → Counted (List Image)
    unfolding promote filter
    promote_tool_result_images absent = give []
    promote_tool_result_images (ToolResultContent.text t) = give []
    promote_tool_result_images (ToolResultContent.blocks bs) =
        promote (filter (is_kind (codes "image")) (listed bs))

    unfoldable pub scan_tool_result : ContentBlock V → Counted (ToolResult × List Image)
    unfolding promote_tool_result_images
    scan_tool_result b = promote_tool_result_images (content_of b) >>= λ promoted.
        give (tool_result b (noticed decimal (extract_tool_result_text b) promoted), promoted)

    unfoldable pub scan_results : List (ContentBlock V) → Counted (List ToolResult × List Image)
    unfolding scan_tool_result
    scan_results [] = give ([], [])
    scan_results (b ∷ bs) = scan_tool_result b >>= λ (result, promoted).
        scan_results bs >>= λ (results, images). give (result ∷ results, promoted ++ images)

    -- `scan_tool_results`
    unfoldable pub extract_tool_results : MessageContent V → Counted (List ToolResult × List Image)
    unfolding scan_results filter
    extract_tool_results (plain t) = give ([], [])
    extract_tool_results (blocks bs) = scan_results (filter is_tool_result bs)

    abbrev pub scan_block : ContentBlock V → Counted (List ToolResult × List Image)
    scan_block b n =
        if is_tool_result b
        then (scan_tool_result b >>= λ (result, promoted). give (result ∷ [], promoted)) n
        else if is_kind (codes "image") b
        then (convert_image b >>= λ o. give ([], with_image o [])) n
        else (ok ([], []), n)

    unfoldable pub scan_blocks : List (ContentBlock V) → Counted (List ToolResult × List Image)
    scan_blocks [] = give ([], [])
    scan_blocks (b ∷ bs) = scan_block b >>= λ (results, images).
        scan_blocks bs >>= λ (results', images'). give (results ++ results', images ++ images')

    unfoldable pub scan_current_message : MessageContent V → Counted (List ToolResult × List Image)
    unfolding scan_blocks
    scan_current_message (plain t) = give ([], [])
    scan_current_message (blocks bs) = scan_blocks bs

-- The first result that answers `id`, and the others.
abbrev pub found :
    ToolResult → Option (ToolResult × List ToolResult) → Option (ToolResult × List ToolResult)
found r none = none
found r (some (answer, rest)) = some (answer, r ∷ rest)

unfoldable pub take_answer : Text → List ToolResult → Option (ToolResult × List ToolResult)
take_answer id [] = none
take_answer id (r ∷ rs) =
    let later = take_answer id rs in
    if text_eq r.tool_use_id id then some (r, rs) else found r later

unfoldable pub ordered : List Text → List ToolResult → List ToolResult
unfolding take_answer
ordered [] results = results
ordered (id ∷ ids) results = elim (take_answer id results) [
  | none ↦ ordered ids results
  | some (answer, rest) ↦ answer ∷ ordered ids rest
]

unfoldable pub reorder_tool_results : List ToolResult → List Text → List ToolResult
unfolding ordered
reorder_tool_results results ids =
    if leb (length results) 1 || is_empty ids then results else ordered ids results
