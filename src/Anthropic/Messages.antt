-- ===== src/Anthropic/Messages.antt =====
-- The messages of a request (crates/kiro-trust-protocol/src/anthropic.rs). `V` is the type of JSON
-- values.
use kiro_trust.Prelude.{Bool, true, false, ◌||◌, Option, List, [], ◌∷◌}
use kiro_trust.Text.{Text, codes, text_eq}

pub data Role : Type 0 where
  user assistant other : Role

pub record ImageSource : Type 0 where
  pub kind : Text
  pub media_type : Text
  pub data_ : Text

pub record CacheControl : Type 0 where
  pub kind : Text

-- The fields of a `ContentBlock` but `content`, which may hold blocks again.
pub record BlockFields (V : Type 0) : Type 0 where
  pub kind : Text
  pub text : Option Text
  pub thinking : Option Text
  pub signature : Option Text
  pub data_ : Option Text
  pub id : Option Text
  pub name : Option Text
  pub input : Option V
  pub tool_use_id : Option Text
  pub is_error : Bool
  pub source : Option ImageSource
  pub cache_control : Option CacheControl

-- `absent` is the content of a block that has none, and `Blocks` the list of them.
mutual
  pub data ContentBlock (V : Type 0) : Type 0 where
    block : BlockFields V → ToolResultContent V → ContentBlock V

  pub data ToolResultContent (V : Type 0) : Type 0 where
    absent : ToolResultContent V
    text : Text → ToolResultContent V
    blocks : Blocks V → ToolResultContent V

  pub data Blocks (V : Type 0) : Type 0 where
    nil : Blocks V
    cons : ContentBlock V → Blocks V → Blocks V

pub data MessageContent (V : Type 0) : Type 0 where
  plain : Text → MessageContent V
  blocks : List (ContentBlock V) → MessageContent V

pub record Message (V : Type 0) : Type 0 where
  pub role : Role
  pub content : MessageContent V

abbrev pub role_eq : Role → Role → Bool
role_eq Role.user Role.user = true
role_eq Role.assistant Role.assistant = true
role_eq Role.other Role.other = true
role_eq _ _ = false

module _ {V : Type 0} where
  abbrev pub fields : ContentBlock V → BlockFields V
  fields (block f c) = f

  abbrev pub content_of : ContentBlock V → ToolResultContent V
  content_of (block f c) = c

  abbrev pub listed : Blocks V → List (ContentBlock V)
  listed nil = []
  listed (cons b bs) = b ∷ listed bs

  abbrev pub is_kind : Text → ContentBlock V → Bool
  is_kind kind b = text_eq (fields b).kind kind

  unfoldable pub is_tool_use : ContentBlock V → Bool
  is_tool_use b = is_kind (codes "tool_use") b || is_kind (codes "server_tool_use") b

  unfoldable pub is_tool_result : ContentBlock V → Bool
  is_tool_result b = is_kind (codes "tool_result") b || is_kind (codes "tool_search_tool_result") b
