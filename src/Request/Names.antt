-- ===== src/Request/Names.antt =====
-- Tool names of more than 64 bytes are shortened for the upstream, and restored on the way back
-- (crates/kiro-trust-protocol/src/translate/tool_names.rs).
pub mod Restored
pub mod Fits
use kiro_trust.Prelude.{
  ℕ, ◌+◌, ◌/◌, ◌%◌, ◌≤◌, ◌≡◌, Bool, Option, none, some, List, [], ◌∷◌, ◌++◌, take, ltb, leb,
  if◌then◌else◌,
}
use kiro_trust.Text.{Text, Bytes, text_eq}
use kiro_trust.Text.Utf8.{len, as_bytes}
use kiro_trust.Text.Slices.{prefix, back_off}

abbrev pub max_tool_name_len : ℕ
max_tool_name_len = 64

-- A `HashMap` is an association list: `get` finds what was inserted last.
pub record ToolNameMap : Type 0 where
  pub to_short : List (Text × Text)
  pub to_original : List (Text × Text)

abbrev pub no_names : ToolNameMap
no_names = record { to_short = []; to_original = [] }

unfoldable pub get : List (Text × Text) → Text → Option Text
get [] key = none
get ((k, v) ∷ entries) key = let rest = get entries key in if text_eq k key then some v else rest

-- The digit of `format!("{b:02x}")`
abbrev pub hex_digit : ℕ → ℕ
hex_digit d = if ltb d 10 then 0x30 + d else 0x57 + d

unfoldable pub to_hex : Bytes → Text
to_hex [] = []
to_hex (b ∷ digest) = hex_digit (b / 16 % 16) ∷ hex_digit (b % 16) ∷ to_hex digest

abbrev pub or_else : Option Text → Text → Text
or_else none s = s
or_else (some t) s = t

-- `sha256` is `Sha256::digest`, which is not part of the repository.
module _ (sha256 : Bytes → Bytes) where
  -- The characters of `hex` are ASCII, so 13 bytes are 13 of them.
  unfoldable pub short_name : Text → Text
  unfolding to_hex
  short_name name =
      prefix (back_off 50 name) name ++ (0x5F ∷ take 13 (to_hex (sha256 (as_bytes name))))

  abbrev pub remember : Option Text → Text → ToolNameMap → Text × ToolNameMap
  remember (some s) name m = (s, m)
  remember none name m = (
    short_name name,
    record {
      to_short = (name, short_name name) ∷ m.to_short;
      to_original = (short_name name, name) ∷ m.to_original;
    },
  )

  unfoldable pub shorten : Text → ToolNameMap → Text × ToolNameMap
  unfolding get
  shorten name m =
      if leb (len name) max_tool_name_len then (name, m) else remember (get m.to_short name) name m

unfoldable pub restore : ToolNameMap → Text → Text
unfolding get
restore m name = or_else (get m.to_original name) name

abbrev pub reverse_map : ToolNameMap → List (Text × Text)
reverse_map m = m.to_original
