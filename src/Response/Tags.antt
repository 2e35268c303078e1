-- ===== src/Response/Tags.antt =====
-- `<thinking>` tags in the text of the upstream: `parse_tags` and `partial_tag_suffix`
-- (crates/kiro-trust-protocol/src/translate/response.rs).
pub mod Fuel
use kiro_trust.Prelude.{
  ℕ, zero, suc, ◌-◌, min, Bool, true, false, not, ◌&&◌, none, some, [], ◌++◌, length, take, drop,
  if◌then◌else◌,
}
use kiro_trust.Text.{Text, codes, text_eq}
use kiro_trust.Text.Search.{is_empty, has_char, find_split}

abbrev pub open_tag : Text
open_tag = codes "<thinking>"

abbrev pub close_tag : Text
close_tag = codes "</thinking>"

-- The fields of the translator that are about tags.
pub record Tags : Type 0 where
  pub tag_inside : Bool
  pub tag_buf : Text
  pub suppress_reasoning : Bool

abbrev pub no_tags : Tags
no_tags = record { tag_inside = false; tag_buf = []; suppress_reasoning = false }

-- `for n in (1..=max).rev()`, from `n` on down. The tags are ASCII, so a suffix of `n` bytes that
-- equals `n` bytes of the tag is a suffix of `n` characters.
unfoldable pub longest_suffix : ℕ → Text → Text → ℕ
longest_suffix zero s tag = 0
longest_suffix (suc n) s tag =
    let rest = longest_suffix n s tag in
    if text_eq (drop (length s - suc n) s) (take (suc n) tag) then suc n else rest

unfoldable pub partial_tag_suffix : Text → Text → ℕ
unfolding longest_suffix
partial_tag_suffix s tag = longest_suffix (min (length tag - 1) (length s)) s tag

pub record Parsed : Type 0 where
  pub text : Text
  pub think : Text
  pub tags : Tags

-- The body of the loop, `more` being the loop: the text before an opening tag, or all but a suffix
-- that may begin one; likewise inside. A round that finds no tag is the last.
abbrev pub parse_round : (Text → Text → Tags → Parsed) → Text → Text → Tags → Parsed
parse_round more text think t = elim t.tag_inside [
  | true ↦ elim (find_split close_tag t.tag_buf) [
    | some (before, behind) ↦
        more text (think ++ before) (record t { tag_buf = behind; tag_inside = false })
    | none ↦
        let cut = length t.tag_buf - partial_tag_suffix t.tag_buf close_tag in
        record {
          text = text;
          think = think ++ take cut t.tag_buf;
          tags = record t { tag_buf = drop cut t.tag_buf };
        }
  ]
  | false ↦ elim (find_split open_tag t.tag_buf) [
    | some (before, behind) ↦
        more (text ++ before) think
          (record { tag_buf = behind; tag_inside = true; suppress_reasoning = true })
    | none ↦
        let cut = length t.tag_buf - partial_tag_suffix t.tag_buf open_tag in
        record {
          text = text ++ take cut t.tag_buf;
          think = think;
          tags = record t { tag_buf = drop cut t.tag_buf };
        }
  ]
]

-- Each round that finds a tag takes it out of the buffer, so the length of the buffer is fuel
-- enough.
unfoldable pub parse_loop : ℕ → Text → Text → Tags → Parsed
parse_loop zero text think t = record { text = text; think = think; tags = t }
parse_loop (suc fuel) text think t = parse_round (parse_loop fuel) text think t

unfoldable pub parse_tags : Tags → Text → Parsed
unfolding parse_loop
parse_tags t delta =
    if is_empty t.tag_buf && not t.tag_inside && not (has_char 0x3C delta)
    then record { text = delta; think = []; tags = t }
    else (let buf = t.tag_buf ++ delta in
        parse_loop (length buf) [] [] (record t { tag_buf = buf }))
