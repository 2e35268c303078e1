-- ===== src/Response/Tags/Fuel.antt =====
-- The loop of `parse_tags` ends by itself
-- (crates/kiro-trust-protocol/src/translate/response.rs).
use kiro_trust.Prelude.{
  ℕ, zero, suc, ◌≤◌, ◌<◌, ◌≡◌, refl, sym, ap, ◌∙◌, Bool, true, false, inl, inr, Option-cases, [],
  ◌∷◌, ◌++◌, append-nil, length, arith,
}
use kiro_trust.Text.{Text}
use kiro_trust.Text.Search.{strip_prefix, find_split}
use kiro_trust.Text.Search.Lengths.{find_split-shorter}
use kiro_trust.Response.Tags.{
  Tags, open_tag, close_tag, partial_tag_suffix, Parsed, parse_round, parse_loop,
}

abbrev tags_of : Bool → Text → Bool → Tags
tags_of inside buf suppress = record {
  tag_inside = inside;
  tag_buf = buf;
  suppress_reasoning = suppress;
}

-- The loop, with `bottom` in the place of what it gives when its fuel is spent.
unfoldable pub parse_loop_or : (Text → Text → Tags → Parsed) → ℕ → Text → Text → Tags → Parsed
parse_loop_or bottom zero text think t = bottom text think t
parse_loop_or bottom (suc fuel) text think t = parse_round (parse_loop_or bottom fuel) text think t

parse_round_empty :
    (more : Text → Text → Tags → Parsed) (text think : Text) (inside suppress : Bool)
    → parse_round more text think (tags_of inside [] suppress)
      ≡ record { text = text; think = think; tags = tags_of inside [] suppress }
unfolding find_split strip_prefix partial_tag_suffix
parse_round_empty more text think true suppress =
    ap (λ (x : Text). record { text = text; think = x; tags = tags_of true [] suppress })
      (append-nil think)
parse_round_empty more text think false suppress =
    ap (λ (x : Text). record { text = x; think = think; tags = tags_of false [] suppress })
      (append-nil text)

parse_loop_empty :
    (fuel : ℕ) (text think : Text) (inside suppress : Bool)
    → parse_loop fuel text think (tags_of inside [] suppress)
      ≡ record { text = text; think = think; tags = tags_of inside [] suppress }
unfolding parse_loop
parse_loop_empty zero text think inside suppress = refl
parse_loop_empty (suc fuel) text think inside suppress =
    parse_round_empty (parse_loop fuel) text think inside suppress

-- A round hands on less of the buffer.
parse_round_more :
    (f g : Text → Text → Tags → Parsed) (text think : Text) (inside : Bool) (buf : Text)
    (suppress : Bool)
    → ((text think : Text) (inside : Bool) (rest : Text) (suppress : Bool)
        → length rest < length buf
        → f text think (tags_of inside rest suppress) ≡ g text think (tags_of inside rest suppress))
    → parse_round f text think (tags_of inside buf suppress)
      ≡ parse_round g text think (tags_of inside buf suppress)
parse_round_more f g text think inside [] suppress h =
    parse_round_empty f text think inside suppress
    ∙ sym (parse_round_empty g text think inside suppress)
parse_round_more f g text think true (c ∷ buf) suppress h =
    elim (Option-cases (find_split close_tag (c ∷ buf))) [
      | inl none_ ↦ rw (none_, parse_round) refl
      | inr ((before, behind), e) ↦
          let r = find_split-shorter _ _ (c ∷ buf) before behind e in
          rw (e, parse_round) (h text (think ++ before) false behind suppress (omega (arith, r)))
    ]
parse_round_more f g text think false (c ∷ buf) suppress h =
    elim (Option-cases (find_split open_tag (c ∷ buf))) [
      | inl none_ ↦ rw (none_, parse_round) refl
      | inr ((before, behind), e) ↦
          let r = find_split-shorter _ _ (c ∷ buf) before behind e in
          rw (e, parse_round) (h (text ++ before) think true behind true (omega (arith, r)))
    ]

rounds_end :
    (bottom : Text → Text → Tags → Parsed) (f g : ℕ) (text think : Text) (inside : Bool)
    (buf : Text) (suppress : Bool)
    → length buf < f
    → length buf ≤ g
    → parse_loop_or bottom f text think (tags_of inside buf suppress)
      ≡ parse_loop g text think (tags_of inside buf suppress)
unfolding parse_loop parse_loop_or
rounds_end bottom zero g text think inside buf suppress l k = absurd (omega arith)
rounds_end bottom (suc f) g text think inside [] suppress l k =
    parse_round_empty (parse_loop_or bottom f) text think inside suppress
    ∙ sym (parse_loop_empty g text think inside suppress)
rounds_end bottom (suc f) zero text think inside (c ∷ buf) suppress l k = absurd (omega arith)
rounds_end bottom (suc f) (suc g) text think inside (c ∷ buf) suppress l k =
    parse_round_more (parse_loop_or bottom f) (parse_loop g) text think inside (c ∷ buf) suppress
      (λ text' think' inside' rest suppress' n.
        rounds_end bottom f g text' think' inside' rest suppress' (omega arith) (omega arith))

-- With one round more than the buffer has characters, the loop of `parse_tags` comes to its own
-- end: what stands for spent fuel does not matter, whatever it is, and the result is that of the
-- fuel which `parse_tags` gives, the length of the buffer.
pub parse_loop_ends :
    (bottom : Text → Text → Tags → Parsed) (f : ℕ) (text think : Text) (t : Tags)
    → length t.tag_buf < f
    → parse_loop_or bottom f text think t ≡ parse_loop (length t.tag_buf) text think t
parse_loop_ends bottom f text think t l =
    rounds_end bottom f (length t.tag_buf) text think t.tag_inside t.tag_buf t.suppress_reasoning l
      (omega arith)
