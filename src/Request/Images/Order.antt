-- ===== src/Request/Images/Order.antt =====
-- Reordering tool results loses and repeats none.
use mathlib.Core.List.{Perm}
use mathlib.Core.List.Perm
use kiro_trust.Prelude.{
  subst, Option-cases, inl, inr, ◌||◌, Option, none, some, List, [], ◌∷◌, length, leb, if_both,
}
use kiro_trust.Text.{Text, text_eq}
use kiro_trust.Text.Search.{is_empty}
use kiro_trust.Request.Images.{ToolResult, found, take_answer, ordered, reorder_tool_results}

-- The answer and the others are what there was.
abbrev Taken : List ToolResult → Option (ToolResult × List ToolResult) → Type 0
Taken rs none = Unit
Taken rs (some (answer, rest)) = Perm (answer ∷ rest) rs

Taken-found :
    (r : ToolResult) (rs : List ToolResult) (o : Option (ToolResult × List ToolResult))
    → Taken rs o
    → Taken (r ∷ rs) (found r o)
Taken-found r rs none t = tt
Taken-found r rs (some (answer, rest)) t = Perm.trans (Perm.swap r answer rest) (Perm.cons r t)

Taken-take_answer : (id : Text) (rs : List ToolResult) → Taken rs (take_answer id rs)
unfolding take_answer
Taken-take_answer id [] = tt
Taken-take_answer id (r ∷ rs) =
    if_both (Taken (r ∷ rs)) (text_eq r.tool_use_id id) (some (r, rs)) (found r (take_answer id rs))
      (λ _. Perm.refl (r ∷ rs))
      (λ _. Taken-found r rs (take_answer id rs) (Taken-take_answer id rs))

ordered-Perm : (ids : List Text) (rs : List ToolResult) → Perm (ordered ids rs) rs
unfolding ordered
ordered-Perm [] rs = Perm.refl rs
ordered-Perm (id ∷ ids) rs = elim (Option-cases (take_answer id rs)) [
  | inl e ↦ rw (e, ordered) (ordered-Perm ids rs)
  | inr ((answer, rest), e) ↦
      rw (e, ordered)
        (Perm.trans (Perm.cons answer (ordered-Perm ids rest))
          (subst (Taken rs) e (Taken-take_answer id rs)))
]

-- Whatever the ids of the tool uses are, the results are those there were, each as often.
pub reorder_tool_results-Perm :
    (results : List ToolResult) (ids : List Text) → Perm (reorder_tool_results results ids) results
unfolding reorder_tool_results
reorder_tool_results-Perm results ids =
    if_both (λ rs. Perm rs results) (leb (length results) 1 || is_empty ids) results
      (ordered ids results) (λ _. Perm.refl results) (λ _. ordered-Perm ids results)
