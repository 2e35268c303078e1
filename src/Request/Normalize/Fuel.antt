-- ===== src/Request/Normalize/Fuel.antt =====
-- The loop that merges messages ends: their number is fuel enough.
use kiro_trust.Prelude.{
  ℕ, zero, suc, ◌≤◌, ◌≡◌, refl, ap, Bool-cases, inl, inr, ◌&&◌, List, [], ◌∷◌, length, if_both,
  arith,
}
use kiro_trust.Json.{SerdeJson}
use kiro_trust.Anthropic.Messages.{Role, Message, role_eq}
use kiro_trust.Request.Normalize.{plain_run, merged, merge_loop, is_plain_text}

module _ (json : SerdeJson) where
  abbrev M : Type 0
  M = Message json.Value

  plain_run_le : (r : Role) (msgs : List M) → length (plain_run json r msgs).1 ≤ length msgs
  unfolding plain_run
  plain_run_le r [] = omega arith
  plain_run_le r (m ∷ msgs) =
      let q = plain_run json r msgs in
      let l = plain_run_le r msgs in
      if_both (λ (z : List M × List M). length z.1 ≤ suc (length msgs))
        (role_eq m.role r && is_plain_text json m.content) (m ∷ q.0, q.1) ([], m ∷ msgs)
        (λ _. omega (arith, l)) (λ _. omega arith)

  -- With as much fuel as there are messages or more, one more changes nothing.
  pub merge_loop_enough :
      (fuel : ℕ) (msgs : List M)
      → length msgs ≤ fuel
      → merge_loop json (suc fuel) msgs ≡ merge_loop json fuel msgs
  unfolding merge_loop
  merge_loop_enough zero [] h = refl
  merge_loop_enough zero (m ∷ msgs) h = absurd (omega arith)
  merge_loop_enough (suc fuel) [] h = refl
  merge_loop_enough (suc fuel) (m ∷ msgs) h = elim (Bool-cases (is_plain_text json m.content)) [
    | inl e ↦
        let rest = (plain_run json m.role msgs).1 in
        let l = plain_run_le m.role msgs in
        rw (e, merge_loop)
          (ap (λ ms. merged json m (plain_run json m.role msgs).0 ∷ ms)
            (merge_loop_enough fuel rest (omega (arith, l, h))))
    | inr e ↦
        rw (e, merge_loop) (ap (λ ms. m ∷ ms) (merge_loop_enough fuel msgs (omega (arith, h))))
  ]
