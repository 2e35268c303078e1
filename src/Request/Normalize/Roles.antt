-- ===== src/Request/Normalize/Roles.antt =====
-- The roles of a normalized conversation.
use kiro_trust.Prelude.{
  ℕ, zero, suc, ◌≡◌, ◌≢◌, refl, subst, Bool, Bool-cases, inl, inr, true, ◌&&◌, none, some, List, [],
  ◌∷◌, length, if◌then◌else◌, if_both, arith,
}
use kiro_trust.Json.{SerdeJson}
use kiro_trust.Anthropic.Messages.{Role, Message, role_eq}
use kiro_trust.Request.Normalize.{
  with_user_role, normalize_roles, plain_run, merged, merge_loop, merge_adjacent_same_role,
  empty_message, ensure_starts_with_user, opposite, alternate, is_plain_text, normalize_messages,
  textualize_all_tool_content, textualize_orphan_tool_results,
}

-- The role that a message must have behind one of this role; the first is the user's.
abbrev pub expected : Role → Role
expected Role.user = Role.assistant
expected Role.assistant = Role.user
expected Role.other = Role.user

-- The roles are `r` and its opposite, in turn.
unfoldable pub TurnsFrom : {V : Type 0} → Role → List (Message V) → Type 0
TurnsFrom r [] = Unit
TurnsFrom r (m ∷ msgs) = (m.role ≡ r) × TurnsFrom (expected r) msgs

-- No message has another role than these two.
abbrev pub Known : {V : Type 0} → List (Message V) → Type 0
Known [] = Unit
Known (m ∷ msgs) = (m.role ≢ Role.other) × Known msgs

module _ (json : SerdeJson) where
  abbrev V : Type 0
  V = json.Value

  abbrev M : Type 0
  M = Message V

  with_user_role-known : (m : M) → (with_user_role json m).role ≢ Role.other
  with_user_role-known m = ground arith

  normalize_roles-Known : (msgs : List M) → Known (normalize_roles json msgs)
  normalize_roles-Known [] = tt
  normalize_roles-Known (m ∷ msgs) = (with_user_role-known m, normalize_roles-Known msgs)

  plain_run-Known : (r : Role) (msgs : List M) → Known msgs → Known (plain_run json r msgs).1
  unfolding plain_run
  plain_run-Known r [] k = tt
  plain_run-Known r (m ∷ msgs) (k, ks) =
      let q = plain_run json r msgs in
      if_both (λ (z : List M × List M). Known z.1)
        (role_eq m.role r && is_plain_text json m.content) (m ∷ q.0, q.1) ([], m ∷ msgs)
        (λ _. plain_run-Known r msgs ks) (λ _. (k, ks))

  merged-role : (m : M) (run : List M) → (merged json m run).role ≡ m.role
  merged-role m [] = refl
  merged-role m (n ∷ run) = refl

  merge_loop-Known : (fuel : ℕ) (msgs : List M) → Known msgs → Known (merge_loop json fuel msgs)
  unfolding merge_loop
  merge_loop-Known zero msgs k = tt
  merge_loop-Known (suc fuel) [] k = tt
  merge_loop-Known (suc fuel) (m ∷ msgs) (k, ks) =
      elim (Bool-cases (is_plain_text json m.content)) [
        | inl e ↦
            rw (e, merge_loop)
              (
                λ o. k (rw merged-role at o),
                merge_loop-Known fuel (plain_run json m.role msgs).1
                    (plain_run-Known m.role msgs ks),
              )
        | inr e ↦ rw (e, merge_loop) (k, merge_loop-Known fuel msgs ks)
      ]

  role_user : (r : Role) → role_eq r Role.user ≡ true → r ≡ Role.user
  role_user r h = ground arith

  user_known : Role.user ≢ Role.other
  user_known e = cc

  turn :
      (r s : Role) (m : M) (rest : List M)
      → r ≢ Role.other
      → s ≢ Role.other
      → m.role ≡ s
      → TurnsFrom (expected s) rest
      → TurnsFrom
          (expected r)
          (if role_eq r s then empty_message json (opposite json s) ∷ m ∷ rest else m ∷ rest)
  unfolding TurnsFrom
  turn Role.user Role.user m rest k l e t = (refl, (e, t))
  turn Role.user Role.assistant m rest k l e t = (e, t)
  turn Role.assistant Role.user m rest k l e t = (e, t)
  turn Role.assistant Role.assistant m rest k l e t = (refl, (e, t))
  turn Role.other s m rest k l e t = absurd (k refl)
  turn r Role.other m rest k l e t = absurd (l refl)

  alternate-TurnsFrom :
      (r : Role) (msgs : List M)
      → r ≢ Role.other
      → Known msgs
      → TurnsFrom (expected r) (alternate json (some r) msgs)
  unfolding alternate TurnsFrom
  alternate-TurnsFrom r [] k ks = tt
  alternate-TurnsFrom r (m ∷ msgs) k (l, ks) =
      let rest = alternate-TurnsFrom m.role msgs l ks in
      turn r m.role m (alternate json (some m.role) msgs) k l refl rest

  starts-TurnsFrom :
      (msgs : List M)
      → Known msgs
      → TurnsFrom Role.user (alternate json none (ensure_starts_with_user json msgs))
  unfolding ensure_starts_with_user alternate TurnsFrom
  starts-TurnsFrom [] k = tt
  starts-TurnsFrom (m ∷ msgs) (k, ks) =
      if_both (λ z. TurnsFrom Role.user (alternate json none z)) (role_eq m.role Role.user)
        (m ∷ msgs) (empty_message json Role.user ∷ m ∷ msgs)
        (λ e.
          let q = role_user m.role e in
          (
            q,
            subst (λ r. TurnsFrom (expected r) (alternate json (some m.role) msgs)) q
                (alternate-TurnsFrom m.role msgs k ks),
          ))
        (λ e. (refl, alternate-TurnsFrom Role.user (m ∷ msgs) user_known (k, ks)))

  -- Whatever the messages are, their normal form starts with the user, and the user and the
  -- assistant take turns.
  pub normalize_messages-TurnsFrom :
      (msgs : List M) (has_tools : Bool)
      → TurnsFrom Role.user (normalize_messages json msgs has_tools)
  unfolding normalize_messages merge_adjacent_same_role
  normalize_messages-TurnsFrom msgs has_tools =
      let msgs1 =
        if has_tools
        then textualize_orphan_tool_results json msgs
        else textualize_all_tool_content json msgs in
      let n = normalize_roles json msgs1 in
      starts-TurnsFrom (merge_adjacent_same_role json n)
        (merge_loop-Known (length n) n (normalize_roles-Known msgs1))
