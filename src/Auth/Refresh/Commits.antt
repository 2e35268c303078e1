-- ===== src/Auth/Refresh/Commits.antt =====
-- The flag of `refresh` says whether the endpoint has committed.
use kiro_trust.Prelude.{
  ℕ, ◌*◌, ◌≡◌, refl, Bool, true, false, Option, none, some, ◌==◌, if_both, Result, ok, err,
}
use kiro_trust.Text.{Text, codes}
use kiro_trust.Text.Search.{is_empty}
use kiro_trust.Wire.{ℤ}
use kiro_trust.Auth.Refresh.{
  AuthError, refresh_rejected, refresh_incomplete, Credentials, TokenResponse, Body, unread, slow,
  abandoned, read, Exchange, timed_out, unsent, dropped, answered, Refreshed, in_range, incomplete,
  renewed, on_seconds, on_body, refresh, second,
}

-- The results that stand behind a 200: a credential, and an incomplete refresh.
abbrev pub is_incomplete : AuthError → Bool
is_incomplete (refresh_incomplete message) = true
is_incomplete _ = false

abbrev pub is_committed : Result Credentials AuthError → Bool
is_committed (ok c) = true
is_committed (err e) = is_incomplete e

-- The flag is what the result says, if there is one.
abbrev pub Says : Bool → Refreshed → Type 0
Says past none = Unit
Says past (some r) = past ≡ is_committed r

module _ (later : ℕ → ℕ → Option ℕ) (show : ℤ → Text) where
  Says-renewed :
      (creds : Credentials) (parsed : TokenResponse) (o : Option ℕ)
      → Says true (renewed later show creds parsed o)
  Says-renewed creds parsed none = refl
  Says-renewed creds parsed (some at) = refl

  Says-on_seconds :
      (creds : Credentials) (parsed : TokenResponse) (now : ℕ) (o : Option ℕ)
      → Says true (on_seconds later show creds parsed now o)
  Says-on_seconds creds parsed now none = refl
  Says-on_seconds creds parsed now (some n) = Says-renewed creds parsed (later now (n * second))

  Says-on_body : (creds : Credentials) (body : Body) → Says true (on_body later show creds body)
  Says-on_body creds (unread message) = refl
  Says-on_body creds slow = refl
  Says-on_body creds abandoned = tt
  Says-on_body creds (read none now) = refl
  Says-on_body creds (read (some parsed) now) =
      if_both (Says true) (is_empty parsed.access_token) (incomplete (codes "empty accessToken"))
        (on_seconds later show creds parsed now (in_range parsed.expires_in)) (λ _. refl)
        (λ _. Says-on_seconds creds parsed now (in_range parsed.expires_in))

  SaysOf : Bool × Refreshed → Type 0
  SaysOf (past, r) = Says past r

  -- However the request ends: if `refresh` returns, its flag is set exactly if it returns a
  -- credential or the error of an incomplete refresh.
  pub refresh-Says :
      (creds : Credentials) (x : Exchange)
      → let (past_200, r) = refresh later show creds x in Says past_200 r
  unfolding refresh SaysOf
  refresh-Says creds timed_out = refl
  refresh-Says creds (unsent message) = refl
  refresh-Says creds dropped = tt
  refresh-Says creds (answered status body) =
      if_both SaysOf (status == 200) (true, on_body later show creds body)
        (false, some (err (refresh_rejected status))) (λ _. Says-on_body creds body) (λ _. refl)
