-- ===== src/Auth/Refresh.antt =====
-- The OIDC refresh (crates/kiro-trust-auth/src/refresh.rs). Points in time are in nanoseconds behind
-- the UNIX epoch.
pub mod Commits
use kiro_trust.Prelude.{
  ℕ, ◌+◌, ◌*◌, Bool, true, false, Option, none, some, List, [], ◌∷◌, ◌++◌, ltb, leb, ◌==◌,
  if◌then◌else◌, Result, ok, err,
}
use kiro_trust.Text.{Text, Bytes, codes}
use kiro_trust.Text.Search.{is_empty}
use kiro_trust.Wire.{ℤ, pos, negsuc}

-- `region` and `net` carry the text of the error that they hold.
pub data AuthError : Type 0 where
  open_ query : Text → AuthError
  no_credentials : AuthError
  unsupported : Text → AuthError
  bad_token_json missing_device_registration no_sso_region no_runtime_region : AuthError
  region refresh_failed : Text → AuthError
  refresh_rejected : (status : ℕ) → AuthError
  net refresh_incomplete reauth_required : Text → AuthError

pub record Credentials : Type 0 where
  pub access_token : Text
  pub refresh_token : Text
  pub client_id : Text
  pub client_secret : Text
  pub expires_at : ℕ
  pub sso_region : Text
  pub runtime_region : Text
  pub profile_arn : Text

pub record TokenResponse : Type 0 where
  pub access_token : Text
  pub refresh_token : Option Text
  pub expires_in : ℤ

abbrev pub max_expires_in_secs : ℕ
max_expires_in_secs = 31536000

abbrev pub second : ℕ
second = 1000000000

-- How the body of a 200 arrives; `parsed` is what serde_json makes of it, and `now` the time then.
pub data Body : Type 0 where
  unread : (message : Text) → Body
  slow : Body
  abandoned : Body
  read : (parsed : Option TokenResponse) (now : ℕ) → Body

-- How the request ends; the caller may drop the future at any point.
pub data Exchange : Type 0 where
  timed_out : Exchange
  unsent : (message : Text) → Exchange
  dropped : Exchange
  answered : (status : ℕ) (body : Body) → Exchange

-- `none` is a future that was dropped.
abbrev pub Refreshed : Type 0
Refreshed = Option (Result Credentials AuthError)

abbrev pub in_range : ℤ → Option ℕ
in_range (negsuc n) = none
in_range (pos n) = if n == 0 then none else if ltb max_expires_in_secs n then none else some n

abbrev pub token_of : Option Text → Text → Text
token_of none old = old
token_of (some t) old = if is_empty t then old else t

abbrev pub incomplete : Text → Refreshed
incomplete message = some (err (refresh_incomplete message))

-- `later` is `SystemTime::checked_add`, and `show` the digits of a number.
module _ (later : ℕ → ℕ → Option ℕ) (show : ℤ → Text) where
  abbrev pub renewed : Credentials → TokenResponse → Option ℕ → Refreshed
  renewed creds parsed none = incomplete (codes "expiresIn out of range")
  renewed creds parsed (some at) = some (
      ok (record creds {
        access_token = parsed.access_token;
        refresh_token = token_of parsed.refresh_token creds.refresh_token;
        expires_at = at;
      }))

  abbrev pub on_seconds : Credentials → TokenResponse → ℕ → Option ℕ → Refreshed
  on_seconds creds parsed now none =
      incomplete (codes "invalid expiresIn " ++ show parsed.expires_in)
  on_seconds creds parsed now (some n) = renewed creds parsed (later now (n * second))

  abbrev pub on_token : Credentials → Option TokenResponse → ℕ → Refreshed
  on_token creds none now = incomplete (codes "response was not the expected JSON")
  on_token creds (some parsed) now =
      if is_empty parsed.access_token
      then incomplete (codes "empty accessToken")
      else on_seconds creds parsed now (in_range parsed.expires_in)

  abbrev pub on_body : Credentials → Body → Refreshed
  on_body creds (unread message) = incomplete message
  on_body creds slow = incomplete (codes "timed out")
  on_body creds abandoned = none
  on_body creds (read parsed now) = on_token creds parsed now

  -- The flag `past_200`, and what the call gives.
  unfoldable pub refresh : Credentials → Exchange → Bool × Refreshed
  refresh creds timed_out = (false, some (err (refresh_failed (codes "timed out"))))
  refresh creds (unsent message) = (false, some (err (net message)))
  refresh creds dropped = (false, none)
  refresh creds (answered status body) =
      if status == 200
      then (true, on_body creds body)
      else (false, some (err (refresh_rejected status)))
