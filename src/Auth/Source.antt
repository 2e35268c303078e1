-- ===== src/Auth/Source.antt =====
-- The cache of credentials and its refresh (crates/kiro-trust-auth/src/source.rs). A cycle of
-- `current` holds the gate, so it is one step; `invalidate` only sets a flag that a cycle reads once,
-- at its start. What the clock, the database and the network answer is the argument of a cycle.
pub mod Marks
pub mod Spent
use kiro_trust.Prelude.{
  ℕ, ◌+◌, Bool, true, false, not, ◌&&◌, ◌||◌, Option, none, some, List, [], ◌∷◌, ◌++◌, ltb, leb,
  ◌==◌, if◌then◌else◌, Result, ok, err,
}
use kiro_trust.Text.{Text, codes}
use kiro_trust.Wire.{ℤ}
use kiro_trust.Auth.Refresh.{AuthError, reauth_required, Credentials, Exchange, Refreshed, refresh}

pub record Cached : Type 0 where
  pub creds : Credentials
  pub minted_by_refresh : Bool

pub record TokenSource : Type 0 where
  pub runtime_override : Option Text
  pub cached : Option Cached
  pub validity_buffer : ℕ
  pub forced : Bool
  pub burned : List ℕ
  pub burned_unparsable : Bool

abbrev pub validity_buffer_ : ℕ
validity_buffer_ = 300000000000

unfoldable pub new : Option Text → TokenSource
new runtime_override = record {
  runtime_override = runtime_override;
  cached = none;
  validity_buffer = validity_buffer_;
  forced = false;
  burned = [];
  burned_unparsable = false;
}

-- The clock at each test of validity, the two reads of the database and the two exchanges.
pub record Cycle : Type 0 where
  pub now_gate : ℕ
  pub now_db : ℕ
  pub now_minted : ℕ
  pub db : Result Credentials AuthError
  pub exchange : Exchange
  pub db_again : Result Credentials AuthError
  pub exchange_again : Exchange

-- A refresh token that has been sent: that of the credential with this expiry, and whether a 200
-- has arrived.
pub record Sent : Type 0 where
  pub expires_at : ℕ
  pub spent : Bool

-- The answer, `none` if the caller has dropped the future, and what has been sent for it.
abbrev pub Outcome : Type 0
Outcome = Refreshed × TokenSource × List Sent

abbrev pub valid : TokenSource → Credentials → ℕ → Bool
valid s c now = ltb (now + s.validity_buffer) c.expires_at

abbrev pub valid_of : TokenSource → ℕ → Option Cached → Option Credentials
valid_of s now none = none
valid_of s now (some c) = if valid s c.creds now then some c.creds else none

abbrev pub cached_valid : TokenSource → ℕ → Option Credentials
cached_valid s now = valid_of s now s.cached

abbrev pub set_cached : Credentials → Bool → TokenSource → TokenSource
set_cached c minted s = record s {
  cached = some (record { creds = c; minted_by_refresh = minted });
}

abbrev pub overridden : Option Text → Credentials → Credentials
overridden none c = c
overridden (some r) c = record c { runtime_region = r }

abbrev pub read_db : TokenSource → Result Credentials AuthError → Result Credentials AuthError
read_db s (err e) = err e
read_db s (ok c) = ok (overridden s.runtime_override c)

abbrev pub chain_seed : Option Cached → Credentials → Credentials
chain_seed none db = db
chain_seed (some c) db = if leb db.expires_at c.creds.expires_at then c.creds else db

abbrev pub is_newer : Option Cached → Credentials → Bool
is_newer none db = true
is_newer (some c) db = ltb c.creds.expires_at db.expires_at

unfoldable pub contains : ℕ → List ℕ → Bool
contains n [] = false
contains n (m ∷ ms) = m == n || contains n ms

unfoldable pub is_burned : TokenSource → ℕ → Bool
unfolding contains
is_burned s at = if at == 0 then s.burned_unparsable else contains at s.burned

-- `BurnGuard::drop`
unfoldable pub burn : Bool → ℕ → TokenSource → TokenSource
burn past_200 at s =
    if not past_200
    then s
    else if at == 0
    then record s { burned_unparsable = true }
    else record s { burned = at ∷ s.burned }

abbrev pub give : Credentials → TokenSource → Outcome
give c s = (some (ok c), s, [])

abbrev pub refuse : AuthError → TokenSource → Outcome
refuse e s = (some (err e), s, [])

-- A valid credential is served, if this is asked.
abbrev pub unless_valid : Bool → Option Credentials → TokenSource → Outcome → Outcome
unless_valid true (some c) s rest = give c s
unless_valid true none s rest = rest
unless_valid false o s rest = rest

-- The bound of a forced cycle.
abbrev pub keep_minted : Bool → Option Cached → ℕ → TokenSource → Outcome → Outcome
keep_minted true (some c) now s rest =
    if c.minted_by_refresh && valid s c.creds now then give c.creds s else rest
keep_minted true none now s rest = rest
keep_minted false o now s rest = rest

abbrev pub Tried : Type 0
Tried = Option Refreshed × TokenSource × List Sent

-- A credential that the Kiro CLI has written since.
abbrev pub newer : ℕ → Result Credentials AuthError → Option Credentials
newer seed_expires_at (err e) = none
newer seed_expires_at (ok c) =
    if not (seed_expires_at == 0) && not (c.expires_at == seed_expires_at) then some c else none

abbrev pub behind : List Sent → Outcome → Outcome
behind log (r, s, more) = (r, s, log ++ more)

-- `text` is the text that thiserror generates.
module _ (later : ℕ → ℕ → Option ℕ) (show : ℤ → Text) (text : AuthError → Text) where
  unfoldable pub try_refresh : Credentials → Exchange → TokenSource → Tried
  unfolding is_burned burn
  try_refresh seed x s =
      let (past_200, r) = refresh later show seed x in
      if is_burned s seed.expires_at then (none, s, []) else (
        some r,
        burn past_200 seed.expires_at s,
        record { expires_at = seed.expires_at; spent = past_200 } ∷ [],
      )

  abbrev pub after_second : AuthError → Tried → Outcome
  after_second first (none, s, log) = (some (err (reauth_required (text first))), s, log)
  after_second first (some none, s, log) = (none, s, log)
  after_second first (some (some (ok c)), s, log) = (some (ok c), set_cached c true s, log)
  after_second first (some (some (err e)), s, log) = (some (err (reauth_required (text e))), s, log)

  unfoldable pub retry : AuthError → Option Credentials → Exchange → TokenSource → Outcome
  unfolding try_refresh
  retry first none x s = refuse (reauth_required (text first)) s
  retry first (some c) x s = after_second first (try_refresh c x s)

  abbrev pub after_first : Cycle → ℕ → Tried → Outcome
  after_first e at (none, s, log) = (
    some (err (reauth_required (codes "the refresh token was already exchanged in this session"))),
    s,
    log,
  )
  after_first e at (some none, s, log) = (none, s, log)
  after_first e at (some (some (ok c)), s, log) = (some (ok c), set_cached c true s, log)
  after_first e at (some (some (err x)), s, log) =
      behind log (retry x (newer at (read_db s e.db_again)) e.exchange_again s)

  unfoldable pub exchange_seed : Cycle → Credentials → TokenSource → Outcome
  unfolding retry
  exchange_seed e db s =
      after_first e db.expires_at (try_refresh (chain_seed s.cached db) e.exchange s)

  abbrev pub on_db : Cycle → Bool → Result Credentials AuthError → TokenSource → Outcome
  on_db e forced (err x) s = refuse x s
  on_db e forced (ok db) s =
      if valid s db e.now_db && is_newer s.cached db
      then give db (set_cached db false s)
      else keep_minted forced s.cached e.now_minted s (exchange_seed e db s)

  -- `current` behind the gate.
  unfoldable pub cycle : Cycle → TokenSource → Outcome
  unfolding exchange_seed
  cycle e s =
      let s' = record s { forced = false } in
      unless_valid (not s.forced) (cached_valid s' e.now_gate) s'
        (on_db e s.forced (read_db s' e.db) s')

  -- The whole of `current`, when nothing comes between its first test and the gate.
  unfoldable pub current : ℕ → Cycle → TokenSource → Outcome
  unfolding cycle
  current now e s = unless_valid (not s.forced) (cached_valid s now) s (cycle e s)

  abbrev pub invalidate : TokenSource → TokenSource
  invalidate s = record s { forced = true }

  -- One step of any of the tasks that share the source; a first test that serves the cached
  -- credential changes nothing.
  pub data Step : Type 0 where
    cycles : Cycle → Step
    invalidates : Step

  abbrev pub act : Step → TokenSource → TokenSource × List Sent
  act (cycles e) s = let (r, s', log) = cycle e s in (s', log)
  act invalidates s = (invalidate s, [])

  -- The refresh tokens sent, in order.
  unfoldable pub sent_by : List Step → TokenSource → List Sent
  unfolding cycle
  sent_by [] s = []
  sent_by (a ∷ steps) s = let (s', log) = act a s in log ++ sent_by steps s'
