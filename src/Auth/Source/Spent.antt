-- ===== src/Auth/Source/Spent.antt =====
-- A refresh token that has been spent is not sent again.
use kiro_trust.Prelude.{
  ℕ, refl, Bool, true, false, not, ◌&&◌, Option, none, some, List, [], ◌∷◌, if_both, Result, ok,
  err,
}
use kiro_trust.Text.{Text}
use kiro_trust.Wire.{ℤ}
use kiro_trust.Auth.Refresh.{AuthError, Credentials, Exchange, refresh}
use kiro_trust.Auth.Source.{
  Cached, TokenSource, new, Cycle, Outcome, valid, cached_valid, set_cached, read_db, chain_seed,
  is_newer, is_burned, burn, give, unless_valid, keep_minted, Tried, newer, try_refresh,
  after_second, retry, after_first, exchange_seed, on_db, cycle, Step, cycles, invalidates, sent_by,
}
use kiro_trust.Auth.Source.Marks.{
  is_sent, NoneResent, burned_stays, burn-marks, Fresh, Fresh-before, Fresh-append, conceal,
  NoneResent-append, Safe-then, Safe-nothing, SafeOf, SafeTried, Safe-change, set_cached-marks,
}

module _ (later : ℕ → ℕ → Option ℕ) (show : ℤ → Text) (text : AuthError → Text) where
  Safe-try_refresh :
      (seed : Credentials) (x : Exchange) (s : TokenSource)
      → SafeTried s (try_refresh later show text seed x s)
  unfolding try_refresh NoneResent is_sent
  Safe-try_refresh seed x s =
      let past = (refresh later show seed x).0 in
      let at = seed.expires_at in
      if_both (SafeTried s) (is_burned s at) (none, s, [])
        (
          some (refresh later show seed x).1,
          burn past at s,
          record { expires_at = at; spent = past } ∷ [],
        )
        (λ _. Safe-nothing s s (λ at h. h))
        (λ f. record {
          fresh = (f, tt);
          apart = (conceal past refl, tt);
          marked = (λ e. burn-marks past at s e, tt);
          grows = λ k h. burned_stays k past at s h;
        })

  Safe-after_second :
      (s : TokenSource) (first : AuthError) (t : Tried)
      → SafeTried s t
      → SafeOf s (after_second later show text first t)
  Safe-after_second s first (none, s', log) p = p
  Safe-after_second s first (some none, s', log) p = p
  Safe-after_second s first (some (some (ok c)), s', log) p =
      Safe-change s s' (set_cached c true s') log p (set_cached-marks c true s')
  Safe-after_second s first (some (some (err e)), s', log) p = p

  Safe-retry :
      (first : AuthError) (o : Option Credentials) (x : Exchange) (s : TokenSource)
      → SafeOf s (retry later show text first o x s)
  unfolding retry
  Safe-retry first none x s = Safe-nothing s s (λ at h. h)
  Safe-retry first (some c) x s =
      Safe-after_second s first (try_refresh later show text c x s) (Safe-try_refresh c x s)

  Safe-after_first :
      (s : TokenSource) (e : Cycle) (at : ℕ) (t : Tried)
      → SafeTried s t
      → SafeOf s (after_first later show text e at t)
  Safe-after_first s e at (none, s', log) p = p
  Safe-after_first s e at (some none, s', log) p = p
  Safe-after_first s e at (some (some (ok c)), s', log) p =
      Safe-change s s' (set_cached c true s') log p (set_cached-marks c true s')
  Safe-after_first s e at (some (some (err x)), s', log) p =
      let o = newer at (read_db s' e.db_again) in
      Safe-then s s' (retry later show text x o e.exchange_again s').1 log
        (retry later show text x o e.exchange_again s').2 p (Safe-retry x o e.exchange_again s')

  Safe-exchange_seed :
      (e : Cycle) (db : Credentials) (s : TokenSource)
      → SafeOf s (exchange_seed later show text e db s)
  unfolding exchange_seed
  Safe-exchange_seed e db s =
      let seed = chain_seed s.cached db in
      Safe-after_first s e db.expires_at (try_refresh later show text seed e.exchange s)
        (Safe-try_refresh seed e.exchange s)

  Safe-unless_valid :
      (b : Bool) (o : Option Credentials) (s : TokenSource) (rest : Outcome)
      → SafeOf s rest
      → SafeOf s (unless_valid b o s rest)
  Safe-unless_valid true (some c) s rest p = Safe-nothing s s (λ at h. h)
  Safe-unless_valid true none s rest p = p
  Safe-unless_valid false o s rest p = p

  Safe-keep_minted :
      (b : Bool) (o : Option Cached) (now : ℕ) (s : TokenSource) (rest : Outcome)
      → SafeOf s rest
      → SafeOf s (keep_minted b o now s rest)
  Safe-keep_minted true (some c) now s rest p =
      if_both (SafeOf s) (c.minted_by_refresh && valid s c.creds now) (give c.creds s) rest
        (λ _. Safe-nothing s s (λ at h. h)) (λ _. p)
  Safe-keep_minted true none now s rest p = p
  Safe-keep_minted false o now s rest p = p

  Safe-on_db :
      (e : Cycle) (forced : Bool) (r : Result Credentials AuthError) (s : TokenSource)
      → SafeOf s (on_db later show text e forced r s)
  Safe-on_db e forced (err x) s = Safe-nothing s s (λ at h. h)
  Safe-on_db e forced (ok db) s =
      if_both (SafeOf s) (valid s db e.now_db && is_newer s.cached db)
        (give db (set_cached db false s))
        (keep_minted forced s.cached e.now_minted s (exchange_seed later show text e db s))
        (λ _. Safe-nothing s (set_cached db false s) (set_cached-marks db false s))
        (λ _. Safe-keep_minted forced s.cached e.now_minted s _ (Safe-exchange_seed e db s))

  -- The flag of `invalidate` does not touch the marks.
  Safe-flag :
      (b : Bool) (s : TokenSource) (r : Outcome) → SafeOf (record s { forced = b }) r → SafeOf s r
  unfolding is_burned
  Safe-flag b s (r, s', log) p = record {
    fresh = Fresh-before s (record s { forced = b }) log (λ at h. h) p.fresh;
    apart = p.apart;
    marked = p.marked;
    grows = p.grows;
  }

  Safe-cycle : (e : Cycle) (s : TokenSource) → SafeOf s (cycle later show text e s)
  unfolding cycle
  Safe-cycle e s =
      let s' = record s { forced = false } in
      Safe-flag false s (cycle later show text e s) (
        Safe-unless_valid (not s.forced) (cached_valid s' e.now_gate) s' _
          (Safe-on_db e s.forced (read_db s' e.db) s'))

  Safe-sent_by :
      (steps : List (Step later show text)) (s : TokenSource)
      → Fresh s (sent_by later show text steps s) × NoneResent (sent_by later show text steps s)
  unfolding sent_by NoneResent
  Safe-sent_by [] s = (tt, tt)
  Safe-sent_by (cycles e ∷ steps) s =
      let c = cycle later show text e s in
      let p = Safe-cycle e s in
      let (f, n) = Safe-sent_by steps c.1 in
      let rest = sent_by later show text steps c.1 in
      (
        Fresh-append s c.2 rest p.fresh (Fresh-before s c.1 rest p.grows f),
        NoneResent-append c.1 c.2 rest p.apart p.marked f n,
      )
  Safe-sent_by (invalidates ∷ steps) s =
      let (f, n) = Safe-sent_by steps (record s { forced = true }) in
      (
        Fresh-before s (record s { forced = true })
            (sent_by later show text steps (record s { forced = true }))
            (λ at h. unfold is_burned in h) f,
        n,
      )

  -- Whatever cycles and invalidations the tasks run, in whatever order, and whatever the clock, the
  -- database and the network answer, also when callers drop their futures: of a refresh token that
  -- has been spent, no later request sends one with the same expiry.
  pub sent_by-NoneResent :
      (runtime_override : Option Text) (steps : List (Step later show text))
      → NoneResent (sent_by later show text steps (new runtime_override))
  sent_by-NoneResent runtime_override steps = (Safe-sent_by steps (new runtime_override)).1
