-- ===== src/Auth/Source/Marks.antt =====
-- What is sent, and the marks of what has been spent: how they compose over steps.
use kiro_trust.Prelude.{
  ℕ, ◌≡◌, refl, sym, ap, ◌∙◌, Bool, Bool-cases, inl, inr, true, false, ◌&&◌, ◌||◌, List, [], ◌∷◌,
  ◌++◌, ◌==◌, arith,
}
use kiro_trust.Auth.Refresh.{Credentials}
use kiro_trust.Auth.Source.{
  TokenSource, Sent, Outcome, set_cached, contains, is_burned, burn, Tried,
}

-- A refresh token is told apart by the expiry of its credential.
unfoldable pub is_sent : ℕ → List Sent → Bool
is_sent at [] = false
is_sent at (x ∷ log) = x.expires_at == at || is_sent at log

-- None that has been spent is sent later.
unfoldable pub NoneResent : List Sent → Type 0
unfolding is_sent
NoneResent [] = Unit
NoneResent (x ∷ log) = ((x.spent && is_sent x.expires_at log) ≡ false) × NoneResent log

pub burned_stays :
    (at : ℕ) (past : Bool) (now : ℕ) (s : TokenSource)
    → is_burned s at ≡ true
    → is_burned (burn past now s) at ≡ true
unfolding is_burned burn contains
burned_stays at past now s h = ground arith

pub burn-marks :
    (past : Bool) (at : ℕ) (s : TokenSource) → past ≡ true → is_burned (burn past at s) at ≡ true
unfolding is_burned burn contains
burn-marks past at s h = ground arith

-- From `s` to `s'` with these sent: none of them was burned, those spent are burned now, and what
-- was burned still is.
abbrev pub Fresh : TokenSource → List Sent → Type 0
Fresh s [] = Unit
Fresh s (x ∷ log) = (is_burned s x.expires_at ≡ false) × Fresh s log

abbrev pub Marked : TokenSource → List Sent → Type 0
Marked s [] = Unit
Marked s (x ∷ log) = (x.spent ≡ true → is_burned s x.expires_at ≡ true) × Marked s log

pub record Safe (s : TokenSource) (s' : TokenSource) (log : List Sent) : Type 0 where
  pub fresh : Fresh s log
  pub apart : NoneResent log
  pub marked : Marked s' log
  pub grows : (at : ℕ) → is_burned s at ≡ true → is_burned s' at ≡ true

not_burned : {b c : Bool} → (b ≡ true → c ≡ true) → c ≡ false → b ≡ false
not_burned h e = ground arith

pub Fresh-before :
    (s s1 : TokenSource) (log : List Sent)
    → ((at : ℕ) → is_burned s at ≡ true → is_burned s1 at ≡ true)
    → Fresh s1 log
    → Fresh s log
Fresh-before s s1 [] g f = tt
Fresh-before s s1 (x ∷ log) g (f, fs) = (not_burned (g x.expires_at) f, Fresh-before s s1 log g fs)

pub Fresh-append : (s : TokenSource) (a b : List Sent) → Fresh s a → Fresh s b → Fresh s (a ++ b)
Fresh-append s [] b f g = g
Fresh-append s (x ∷ a) b (f, fs) g = (f, Fresh-append s a b fs g)

Marked-later :
    (s1 s2 : TokenSource) (log : List Sent)
    → ((at : ℕ) → is_burned s1 at ≡ true → is_burned s2 at ≡ true)
    → Marked s1 log
    → Marked s2 log
Marked-later s1 s2 [] g m = tt
Marked-later s1 s2 (x ∷ log) g (m, ms) = (λ e. g x.expires_at (m e), Marked-later s1 s2 log g ms)

Marked-append : (s : TokenSource) (a b : List Sent) → Marked s a → Marked s b → Marked s (a ++ b)
Marked-append s [] b m k = k
Marked-append s (x ∷ a) b (m, ms) k = (m, Marked-append s a b ms k)

is_sent-append : (at : ℕ) (a b : List Sent) → is_sent at (a ++ b) ≡ (is_sent at a || is_sent at b)
unfolding is_sent
is_sent-append at [] b = refl
is_sent-append at (x ∷ a) b = ground (arith, is_sent-append at a b)

true_not_false : {b : Bool} → b ≡ true → b ≡ false → ⊥
true_not_false e f = cc

neither : {b c : Bool} → b ≡ false → c ≡ false → (b || c) ≡ false
neither e f = ground arith

sent_before : {b c : Bool} → b ≡ true → (b && c) ≡ false → c ≡ false
sent_before e f = ground arith

pub conceal : (b : Bool) {c : Bool} → c ≡ false → (b && c) ≡ false
conceal b e = ground arith

unspent : {b : Bool} (c : Bool) → b ≡ false → (b && c) ≡ false
unspent c e = ground arith

-- What is burned is not sent.
unsent :
    (s : TokenSource) (at : ℕ) (log : List Sent)
    → is_burned s at ≡ true
    → Fresh s log
    → is_sent at log ≡ false
unfolding is_sent
unsent s at [] h f = refl
unsent s at (x ∷ log) h (f, fs) =
    let later = unsent s at log h fs in
    elim (Bool-cases (x.expires_at == at)) [
      | inl e ↦
          let same : x.expires_at ≡ at = ground arith in
          absurd (true_not_false h (sym (ap (is_burned s) same) ∙ f))
      | inr e ↦ neither e later
    ]

pub NoneResent-append :
    (s1 : TokenSource) (a b : List Sent)
    → NoneResent a
    → Marked s1 a
    → Fresh s1 b
    → NoneResent b
    → NoneResent (a ++ b)
unfolding NoneResent
NoneResent-append s1 [] b n m f k = k
NoneResent-append s1 (x ∷ a) b (n, ns) (m, ms) f k = (
  elim (Bool-cases x.spent) [
    | inl e ↦
        let before = sent_before e n in
        let later = unsent s1 x.expires_at b (m e) f in
        conceal x.spent (is_sent-append x.expires_at a b ∙ neither before later)
    | inr e ↦ unspent (is_sent x.expires_at (a ++ b)) e
  ],
  NoneResent-append s1 a b ns ms f k,
)

pub Safe-then :
    (s s1 s2 : TokenSource) (a b : List Sent) → Safe s s1 a → Safe s1 s2 b → Safe s s2 (a ++ b)
Safe-then s s1 s2 a b p q = record {
  fresh = Fresh-append s a b p.fresh (Fresh-before s s1 b p.grows q.fresh);
  apart = NoneResent-append s1 a b p.apart p.marked q.fresh q.apart;
  marked = Marked-append s2 a b (Marked-later s1 s2 a q.grows p.marked) q.marked;
  grows = λ at h. q.grows at (p.grows at h);
}

-- The burn marks are all that counts of a source.
abbrev pub SameMarks : TokenSource → TokenSource → Type 0
SameMarks s s' = (at : ℕ) → is_burned s at ≡ true → is_burned s' at ≡ true

pub Safe-nothing : (s s' : TokenSource) → SameMarks s s' → Safe s s' []
unfolding NoneResent
Safe-nothing s s' g = record { fresh = tt; apart = tt; marked = tt; grows = g }

abbrev pub SafeOf : TokenSource → Outcome → Type 0
SafeOf s (r, s', log) = Safe s s' log

abbrev pub SafeTried : TokenSource → Tried → Type 0
SafeTried s (r, s', log) = Safe s s' log

-- What a later change leaves of it, if it keeps the marks.
pub Safe-change :
    (s s1 s2 : TokenSource) (log : List Sent) → Safe s s1 log → SameMarks s1 s2 → Safe s s2 log
Safe-change s s1 s2 log p g = record {
  fresh = p.fresh;
  apart = p.apart;
  marked = Marked-later s1 s2 log g p.marked;
  grows = λ at h. g at (p.grows at h);
}

pub set_cached-marks :
    (c : Credentials) (minted : Bool) (s : TokenSource) → SameMarks s (set_cached c minted s)
unfolding is_burned
set_cached-marks c minted s at h = h
