-- ===== src/Auth/Tests.antt =====
-- The theorems about refreshes, at a row of the database that never changes.
use kiro_trust.Prelude.{ℕ, ◌+◌, Option, none, some, [], ◌∷◌, ok}
use kiro_trust.Text.{Text, codes}
use kiro_trust.Wire.{ℤ, pos}
use kiro_trust.Auth.Refresh.{AuthError, Credentials, Exchange, answered, read, refresh}
use kiro_trust.Auth.Refresh.Commits.{Says, refresh-Says}
use kiro_trust.Auth.Source.{Cycle, cycles, invalidates, new, sent_by}
use kiro_trust.Auth.Source.Marks.{NoneResent}
use kiro_trust.Auth.Source.Spent.{sent_by-NoneResent}

abbrev later : ℕ → ℕ → Option ℕ
later now n = some (now + n)

abbrev show : ℤ → Text
show n = codes "0"

abbrev text : AuthError → Text
text e = codes "error"

abbrev row : Credentials
row = record {
  access_token = codes "a";
  refresh_token = codes "r";
  client_id = codes "c";
  client_secret = codes "s";
  expires_at = 7;
  sso_region = codes "us-east-1";
  runtime_region = codes "us-east-1";
  profile_arn = codes "p";
}

-- A new token for one hour
abbrev exchange : Exchange
exchange = answered 200 (
    read (some (record { access_token = codes "b"; refresh_token = none; expires_in = pos 3600 }))
      1000)

abbrev at_1000 : Cycle
at_1000 = record {
  now_gate = 1000;
  now_db = 1000;
  now_minted = 1000;
  db = ok row;
  exchange = exchange;
  db_again = ok row;
  exchange_again = exchange;
}

refresh-Says_example : let (past_200, r) = refresh later show row exchange in Says past_200 r
refresh-Says_example = refresh-Says later show row exchange

sent_by-NoneResent_example :
    NoneResent
      (sent_by later show text (cycles at_1000 ∷ invalidates ∷ cycles at_1000 ∷ []) (new none))
sent_by-NoneResent_example =
    sent_by-NoneResent later show text none (cycles at_1000 ∷ invalidates ∷ cycles at_1000 ∷ [])
