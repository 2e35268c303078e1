-- ===== src/Upstream/Tests.antt =====
-- The theorems about the client's loop, at concrete answers of the network.
use kiro_trust.Prelude.{ℕ, ◌≡◌, refl, false, some, none, Option, ok}
use kiro_trust.Text.{Text, codes}
use kiro_trust.Json.Example.{small_json}
use kiro_trust.Upstream.{allowance_exhausted, contains}
use kiro_trust.Text.Search.{strip_prefix}
use kiro_trust.Upstream.Client.{Response, Round, responded, valid, error_of, on_response, generate}
use kiro_trust.Upstream.Client.Ends.{Ends, generate-Ends, allowance_not_retried}

abbrev no_date : Text → Option ℕ
no_date t = none

abbrev throttled : Response
throttled = record {
  status = 429;
  content_type = none;
  retry = some (codes "1");
  body = ok (codes "MONTHLY_REQUEST_COUNT");
}

abbrev answers_429 : ℕ → Round
answers_429 n = record { identity = none; token = valid; post = responded throttled }

generate-Ends_example :
    Ends small_json no_date 0 false (generate small_json no_date none answers_429)
generate-Ends_example = generate-Ends small_json no_date none answers_429

allowance_not_retried_example :
    on_response small_json no_date 1 false false throttled
    ≡ error_of small_json no_date allowance_exhausted 429 1 none (codes "MONTHLY_REQUEST_COUNT")
unfolding contains strip_prefix
allowance_not_retried_example =
    allowance_not_retried small_json no_date 1 false false throttled refl refl refl refl
