-- ===== src/Response/Accounts.antt =====
-- The two reports of the tokens of a response, `usage` and `usage_snapshot`, and what the upstream's
-- counts do to them.
use kiro_trust.Prelude.{
  ℕ, ◌+◌, ◌≡◌, ◌&&◌, ◌||◌, true, false, ltb, saturating_add, u64_max, min, arith,
}
use kiro_trust.Response.State.{
  ResponseTranslator, Accumulated, usage, usage_snapshot, take_metadata, take_metering,
}

-- The reported tokens of the snapshot are those that the upstream has counted; with the estimated
-- ones they add up to the tokens of `usage`, and where there are reported ones none are estimated;
-- the cache counts are the same.
pub record Splits (t : ResponseTranslator) : Type 0 where
  pub reported_input : (usage_snapshot t).reported.input ≡ t.acc.input_tokens
  pub reported_output : (usage_snapshot t).reported.output ≡ t.acc.output_tokens
  pub not_both :
      (ltb 0 ((usage_snapshot t).reported.input + (usage_snapshot t).reported.output)
        && ltb 0 ((usage_snapshot t).estimated.input + (usage_snapshot t).estimated.output))
      ≡ false
  pub input :
      (usage_snapshot t).reported.input + (usage_snapshot t).estimated.input
      ≡ (usage t).input_tokens
  pub output :
      (usage_snapshot t).reported.output + (usage_snapshot t).estimated.output
      ≡ (usage t).output_tokens
  pub cache_read : (usage_snapshot t).reported.cache_read ≡ (usage t).cache_read_input_tokens
  pub cache_write : (usage_snapshot t).reported.cache_write ≡ (usage t).cache_creation_input_tokens

-- For every state of the translator, the reported tokens of `usage_snapshot` are those that the
-- upstream has counted, and where there are any none are estimated; the reported and the estimated
-- ones add up to the tokens that `usage` gives, and the cache counts are the same.
pub usage_snapshot-usage : (t : ResponseTranslator) → Splits t
unfolding usage usage_snapshot
usage_snapshot-usage t = record {
  reported_input = ground arith;
  reported_output = ground arith;
  not_both = ground arith;
  input = ground arith;
  output = ground arith;
  cache_read = ground arith;
  cache_write = ground arith;
}

-- Once metadata with tokens has come, a metering event does not change the accounts; and the tokens
-- of such metadata are what the accounts hold after it, with the cached ones counted as input.
pub metadata_wins :
    (uncached output read write i o : ℕ) (a : Accumulated)
    → (ltb 0 (saturating_add uncached read) || ltb 0 output) ≡ true
    → (take_metering i o (take_metadata uncached output read write a)
        ≡ take_metadata uncached output read write a)
      × ((take_metadata uncached output read write a).input_tokens ≡ min (uncached + read) u64_max)
      × ((take_metadata uncached output read write a).output_tokens ≡ output)
unfolding take_metering take_metadata
metadata_wins uncached output read write i o a h = ground arith
