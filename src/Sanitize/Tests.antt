-- ===== src/Sanitize/Tests.antt =====
-- Runs of the scrubbing and capping, and the theorems at concrete strings.
use kiro_trust.Prelude.{◌≡◌, true, ◌&&◌, if◌then◌else◌, [], ◌∷◌, arith}
use kiro_trust.Text.{Text, codes}
use kiro_trust.Sanitize.{cap, scrub_identifiers, scrub_loop}
use kiro_trust.Sanitize.Cap.{Longest, cap-Longest}
use kiro_trust.Sanitize.Arns.{arns_masked}
use kiro_trust.Sanitize.Scrub.{clean, arn_free, scrub_identifiers-clean}

cap-Longest_example : Longest (0x61 ∷ 0x20AC ∷ 0x62 ∷ []) 3 (cap (0x61 ∷ 0x20AC ∷ 0x62 ∷ []) 3)
cap-Longest_example = cap-Longest (0x61 ∷ 0x20AC ∷ 0x62 ∷ []) 3

abbrev told : Text
told = codes "by arn:aws:1 of 123456789012"

scrub_identifiers-clean_example :
    (clean 0 (scrub_identifiers told) ≡ true)
    × (arns_masked (scrub_identifiers told) ≡ true)
    × ((if clean 0 told && arn_free told then scrub_identifiers told else told) ≡ told)
    × (scrub_loop 40 told ≡ scrub_identifiers told)
scrub_identifiers-clean_example = scrub_identifiers-clean told 40 (omega arith)
