-- ===== src/Net/Tests.antt =====
-- Region names.
use kiro_trust.Prelude.{◌≡◌, ◌≤◌, refl, ok, err, arith}
use kiro_trust.Text.{Text, codes}
use kiro_trust.Text.Utf8.{len, as_bytes, encode_char}
use kiro_trust.Net.Region.{max_len, parse, split, name_parts, parts_match, pattern_}
use kiro_trust.Net.Region.Pattern.{Matches, gov}
use kiro_trust.Net.Region.Pattern.Exact.{parse-Matches, Matches-parse}

abbrev virginia : Text
virginia = codes "us-east-1"

virginia_parses : parse virginia ≡ ok (record { name = virginia })
unfolding parse split name_parts parts_match as_bytes encode_char
virginia_parses = refl

with_slash : parse (codes "us-east-1/") ≡ err (pattern_ (codes "us-east-1/"))
unfolding parse split name_parts parts_match as_bytes encode_char
with_slash = refl

parse-Matches_example : (virginia ≡ virginia) × Matches virginia × (len virginia ≤ max_len)
parse-Matches_example = parse-Matches virginia (record { name = virginia }) virginia_parses

abbrev oregon : Text
oregon = codes "us-gov-west-1"

oregon-Matches : Matches oregon
oregon-Matches = gov 0x75 0x73 (codes "west") 0x31 refl refl

oregon_short : len oregon ≤ max_len
unfolding as_bytes encode_char
oregon_short = omega arith

Matches-parse_example : parse oregon ≡ ok (record { name = oregon })
Matches-parse_example = Matches-parse oregon oregon-Matches oregon_short
