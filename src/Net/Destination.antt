-- ===== src/Net/Destination.antt =====
-- The two hosts that the program talks to (crates/kiro-trust-net/src/destination.rs). A
-- `RuntimeRegion` is a region on the list.
use kiro_trust.Prelude.{ℕ, ◌≡◌, ◌≢◌, ap, refl, arith, [], ◌∷◌, ◌++◌}
use kiro_trust.Text.{Text, codes}
use kiro_trust.Net.Region.{Region}

pub data Destination : Type 0 where
  oidc : (sso_region : Region) → Destination
  runtime : (region : Region) → Destination

unfoldable pub host : Destination → Text
host (oidc r) = codes "oidc." ++ r.name ++ codes ".amazonaws.com"
host (runtime r) = codes "runtime." ++ r.name ++ codes ".kiro.dev"

abbrev first : Text → ℕ
first [] = 0
first (c ∷ s) = c

letters_apart : (m n : ℕ) → m ≡ 0x6F → n ≡ 0x72 → m ≢ n
letters_apart m n a b e = omega (arith, a, b, e)

-- No request for one of the two services goes to the other's host.
pub hosts_apart : (r s : Region) → host (oidc r) ≢ host (runtime s)
unfolding host
hosts_apart r s e =
    letters_apart (first (host (oidc r))) (first (host (runtime s))) refl refl (ap first e)
