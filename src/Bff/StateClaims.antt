-- ===== src/Bff/StateClaims.antt =====
-- The claims of login states: bff/internal/handler/state_claims.go. Times are nanoseconds.
pub mod Once
pub mod Distinct
pub mod History
use oidc_oauth2_idp.Prelude.{
  Bool, String, [], false, if◌then◌else◌, leb, ltb, none, some, true, ℕ, ◌*◌, ◌+◌, ◌∷◌,
}
use oidc_oauth2_idp.Prelude.Dict.{Dict, insert, lookup}
use oidc_oauth2_idp.Idp.State.{second}

abbrev pub oidc_state_claim_ttl : ℕ
oidc_state_claim_ttl = 300 * second

pub record StateClaims : Type 0 where
  pub claimed_at : Dict ℕ
  pub last_cleanup : ℕ
  pub ttl : ℕ

abbrev pub new_state_claims : ℕ → ℕ → StateClaims
new_state_claims ttl now = record { claimed_at = []; last_cleanup = now; ttl = ttl }

-- The loop of `cleanupLocked`: `now - claimed ≥ ttl` is written `claimed + ttl ≤ now`.
unfoldable pub live_claims : ℕ → ℕ → Dict ℕ → Dict ℕ
live_claims ttl now [] = []
live_claims ttl now ((state, claimed) ∷ rest) =
    if leb (claimed + ttl) now
    then live_claims ttl now rest
    else (state, claimed) ∷ live_claims ttl now rest

unfoldable pub cleanup : ℕ → StateClaims → StateClaims
cleanup now c = record c { claimed_at = live_claims c.ttl now c.claimed_at; last_cleanup = now }

-- The claims that `Claim` looks at, and what it then stores.
unfoldable pub cleaned : ℕ → StateClaims → StateClaims
cleaned now c = if leb (c.last_cleanup + c.ttl) now then cleanup now c else c

abbrev pub claim_in : String → ℕ → StateClaims → StateClaims
claim_in state now c = record c { claimed_at = insert state now c.claimed_at }

-- `Claim`: the new claims, and whether the state was free.
unfoldable pub claim : String → ℕ → StateClaims → StateClaims × Bool
claim state now c = elim (lookup state (cleaned now c).claimed_at) [
  | none ↦ (claim_in state now (cleaned now c), true)
  | some claimed ↦
      if ltb now (claimed + (cleaned now c).ttl)
      then (cleaned now c, false)
      else (claim_in state now (cleaned now c), true)
]
