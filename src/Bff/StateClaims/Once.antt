-- ===== src/Bff/StateClaims/Once.antt =====
-- A state is claimed at most once within its lifetime.
use oidc_oauth2_idp.Prelude.{
  List, String, [], ap, arith, false, inl, inr, some, text_cases, true, ℕ, ◌+◌, ◌<◌, ◌∷◌, ◌≡◌, ◌≤◌,
}
use oidc_oauth2_idp.Prelude.Dict.{Dict, lookup, lookup-insert_ne, lookup-insert_self}
use oidc_oauth2_idp.Bff.StateClaims.{StateClaims, claim, cleaned, cleanup, live_claims}

-- A claim of a state that is still live.
abbrev pub IsLive : String → ℕ → StateClaims → Type 0
IsLive state now c =
    (claimed : ℕ) × (lookup state c.claimed_at ≡ some claimed) × (now < claimed + c.ttl)

lookup-live_claims :
    (ttl now : ℕ) (state : String) (claimed : ℕ) (m : Dict ℕ)
    → lookup state m ≡ some claimed
    → now < claimed + ttl
    → lookup state (live_claims ttl now m) ≡ some claimed
unfolding lookup live_claims
lookup-live_claims ttl now state claimed [] e h = e
lookup-live_claims ttl now state claimed ((j, t) ∷ rest) e h =
    ground (arith, lookup-live_claims ttl now state claimed rest)

pub cleaned_frame : (now : ℕ) (c : StateClaims) → (cleaned now c).ttl ≡ c.ttl
unfolding cleaned cleanup
cleaned_frame now c = ground arith

pub lookup-cleaned :
    (now : ℕ) (state : String) (claimed : ℕ) (c : StateClaims)
    → lookup state c.claimed_at ≡ some claimed
    → now < claimed + c.ttl
    → lookup state (cleaned now c).claimed_at ≡ some claimed
unfolding cleaned cleanup
lookup-cleaned now state claimed c e h =
    ground (arith, lookup-live_claims c.ttl now state claimed c.claimed_at e h)

claim_refused :
    (state : String) (now : ℕ) (c : StateClaims)
    → IsLive state now c
    → (claim state now c).1 ≡ false
unfolding claim
claim_refused state now c (claimed, e, h) =
    ground (arith, lookup-cleaned now state claimed c e h, cleaned_frame now c)

pub claim-ttl : (state : String) (now : ℕ) (c : StateClaims) → (claim state now c).0.ttl ≡ c.ttl
unfolding claim
claim-ttl state now c = ground (arith, cleaned_frame now c)

claim-stored :
    (state : String) (now : ℕ) (c : StateClaims)
    → (claim state now c).1 ≡ true
    → lookup state (claim state now c).0.claimed_at ≡ some now
unfolding claim
claim-stored state now c e = ground (arith, lookup-insert_self state now (cleaned now c).claimed_at)

-- A claim of another state keeps a live one.
claim-kept :
    (other : String) (now : ℕ) (c : StateClaims) (state : String) (claimed : ℕ)
    → lookup state c.claimed_at ≡ some claimed
    → now < claimed + c.ttl
    → lookup state (claim other now c).0.claimed_at ≡ some claimed
unfolding claim
claim-kept other now c state claimed e h = elim (text_cases other state) [
  | inl (same, _) ↦ ground (
    arith,
    lookup-cleaned now state claimed c e h,
    cleaned_frame now c,
    ap (λ k. lookup k (cleaned now c).claimed_at) same,
  )
  | inr (apart, _) ↦ ground (
    arith,
    lookup-cleaned now state claimed c e h,
    lookup-insert_ne other state now (cleaned now c).claimed_at apart,
  )
]

-- Claims after claims: the states and the times.
abbrev pub after_claims : List (String × ℕ) → StateClaims → StateClaims
after_claims [] c = c
after_claims ((state, now) ∷ rest) c = after_claims rest (claim state now c).0

abbrev pub ClaimedUntil : ℕ → List (String × ℕ) → Type 0
ClaimedUntil later [] = Unit
ClaimedUntil later ((state, now) ∷ rest) = (now ≤ later) × ClaimedUntil later rest

after_claims-IsLive :
    (claims : List (String × ℕ)) (state : String) (claimed later : ℕ) (c : StateClaims)
    → lookup state c.claimed_at ≡ some claimed
    → ClaimedUntil later claims
    → later < claimed + c.ttl
    → IsLive state later (after_claims claims c)
after_claims-IsLive [] state claimed later c e u h = (claimed, e, h)
after_claims-IsLive ((other, now) ∷ rest) state claimed later c e u h =
    after_claims-IsLive rest state claimed later (claim other now c).0
      (claim-kept other now c state claimed e (ground (arith, u.0, h))) u.1
      (rw (claim-ttl other now c) h)

-- Once a state has been claimed it is refused until its lifetime has passed, whatever states are claimed
-- in between, none of them at a later time.
pub claim_once :
    (state : String) (now : ℕ) (c : StateClaims) (claims : List (String × ℕ)) (later : ℕ)
    → (claim state now c).1 ≡ true
    → ClaimedUntil later claims
    → later < now + c.ttl
    → (claim state later (after_claims claims (claim state now c).0)).1 ≡ false
claim_once state now c claims later e u h =
    claim_refused state later (after_claims claims (claim state now c).0) (
      after_claims-IsLive claims state now later (claim state now c).0 (claim-stored state now c e)
        u (rw (claim-ttl state now c) h))
