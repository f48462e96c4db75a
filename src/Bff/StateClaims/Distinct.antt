-- ===== src/Bff/StateClaims/Distinct.antt =====
-- The states in the table of claims are distinct, and its cleanup invents none.
use oidc_oauth2_idp.Prelude.{
  AllDistinct, Bool, Bool-cases, Option-cases, String, [], arith, contains, false, if_both, inl,
  inr, leb, ltb, some, ℕ, ◌+◌, ◌==◌, ◌∷◌, ◌≡◌,
}
use oidc_oauth2_idp.Prelude.Dict.{Dict, keys, keys-insert-AllDistinct, lookup, lookup_behind}
use oidc_oauth2_idp.Bff.StateClaims.{StateClaims, claim, cleaned, cleanup, live_claims}

lookup-live_claims_back :
    (ttl now : ℕ) (state : String) (m : Dict ℕ) (claimed : ℕ)
    → AllDistinct (keys m)
    → lookup state (live_claims ttl now m) ≡ some claimed
    → lookup state m ≡ some claimed
unfolding lookup live_claims
lookup-live_claims_back ttl now state [] claimed d e = e
lookup-live_claims_back ttl now state ((j, t) ∷ rest) claimed d e =
    elim (Bool-cases (leb (t + ttl) now)) [
      | inl old ↦
          lookup_behind j state t claimed rest d.0
            (lookup-live_claims_back ttl now state rest claimed d.1 (rw (old, live_claims) at e))
      | inr live ↦ elim (Bool-cases (j == state)) [
        | inl same ↦ rw (same, lookup) (rw (live, live_claims, same, lookup) at e)
        | inr apart ↦
            rw (apart, lookup)
              (lookup-live_claims_back ttl now state rest claimed d.1
                (rw (live, live_claims, apart, lookup) at e))
      ]
    ]

contains-live_claims :
    (ttl now : ℕ) (m : Dict ℕ) (k : String)
    → contains (keys m) k ≡ false
    → contains (keys (live_claims ttl now m)) k ≡ false
unfolding live_claims contains
contains-live_claims ttl now [] k h = h
contains-live_claims ttl now ((j, t) ∷ rest) k h =
    ground (arith, contains-live_claims ttl now rest k)

live_claims-AllDistinct :
    (ttl now : ℕ) (m : Dict ℕ) → AllDistinct (keys m) → AllDistinct (keys (live_claims ttl now m))
unfolding live_claims
live_claims-AllDistinct ttl now [] d = tt
live_claims-AllDistinct ttl now ((j, t) ∷ rest) d =
    ground
      (arith, live_claims-AllDistinct ttl now rest d.1, contains-live_claims ttl now rest j d.0)

abbrev pub HasDistinctStates : StateClaims → Type 0
HasDistinctStates c = AllDistinct (keys c.claimed_at)

cleaned-HasDistinctStates :
    (now : ℕ) (c : StateClaims) → HasDistinctStates c → HasDistinctStates (cleaned now c)
unfolding cleaned cleanup
cleaned-HasDistinctStates now c d =
    if_both HasDistinctStates (leb (c.last_cleanup + c.ttl) now)
      (live_claims-AllDistinct c.ttl now c.claimed_at d) d

pub claim-HasDistinctStates :
    (state : String) (now : ℕ) (c : StateClaims)
    → HasDistinctStates c
    → HasDistinctStates (claim state now c).0
unfolding claim
claim-HasDistinctStates state now c d =
    let kept = cleaned-HasDistinctStates now c d in
    let added = keys-insert-AllDistinct state now (cleaned now c).claimed_at kept in
    elim (Option-cases (lookup state (cleaned now c).claimed_at)) [
      | inl e ↦ rw (e, claim) added
      | inr (claimed, e) ↦
          rw (e, claim)
            (if_both (λ (r : StateClaims × Bool). HasDistinctStates r.0)
              (ltb now (claimed + (cleaned now c).ttl)) kept added)
    ]

pub lookup-cleaned_back :
    (now : ℕ) (state : String) (claimed : ℕ) (c : StateClaims)
    → HasDistinctStates c
    → lookup state (cleaned now c).claimed_at ≡ some claimed
    → lookup state c.claimed_at ≡ some claimed
unfolding cleaned cleanup
lookup-cleaned_back now state claimed c d e = elim (Bool-cases (leb (c.last_cleanup + c.ttl) now)) [
  | inl t ↦ lookup-live_claims_back c.ttl now state c.claimed_at claimed d (rw (t, cleaned) at e)
  | inr t ↦ (rw (t, cleaned) at e)
]
