-- ===== src/Bff/Callback/Accepted.antt =====
-- Which callbacks are accepted.
use oidc_oauth2_idp.Prelude.{
  Bool, Bool-cases, List, Option, Option-cases, String, arith, eq_iff, false, if_both, inl, inr,
  none, not, or_empty, refl, some, subst, sym, true, ℕ, ◌+◌, ◌<◌, ◌==◌, ◌≡◌, ◌≢◌,
}
use oidc_oauth2_idp.Bff.StateClaims.{StateClaims, claim}
use oidc_oauth2_idp.Bff.Store.{Store}
use oidc_oauth2_idp.Bff.Manager.{SetCookie}
use oidc_oauth2_idp.Bff.Callback.{
  CallbackRequest, CallbackResponse, LoginServices, TokenSet, callback, created, exchanged_code,
  if_claimed, is_state, read_claims, unauthorized, welcome,
}
use oidc_oauth2_idp.Bff.StateClaims.Once.{ClaimedUntil, after_claims, claim_once}

module _ {S : Type 0} (st : Store S) (services : LoginServices) where
  -- What an accepted callback rests on.
  pub record IsAccepted (req : CallbackRequest) (now : ℕ) (c : StateClaims) : Type 0 where
    pub state : String
    pub from_cookie : req.state_cookie ≡ some state
    pub returned : (state ≡ req.state_param) × (state ≢ "")
    pub free : (claim state now c).1 ≡ true
    pub set : TokenSet
    pub exchanged : services.exchange_code req.code_param (or_empty req.verifier_cookie) ≡ some set
    pub verify : String → Option String
    pub verifier : services.verify_id_token ≡ some verify
    pub verified : verify set.raw_id_token ≢ none

  is_state_lem :
      (cookie : Option String) (given : String)
      → is_state cookie given ≡ true
      → (state : String) × (cookie ≡ some state) × (state ≡ given) × (state ≢ "")
  is_state_lem none given e = cc
  is_state_lem (some value) given e =
      let same : value ≡ given = ground (arith, eq_iff value given) in
      (value, refl, same, ground (arith, eq_iff given "", same))

  read_claims_lem :
      (set : TokenSet) (sub : String)
      → read_claims services set ≡ some sub
      → (verify : String → Option String) × (services.verify_id_token ≡ some verify)
        × (verify set.raw_id_token ≢ none)
  unfolding read_claims
  read_claims_lem set sub e = elim (Option-cases services.verify_id_token) [
    | inl q ↦ cc (rw (q, read_claims) at e)
    | inr (verify, q) ↦ let same = rw (q, read_claims) at e in (verify, q, ground (arith, same))
  ]

  if_claimed_lem :
      (req : CallbackRequest) (id : Option String) (csrf : String) (now : ℕ) (s : S)
      (r : StateClaims × Bool) (cookie : SetCookie) (given : String)
      → (if_claimed st services req id csrf now s r).2 ≡ welcome cookie given
      → (r.1 ≡ true) × ((exchanged_code st services req id csrf now r.0 s).2 ≡ welcome cookie given)
  if_claimed_lem req id csrf now s (c, false) cookie given e = cc
  if_claimed_lem req id csrf now s (c, true) cookie given e = (refl, e)

  -- A callback is answered with a session only if the state parameter is the value of the state cookie,
  -- which is not empty and not claimed yet, the code was exchanged under the verifier of its cookie, and
  -- the ID token was verified by a verifier that is configured.
  pub callback-IsAccepted :
      (req : CallbackRequest) (id : Option String) (csrf : String) (now : ℕ) (c : StateClaims)
      (s : S) (cookie : SetCookie) (given : String)
      → (callback st services req id csrf now c s).2 ≡ welcome cookie given
      → IsAccepted req now c
  unfolding callback exchanged_code
  callback-IsAccepted req id csrf now c s cookie given e =
      elim (Bool-cases (is_state req.state_cookie req.state_param)) [
        | inr f ↦ cc (rw (f, callback) at e)
        | inl f ↦ elim (Bool-cases (or_empty req.verifier_cookie == "")) [
          | inl v ↦ cc (rw (f, v, callback) at e)
          | inr v ↦ elim (Bool-cases (req.code_param == "")) [
            | inl k ↦ cc (rw (f, v, k, callback) at e)
            | inr k ↦
                let (state, is_cookie, same, nonempty) =
                  is_state_lem req.state_cookie req.state_param f in
                let (free, rest) =
                  if_claimed_lem req id csrf now s (claim (or_empty req.state_cookie) now c) cookie
                    given (rw (f, v, k, callback) at e) in
                elim (Option-cases
                  (services.exchange_code req.code_param (or_empty req.verifier_cookie))) [
                    | inl q ↦ cc (rw (q, exchanged_code) at rest)
                    | inr (set, q) ↦ elim (Option-cases (read_claims services set)) [
                      | inl r ↦ cc (rw (q, r, exchanged_code) at rest)
                      | inr (sub, r) ↦
                          let (verify, known, verified) = read_claims_lem set sub r in
                          record {
                            state = state;
                            from_cookie = is_cookie;
                            returned = (same, nonempty);
                            free = subst (λ o. (claim (or_empty o) now c).1 ≡ true) is_cookie free;
                            set = set;
                            exchanged = q;
                            verify = verify;
                            verifier = known;
                            verified = verified;
                          }
                    ]
                  ]
          ]
        ]
      ]

  created-claims :
      (c : StateClaims) (csrf : String) (r : S × Option SetCookie)
      → (created st services c csrf r).1 ≡ c
  created-claims c csrf (s, none) = refl
  created-claims c csrf (s, some cookie) = refl

  exchanged_code-claims :
      (req : CallbackRequest) (id : Option String) (csrf : String) (now : ℕ) (c : StateClaims)
      (s : S)
      → (exchanged_code st services req id csrf now c s).1 ≡ c
  unfolding exchanged_code
  exchanged_code-claims req id csrf now c s =
      elim (Option-cases (services.exchange_code req.code_param (or_empty req.verifier_cookie))) [
        | inl q ↦ rw (q, exchanged_code)
        | inr (set, q) ↦ elim (Option-cases (read_claims services set)) [
          | inl r ↦ rw (q, r, exchanged_code)
          | inr (sub, r) ↦ rw (q, r, exchanged_code) (created-claims c csrf _)
        ]
      ]

  if_claimed-claims :
      (req : CallbackRequest) (id : Option String) (csrf : String) (now : ℕ) (s : S)
      (r : StateClaims × Bool)
      → (if_claimed st services req id csrf now s r).1 ≡ r.0
  if_claimed-claims req id csrf now s (c, false) = refl
  if_claimed-claims req id csrf now s (c, true) = exchanged_code-claims req id csrf now c s

  callback-claims :
      (req : CallbackRequest) (id : Option String) (csrf : String) (now : ℕ) (c : StateClaims)
      (s : S) (cookie : SetCookie) (given : String)
      → (callback st services req id csrf now c s).2 ≡ welcome cookie given
      → (callback st services req id csrf now c s).1 ≡ (claim (or_empty req.state_cookie) now c).0
  unfolding callback
  callback-claims req id csrf now c s cookie given e =
      elim (Bool-cases (is_state req.state_cookie req.state_param)) [
        | inr f ↦ cc (rw (f, callback) at e)
        | inl f ↦ elim (Bool-cases (or_empty req.verifier_cookie == "")) [
          | inl v ↦ cc (rw (f, v, callback) at e)
          | inr v ↦ elim (Bool-cases (req.code_param == "")) [
            | inl k ↦ cc (rw (f, v, k, callback) at e)
            | inr k ↦ rw (f, v, k, callback) (if_claimed-claims req id csrf now s _)
          ]
        ]
      ]

  if_claimed_refused :
      (req : CallbackRequest) (id : Option String) (csrf : String) (now : ℕ) (s : S)
      (r : StateClaims × Bool)
      → r.1 ≡ false
      → (if_claimed st services req id csrf now s r).2 ≡ unauthorized
  if_claimed_refused req id csrf now s (c, false) e = refl
  if_claimed_refused req id csrf now s (c, true) e = cc

  callback_refused :
      (req : CallbackRequest) (id : Option String) (csrf : String) (now : ℕ) (c : StateClaims)
      (s : S)
      → (claim (or_empty req.state_cookie) now c).1 ≡ false
      → (callback st services req id csrf now c s).2 ≡ unauthorized
  unfolding callback
  callback_refused req id csrf now c s e =
      if_both (λ (r : S × StateClaims × CallbackResponse). r.2 ≡ unauthorized)
        (not (is_state req.state_cookie req.state_param)) refl
        (if_both (λ (r : S × StateClaims × CallbackResponse). r.2 ≡ unauthorized)
          (or_empty req.verifier_cookie == "") refl
          (if_both (λ (r : S × StateClaims × CallbackResponse). r.2 ≡ unauthorized)
            (req.code_param == "") refl
            (if_claimed_refused req id csrf now s (claim (or_empty req.state_cookie) now c) e)))

  -- After a callback that was answered with a session, a callback with the same state cookie is unauthorized
  -- until the lifetime of the claim has passed, whatever it brings, whatever the sessions are and whatever
  -- other states are claimed in between, none of them at a later time.
  pub callback_once :
      (req later_req : CallbackRequest) (id later_id : Option String) (csrf later_csrf : String)
      (now later : ℕ) (c : StateClaims) (s later_s : S) (claims : List (String × ℕ))
      (cookie : SetCookie) (given : String)
      → (callback st services req id csrf now c s).2 ≡ welcome cookie given
      → later_req.state_cookie ≡ req.state_cookie
      → ClaimedUntil later claims
      → later < now + c.ttl
      → (callback st services later_req later_id later_csrf later
          (after_claims claims (callback st services req id csrf now c s).1)
          later_s).2
        ≡ unauthorized
  callback_once req later_req id later_id csrf later_csrf now later c s later_s claims cookie given
        e same u h =
      let accepted = callback-IsAccepted req id csrf now c s cookie given e in
      let free =
        subst (λ o. (claim (or_empty o) now c).1 ≡ true) (sym accepted.from_cookie) accepted.free in
      let refused = claim_once (or_empty req.state_cookie) now c claims later free u h in
      let left = after_claims claims (callback st services req id csrf now c s).1 in
      let kept : (claim (or_empty req.state_cookie) later left).1 ≡ false =
        rw (callback-claims req id csrf now c s cookie given e) refused in
      callback_refused later_req later_id later_csrf later left later_s
        (subst (λ o. (claim (or_empty o) later left).1 ≡ false) (sym same) kept)
