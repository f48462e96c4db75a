-- ===== src/Idp/Registration/Dynamic.antt =====
-- Dynamic registration at /register.
use oidc_oauth2_idp.Prelude.{
  Bool-cases, List, Option, Option-cases, String, ap, arith, eq_iff, inl, inr, refl, some, subst,
  sym, text_cases, ℕ, ◌/◌, ◌==◌, ◌≡◌, ◌⊎◌,
}
use oidc_oauth2_idp.Prelude.Dict.{insert}
use oidc_oauth2_idp.Idp.State.{
  ClientRegistration, Request, Response, Server, registered, registration_method_dynamic, second,
}
use oidc_oauth2_idp.Idp.External.{External}
use oidc_oauth2_idp.Idp.Registration.{
  Normalized, check_registration, dedupe_registration, finish_registration, issue_registration,
  normalize_registration, normalized, register, rejected, supported_token_endpoint_auth_methods,
  with_defaults,
}
use oidc_oauth2_idp.Idp.Registration.Normalize.{IsNormal, normalize_registration-IsNormal}

-- What the server stores for a client that it registered, and how it came about. A public client keeps
-- the secret and the expiry that it submitted.
pub record IsIssued (x : External) (body : Option ClientRegistration) (new_id : String)
    (new_secret : Option String) (now : ℕ) (reg : ClientRegistration) : Type 0 where
  pub normal : IsNormal x supported_token_endpoint_auth_methods reg
  pub identifier : reg.client_id ≡ new_id
  pub issued_at : reg.client_id_issued_at ≡ now / second
  pub how : reg.registration_method ≡ registration_method_dynamic
  pub given : ClientRegistration
  pub submitted : body ≡ some given
  pub secret :
      ((reg.token_endpoint_auth_method ≡ "none")
        × (reg.client_secret ≡ given.client_secret)
        × (reg.client_secret_expires_at ≡ given.client_secret_expires_at))
      ⊎ ((secret : String) × (new_secret ≡ some secret)
          × (reg.client_secret ≡ secret)
          × (reg.client_secret_expires_at ≡ some 0))

module _ (x : External) where
  -- The members that the server sets are none of those that validation looks at.
  pub IsNormal-stamp :
      (allowed : List String) (reg : ClientRegistration) (new_id secret how : String)
      (issued_at : ℕ) (expires : Option ℕ)
      → IsNormal x allowed reg
      → IsNormal x allowed (record reg {
        client_id = new_id;
        client_id_issued_at = issued_at;
        client_secret = secret;
        client_secret_expires_at = expires;
        registration_method = how;
      })
  IsNormal-stamp allowed reg new_id secret how issued_at expires n = record {
    acceptable = record {
      grants = n.acceptable.grants;
      responses = n.acceptable.responses;
      auth_method = n.acceptable.auth_method;
      redirectable = n.acceptable.redirectable;
      uris = n.acceptable.uris;
    };
    named_method = n.named_method;
    some_grant = n.some_grant;
    some_response = n.some_response;
    distinct_uris = n.distinct_uris;
    distinct_grants = n.distinct_grants;
    distinct_responses = n.distinct_responses;
    tidy_scope = n.tidy_scope;
  }

  -- A registration that is issued is stored as it is returned.
  abbrev Issues :
      Option ClientRegistration
      → String
      → Option String
      → ℕ
      → Server
      → ClientRegistration
      → Server × Response
      → Type 0
  Issues body new_id new_secret now s reg r =
      IsIssued x body new_id new_secret now reg
      × (r.0 ≡ record s { clients = insert new_id reg s.clients })

  registered_injective : {a b : ClientRegistration} → registered a ≡ registered b → a ≡ b
  registered_injective e = cc

  store-Issues :
      (body : Option ClientRegistration) (new_id : String) (new_secret : Option String) (now : ℕ)
      (s : Server) (given reg : ClientRegistration)
      → IsIssued x body new_id new_secret now given
      → registered given ≡ registered reg
      → Issues body new_id new_secret now s reg
          (record s { clients = insert new_id given s.clients }, registered given)
  store-Issues body new_id new_secret now s given reg h e =
      subst
        (λ r.
          Issues body new_id new_secret now s r
            (record s { clients = insert new_id given s.clients }, registered given))
        (registered_injective e) (h, refl)

  issue_registration-Issues :
      (given full reg : ClientRegistration) (new_id : String) (new_secret : Option String) (now : ℕ)
      (s : Server)
      → IsNormal x supported_token_endpoint_auth_methods full
      → (full.client_secret ≡ given.client_secret)
        × (full.client_secret_expires_at ≡ given.client_secret_expires_at)
      → (issue_registration x full new_id new_secret now s).1 ≡ registered reg
      → Issues
          (some given)
          new_id
          new_secret
          now
          s
          reg
          (issue_registration x full new_id new_secret now s)
  unfolding issue_registration
  issue_registration-Issues given full reg new_id new_secret now s n kept e =
      elim (text_cases full.token_endpoint_auth_method "none") [
        | inl (public, t) ↦
            rw (t, issue_registration)
              (store-Issues (some given) new_id new_secret now s _ reg
                (record {
                  normal = IsNormal-stamp _ full new_id _ _ _ _ n;
                  identifier = refl;
                  issued_at = refl;
                  how = refl;
                  given = given;
                  submitted = refl;
                  secret = inl (public, kept.0, kept.1);
                })
                (rw (t, issue_registration) at e))
        | inr (confidential, t) ↦ elim (Option-cases new_secret) [
          | inl q ↦ absurd (ground arith)
          | inr (secret, q) ↦
              rw (t, q, issue_registration)
                (store-Issues (some given) new_id (some secret) now s _ reg
                  (record {
                    normal = IsNormal-stamp _ full new_id _ _ _ _ n;
                    identifier = refl;
                    issued_at = refl;
                    how = refl;
                    given = given;
                    submitted = refl;
                    secret = inr (secret, refl, refl, refl);
                  })
                  (rw (t, q, issue_registration) at e))
        ]
      ]

  normalize_registration_kept :
      (given full : ClientRegistration)
      → normalize_registration x given supported_token_endpoint_auth_methods "client_secret_basic"
        ≡ normalized full
      → (full.client_secret ≡ given.client_secret)
        × (full.client_secret_expires_at ≡ given.client_secret_expires_at)
  unfolding normalize_registration with_defaults dedupe_registration
  normalize_registration_kept given full e =
      elim (Option-cases (
        check_registration x (with_defaults given "client_secret_basic")
          supported_token_endpoint_auth_methods)) [
            | inr ((code, description), failed) ↦ absurd (ground arith)
            | inl passed ↦
                let same : dedupe_registration x (with_defaults given "client_secret_basic")
                    ≡ full =
                  ground arith in
                (
                  sym (ap (λ (reg : ClientRegistration). reg.client_secret) same),
                  sym (ap (λ (reg : ClientRegistration). reg.client_secret_expires_at) same),
                )
          ]

  finish_registration-Issues :
      (given reg : ClientRegistration) (n : Normalized) (new_id : String)
      (new_secret : Option String) (now : ℕ) (s : Server)
      → normalize_registration x given supported_token_endpoint_auth_methods "client_secret_basic"
        ≡ n
      → (finish_registration x n new_id new_secret now s).1 ≡ registered reg
      → Issues
          (some given)
          new_id
          new_secret
          now
          s
          reg
          (finish_registration x n new_id new_secret now s)
  unfolding finish_registration
  finish_registration-Issues given reg (rejected code description) new_id new_secret now s q e = cc
  finish_registration-Issues given reg (normalized full) new_id new_secret now s q e =
      issue_registration-Issues given full reg new_id new_secret now s
        (normalize_registration-IsNormal x given full _ "client_secret_basic"
          (ground (arith, eq_iff "client_secret_basic" "")) q)
        (normalize_registration_kept given full q) e

  pub register-IsIssued :
      (req : Request) (body : Option ClientRegistration) (new_id : String)
      (new_secret : Option String) (now : ℕ) (s : Server) (reg : ClientRegistration)
      → (register x req body new_id new_secret now s).1 ≡ registered reg
      → IsIssued x body new_id new_secret now reg
        × ((register x req body new_id new_secret now s).0
            ≡ record s { clients = insert new_id reg s.clients })
  unfolding register
  register-IsIssued req body new_id new_secret now s reg e =
      elim (Bool-cases (req.method == "POST")) [
        | inr get ↦ cc (rw (get, register) at e)
        | inl post ↦ elim (Option-cases body) [
          | inl malformed ↦ cc (rw (post, malformed, register) at e)
          | inr (given, decoded) ↦
              rw (post, decoded, register)
                (finish_registration-Issues given reg _ new_id new_secret now s refl
                  (rw (post, decoded, register) at e))
        ]
      ]
