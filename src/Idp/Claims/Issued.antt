-- ===== src/Idp/Claims/Issued.antt =====
-- What stands in the tokens that are issued, and that they are decoded again.
use oidc_oauth2_idp.Prelude.{
  List, Option, Option-cases, String, [], ap, arith, contains, false, if◌then◌else◌, inl, inr, none,
  refl, some, some_injective, sym, ℕ, ◌/◌, ◌==◌, ◌∙◌, ◌∷◌, ◌≡◌, ◌≢◌,
}
use oidc_oauth2_idp.Prelude.Dict.{
  delete, insert, lookup, lookup-insert, lookup-insert_ne, lookup-insert_self,
}
use oidc_oauth2_idp.Idp.State.{Claims, Config, Json, arr, items, num, second, str}
use oidc_oauth2_idp.Idp.External.{External}
use oidc_oauth2_idp.Idp.Claims.{issue_token, signed_claims}

-- The claims that the issuer sets whatever the caller asks for.
abbrev pub own_claims : List String
own_claims = "iss" ∷ "aud" ∷ "iat" ∷ "exp" ∷ []

module _ (x : External) (cfg : Config) where
  -- How the signed claims follow from the requested ones.
  pub record AreSigned (subject : String) (audience : List String) (claims : Claims)
      (expiry now : ℕ) (signed : Claims) : Type 0 where
    pub issuer : lookup "iss" signed ≡ some (str cfg.external_url)
    pub audiences : lookup "aud" signed ≡ some (arr (items audience))
    pub issued_at : lookup "iat" signed ≡ some (num (now / second))
    pub expires : lookup "exp" signed ≡ some (num (expiry / second))
    pub requested_sub : (v : Json) → lookup "sub" claims ≡ some v → lookup "sub" signed ≡ some v
    pub default_sub : lookup "sub" claims ≡ none → lookup "sub" signed ≡ some (str subject)
    pub others :
        (name : String)
        → name ≢ "sub"
        → contains own_claims name ≡ false
        → lookup name signed ≡ lookup name claims

  -- What `issueToken` writes into any claims.
  abbrev stamped : List String → ℕ → ℕ → Claims → Claims
  stamped audience expiry now m = insert "exp" (num (expiry / second)) (
      insert "iat" (num (now / second))
        (insert "aud" (arr (items audience)) (insert "iss" (str cfg.external_url) m)))

  -- What a claim reads as, once it is stamped.
  abbrev stamped_value : List String → ℕ → ℕ → String → Option Json → Option Json
  stamped_value audience expiry now name given =
      if "exp" == name
      then some (num (expiry / second))
      else if "iat" == name
      then some (num (now / second))
      else if "aud" == name
      then some (arr (items audience))
      else if "iss" == name
      then some (str cfg.external_url)
      else given

  lookup-stamped :
      (audience : List String) (expiry now : ℕ) (m : Claims) (name : String)
      → lookup name (stamped audience expiry now m)
        ≡ stamped_value audience expiry now name (lookup name m)
  lookup-stamped audience expiry now m name =
      let issuer = insert "iss" (str cfg.external_url) m in
      let audiences = insert "aud" (arr (items audience)) issuer in
      let issued_at = insert "iat" (num (now / second)) audiences in
      rw (
        lookup-insert "exp" name (num (expiry / second)) issued_at,
        lookup-insert "iat" name (num (now / second)) audiences,
        lookup-insert "aud" name (arr (items audience)) issuer,
        lookup-insert "iss" name (str cfg.external_url) m,
      )

  stamped-AreSigned :
      (subject : String) (audience : List String) (claims m : Claims) (expiry now : ℕ)
      → ((v : Json) → lookup "sub" claims ≡ some v → lookup "sub" m ≡ some v)
      → (lookup "sub" claims ≡ none → lookup "sub" m ≡ some (str subject))
      → ((name : String) → name ≢ "sub" → lookup name m ≡ lookup name claims)
      → AreSigned subject audience claims expiry now (stamped audience expiry now m)
  unfolding contains
  stamped-AreSigned subject audience claims m expiry now given default other = record {
    issuer = lookup-stamped audience expiry now m "iss";
    audiences = lookup-stamped audience expiry now m "aud";
    issued_at = lookup-stamped audience expiry now m "iat";
    expires = lookup-stamped audience expiry now m "exp";
    requested_sub = λ v e. lookup-stamped audience expiry now m "sub" ∙ given v e;
    default_sub = λ e. lookup-stamped audience expiry now m "sub" ∙ default e;
    others = λ name n own. ground (arith, lookup-stamped audience expiry now m name, other name n);
  }

  signed_claims-AreSigned :
      (subject : String) (audience : List String) (claims : Claims) (expiry now : ℕ)
      → AreSigned subject audience claims expiry now
          (signed_claims x cfg subject audience claims expiry now)
  unfolding signed_claims
  signed_claims-AreSigned subject audience claims expiry now =
      elim (Option-cases (lookup "sub" claims)) [
        | inr (v, e) ↦
            rw (e, signed_claims)
              (stamped-AreSigned subject audience claims claims expiry now (λ w q. q)
                (λ q. ground arith) (λ name n. refl))
        | inl e ↦
            rw (e, signed_claims)
              (stamped-AreSigned subject audience claims (insert "sub" (str subject) claims) expiry
                now (λ w q. ground arith) (λ q. lookup-insert_self "sub" (str subject) claims)
                (λ name n. lookup-insert_ne "sub" name (str subject) claims (λ q. n (sym q))))
      ]

  -- A token that is issued is the signature of claims whose issuer, audience, issue time and expiry are
  -- the server's whatever was requested, whose subject is the requested one or else the given one, and
  -- whose other claims are those requested; the claims that are kept of it are the same without "iat".
  pub issue_token-AreSigned :
      (subject : String) (audience : List String) (claims issued : Claims) (expiry now : ℕ)
      (token : String)
      → issue_token x cfg subject audience claims expiry now ≡ some (token, issued)
      → (signed : Claims) × (x.sign_jwt signed ≡ some token)
        × AreSigned subject audience claims expiry now signed
        × (issued ≡ delete "iat" signed)
  unfolding issue_token
  issue_token-AreSigned subject audience claims issued expiry now token e =
      let signed = signed_claims x cfg subject audience claims expiry now in
      elim (Option-cases (x.sign_jwt signed)) [
        | inl q ↦ cc (rw (q, issue_token) at e)
        | inr (t, q) ↦
            let same = some_injective (rw (q, issue_token) at e) in
            (
              signed,
              q ∙ ap (λ (r : String × Claims). some r.0) same,
              signed_claims-AreSigned subject audience claims expiry now,
              sym (ap (λ (r : String × Claims). r.1) same),
            )
      ]
