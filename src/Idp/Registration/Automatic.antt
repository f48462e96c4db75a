-- ===== src/Idp/Registration/Automatic.antt =====
-- Automatic registration.
use oidc_oauth2_idp.Prelude.{
  All-append, Option-cases, String, [], ap, arith, contains, contains-append, eq_iff, eq_refl,
  if◌then◌else◌, inl, inr, none, not, some, text_cases, true, ℕ, ◌++◌, ◌==◌, ◌∙◌, ◌∷◌, ◌≡◌, ◌≢◌,
  ◌⊎◌,
}
use oidc_oauth2_idp.Prelude.Dict.{Dict, insert-insert, lookup, lookup-insert_ne, lookup-insert_self}
use oidc_oauth2_idp.Idp.Scope.Dedupe.{
  All-dedupe_strings, contains-dedupe_strings, dedupe_strings_merge,
}
use oidc_oauth2_idp.Prelude.Text.Words.{IsWord, fields-IsWord, fields-join_spaces}
use oidc_oauth2_idp.Prelude.Text.{fields, join_spaces}
use oidc_oauth2_idp.Idp.Scope.{dedupe_strings}
use oidc_oauth2_idp.Idp.State.{ClientRegistration, Server, registration_method_automatic}
use oidc_oauth2_idp.Idp.Registration.{
  automatic_registration, observe, register_client, registered_clients,
}

-- The registration that a request leaves for its own client.
pub lookup-register_client :
    (client_id redirect_uri scope : String) (now : ℕ) (s : Server)
    → client_id ≢ ""
    → lookup client_id (register_client client_id redirect_uri scope now s).clients
      ≡ elim (lookup client_id s.clients) [
        | none ↦ some (observe (automatic_registration client_id now) redirect_uri scope)
        | some reg ↦ some (
            if not (reg.registration_method == registration_method_automatic)
            then reg
            else observe reg redirect_uri scope)
      ]
unfolding register_client
lookup-register_client client_id redirect_uri scope now s h =
    elim (Option-cases (lookup client_id s.clients)) [
      | inl e ↦ ground (
        arith,
        eq_iff client_id "",
        lookup-insert_self client_id
            (observe (automatic_registration client_id now) redirect_uri scope) s.clients,
      )
      | inr (found, e) ↦ ground (
        arith,
        eq_iff client_id "",
        lookup-insert_self client_id (observe found redirect_uri scope) s.clients,
      )
    ]

lookup-register_client_ne :
    (client_id redirect_uri scope : String) (now : ℕ) (s : Server) (kept : String)
    → client_id ≢ kept
    → lookup kept (register_client client_id redirect_uri scope now s).clients
      ≡ lookup kept s.clients
unfolding register_client
lookup-register_client_ne client_id redirect_uri scope now s kept h =
    elim (Option-cases (lookup client_id s.clients)) [
      | inl e ↦ ground (
        arith,
        lookup-insert_ne client_id kept
            (observe (automatic_registration client_id now) redirect_uri scope) s.clients,
      )
      | inr (found, e) ↦
          ground
            (arith, lookup-insert_ne client_id kept (observe found redirect_uri scope) s.clients)
    ]

-- Automatic registration leaves the registration of every other client as it is, and that of a client
-- which was not registered automatically, whatever the request sends.
pub register_client_keeps :
    (client_id redirect_uri scope : String) (now : ℕ) (s : Server) (kept : String)
    (reg : ClientRegistration)
    → lookup kept s.clients ≡ some reg
    → (client_id ≢ kept) ⊎ (reg.registration_method ≢ registration_method_automatic)
    → lookup kept (register_client client_id redirect_uri scope now s).clients ≡ some reg
unfolding register_client
register_client_keeps client_id redirect_uri scope now s kept reg known h =
    elim (text_cases client_id kept) [
      | inl (same, _) ↦ ground (arith, eq_iff reg.registration_method registration_method_automatic)
      | inr (apart, _) ↦
          lookup-register_client_ne client_id redirect_uri scope now s kept apart ∙ known
    ]

observe_uri :
    (reg : ClientRegistration) (redirect_uri scope : String)
    → redirect_uri ≢ ""
    → contains (observe reg redirect_uri scope).redirect_uris redirect_uri ≡ true
unfolding observe contains
observe_uri reg redirect_uri scope h = ground (
  arith,
  eq_iff redirect_uri "",
  contains-dedupe_strings (reg.redirect_uris ++ redirect_uri ∷ []) redirect_uri,
  contains-append reg.redirect_uris (redirect_uri ∷ []) redirect_uri,
  eq_refl redirect_uri,
)

observe_keeps_uri :
    (reg : ClientRegistration) (redirect_uri scope uri : String)
    → contains reg.redirect_uris uri ≡ true
    → contains (observe reg redirect_uri scope).redirect_uris uri ≡ true
unfolding observe
observe_keeps_uri reg redirect_uri scope uri h = ground (
  arith,
  contains-dedupe_strings (reg.redirect_uris ++ redirect_uri ∷ []) uri,
  contains-append reg.redirect_uris (redirect_uri ∷ []) uri,
)

merged_scope : (old new : String) → String
merged_scope old new = join_spaces (dedupe_strings (fields old ++ fields new))

fields-merged_scope :
    (old new : String) → fields (merged_scope old new) ≡ dedupe_strings (fields old ++ fields new)
unfolding merged_scope
fields-merged_scope old new = fields-join_spaces _ (
    All-dedupe_strings IsWord _
      (All-append IsWord (fields old) (fields new) (fields-IsWord old) (fields-IsWord new)))

merged_scope_twice :
    (old new : String) → merged_scope (merged_scope old new) new ≡ merged_scope old new
unfolding merged_scope
merged_scope_twice old new =
    ap (λ ws. join_spaces (dedupe_strings (ws ++ fields new))) (fields-merged_scope old new)
    ∙ ap join_spaces (dedupe_strings_merge (fields old) (fields new))

-- Observing the same request again changes nothing.
pub observe_twice :
    (reg : ClientRegistration) (redirect_uri scope : String)
    → observe (observe reg redirect_uri scope) redirect_uri scope ≡ observe reg redirect_uri scope
unfolding observe merged_scope
observe_twice reg redirect_uri scope = ground (
  arith,
  dedupe_strings_merge reg.redirect_uris (redirect_uri ∷ []),
  dedupe_strings_merge reg.grant_types ("refresh_token" ∷ []),
  merged_scope_twice reg.scope scope,
)

register_unknown_twice :
    (client_id redirect_uri scope : String) (now later : ℕ) (clients : Dict ClientRegistration)
    → lookup client_id clients ≡ none
    → registered_clients client_id redirect_uri scope later
        (registered_clients client_id redirect_uri scope now clients)
      ≡ registered_clients client_id redirect_uri scope now clients
unfolding registered_clients observe
register_unknown_twice client_id redirect_uri scope now later clients e =
    let fresh = observe (automatic_registration client_id now) redirect_uri scope in
    ground (
      arith,
      lookup-insert_self client_id fresh clients,
      insert-insert client_id (observe fresh redirect_uri scope) fresh clients,
      observe_twice (automatic_registration client_id now) redirect_uri scope,
      eq_refl registration_method_automatic,
    )

register_known_twice :
    (client_id redirect_uri scope : String) (now later : ℕ) (clients : Dict ClientRegistration)
    (reg : ClientRegistration)
    → lookup client_id clients ≡ some reg
    → registered_clients client_id redirect_uri scope later
        (registered_clients client_id redirect_uri scope now clients)
      ≡ registered_clients client_id redirect_uri scope now clients
unfolding registered_clients observe
register_known_twice client_id redirect_uri scope now later clients reg e =
    let merged = observe reg redirect_uri scope in
    ground (
      arith,
      lookup-insert_self client_id merged clients,
      insert-insert client_id (observe merged redirect_uri scope) merged clients,
      observe_twice reg redirect_uri scope,
    )

-- Registering the same request again, whenever that is, changes nothing: neither the recorded metadata
-- nor the time of issue.
pub register_client_twice :
    (client_id redirect_uri scope : String) (now later : ℕ) (s : Server)
    → register_client client_id redirect_uri scope later
        (register_client client_id redirect_uri scope now s)
      ≡ register_client client_id redirect_uri scope now s
unfolding register_client
register_client_twice client_id redirect_uri scope now later s =
    ap (λ (m : Dict ClientRegistration). record s { clients = m })
      (elim (Option-cases (lookup client_id s.clients)) [
        | inl e ↦ register_unknown_twice client_id redirect_uri scope now later s.clients e
        | inr (reg, e) ↦ register_known_twice client_id redirect_uri scope now later s.clients reg e
      ])

-- A request for a client that registered itself changes nothing.
pub register_client_same :
    (client_id redirect_uri scope : String) (now : ℕ) (s : Server) (reg : ClientRegistration)
    → lookup client_id s.clients ≡ some reg
    → reg.registration_method ≢ registration_method_automatic
    → register_client client_id redirect_uri scope now s ≡ s
unfolding register_client
register_client_same client_id redirect_uri scope now s reg known h =
    ap (λ (m : Dict ClientRegistration). record s { clients = m })
      (ground (arith, eq_iff reg.registration_method registration_method_automatic))
