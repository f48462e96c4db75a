-- ===== src/Idp/Metadata/Cache.antt =====
-- The cache of client ID metadata documents: `resolveClientIDMetadata` of
-- idp-auth-server/clientid_metadata.go.
use oidc_oauth2_idp.Prelude.{
  Option-cases, String, ap, arith, eq_iff, inl, inr, none, some, some_injective, sym, ℕ, ◌+◌, ◌<◌,
  ◌≡◌, ◌≢◌,
}
use oidc_oauth2_idp.Prelude.Dict.{lookup, lookup-insert_self}
use oidc_oauth2_idp.Idp.State.{
  ClientIdMetadataEntry, ClientRegistration, Config, Server,
  registration_method_client_id_metadata_document,
}
use oidc_oauth2_idp.Idp.External.{External, Network}
use oidc_oauth2_idp.Idp.Metadata.{
  fetch_client_id_metadata, keep_issue_time, refresh_client_id_metadata, resolve_client_id_metadata,
  store_document,
}

module _ (x : External) (cfg : Config) (net : Network) where
  resolve_live :
      (client_id : String) (now : ℕ) (s : Server) (entry : ClientIdMetadataEntry)
      → lookup client_id s.client_id_metadata ≡ some entry
      → now < entry.expires_at
      → resolve_client_id_metadata x cfg net client_id now s ≡ (s, some entry.reg)
  unfolding resolve_client_id_metadata
  resolve_live client_id now s entry e h = ground arith

  refresh-stored :
      (client_id : String) (now : ℕ) (s : Server) (reg : ClientRegistration)
      → (refresh_client_id_metadata x cfg net client_id now s).1 ≡ some reg
      → (fetched : ClientRegistration) × (ttl : ℕ) × (fetch_client_id_metadata x cfg net client_id
            now
          ≡ some (fetched, ttl))
        × (refresh_client_id_metadata x cfg net client_id now s
            ≡ (store_document x cfg client_id fetched ttl now s, some reg))
        × (reg ≡ keep_issue_time x cfg (lookup client_id s.clients) fetched)
  unfolding refresh_client_id_metadata
  refresh-stored client_id now s reg e =
      elim (Option-cases (fetch_client_id_metadata x cfg net client_id now)) [
        | inl q ↦ cc (rw (q, refresh_client_id_metadata) at e)
        | inr ((fetched, ttl), q) ↦
            let same = some_injective (rw (q, refresh_client_id_metadata) at e) in
            (
              fetched,
              ttl,
              q,
              rw (q, refresh_client_id_metadata)
                  (ap (λ r. (store_document x cfg client_id fetched ttl now s, some r)) same),
              sym same,
            )
      ]

  -- A document whose fetch or validation fails changes nothing.
  refresh_failed :
      (client_id : String) (now : ℕ) (s : Server)
      → fetch_client_id_metadata x cfg net client_id now ≡ none
      → refresh_client_id_metadata x cfg net client_id now s ≡ (s, none)
  unfolding refresh_client_id_metadata
  refresh_failed client_id now s e = rw (e, refresh_client_id_metadata)

module _ (x : External) (cfg : Config) where
  store_document-entry :
      (client_id : String) (fetched : ClientRegistration) (ttl now : ℕ) (s : Server)
      → lookup client_id (store_document x cfg client_id fetched ttl now s).client_id_metadata
        ≡ some (record {
          reg = keep_issue_time x cfg (lookup client_id s.clients) fetched;
          keys = none;
          expires_at = now + ttl;
        })
  unfolding store_document
  store_document-entry client_id fetched ttl now s =
      lookup-insert_self client_id _ s.client_id_metadata

  -- In the state that fetching a document leaves, a lookup of its client before the lifetime ends gives
  -- the same registration, whatever the network then says, and changes nothing.
  pub refresh_client_id_metadata_cached :
      (net later_net : Network) (client_id : String) (now later : ℕ) (s : Server)
      (fetched : ClientRegistration) (ttl : ℕ)
      → fetch_client_id_metadata x cfg net client_id now ≡ some (fetched, ttl)
      → later < now + ttl
      → let r = refresh_client_id_metadata x cfg net client_id now s in
        resolve_client_id_metadata x cfg later_net client_id later r.0 ≡ r
  unfolding refresh_client_id_metadata
  refresh_client_id_metadata_cached net later_net client_id now later s fetched ttl e h =
      rw (e, refresh_client_id_metadata)
        (resolve_live x cfg later_net client_id later
          (store_document x cfg client_id fetched ttl now s)
          (record {
            reg = keep_issue_time x cfg (lookup client_id s.clients) fetched;
            keys = none;
            expires_at = now + ttl;
          })
          (store_document-entry client_id fetched ttl now s) h)

  keep_issue_time_same :
      (previous fetched : ClientRegistration)
      → previous.registration_method ≡ registration_method_client_id_metadata_document
      → previous.client_id_issued_at ≢ 0
      → keep_issue_time x cfg (some previous) fetched
        ≡ record fetched { client_id_issued_at = previous.client_id_issued_at }
  unfolding keep_issue_time
  keep_issue_time_same previous fetched m i =
      ground
        (arith, eq_iff previous.registration_method registration_method_client_id_metadata_document)
