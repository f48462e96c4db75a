-- ===== src/Bff/Store/Encrypted/Recovered.antt =====
-- What is saved encrypted is read back.
use oidc_oauth2_idp.Prelude.{
  Bool, Bool-cases, Option-cases, String, ap, arith, false, inl, inr, ltb, none, refl, some,
  some_injective, subst, sym, true, ℕ, ◌+◌, ◌∙◌, ◌≡◌, ◌≤◌,
}
use oidc_oauth2_idp.Prelude.Text.{contains_char, cut, ◌⧺◌}
use oidc_oauth2_idp.Prelude.Text.Pieces.{cut-dot, split_bytes, split_bytes-append}
use oidc_oauth2_idp.Bff.Store.{BffSession}
use oidc_oauth2_idp.Bff.Store.Encrypted.{
  Codec, RedisServer, cookie_data, cookie_load, cookie_save, cookie_value, decrypt_aesgcm,
  encrypt_aesgcm, max_cookie_value_bytes, redis_delete, redis_load, redis_parts, redis_save,
  redis_token, session_from,
}
use oidc_oauth2_idp.Prelude.Text.Affixes.{byte_length}

-- What JSON and AES-GCM promise for one session, key and nonce.
pub record IsReadable (codec : Codec) (key nonce plaintext : String) (sess : BffSession)
    : Type 0 where
  pub marshalled : codec.marshal sess ≡ some plaintext
  pub unmarshalled_back : codec.unmarshal plaintext ≡ some sess
  pub fits : split_bytes codec.nonce_size nonce ≡ some (nonce, "")
  pub opens : codec.gcm_open key nonce (codec.gcm_seal key nonce plaintext) ≡ some plaintext

-- What a Redis server promises: a value that is set is there until its lifetime has passed, and one that is
-- deleted is not there any more.
pub record IsRedis {R : Type 0} (server : RedisServer R) : Type 0 where
  pub get_set :
      (key value : String) (ttl now later : ℕ) (r : R)
      → (server.set_value key value ttl now r).1 ≡ true
      → later ≤ now + ttl
      → server.get_value key later (server.set_value key value ttl now r).0 ≡ some (some value)
  pub get_del :
      (key : String) (now : ℕ) (r : R)
      → (server.del_value key r).1 ≡ true
      → server.get_value key now (server.del_value key r).0 ≡ some none

module _ (codec : Codec) where
  decrypt-encrypt :
      (key nonce plaintext ciphertext : String) (sess : BffSession)
      → IsReadable codec key nonce plaintext sess
      → encrypt_aesgcm codec key plaintext (some nonce) ≡ some ciphertext
      → session_from codec (decrypt_aesgcm codec key ciphertext) ≡ some (some sess)
  unfolding encrypt_aesgcm decrypt_aesgcm
  decrypt-encrypt key nonce plaintext ciphertext sess h e =
      elim (Bool-cases (codec.valid_key key)) [
        | inr f ↦ cc (rw (f, encrypt_aesgcm) at e)
        | inl t ↦
            subst (λ c. session_from codec (decrypt_aesgcm codec key c) ≡ some (some sess))
              (some_injective (rw (t, encrypt_aesgcm) at e))
              (rw
                (
                  t,
                  decrypt_aesgcm,
                  split_bytes-append codec.nonce_size nonce (codec.gcm_seal key nonce plaintext)
                      h.fits,
                  h.opens,
                  h.unmarshalled_back,
                )
                refl)
      ]

  module _ {R : Type 0} (server : RedisServer R) (ok : IsRedis server) (prefix : String) where
    redis_token_lem :
        (id secret token : String) (r : R × Bool)
        → (redis_token codec server prefix id secret r).1 ≡ some token
        → (r.1 ≡ true)
          × ((redis_token codec server prefix id secret r).0 ≡ r.0)
          × (token ≡ id ⧺ "." ⧺ codec.encode_base64url secret)
    redis_token_lem id secret token (r, false) e = cc
    redis_token_lem id secret token (r, true) e = (refl, refl, sym (some_injective e))

    redis_load-redis_delete :
        (token : String) (now : ℕ) (r : R)
        → (redis_delete codec server prefix token r).1 ≡ true
        → redis_load codec server prefix token now (redis_delete codec server prefix token r).0
          ≡ some none
    unfolding redis_load redis_delete
    redis_load-redis_delete token now r e = elim (Option-cases (cut b'.' token)) [
      | inl q ↦ rw (q, redis_load) refl
      | inr ((id, secret64), q) ↦ elim (Option-cases (codec.decode_base64url secret64)) [
        | inl d ↦ rw (q, redis_load, d) refl
        | inr (secret, d) ↦
            rw
              (
                q,
                redis_load,
                d,
                redis_delete,
                ok.get_del (prefix ⧺ id) now r (rw (q, redis_delete) at e),
              )
              refl
      ]
    ]

    redis_load_saved :
        (id secret nonce plaintext token : String) (sess : BffSession) (ttl now later : ℕ) (r : R)
        → contains_char id b'.' ≡ false
        → codec.decode_base64url (codec.encode_base64url secret) ≡ some secret
        → IsReadable codec secret nonce plaintext sess
        → (redis_save codec server prefix (some id) (some secret) (some nonce) sess ttl now r).1
          ≡ some token
        → later ≤ now + ttl
        → redis_load codec server prefix token later
            (redis_save codec server prefix (some id) (some secret) (some nonce) sess ttl now r).0
          ≡ some (some sess)
    unfolding redis_save redis_load
    redis_load_saved id secret nonce plaintext token sess ttl now later r dotless decoded h e live =
        elim (Option-cases (encrypt_aesgcm codec secret plaintext (some nonce))) [
          | inl q ↦ cc (rw (h.marshalled, q, redis_save) at e)
          | inr (ciphertext, q) ↦
              let written = server.set_value (prefix ⧺ id) ciphertext ttl now r in
              let (fine, kept, is_token) =
                redis_token_lem id secret token written (rw (h.marshalled, q, redis_save) at e) in
              rw (h.marshalled, q, redis_save, kept, is_token)
                (ap (λ o. redis_parts codec server prefix later written.0 o)
                    (cut-dot id (codec.encode_base64url secret) dotless)
                  ∙ rw (decoded, ok.get_set (prefix ⧺ id) ciphertext ttl now later r fine live)
                      (decrypt-encrypt secret nonce plaintext ciphertext sess h q))
        ]

    -- A session that the Redis store saves is what the returned token loads until its lifetime has passed.
    -- Once the token has been deleted, it loads no session. The conditions are that the identifier has no dot,
    -- that the secret is decoded to what it was, and what JSON, AES-GCM and Redis promise.
    pub redis_load-redis_save :
        (id secret nonce plaintext token : String) (sess : BffSession) (ttl now later : ℕ) (r : R)
        → contains_char id b'.' ≡ false
        → codec.decode_base64url (codec.encode_base64url secret) ≡ some secret
        → IsReadable codec secret nonce plaintext sess
        → (redis_save codec server prefix (some id) (some secret) (some nonce) sess ttl now r).1
          ≡ some token
        → later ≤ now + ttl
        → (redis_delete codec server prefix token
            (redis_save codec server prefix
              (some id)
              (some secret)
              (some nonce)
              sess
              ttl
              now
              r).0).1
          ≡ true
        → (redis_load codec server prefix token later
              (redis_save codec server prefix (some id) (some secret) (some nonce) sess ttl now r).0
            ≡ some (some sess))
          × (redis_load codec server prefix token later
                (redis_delete codec server prefix token
                  (redis_save codec server prefix
                    (some id)
                    (some secret)
                    (some nonce)
                    sess
                    ttl
                    now
                    r).0).0
              ≡ some none)
    redis_load-redis_save id secret nonce plaintext token sess ttl now later r dotless decoded h e
          live gone =
        (
          redis_load_saved id secret nonce plaintext token sess ttl now later r dotless decoded h e
              live,
          redis_load-redis_delete token later _ gone,
        )

  cookie_value_lem :
      (ciphertext token : String)
      → cookie_value codec (some ciphertext) ≡ some token
      → (byte_length token ≤ 3900) × (token ≡ codec.encode_base64url ciphertext)
  cookie_value_lem ciphertext token e =
      elim (Bool-cases
        (ltb max_cookie_value_bytes (byte_length (codec.encode_base64url ciphertext)))) [
          | inl t ↦ cc (rw t at e)
          | inr t ↦
              let same = some_injective (rw t at e) in
              (subst (λ s. byte_length s ≤ 3900) same (ground arith), sym same)
        ]

  valid_of :
      (key nonce plaintext ciphertext : String)
      → encrypt_aesgcm codec key plaintext (some nonce) ≡ some ciphertext
      → codec.valid_key key ≡ true
  unfolding encrypt_aesgcm
  valid_of key nonce plaintext ciphertext e = elim (Bool-cases (codec.valid_key key)) [
    | inl t ↦ t
    | inr f ↦ cc (rw (f, encrypt_aesgcm) at e)
  ]

  cookie_load_opened :
      (key ciphertext : String) (sess : BffSession)
      → codec.valid_key key ≡ true
      → session_from codec (decrypt_aesgcm codec key ciphertext) ≡ some (some sess)
      → cookie_data codec key (some ciphertext) ≡ some (some sess)
  unfolding decrypt_aesgcm
  cookie_load_opened key ciphertext sess t e = rw t (rw (t, decrypt_aesgcm) at e)

  -- A session that the cookie store saves is in a token of at most 3900 bytes, which loads it at any time
  -- after. The conditions are that base64url decodes the ciphertext to what it was, and what JSON and AES-GCM
  -- promise.
  pub cookie_load-cookie_save :
      (key nonce plaintext token : String) (sess : BffSession)
      → ((ciphertext : String)
          → codec.decode_base64url (codec.encode_base64url ciphertext) ≡ some ciphertext)
      → IsReadable codec key nonce plaintext sess
      → cookie_save codec key (some nonce) sess ≡ some token
      → (byte_length token ≤ 3900) × (cookie_load codec key token ≡ some (some sess))
  unfolding cookie_save cookie_load
  cookie_load-cookie_save key nonce plaintext token sess decoded h e =
      elim (Option-cases (encrypt_aesgcm codec key plaintext (some nonce))) [
        | inl q ↦ cc (rw (h.marshalled, q, cookie_save) at e)
        | inr (ciphertext, q) ↦
            let (short, same) =
              cookie_value_lem ciphertext token (rw (h.marshalled, q, cookie_save) at e) in
            (
              short,
              rw (same, cookie_load, decoded ciphertext)
                  (cookie_load_opened key ciphertext sess
                    (valid_of key nonce plaintext ciphertext q)
                    (decrypt-encrypt key nonce plaintext ciphertext sess h q)),
            )
      ]
