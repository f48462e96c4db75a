-- ===== src/Bff/Store/Encrypted.antt =====
-- The stores that encrypt sessions: `RedisStore` of bff/internal/session/store.go and `CookieStore` of
-- bff/internal/session/cookie_store.go. JSON, AES-GCM, base64url and the Redis server are parameters; bytes
-- are characters.
pub mod Recovered
use oidc_oauth2_idp.Prelude.{Bool, Option, String, false, if◌then◌else◌, ltb, none, some, true, ℕ}
use oidc_oauth2_idp.Prelude.Text.{cut, ◌⧺◌}
use oidc_oauth2_idp.Prelude.Text.Affixes.{byte_length}
use oidc_oauth2_idp.Prelude.Text.Pieces.{split_bytes}
use oidc_oauth2_idp.Bff.Store.{BffSession}

pub record Codec : Type 0 where
  pub marshal : BffSession → Option String
  pub unmarshal : String → Option BffSession
  -- `aes.NewCipher` with `cipher.NewGCM`: whether a key is accepted.
  pub valid_key : String → Bool
  pub nonce_size : ℕ
  -- `Seal` and `Open`, of a key and a nonce.
  pub gcm_seal : String → String → String → String
  pub gcm_open : String → String → String → Option String
  pub encode_base64url : String → String
  pub decode_base64url : String → Option String

-- A Redis server in a state R: `Set` with a lifetime at a time, `Get` at a time and `Del`. Failures are
-- `false`, and `none` for `Get`, which is `some none` where there is no value.
pub record RedisServer (R : Type 0) : Type 0 where
  pub set_value : String → String → ℕ → ℕ → R → R × Bool
  pub get_value : String → ℕ → R → Option (Option String)
  pub del_value : String → R → R × Bool

abbrev pub max_cookie_value_bytes : ℕ
max_cookie_value_bytes = 3900

module _ (codec : Codec) where
  abbrev sealed : String → String → Option String → Option String
  sealed key plaintext none = none
  sealed key plaintext (some nonce) = some (nonce ⧺ codec.gcm_seal key nonce plaintext)

  -- `encryptAESGCM`; the nonce is drawn.
  unfoldable pub encrypt_aesgcm : String → String → Option String → Option String
  encrypt_aesgcm key plaintext drawn =
      if codec.valid_key key then sealed key plaintext drawn else none

  abbrev pub opened : String → Option (String × String) → Option String
  opened key none = none
  opened key (some (nonce, rest)) = codec.gcm_open key nonce rest

  -- `decryptAESGCM`.
  unfoldable pub decrypt_aesgcm : String → String → Option String
  decrypt_aesgcm key bytes =
      if codec.valid_key key then opened key (split_bytes codec.nonce_size bytes) else none

  -- What unmarshalling gives; it fails with an error.
  abbrev unmarshalled : Option BffSession → Option (Option BffSession)
  unmarshalled none = none
  unmarshalled (some sess) = some (some sess)

  -- A session from its plaintext. If decrypting failed, there is no session.
  abbrev pub session_from : Option String → Option (Option BffSession)
  session_from none = some none
  session_from (some plaintext) = unmarshalled (codec.unmarshal plaintext)

  module _ {R : Type 0} (server : RedisServer R) (prefix : String) where
    abbrev pub redis_token : String → String → R × Bool → R × Option String
    redis_token id secret (r, false) = (r, none)
    redis_token id secret (r, true) = (r, some (id ⧺ "." ⧺ codec.encode_base64url secret))

    abbrev pub redis_set : String → String → ℕ → ℕ → R → Option String → R × Option String
    redis_set id secret ttl now r none = (r, none)
    redis_set id secret ttl now r (some ciphertext) =
        redis_token id secret (server.set_value (prefix ⧺ id) ciphertext ttl now r)

    abbrev pub redis_encrypted :
        String → String → Option String → ℕ → ℕ → R → Option String → R × Option String
    redis_encrypted id secret drawn ttl now r none = (r, none)
    redis_encrypted id secret drawn ttl now r (some plaintext) =
        redis_set id secret ttl now r (encrypt_aesgcm secret plaintext drawn)

    -- `RedisStore.Save`; the identifier, the secret and the nonce are drawn.
    unfoldable pub redis_save :
        Option String → Option String → Option String → BffSession → ℕ → ℕ → R → R × Option String
    redis_save none secret drawn sess ttl now r = (r, none)
    redis_save (some id) none drawn sess ttl now r = (r, none)
    redis_save (some id) (some secret) drawn sess ttl now r =
        redis_encrypted id secret drawn ttl now r (codec.marshal sess)

    abbrev pub redis_found : String → Option (Option String) → Option (Option BffSession)
    redis_found secret none = none
    redis_found secret (some none) = some none
    redis_found secret (some (some ciphertext)) = session_from (decrypt_aesgcm secret ciphertext)

    abbrev pub redis_secret : String → ℕ → R → Option String → Option (Option BffSession)
    redis_secret id now r none = some none
    redis_secret id now r (some secret) = redis_found secret (server.get_value (prefix ⧺ id) now r)

    abbrev pub redis_parts : ℕ → R → Option (String × String) → Option (Option BffSession)
    redis_parts now r none = some none
    redis_parts now r (some (id, secret64)) =
        redis_secret id now r (codec.decode_base64url secret64)

    -- `RedisStore.Load`.
    unfoldable pub redis_load : String → ℕ → R → Option (Option BffSession)
    redis_load token now r = redis_parts now r (cut b'.' token)

    abbrev pub redis_id : String → Option (String × String) → String
    redis_id token none = token
    redis_id token (some (id, rest)) = id

    -- `RedisStore.Delete`.
    unfoldable pub redis_delete : String → R → R × Bool
    redis_delete token r = server.del_value (prefix ⧺ redis_id token (cut b'.' token)) r

  -- What the cookie store makes of a ciphertext, if it is not too long for a cookie.
  abbrev pub cookie_value : Option String → Option String
  cookie_value none = none
  cookie_value (some ciphertext) =
      if ltb max_cookie_value_bytes (byte_length (codec.encode_base64url ciphertext))
      then none
      else some (codec.encode_base64url ciphertext)

  abbrev pub cookie_encrypted : String → Option String → Option String → Option String
  cookie_encrypted key drawn none = none
  cookie_encrypted key drawn (some plaintext) = cookie_value (encrypt_aesgcm key plaintext drawn)

  -- `CookieStore.Save` with the key of the store; the nonce is drawn.
  unfoldable pub cookie_save : String → Option String → BffSession → Option String
  cookie_save key drawn sess = cookie_encrypted key drawn (codec.marshal sess)

  abbrev pub cookie_data : String → Option String → Option (Option BffSession)
  cookie_data key none = some none
  cookie_data key (some bytes) =
      if codec.valid_key key
      then session_from (opened key (split_bytes codec.nonce_size bytes))
      else none

  -- `CookieStore.Load`. There is nothing in it that a deletion could change.
  unfoldable pub cookie_load : String → String → Option (Option BffSession)
  cookie_load key token = cookie_data key (codec.decode_base64url token)
