-- ===== src/Bff/Tests/Stores.antt =====
-- Tests of the encrypting stores at concrete inputs.
use oidc_oauth2_idp.Prelude.{
  Option, String, [], arith, if◌then◌else◌, ltb, none, refl, some, true, ℕ, ◌+◌, ◌==◌, ◌∷◌, ◌≡◌,
  ◌≤◌,
}
use oidc_oauth2_idp.Prelude.Text.{contains_char, cut}
use oidc_oauth2_idp.Prelude.Text.Affixes.{byte_length}
use oidc_oauth2_idp.Prelude.Text.Pieces.{split_bytes}
use oidc_oauth2_idp.Prelude.Dict.{
  Dict, delete, insert, lookup, lookup-delete_self, lookup-insert_self,
}
use oidc_oauth2_idp.Bff.Store.Encrypted.{
  Codec, RedisServer, cookie_load, cookie_save, decrypt_aesgcm, encrypt_aesgcm, redis_delete,
  redis_load, redis_save,
}
use oidc_oauth2_idp.Bff.Store.Encrypted.Recovered.{
  IsReadable, IsRedis, cookie_load-cookie_save, redis_load-redis_save,
}
use oidc_oauth2_idp.Bff.Tests.{bff, sample_bff_session}

-- Everything that these tests run.
unfoldable stores : Unit {0}
unfolding bff encrypt_aesgcm decrypt_aesgcm redis_save redis_load redis_delete cookie_save
    cookie_load cut split_bytes contains_char byte_length
stores = tt

-- A codec that hides nothing.
abbrev plain_codec : Codec
plain_codec = record {
  marshal = λ sess. some "json";
  unmarshal = λ text. if text == "json" then some sample_bff_session else none;
  valid_key = λ key. true;
  nonce_size = 2;
  gcm_seal = λ key given plaintext. plaintext;
  gcm_open = λ key given ciphertext. some ciphertext;
  encode_base64url = λ bytes. bytes;
  decode_base64url = λ text. some text;
}

abbrev live_value : ℕ → Option (String × ℕ) → Option (Option String)
live_value now none = some none
live_value now (some (value, expires)) = if ltb expires now then some none else some (some value)

-- A server that keeps its values in a list.
abbrev list_server : RedisServer (Dict (String × ℕ))
list_server = record {
  set_value = λ key value ttl now r. (insert key (value, now + ttl) r, true);
  get_value = λ key now r. live_value now (lookup key r);
  del_value = λ key r. (delete key r, true);
}

list_server-IsRedis : IsRedis list_server
list_server-IsRedis = record {
  get_set = λ key value ttl now later r e h.
      rw (lookup-insert_self key (value, now + ttl) r) (in_time value (now + ttl) later h);
  get_del = λ key now r e. rw (lookup-delete_self key r) refl;
}
  where
    in_time :
        (value : String) (expires later : ℕ)
        → later ≤ expires
        → live_value later (some (value, expires)) ≡ some (some value)
    in_time value expires later h = ground arith

sample-IsReadable : IsReadable plain_codec "key" "nn" "json" sample_bff_session
unfolding stores
sample-IsReadable = record {
  marshalled = refl;
  unmarshalled_back = refl;
  fits = refl;
  opens = refl;
}

redis_load-redis_save_example :
    (redis_load plain_codec list_server "session-" "id.key" 5 (("session-id", ("nnjson", 10)) ∷ [])
      ≡ some (some sample_bff_session))
    × (redis_load plain_codec list_server "session-" "id.key" 5
          (redis_delete plain_codec list_server "session-" "id.key"
            (("session-id", ("nnjson", 10)) ∷ [])).0
        ≡ some none)
unfolding stores
redis_load-redis_save_example =
    redis_load-redis_save plain_codec list_server list_server-IsRedis "session-" "id" "key" "nn"
      "json" "id.key" sample_bff_session 10 0 5 [] refl refl sample-IsReadable refl (ground arith)
      refl

cookie_load-cookie_save_example :
    (byte_length "nnjson" ≤ 3900)
    × (cookie_load plain_codec "key" "nnjson" ≡ some (some sample_bff_session))
unfolding stores
cookie_load-cookie_save_example =
    cookie_load-cookie_save plain_codec "key" "nn" "json" "nnjson" sample_bff_session (λ c. refl)
      sample-IsReadable refl
