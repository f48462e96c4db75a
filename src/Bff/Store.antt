-- ===== src/Bff/Store.antt =====
-- Session stores: the interface and the memory store of bff/internal/session/store.go, with the session of
-- session.go. The stores that encrypt are in a child module.
pub mod Memory
pub mod Encrypted
use oidc_oauth2_idp.Prelude.{
  Bool, Option, String, if◌then◌else◌, ltb, none, some, true, ℕ, ◌+◌, ◌≡◌, ◌≢◌, ◌≤◌,
}
use oidc_oauth2_idp.Prelude.Text.{trim_space}
use oidc_oauth2_idp.Prelude.Dict.{Dict, delete, insert, lookup}

pub record BffSession : Type 0 where
  pub access_token : String
  pub refresh_token : String
  pub id_token : String
  pub csrf_token : String
  -- `none` is the zero time.
  pub access_token_expiry : Option ℕ

-- The interface `Store`, for a store whose state is S. Saving is given the identifier that is drawn, if
-- that succeeds, the lifetime and the time; loading is `none` on an error, and `some none` where there
-- is no session; deleting is `false` on an error.
pub record Store (S : Type 0) : Type 0 where
  pub save : Option String → BffSession → ℕ → ℕ → S → S × Option String
  pub load : String → ℕ → S → S × Option (Option BffSession)
  pub remove : String → S → S × Bool

-- What a cookie can carry unchanged: a text without spaces around it that is not empty.
abbrev pub IsToken : String → Type 0
IsToken token = (trim_space token ≡ token) × (token ≢ "")

-- What a store promises: a session that was saved is loaded by its token until its lifetime has passed,
-- one that was deleted is not loaded again, and loading has the same result a second time.
pub record IsStore {S : Type 0} (st : Store S) : Type 0 where
  pub saved_token :
      (id : String) (sess : BffSession) (ttl now : ℕ) (s : S) (token : String)
      → IsToken id
      → (st.save (some id) sess ttl now s).1 ≡ some token
      → IsToken token
  pub load_saved :
      (id : Option String) (sess : BffSession) (ttl now later : ℕ) (s : S) (token : String)
      → (st.save id sess ttl now s).1 ≡ some token
      → later ≤ now + ttl
      → (st.load token later (st.save id sess ttl now s).0).1 ≡ some (some sess)
  pub load_removed :
      (token : String) (now : ℕ) (s : S)
      → (st.remove token s).1 ≡ true
      → (st.load token now (st.remove token s).0).1 ≡ some none
  pub load_twice :
      (token : String) (now : ℕ) (s : S)
      → (st.load token now (st.load token now s).0).1 ≡ (st.load token now s).1

pub record MemoryItem : Type 0 where
  pub sess : BffSession
  pub expires : ℕ

abbrev pub MemoryItems : Type 0
MemoryItems = Dict MemoryItem

unfoldable pub memory_save :
    Option String → BffSession → ℕ → ℕ → MemoryItems → MemoryItems × Option String
memory_save none sess ttl now items = (items, none)
memory_save (some id) sess ttl now items =
    (insert id (record { sess = sess; expires = now + ttl }) items, some id)

unfoldable pub memory_load : String → ℕ → MemoryItems → MemoryItems × Option (Option BffSession)
memory_load token now items = elim (lookup token items) [
  | none ↦ (items, some none)
  | some item ↦
      if ltb item.expires now
      then (delete token items, some none)
      else (items, some (some item.sess))
]

unfoldable pub memory_delete : String → MemoryItems → MemoryItems × Bool
memory_delete token items = (delete token items, true)

-- `MemoryStore`.
abbrev pub memory_store : Store MemoryItems
memory_store = record { save = memory_save; load = memory_load; remove = memory_delete }
