-- ===== src/Bff/Store/Memory.antt =====
-- The memory store keeps the promises of a store.
use oidc_oauth2_idp.Prelude.{
  Bool-cases, Option, Option-cases, String, arith, inl, inr, ltb, none, refl, some, some_injective,
  subst, true, ℕ, ◌+◌, ◌<◌, ◌≡◌, ◌≢◌, ◌≤◌,
}
use oidc_oauth2_idp.Prelude.Dict.{
  insert, lookup, lookup-delete_ne, lookup-delete_self, lookup-insert_ne, lookup-insert_self,
}
use oidc_oauth2_idp.Bff.Store.{
  BffSession, IsStore, IsToken, MemoryItem, MemoryItems, Store, memory_delete, memory_load,
  memory_save, memory_store,
}

memory_load_saved :
    (id : Option String) (sess : BffSession) (ttl now later : ℕ) (items : MemoryItems)
    (token : String)
    → (memory_save id sess ttl now items).1 ≡ some token
    → later ≤ now + ttl
    → (memory_load token later (memory_save id sess ttl now items).0).1 ≡ some (some sess)
unfolding memory_save memory_load
memory_load_saved none sess ttl now later items token e h = cc
memory_load_saved (some id) sess ttl now later items token e h =
    let item : MemoryItem = record { sess = sess; expires = now + ttl } in
    let found : lookup token (insert id item items) ≡ some item =
      subst (λ k. lookup k (insert id item items) ≡ some item) (some_injective e)
        (lookup-insert_self id item items) in
    rw (found, memory_load) (ground arith)

memory_load_removed :
    (token : String) (now : ℕ) (items : MemoryItems)
    → (memory_load token now (memory_delete token items).0).1 ≡ some none
unfolding memory_delete memory_load
memory_load_removed token now items = rw (lookup-delete_self token items, memory_load)

memory_load_twice :
    (token : String) (now : ℕ) (items : MemoryItems)
    → (memory_load token now (memory_load token now items).0).1 ≡ (memory_load token now items).1
unfolding memory_load
memory_load_twice token now items = elim (Option-cases (lookup token items)) [
  | inl q ↦ rw (q, memory_load, q) refl
  | inr (item, q) ↦ elim (Bool-cases (ltb item.expires now)) [
    | inl t ↦ rw (q, t, memory_load, lookup-delete_self token items) refl
    | inr t ↦ rw (q, t, memory_load, q, t) refl
  ]
]

memory_saved-IsToken :
    (id : String) (sess : BffSession) (ttl now : ℕ) (items : MemoryItems) (token : String)
    → IsToken id
    → (memory_save (some id) sess ttl now items).1 ≡ some token
    → IsToken token
unfolding memory_save
memory_saved-IsToken id sess ttl now items token ok e = subst IsToken (some_injective e) ok

pub memory_store-IsStore : IsStore memory_store
unfolding memory_delete
memory_store-IsStore = record {
  saved_token = memory_saved-IsToken;
  load_saved = memory_load_saved;
  load_removed = λ token now items e. memory_load_removed token now items;
  load_twice = memory_load_twice;
}

-- What a store that keeps to lifetimes does besides: it names a session by the identifier that was drawn,
-- loads it no longer once its lifetime has passed, fails without an identifier, and saves, deletes and loads
-- one session without an effect on another.
pub record IsExact {S : Type 0} (st : Store S) : Type 0 where
  pub drawn :
      (id : String) (sess : BffSession) (ttl now : ℕ) (s : S)
      → (st.save (some id) sess ttl now s).1 ≡ some id
  pub undrawn : (sess : BffSession) (ttl now : ℕ) (s : S) → st.save none sess ttl now s ≡ (s, none)
  pub expired :
      (id : String) (sess : BffSession) (ttl now later : ℕ) (s : S)
      → now + ttl < later
      → (st.load id later (st.save (some id) sess ttl now s).0).1 ≡ some none
  pub removes : (token : String) (s : S) → (st.remove token s).1 ≡ true
  pub saved_apart :
      (id other : String) (sess : BffSession) (ttl now later : ℕ) (s : S)
      → id ≢ other
      → (st.load other later (st.save (some id) sess ttl now s).0).1 ≡ (st.load other later s).1
  pub removed_apart :
      (token other : String) (later : ℕ) (s : S)
      → token ≢ other
      → (st.load other later (st.remove token s).0).1 ≡ (st.load other later s).1
  pub loaded_apart :
      (token other : String) (now later : ℕ) (s : S)
      → token ≢ other
      → (st.load other later (st.load token now s).0).1 ≡ (st.load other later s).1

memory_load_expired :
    (id : String) (sess : BffSession) (ttl now later : ℕ) (items : MemoryItems)
    → now + ttl < later
    → (memory_load id later (memory_save (some id) sess ttl now items).0).1 ≡ some none
unfolding memory_save memory_load
memory_load_expired id sess ttl now later items h =
    rw (lookup-insert_self id (record { sess = sess; expires = now + ttl }) items, memory_load)
      (ground arith)

-- What is loaded under a token depends on its item alone.
memory_load_same :
    (token : String) (now : ℕ) (items other_items : MemoryItems)
    → lookup token items ≡ lookup token other_items
    → (memory_load token now items).1 ≡ (memory_load token now other_items).1
unfolding memory_load
memory_load_same token now items other_items e = elim (Option-cases (lookup token other_items)) [
  | inl q ↦ rw (e, memory_load, q) refl
  | inr (item, q) ↦ elim (Bool-cases (ltb item.expires now)) [
    | inl t ↦ rw (e, memory_load, q, t) refl
    | inr t ↦ rw (e, memory_load, q, t) refl
  ]
]

memory_load-apart :
    (token other : String) (now : ℕ) (items : MemoryItems)
    → token ≢ other
    → lookup other (memory_load token now items).0 ≡ lookup other items
unfolding memory_load
memory_load-apart token other now items apart = elim (Option-cases (lookup token items)) [
  | inl q ↦ rw (q, memory_load) refl
  | inr (item, q) ↦ elim (Bool-cases (ltb item.expires now)) [
    | inl t ↦ rw (q, t, memory_load) (lookup-delete_ne token other items apart)
    | inr t ↦ rw (q, t, memory_load) refl
  ]
]

memory_store-IsExact : IsExact memory_store
unfolding memory_save memory_delete
memory_store-IsExact = record {
  drawn = λ id sess ttl now items. refl;
  undrawn = λ sess ttl now items. refl;
  expired = memory_load_expired;
  removes = λ token items. refl;
  saved_apart = λ id other sess ttl now later items apart.
      memory_load_same other later _ items
        (lookup-insert_ne id other (record { sess = sess; expires = now + ttl }) items apart);
  removed_apart = λ token other later items apart.
      memory_load_same other later _ items (lookup-delete_ne token other items apart);
  loaded_apart = λ token other now later items apart.
      memory_load_same other later _ items (memory_load-apart token other now items apart);
}

-- The memory store keeps the promises of a store: a session that is saved is loaded until it expires, one that
-- is deleted is not loaded, and loading has the same result a second time. Besides, a session is named by the
-- identifier that was drawn, without which saving fails, and is not loaded once it has expired; deleting
-- always succeeds, and saving, deleting and loading one session changes nothing for another.
pub memory_store_lem : IsStore memory_store × IsExact memory_store
memory_store_lem = (memory_store-IsStore, memory_store-IsExact)
