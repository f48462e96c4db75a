-- ===== src/Prelude/Dict.antt =====
-- Go maps with text keys, as association lists. The order of the list stands for the order in which
-- `range` meets the entries.
use Prim.Native.String.{String}
use mathlib.Core.Path.{◌≡◌, refl, subst}
use mathlib.Core.Logic.{◌≢◌, inl, inr}
use mathlib.Core.Bool.{false}
use mathlib.Core.Option.{Option, none, some}
use mathlib.Core.List.{List, [], ◌∷◌}
use native.Mathlib.Omega.{arith}
use text.Mathlib.Text.{◌==◌}
use text.Mathlib.TextEquality.{eq_iff}
use text.Mathlib.TextPositions.{eq_refl}
use oidc_oauth2_idp.Prelude.Tests.{if◌then◌else◌, Bool-cases, some_injective, text_cases}
use oidc_oauth2_idp.Prelude.Lists.{AllDistinct, contains}

abbrev pub Dict {ℓ} : Type ℓ → Type ℓ
Dict V = List (String × V)

module _ {ℓ} {V : Type ℓ} where
  -- `m[k]` with its comma-ok.
  unfoldable pub lookup : String → Dict V → Option V
  lookup k [] = none
  lookup k ((j, v) ∷ m) = if j == k then some v else lookup k m

  -- `m[k] = v`.
  unfoldable pub insert : String → V → Dict V → Dict V
  insert k v [] = (k, v) ∷ []
  insert k v ((j, w) ∷ m) = if j == k then (k, v) ∷ m else (j, w) ∷ insert k v m

  -- `delete(m, k)`.
  unfoldable pub delete : String → Dict V → Dict V
  delete k [] = []
  delete k ((j, w) ∷ m) = if j == k then delete k m else (j, w) ∷ delete k m

  pub lookup-insert :
      (key name : String) (new : V) (entries : Dict V)
      → lookup name (insert key new entries)
        ≡ (if key == name then some new else lookup name entries)
  unfolding lookup insert
  lookup-insert key name new [] = refl
  lookup-insert key name new ((first, w) ∷ rest) =
      ground (
        arith,
        lookup-insert key name new rest,
        eq_iff first name,
        eq_iff first key,
        eq_iff key name,
      )

  pub lookup-insert_self : (k : String) (v : V) (m : Dict V) → lookup k (insert k v m) ≡ some v
  lookup-insert_self k v m = ground (arith, lookup-insert k k v m, eq_refl k)

  pub lookup-insert_ne :
      (k j : String) (v : V) (m : Dict V) → k ≢ j → lookup j (insert k v m) ≡ lookup j m
  lookup-insert_ne k j v m h = ground (arith, lookup-insert k j v m, eq_iff k j)

  pub lookup-delete :
      (key name : String) (entries : Dict V)
      → lookup name (delete key entries) ≡ (if key == name then none else lookup name entries)
  unfolding lookup delete
  lookup-delete key name [] = ground arith
  lookup-delete key name ((first, w) ∷ rest) =
      ground
        (arith, lookup-delete key name rest, eq_iff first name, eq_iff first key, eq_iff key name)

  pub lookup-delete_self : (k : String) (m : Dict V) → lookup k (delete k m) ≡ none
  lookup-delete_self k m = ground (arith, lookup-delete k k m, eq_refl k)

  pub lookup-delete_ne : (k j : String) (m : Dict V) → k ≢ j → lookup j (delete k m) ≡ lookup j m
  lookup-delete_ne k j m h = ground (arith, lookup-delete k j m, eq_iff k j)

-- What holds of every entry.
abbrev pub Entries {ℓ κ} : {V : Type ℓ} → (String → V → Type κ) → Dict V → Type κ
Entries P [] = Unit
Entries P ((k, v) ∷ m) = P k v × Entries P m

module _ {ℓ κ} {V : Type ℓ} (P : String → V → Type κ) where
  pub Entries-lookup : (k : String) (m : Dict V) {v : V} → Entries P m → lookup k m ≡ some v → P k v
  unfolding lookup
  Entries-lookup k [] h e = cc
  Entries-lookup k ((j, w) ∷ m) {v} h e = elim (text_cases j k) [
    | inl (same, t) ↦
        subst (P k) (some_injective (rw (t, lookup) at e)) (subst (λ i. P i w) same h.0)
    | inr (apart, t) ↦ Entries-lookup k m h.1 (rw (t, lookup) at e)
  ]

  pub Entries-insert :
      (k : String) (v : V) (m : Dict V) → P k v → Entries P m → Entries P (insert k v m)
  unfolding insert
  Entries-insert k v [] p h = (p, tt)
  Entries-insert k v ((j, w) ∷ m) p h = elim (Bool-cases (j == k)) [
    | inl t ↦ rw (t, insert) (p, h.1)
    | inr t ↦ rw (t, insert) (h.0, Entries-insert k v m p h.1)
  ]

  pub Entries-delete : (k : String) (m : Dict V) → Entries P m → Entries P (delete k m)
  unfolding delete
  Entries-delete k [] h = tt
  Entries-delete k ((j, w) ∷ m) h = elim (Bool-cases (j == k)) [
    | inl t ↦ rw (t, delete) (Entries-delete k m h.1)
    | inr t ↦ rw (t, delete) (h.0, Entries-delete k m h.1)
  ]

-- The keys, in order.
abbrev pub keys {ℓ} : {V : Type ℓ} → Dict V → List String
keys [] = []
keys ((k, v) ∷ m) = k ∷ keys m

module _ {ℓ} {V : Type ℓ} (f : V → String) where
  -- A text that every value has, in order.
  abbrev pub column : Dict V → List String
  column [] = []
  column ((k, v) ∷ m) = f v ∷ column m

  contains-column-insert :
      (k : String) (v : V) (m : Dict V) (t : String)
      → contains (column m) t ≡ false
      → f v ≢ t
      → contains (column (insert k v m)) t ≡ false
  unfolding insert contains
  contains-column-insert k v [] t h n = ground (arith, eq_iff (f v) t)
  contains-column-insert k v ((j, w) ∷ m) t h n =
      ground (arith, eq_iff (f v) t, contains-column-insert k v m t)

  contains-column-delete :
      (k : String) (m : Dict V) (t : String)
      → contains (column m) t ≡ false
      → contains (column (delete k m)) t ≡ false
  unfolding delete contains
  contains-column-delete k [] t h = h
  contains-column-delete k ((j, w) ∷ m) t h = ground (arith, contains-column-delete k m t)

  pub column-delete-AllDistinct :
      (k : String) (m : Dict V) → AllDistinct (column m) → AllDistinct (column (delete k m))
  unfolding delete
  column-delete-AllDistinct k [] d = tt
  column-delete-AllDistinct k ((j, w) ∷ m) d =
      ground (arith, column-delete-AllDistinct k m d.1, contains-column-delete k m (f w) d.0)

  -- A new text keeps the column free of repetitions.
  pub column-insert-AllDistinct :
      (k : String) (v : V) (m : Dict V)
      → AllDistinct (column m)
      → contains (column m) (f v) ≡ false
      → AllDistinct (column (insert k v m))
  unfolding insert contains
  column-insert-AllDistinct k v [] d n = (refl, tt)
  column-insert-AllDistinct k v ((j, w) ∷ m) d n = ground (
    arith,
    column-insert-AllDistinct k v m d.1,
    contains-column-insert k v m (f w) d.0,
    eq_iff (f w) (f v),
    d.1,
  )

  -- A value with the same text leaves the column as it is.
  pub column-insert_same :
      (k : String) (v w : V) (m : Dict V)
      → lookup k m ≡ some w
      → f w ≡ f v
      → column (insert k v m) ≡ column m
  unfolding insert lookup
  column-insert_same k v w [] e same = cc
  column-insert_same k v w ((j, u) ∷ m) e same = ground (arith, column-insert_same k v w m)

module _ {ℓ} {V : Type ℓ} where
  pub insert-insert : (k : String) (v w : V) (m : Dict V) → insert k v (insert k w m) ≡ insert k v m
  unfolding insert
  insert-insert k v w [] = ground (arith, eq_refl k)
  insert-insert k v w ((j, u) ∷ m) = ground (arith, eq_refl k, insert-insert k v w m)

  contains-keys-insert :
      (k : String) (v : V) (m : Dict V) (t : String)
      → contains (keys m) t ≡ false
      → k ≢ t
      → contains (keys (insert k v m)) t ≡ false
  unfolding insert contains
  contains-keys-insert k v [] t h n = ground (arith, eq_iff k t)
  contains-keys-insert k v ((j, w) ∷ m) t h n =
      ground (arith, eq_iff k t, contains-keys-insert k v m t)

  pub keys-insert-AllDistinct :
      (k : String) (v : V) (m : Dict V) → AllDistinct (keys m) → AllDistinct (keys (insert k v m))
  unfolding insert contains
  keys-insert-AllDistinct k v [] d = (refl, tt)
  keys-insert-AllDistinct k v ((j, w) ∷ m) d = ground (
    arith,
    keys-insert-AllDistinct k v m d.1,
    contains-keys-insert k v m j d.0,
    eq_iff j k,
    eq_iff k j,
    d.0,
    d.1,
  )

  contains-keys-delete :
      (k : String) (m : Dict V) (t : String)
      → contains (keys m) t ≡ false
      → contains (keys (delete k m)) t ≡ false
  unfolding delete contains
  contains-keys-delete k [] t h = h
  contains-keys-delete k ((j, w) ∷ m) t h = ground (arith, contains-keys-delete k m t)

  pub contains-keys-delete_self : (k : String) (m : Dict V) → contains (keys (delete k m)) k ≡ false
  unfolding delete contains
  contains-keys-delete_self k [] = refl
  contains-keys-delete_self k ((j, w) ∷ m) = ground (arith, contains-keys-delete_self k m)

  pub keys-delete-AllDistinct :
      (k : String) (m : Dict V) → AllDistinct (keys m) → AllDistinct (keys (delete k m))
  unfolding delete
  keys-delete-AllDistinct k [] d = tt
  keys-delete-AllDistinct k ((j, w) ∷ m) d =
      ground (arith, keys-delete-AllDistinct k m d.1, contains-keys-delete k m j d.0)

  pub lookup-not-key : (k : String) (m : Dict V) → contains (keys m) k ≡ false → lookup k m ≡ none
  unfolding lookup contains
  lookup-not-key k [] h = refl
  lookup-not-key k ((j, w) ∷ m) h = ground (arith, lookup-not-key k m)

  -- A key in front that stands nowhere else does not hide what is found behind it.
  pub lookup_behind :
      (k j : String) (w v : V) (m : Dict V)
      → contains (keys m) k ≡ false
      → lookup j m ≡ some v
      → lookup j ((k, w) ∷ m) ≡ some v
  unfolding lookup
  lookup_behind k j w v m h e = ground (arith, eq_iff k j, lookup-not-key k m h)
