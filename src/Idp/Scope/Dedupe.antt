-- ===== src/Idp/Scope/Dedupe.antt =====
-- What `dedupeStrings` keeps.
use oidc_oauth2_idp.Idp.Scope.{dedupe_from, dedupe_strings}
use oidc_oauth2_idp.Prelude.{
  All, AllDistinct, Bool-cases, List, String, [], ap, arith, contains, contains-append, eq_iff,
  eq_refl, false, inl, inr, not, refl, true, ◌&&◌, ◌++◌, ◌||◌, ◌∙◌, ◌∷◌, ◌≡◌,
}

contains-dedupe_from :
    (seen ss : List String) (t : String)
    → contains (dedupe_from seen ss) t ≡ (contains ss t && not (contains seen t))
unfolding dedupe_from contains
contains-dedupe_from seen [] t = refl
contains-dedupe_from seen (s ∷ ss) t =
    ground (arith, contains-dedupe_from seen ss t, contains-dedupe_from (s ∷ seen) ss t, eq_iff s t)

dedupe_from-AllDistinct : (seen ss : List String) → AllDistinct (dedupe_from seen ss)
unfolding dedupe_from contains
dedupe_from-AllDistinct seen [] = tt
dedupe_from-AllDistinct seen (s ∷ ss) = ground (
  arith,
  dedupe_from-AllDistinct seen ss,
  dedupe_from-AllDistinct (s ∷ seen) ss,
  contains-dedupe_from (s ∷ seen) ss s,
  eq_iff s s,
)

-- No element of the second list stands in the first.
abbrev Apart : List String → List String → Type 0
Apart seen ss = All (λ s. contains seen s ≡ false) ss

Apart-cons :
    (s : String) (seen ss : List String)
    → contains ss s ≡ false
    → Apart seen ss
    → Apart (s ∷ seen) ss
unfolding contains
Apart-cons s seen [] h a = tt
Apart-cons s seen (t ∷ ss) h a =
    (ground (arith, eq_iff s t, eq_iff t s), Apart-cons s seen ss (ground arith) a.1)

dedupe_from_of_AllDistinct :
    (seen ss : List String) → AllDistinct ss → Apart seen ss → dedupe_from seen ss ≡ ss
unfolding dedupe_from
dedupe_from_of_AllDistinct seen [] d a = refl
dedupe_from_of_AllDistinct seen (s ∷ ss) d a =
    ground (arith, dedupe_from_of_AllDistinct (s ∷ seen) ss d.1 (Apart-cons s seen ss d.0 a.1), a.0)

Apart-nil : (ss : List String) → Apart [] ss
unfolding contains
Apart-nil [] = tt
Apart-nil (s ∷ ss) = (refl, Apart-nil ss)

pub dedupe_strings_of_AllDistinct : (ss : List String) → AllDistinct ss → dedupe_strings ss ≡ ss
unfolding dedupe_strings
dedupe_strings_of_AllDistinct ss d = dedupe_from_of_AllDistinct [] ss d (Apart-nil ss)

pub dedupe_strings-AllDistinct : (ss : List String) → AllDistinct (dedupe_strings ss)
unfolding dedupe_strings
dedupe_strings-AllDistinct ss = dedupe_from-AllDistinct [] ss

pub contains-dedupe_strings :
    (ss : List String) (t : String) → contains (dedupe_strings ss) t ≡ contains ss t
unfolding dedupe_strings contains
contains-dedupe_strings ss t = ground (arith, contains-dedupe_from [] ss t)

-- Deduplication keeps exactly the elements of the list, each once, and a second deduplication
-- changes nothing.
pub dedupe_strings_lem :
    (ss : List String)
    → AllDistinct (dedupe_strings ss)
      × ((t : String) → contains (dedupe_strings ss) t ≡ contains ss t)
      × (dedupe_strings (dedupe_strings ss) ≡ dedupe_strings ss)
dedupe_strings_lem ss = (
  dedupe_strings-AllDistinct ss,
  contains-dedupe_strings ss,
  dedupe_strings_of_AllDistinct (dedupe_strings ss) (dedupe_strings-AllDistinct ss),
)

All-dedupe_from {κ} :
    (P : String → Type κ) (seen ss : List String) → All P ss → All P (dedupe_from seen ss)
unfolding dedupe_from
All-dedupe_from P seen [] h = tt
All-dedupe_from P seen (s ∷ ss) h = elim (Bool-cases (contains seen s)) [
  | inl e ↦ rw (e, dedupe_from) (All-dedupe_from P seen ss h.1)
  | inr e ↦ rw (e, dedupe_from) (h.0, All-dedupe_from P (s ∷ seen) ss h.1)
]

pub All-dedupe_strings {κ} :
    (P : String → Type κ) (ss : List String) → All P ss → All P (dedupe_strings ss)
unfolding dedupe_strings
All-dedupe_strings P ss h = All-dedupe_from P [] ss h

-- Every element of a list was seen, or stands in another.
abbrev Known : List String → List String → List String → Type 0
Known seen xs ys = All (λ y. (contains seen y || contains xs y) ≡ true) ys

Known-moved :
    (x : String) (seen xs ys : List String) → Known seen (x ∷ xs) ys → Known (x ∷ seen) xs ys
unfolding contains
Known-moved x seen xs [] h = tt
Known-moved x seen xs (y ∷ ys) h = (ground (arith, h.0), Known-moved x seen xs ys h.1)

Known-seen :
    (x : String) (seen xs ys : List String)
    → contains seen x ≡ true
    → Known seen (x ∷ xs) ys
    → Known seen xs ys
unfolding contains
Known-seen x seen xs [] e h = tt
Known-seen x seen xs (y ∷ ys) e h = (ground (arith, h.0, eq_iff x y), Known-seen x seen xs ys e h.1)

dedupe_from-append :
    (seen xs ys : List String)
    → Known seen xs ys
    → dedupe_from seen (xs ++ ys) ≡ dedupe_from seen xs
unfolding dedupe_from contains
dedupe_from-append seen [] [] h = refl
dedupe_from-append seen [] (y ∷ ys) h = ground (arith, dedupe_from-append seen [] ys h.1, h.0)
dedupe_from-append seen (x ∷ xs) ys h = elim (Bool-cases (contains seen x)) [
  | inl e ↦ rw (e, dedupe_from) (dedupe_from-append seen xs ys (Known-seen x seen xs ys e h))
  | inr e ↦
      rw (e, dedupe_from)
        (ap (λ l. x ∷ l) (dedupe_from-append (x ∷ seen) xs ys (Known-moved x seen xs ys h)))
]

-- Appending elements that the list contains, and deduplicating again, changes nothing.
pub dedupe_strings_again :
    (xs ys : List String)
    → All (λ y. contains xs y ≡ true) ys
    → dedupe_strings (dedupe_strings xs ++ ys) ≡ dedupe_strings xs
unfolding dedupe_strings contains
dedupe_strings_again xs ys h =
    dedupe_from-append [] (dedupe_from [] xs) ys (known ys h)
    ∙ dedupe_strings_of_AllDistinct (dedupe_from [] xs) (dedupe_strings-AllDistinct xs)
  where
    known :
        (zs : List String) → All (λ y. contains xs y ≡ true) zs → Known [] (dedupe_from [] xs) zs
    known [] k = tt
    known (z ∷ zs) k = (contains-dedupe_strings xs z ∙ k.0, known zs k.1)

All-contains_right :
    (xs ys zs : List String)
    → All (λ y. contains ys y ≡ true) zs
    → All (λ y. contains (xs ++ ys) y ≡ true) zs
All-contains_right xs ys [] h = tt
All-contains_right xs ys (z ∷ zs) h =
    (ground (arith, contains-append xs ys z, h.0), All-contains_right xs ys zs h.1)

pub All-contains_self : (ys : List String) → All (λ y. contains ys y ≡ true) ys
unfolding contains
All-contains_self [] = tt
All-contains_self (y ∷ ys) =
    (rw (eq_refl y) refl, All-contains_right (y ∷ []) ys ys (All-contains_self ys))

-- Merging a list into another one twice is merging it once.
pub dedupe_strings_merge :
    (xs ys : List String)
    → dedupe_strings (dedupe_strings (xs ++ ys) ++ ys) ≡ dedupe_strings (xs ++ ys)
dedupe_strings_merge xs ys =
    dedupe_strings_again (xs ++ ys) ys (All-contains_right xs ys ys (All-contains_self ys))
