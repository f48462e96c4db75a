-- ===== src/Prelude/Text/Paths.antt =====
-- What the program uses of Go's `path` package.
use Prim.Native.String.{String}
use mathlib.Core.Path.{◌≡◌, refl, ap, ◌∙◌}
use mathlib.Core.Logic.{inl, inr}
use mathlib.Core.Bool.{Bool, true, false, ◌||◌}
use mathlib.Core.List.{List, [], ◌∷◌, ◌++◌}
use native.Mathlib.Omega.{arith}
use text.Mathlib.Text.{◌==◌}
use oidc_oauth2_idp.Prelude.Tests.{Bool-cases, text_cases, if◌then◌else◌}
use oidc_oauth2_idp.Prelude.Lists.{contains, contains-append}
use oidc_oauth2_idp.Prelude.Text.{has_prefix, split, ◌⧺◌}
use oidc_oauth2_idp.Prelude.Text.Affixes.{empty_has_no_prefix, has_prefix_longer, split-append}

-- `strings.Join` with slashes.
unfoldable pub join_slash : List String → String
join_slash [] = ""
join_slash (w ∷ []) = w
join_slash (w ∷ v ∷ ws) = w ⧺ "/" ⧺ join_slash (v ∷ ws)

-- What ".." does to the elements so far, the last one in front.
abbrev back : Bool → List String → List String
back rooted [] = if rooted then [] else ".." ∷ []
back rooted (e ∷ es) = if e == ".." then ".." ∷ e ∷ es else es

-- The elements of a path that `path.Clean` keeps, the last one in front.
clean_from : Bool → List String → List String → List String
clean_from rooted kept [] = kept
clean_from rooted kept (e ∷ es) =
    let dropped = clean_from rooted kept es in
    let stepped_back = clean_from rooted (back rooted kept) es in
    let longer : List String = clean_from rooted (e ∷ kept) es in
    if e == "" || e == "." then dropped else if e == ".." then stepped_back else longer

reverse_onto : List String → List String → List String
reverse_onto [] ys = ys
reverse_onto (x ∷ xs) ys = reverse_onto xs (x ∷ ys)

abbrev pub rooted_path : List String → String
rooted_path es = "/" ⧺ join_slash es

abbrev relative_path : List String → String
relative_path [] = "."
relative_path (e ∷ es) = join_slash (e ∷ es)

-- `path.Clean`.
unfoldable pub path_clean : String → String
unfolding clean_from reverse_onto
path_clean s =
    let elements = reverse_onto (clean_from (has_prefix s "/") [] (split b'/' s)) [] in
    if has_prefix s "/" then rooted_path elements else relative_path elements

-- `path.Join` of two paths.
unfoldable pub path_join : String → String → String
path_join a b = if a == "" then (if b == "" then "" else path_clean b) else path_clean (a ⧺ "/" ⧺ b)

-- The elements of a path that are neither empty nor the dot.
unfoldable pub path_names : List String → List String
path_names [] = []
path_names (e ∷ es) = let rest = path_names es in if e == "" || e == "." then rest else e ∷ rest

path_names-append : (xs ys : List String) → path_names (xs ++ ys) ≡ path_names xs ++ path_names ys
unfolding path_names
path_names-append [] ys = refl
path_names-append (x ∷ xs) ys = elim (Bool-cases (x == "" || x == ".")) [
  | inl e ↦ rw (e, path_names) (path_names-append xs ys)
  | inr e ↦ rw (e, path_names) (ap (λ zs. x ∷ zs) (path_names-append xs ys))
]

or_false : (b c : Bool) → (b || c) ≡ false → (b ≡ false) × (c ≡ false)
or_false b c h = ground arith

-- Without "..", the elements that are kept are the names.
clean_from-path_names :
    (rooted : Bool) (kept es ys : List String)
    → contains es ".." ≡ false
    → reverse_onto (clean_from rooted kept es) ys ≡ reverse_onto kept (path_names es ++ ys)
unfolding clean_from reverse_onto path_names contains
clean_from-path_names rooted kept [] ys h = refl
clean_from-path_names rooted kept (e ∷ es) ys h = elim (Bool-cases (e == "" || e == ".")) [
  | inl q ↦
      rw (q, clean_from, path_names)
        (clean_from-path_names rooted kept es ys (or_false (e == "..") (contains es "..") h).1)
  | inr q ↦
      let (up, rest) = or_false (e == "..") (contains es "..") h in
      rw (q, up, clean_from, path_names) (clean_from-path_names rooted (e ∷ kept) es ys rest)
]

-- Without "..", a path that begins with a slash is cleaned to its names.
pub path_clean-path_names :
    (s : String)
    → has_prefix s "/" ≡ true
    → contains (split b'/' s) ".." ≡ false
    → path_clean s ≡ rooted_path (path_names (split b'/' s))
unfolding path_clean reverse_onto
path_clean-path_names s begins h =
    rw (begins, path_clean)
      (ap rooted_path (
        clean_from-path_names true [] (split b'/' s) [] h ∙ append_nil (path_names (split b'/' s))))
  where
    append_nil : (xs : List String) → xs ++ [] ≡ xs
    append_nil [] = refl
    append_nil (x ∷ xs) = ap (λ ys. x ∷ ys) (append_nil xs)

-- Without "..", joining to a path that begins with a slash gives the names of both.
pub path_join-path_names :
    (a b : String)
    → has_prefix a "/" ≡ true
    → contains (split b'/' a) ".." ≡ false
    → contains (split b'/' b) ".." ≡ false
    → path_join a b ≡ rooted_path (path_names (split b'/' a) ++ path_names (split b'/' b))
unfolding path_join
path_join-path_names a b begins h k = elim (text_cases a "") [
  | inl (q, _) ↦ absurd (empty_has_no_prefix (rw q at begins))
  | inr (_, t) ↦
      rw (t, path_join)
        (path_clean-path_names (a ⧺ "/" ⧺ b) (has_prefix_longer a "/" ("/" ⧺ b) begins) (
            rw (split-append a b)
              (contains-append (split b'/' a) (split b'/' b) ".." ∙ rw (h, k) refl))
          ∙ ap (λ es. rooted_path (path_names es)) (split-append a b)
          ∙ ap rooted_path (path_names-append (split b'/' a) (split b'/' b)))
]

path_join_example :
    (path_join "/v1" "//users/./7/" ≡ "/v1/users/7")
    × (path_join "/v1" "/../admin" ≡ "/admin")
    × (path_join "/" "" ≡ "/")
unfolding path_join path_clean has_prefix split join_slash
path_join_example = (refl, refl, refl)
