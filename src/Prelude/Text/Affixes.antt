-- ===== src/Prelude/Text/Affixes.antt =====
-- Beginnings and ends of texts: `strings.TrimPrefix`, `strings.TrimSuffix` and the size in bytes.
use Prim.Native.Nat.{ℕ, ◌+◌}
use Prim.Native.Char.{Char, code}
use Prim.Native.String.{String, [], ◌∷◌}
use mathlib.Core.Logic.{◌≢◌, inl, inr}
use mathlib.Core.Path.{◌≡◌, refl, sym, ap, ◌∙◌}
use mathlib.Core.Bool.{Bool, true, false, ◌&&◌}
use mathlib.Core.List.{List, ◌++◌}
use native.Mathlib.Omega.{arith}
use text.Mathlib.Text.{◌==◌}
use text.Mathlib.TextLemmas.{nil-append, cons-append, cons≢nil, concat-ne-nil, tail-eq_of_cons-eq}
use oidc_oauth2_idp.Prelude.Tests.{Bool-cases, text_cases, ltb, ◌=ℕ◌, if◌then◌else◌}
use oidc_oauth2_idp.Prelude.Text.{has_prefix, push, split, split_from, trim_right_by, ◌⧺◌}

-- The number of bytes of a text's UTF-8, `len` of a Go string.
unfoldable pub byte_length : String → ℕ
byte_length [] = 0
byte_length (c ∷ s) =
    (if ltb (code c) 0x80
      then 1
      else if ltb (code c) 0x800
      then 2
      else if ltb (code c) 0x1_0000
      then 3
      else 4)
    + byte_length s

drop_prefix : String → String → String
drop_prefix s [] = s
drop_prefix [] (d ∷ p) = []
drop_prefix (c ∷ s) (d ∷ p) = drop_prefix s p

-- `strings.TrimPrefix`.
unfoldable pub trim_prefix : String → String → String
unfolding drop_prefix
trim_prefix s p = let rest = drop_prefix s p in if has_prefix s p then rest else s

-- `strings.TrimSuffix` of one character.
unfoldable pub trim_suffix : String → ℕ → String
trim_suffix [] n = []
trim_suffix (c ∷ s) n =
    let rest = trim_suffix s n in if code c =ℕ n && s == "" then [] else c ∷ rest

-- Whether the last character is this one.
unfoldable pub ends_with : String → ℕ → Bool
ends_with [] n = false
ends_with (c ∷ []) n = code c =ℕ n
ends_with (c ∷ (d ∷ s)) n = ends_with (d ∷ s) n

cons_not_empty : (c : Char) (s : String) → (c ∷ s) == "" ≡ false
cons_not_empty c s = elim (text_cases (c ∷ s) "") [
  | inl (q, _) ↦ absurd (cons≢nil q)
  | inr (_, e) ↦ e
]

kept_end :
    (n : ℕ) (c : Char) (rest : String)
    → ends_with rest n ≡ false
    → ends_with (if code c =ℕ n && rest == "" then "" else c ∷ rest) n ≡ false
unfolding ends_with
kept_end n c [] h = elim (Bool-cases (code c =ℕ n)) [
  | inl q ↦ rw q refl
  | inr q ↦ rw (q, ends_with) q
]
kept_end n c (d ∷ rest) h = ground (arith, cons_not_empty d rest)

kept :
    (b : Bool) (c d : Char) (rest : String)
    → (if b && (d ∷ rest) == "" then "" else c ∷ (d ∷ rest)) ≡ c ∷ (d ∷ rest)
kept b c d rest = ground (arith, cons_not_empty d rest)

pub has_prefix-append : (p s : String) → has_prefix (p ⧺ s) p ≡ true
unfolding has_prefix
has_prefix-append [] s = refl
has_prefix-append (c ∷ p) s = rw (cons-append c p s) ground (arith, has_prefix-append p s)

pub has_prefix_longer : (s p t : String) → has_prefix s p ≡ true → has_prefix (s ⧺ t) p ≡ true
unfolding has_prefix
has_prefix_longer s [] t e = refl
has_prefix_longer [] (d ∷ p) t e = cc
has_prefix_longer (c ∷ s) (d ∷ p) t e =
    rw (cons-append c s t) ground (arith, has_prefix_longer s p t)

pub empty_has_no_prefix : has_prefix "" "/" ≢ true
unfolding has_prefix
empty_has_no_prefix e = cc

-- With a slash behind it, a path is not a slash alone.
pub longer_than_slash : (s : String) → has_prefix s "/" ≡ true → s ⧺ "/" ≢ "/"
unfolding has_prefix
longer_than_slash [] begins e = cc
longer_than_slash (c ∷ s) begins e =
    concat-ne-nil "/" s (tail-eq_of_cons-eq (sym (cons-append c s "/") ∙ e))

drop_prefix-append : (p s : String) → drop_prefix (p ⧺ s) p ≡ s
unfolding drop_prefix
drop_prefix-append [] s = nil-append s
drop_prefix-append (c ∷ p) s = rw (cons-append c p s) (drop_prefix-append p s)

-- What stands behind a prefix is what is left without it.
pub trim_prefix-append : (p s : String) → trim_prefix (p ⧺ s) p ≡ s
unfolding trim_prefix
trim_prefix-append p s = rw (has_prefix-append p s, trim_prefix) (drop_prefix-append p s)

-- A text that was trimmed on the right does not end with the character.
pub ends_with-trim_right_by :
    (n : ℕ) (s : String) → ends_with (trim_right_by (λ c. code c =ℕ n) s) n ≡ false
unfolding ends_with trim_right_by
ends_with-trim_right_by n [] = refl
ends_with-trim_right_by n (c ∷ s) =
    kept_end n c (trim_right_by (λ c. code c =ℕ n) s) (ends_with-trim_right_by n s)

-- Trimming leaves what does not end with the character as it is.
pub trim_right_by_id :
    (n : ℕ) (s : String) → ends_with s n ≡ false → trim_right_by (λ c. code c =ℕ n) s ≡ s
unfolding ends_with trim_right_by
trim_right_by_id n [] e = refl
trim_right_by_id n (c ∷ []) e = rw e refl
trim_right_by_id n (c ∷ (d ∷ s)) e = rw (trim_right_by_id n (d ∷ s) e) (kept (code c =ℕ n) c d s)

-- A text ends with what its last part, not empty, ends with.
pub ends_with-append : (n : ℕ) (p s : String) → s ≢ "" → ends_with (p ⧺ s) n ≡ ends_with s n
unfolding ends_with
ends_with-append n [] s h = rw (nil-append s) refl
ends_with-append n (c ∷ []) [] h = absurd (h refl)
ends_with-append n (c ∷ []) (d ∷ s) h = rw (cons-append c [] (d ∷ s), nil-append (d ∷ s)) refl
ends_with-append n (c ∷ (e ∷ p)) s h =
    rw (cons-append c (e ∷ p) s, cons-append e p s)
      (rw (cons-append e p s) at (ends_with-append n (e ∷ p) s h))

split_from-append :
    (sep : ℕ) (part s t : String) (c : Char)
    → code c ≡ sep
    → split_from sep part (s ⧺ (c ∷ t)) ≡ split_from sep part s ++ split_from sep "" t
unfolding split_from
split_from-append sep part [] t c h =
    rw (nil-append (c ∷ t)) (rw (same (code c) sep h, split_from) refl)
  where
    same : (m n : ℕ) → m ≡ n → (m =ℕ n) ≡ true
    same m n e = ground arith
split_from-append sep part (d ∷ s) t c h = elim (Bool-cases (code d =ℕ sep)) [
  | inl q ↦
      rw (cons-append d s (c ∷ t), q, split_from)
        (ap (λ ws. List.◌∷◌ part ws) (split_from-append sep "" s t c h))
  | inr q ↦
      rw (cons-append d s (c ∷ t), q, split_from) (split_from-append sep (push part d) s t c h)
]

-- Splitting at a separator splits both sides.
pub split-append : (s t : String) → split b'/' (s ⧺ "/" ⧺ t) ≡ split b'/' s ++ split b'/' t
unfolding split
split-append s t =
    ap (λ u. split b'/' (s ⧺ u)) (cons-append "/" "" t ∙ ap (λ u. "/" ∷ u) (nil-append t))
    ∙ split_from-append b'/' "" s t "/" refl

trim_suffix_example : trim_suffix "/assets/*" b'*' ≡ "/assets/"
unfolding trim_suffix
trim_suffix_example = refl

byte_length_example : byte_length "aé€" ≡ 6
unfolding byte_length
byte_length_example = refl
