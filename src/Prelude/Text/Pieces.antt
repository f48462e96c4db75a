-- ===== src/Prelude/Text/Pieces.antt =====
-- Taking joined texts apart: `strings.Cut`, and a slice of the first bytes.
use Prim.Native.Nat.{ℕ, zero, suc}
use Prim.Native.Char.{Char, code}
use Prim.Native.String.{String, [], ◌∷◌}
use mathlib.Core.Path.{◌≡◌, refl, ap, ◌∙◌}
use mathlib.Core.Bool.{false, true, ◌||◌}
use mathlib.Core.Option.{Option, none, some}
use native.Mathlib.Omega.{arith}
use text.Mathlib.TextLemmas.{
  nil-append, cons-append, append-nil, append_assoc, nil≢cons, tail-eq_of_cons-eq,
}
use oidc_oauth2_idp.Prelude.Tests.{some_injective, ◌=ℕ◌}
use oidc_oauth2_idp.Prelude.Text.{contains_char, cut, cut_from, push, ◌⧺◌}

push-append : (word : String) (c : Char) (w : String) → push word c ⧺ w ≡ word ⧺ (c ∷ w)
push-append word c w =
    append_assoc word (c ∷ []) w
    ∙ ap (λ t. word ⧺ t) (cons-append c [] w ∙ ap (λ t. c ∷ t) (nil-append w))

or_false : (m n : ℕ) (b : _) → (m =ℕ n || b) ≡ false → ((m =ℕ n) ≡ false) × (b ≡ false)
or_false m n b h = ground arith

cut_from-append :
    (sep : ℕ) (before s t : String) (c : Char)
    → code c ≡ sep
    → contains_char s sep ≡ false
    → cut_from sep before (s ⧺ (c ∷ t)) ≡ some (before ⧺ s, t)
unfolding cut_from contains_char
cut_from-append sep before [] t c h n =
    rw (nil-append (c ∷ t), same (code c) sep h, cut_from, append-nil before) refl
  where
    same : (m n : ℕ) → m ≡ n → (m =ℕ n) ≡ true
    same m n e = ground arith
cut_from-append sep before (d ∷ s) t c h n =
    let (apart, rest) = or_false (code d) sep (contains_char s sep) n in
    rw (cons-append d s (c ∷ t), apart, cut_from)
      (cut_from-append sep (push before d) s t c h rest
        ∙ ap (λ u. some (u, t)) (push-append before d s))

-- A text without dots, and what stands behind the dot.
pub cut-dot : (s t : String) → contains_char s b'.' ≡ false → cut b'.' (s ⧺ "." ⧺ t) ≡ some (s, t)
unfolding cut
cut-dot s t n =
    ap (λ u. cut b'.' (s ⧺ u)) (cons-append "." "" t ∙ ap (λ u. "." ∷ u) (nil-append t))
    ∙ cut_from-append b'.' "" s t "." refl n
    ∙ ap (λ u. some (u, t)) (nil-append s)

abbrev in_front : Char → Option (String × String) → Option (String × String)
in_front c none = none
in_front c (some (s, t)) = some (c ∷ s, t)

-- The first bytes of a text, and the rest; `none` where there are too few. Bytes are characters here.
unfoldable pub split_bytes : ℕ → String → Option (String × String)
split_bytes zero s = some ("", s)
split_bytes (suc n) [] = none
split_bytes (suc n) (c ∷ s) = in_front c (split_bytes n s)

in_front_lem :
    (c : Char) (s : String) (o : Option (String × String))
    → in_front c o ≡ some (c ∷ s, "")
    → o ≡ some (s, "")
in_front_lem c s none e = cc
in_front_lem c s (some (a, b)) e =
    let q = some_injective e in
    let first : a ≡ s = tail-eq_of_cons-eq (ap (λ (p : String × String). p.0) q) in
    let second : b ≡ "" = ap (λ (p : String × String). p.1) q in rw (first, second) refl

-- As many bytes as a text has are cut off what begins with it.
pub split_bytes-append :
    (n : ℕ) (s t : String) → split_bytes n s ≡ some (s, "") → split_bytes n (s ⧺ t) ≡ some (s, t)
unfolding split_bytes
split_bytes-append zero [] t e = rw (nil-append t) refl
split_bytes-append zero (c ∷ s) t e =
    absurd (nil≢cons (ap (λ (p : String × String). p.0) (some_injective e)))
split_bytes-append (suc n) [] t e = cc
split_bytes-append (suc n) (c ∷ s) t e =
    rw (cons-append c s t)
      (ap (in_front c) (split_bytes-append n s t (in_front_lem c s (split_bytes n s) e)))
