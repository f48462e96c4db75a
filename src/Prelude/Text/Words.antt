-- ===== src/Prelude/Text/Words.antt =====
-- `strings.Fields` and `strings.Join` undo one another on words.
use Prim.Native.Char.{Char}
use Prim.Native.String.{String, [], ◌∷◌}
use mathlib.Core.Path.{◌≡◌, refl, sym, ◌∙◌, ap}
use mathlib.Core.Logic.{◌≢◌, inl, inr}
use mathlib.Core.Bool.{false}
use mathlib.Core.List.{List, [], ◌∷◌}
use native.Mathlib.Omega.{arith}
use text.Mathlib.TextEquality.{eq_iff}
use text.Mathlib.TextLemmas.{nil-append, cons-append, append-nil, append_assoc}
use oidc_oauth2_idp.Prelude.Tests.{Bool-cases}
use oidc_oauth2_idp.Prelude.Lists.{All}
use oidc_oauth2_idp.Prelude.Text.{
  is_space, push, fields_from, fields, join_spaces, cons_nonempty, ◌⧺◌,
}

abbrev pub NoSpace : String → Type 0
NoSpace [] = Unit
NoSpace (c ∷ s) = (is_space c ≡ false) × NoSpace s

-- What `strings.Fields` returns the items of.
abbrev pub IsWord : String → Type 0
IsWord w = (w ≢ "") × NoSpace w

NoSpace-push : (s : String) (c : Char) → NoSpace s → is_space c ≡ false → NoSpace (push s c)
NoSpace-push [] c _ p = rw nil-append (p, tt)
NoSpace-push (d ∷ s) c (q, h) p = rw cons-append (q, NoSpace-push s c h p)

cons_nonempty-IsWord :
    (w : String) (ws : List String) → NoSpace w → All IsWord ws → All IsWord (cons_nonempty w ws)
cons_nonempty-IsWord w ws n h = ground (arith, eq_iff w "")

fields_from-IsWord : (word s : String) → NoSpace word → All IsWord (fields_from word s)
unfolding fields_from
fields_from-IsWord word [] n = cons_nonempty-IsWord word [] n tt
fields_from-IsWord word (c ∷ s) n = elim (Bool-cases (is_space c)) [
  | inl e ↦ rw (e, fields_from) (cons_nonempty-IsWord word _ n (fields_from-IsWord "" s tt))
  | inr e ↦ rw (e, fields_from) (fields_from-IsWord (push word c) s (NoSpace-push word c n e))
]

pub fields-IsWord : (s : String) → All IsWord (fields s)
unfolding fields
fields-IsWord s = fields_from-IsWord "" s tt

fields_from-append :
    (word w s : String) → NoSpace w → fields_from word (w ⧺ s) ≡ fields_from (word ⧺ w) s
unfolding fields_from
fields_from-append word [] s n = rw (nil-append s, append-nil word)
fields_from-append word (c ∷ w) s (e, n) =
    rw (cons-append c w s, e, fields_from)
      (fields_from-append (push word c) w s n ∙ ap (λ t. fields_from t s) (regroup word c w))
  where
    regroup : (word : String) (c : Char) (w : String) → push word c ⧺ w ≡ word ⧺ (c ∷ w)
    regroup word c w =
        append_assoc word (c ∷ []) w
        ∙ ap (λ t. word ⧺ t) (cons-append c [] w ∙ ap (λ t. c ∷ t) (nil-append w))

fields_from_word :
    (w s : String) (ws : List String)
    → IsWord w
    → fields_from w s ≡ w ∷ ws
    → fields_from "" (w ⧺ s) ≡ w ∷ ws
fields_from_word w s ws h e =
    fields_from-append "" w s h.1 ∙ ap (λ t. fields_from t s) (nil-append w) ∙ e

cons_nonempty_of_IsWord : (w : String) (ws : List String) → IsWord w → cons_nonempty w ws ≡ w ∷ ws
cons_nonempty_of_IsWord w ws h = ground (arith, eq_iff w "", h.0)

abbrev space : Char
space = " "

space-append : (s : String) → " " ⧺ s ≡ space ∷ s
space-append s = cons-append space [] s ∙ ap (λ t. space ∷ t) (nil-append s)

fields_from-space :
    (w s : String) (ws : List String) → IsWord w → fields s ≡ ws → fields_from w (" " ⧺ s) ≡ w ∷ ws
unfolding fields fields_from is_space
fields_from-space w s ws h e =
    rw (space-append s) (cons_nonempty_of_IsWord w (fields_from "" s) h ∙ ap (λ t. w ∷ t) e)

-- Splitting a joined list of words gives the list back.
pub fields-join_spaces : (ws : List String) → All IsWord ws → fields (join_spaces ws) ≡ ws
unfolding fields join_spaces fields_from is_space
fields-join_spaces [] h = refl
fields-join_spaces (w ∷ []) h =
    ap fields (sym (append-nil w)) ∙ fields_from_word w "" [] h.0 (cons_nonempty_of_IsWord w [] h.0)
fields-join_spaces (w ∷ v ∷ ws) h =
    fields_from_word w (" " ⧺ join_spaces (v ∷ ws)) (v ∷ ws) h.0
      (fields_from-space w (join_spaces (v ∷ ws)) (v ∷ ws) h.0 (fields-join_spaces (v ∷ ws) h.1))
