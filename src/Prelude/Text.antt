-- ===== src/Prelude/Text.antt =====
-- What the program uses of Go's `strings` package.
pub mod Words
pub mod Affixes
pub mod Paths
pub mod Pieces
use Prim.Native.Nat.{ℕ, ◌+◌, ◌-◌, ◌*◌, ◌/◌, ◌%◌}
use Prim.Native.Char.{Char, code, nul}
use Prim.Native.String
use Prim.Native.String.{String, [], ◌∷◌}
use mathlib.Core.Path.{◌≡◌, refl}
use mathlib.Core.Bool.{Bool, true, false, ◌&&◌, ◌||◌}
use mathlib.Core.Option.{Option, none, some}
use mathlib.Core.List.{List, [], ◌∷◌}
use text.Mathlib.Text.{◌==◌}
use oidc_oauth2_idp.Prelude.Tests.{leb, ltb, ◌=ℕ◌, if◌then◌else◌}

-- Concatenation of texts.
infixr 65 ◌⧺◌
abbrev pub ◌⧺◌ : String → String → String
s ⧺ t = String.◌++◌ s t

-- `unicode.IsSpace`.
pub is_space : Char → Bool
is_space c =
    (leb 9 (code c) && leb (code c) 13)
    || code c =ℕ 32
    || code c =ℕ 0x85
    || code c =ℕ 0xa0
    || code c =ℕ 0x1680
    || (leb 0x2000 (code c) && leb (code c) 0x200a)
    || code c =ℕ 0x2028
    || code c =ℕ 0x2029
    || code c =ℕ 0x202f
    || code c =ℕ 0x205f
    || code c =ℕ 0x3000

abbrev pub push : String → Char → String
push s c = s ⧺ (c ∷ [])

-- The text "\x00".
abbrev pub nul_text : String
nul_text = nul ∷ []

abbrev cons_nonempty : String → List String → List String
cons_nonempty s ws = if s == "" then ws else s ∷ ws

-- The loop of `strings.Fields`; `word` is what stands before the position since the last space.
fields_from : String → String → List String
fields_from word [] = cons_nonempty word []
fields_from word (c ∷ s) =
    let ended = cons_nonempty word (fields_from "" s) in
    let longer = fields_from (push word c) s in if is_space c then ended else longer

unfoldable pub fields : String → List String
unfolding fields_from is_space
fields s = fields_from "" s

-- `strings.Join(words, " ")`.
unfoldable pub join_spaces : List String → String
join_spaces [] = ""
join_spaces (w ∷ []) = w
join_spaces (w ∷ v ∷ ws) = w ⧺ " " ⧺ join_spaces (v ∷ ws)

trim_left : String → String
trim_left [] = []
trim_left (c ∷ s) = if is_space c then trim_left s else c ∷ s

-- The text without its trailing characters that satisfy a test.
unfoldable pub trim_right_by : (Char → Bool) → String → String
trim_right_by p [] = []
trim_right_by p (c ∷ s) = let rest = trim_right_by p s in if p c && rest == "" then [] else c ∷ rest

-- `strings.TrimSpace`.
unfoldable pub trim_space : String → String
unfolding trim_left trim_right_by is_space
trim_space s = trim_right_by is_space (trim_left s)

-- `strings.HasPrefix`.
unfoldable pub has_prefix : String → String → Bool
has_prefix s [] = true
has_prefix [] (d ∷ p) = false
has_prefix (c ∷ s) (d ∷ p) = code c =ℕ code d && has_prefix s p

-- `strings.HasSuffix`.
unfoldable pub has_suffix : String → String → Bool
has_suffix [] t = t == ""
has_suffix (c ∷ s) t = (c ∷ s) == t || has_suffix s t

-- `strings.Contains` of one character.
unfoldable pub contains_char : String → ℕ → Bool
contains_char [] n = false
contains_char (c ∷ s) n = code c =ℕ n || contains_char s n

fields_example : fields "  openid\tprofile  email " ≡ "openid" ∷ "profile" ∷ "email" ∷ []
unfolding fields
fields_example = refl

join_spaces_example : join_spaces ("openid" ∷ "email" ∷ []) ≡ "openid email"
unfolding join_spaces
join_spaces_example = refl

trim_space_example : trim_space " \n a b\t" ≡ "a b"
unfolding trim_space
trim_space_example = refl

has_prefix_example : has_prefix "Bearer x" "Bearer " ≡ true
unfolding has_prefix
has_prefix_example = refl

split_from : ℕ → String → String → List String
split_from sep part [] = part ∷ []
split_from sep part (c ∷ s) =
    let closed : List String = part ∷ split_from sep "" s in
    let longer = split_from sep (push part c) s in if code c =ℕ sep then closed else longer

-- `strings.Split` at one character.
unfoldable pub split : ℕ → String → List String
unfolding split_from
split sep s = split_from sep "" s

cut_from : ℕ → String → String → Option (String × String)
cut_from sep before [] = none
cut_from sep before (c ∷ s) =
    let rest = cut_from sep (push before c) s in if code c =ℕ sep then some (before, s) else rest

-- `strings.Cut` at one character; `none` where it is not found.
unfoldable pub cut : ℕ → String → Option (String × String)
unfolding cut_from
cut sep s = cut_from sep "" s

lower : ℕ → ℕ
lower n = if leb b'A' n && leb n b'Z' then n + 32 else n

-- `strings.EqualFold` against an ASCII text without "k" and "s", to which no other character folds.
unfoldable pub equal_fold : String → String → Bool
unfolding lower
equal_fold [] [] = true
equal_fold [] (d ∷ t) = false
equal_fold (c ∷ s) [] = false
equal_fold (c ∷ s) (d ∷ t) = lower (code c) =ℕ lower (code d) && equal_fold s t

trim_left_by : (Char → Bool) → String → String
trim_left_by p [] = []
trim_left_by p (c ∷ s) = if p c then trim_left_by p s else c ∷ s

-- `strings.Trim` of one character.
unfoldable pub trim : ℕ → String → String
unfolding trim_left_by trim_right_by
trim n s = trim_right_by (λ c. code c =ℕ n) (trim_left_by (λ c. code c =ℕ n) s)

digits_value : ℕ → String → Option ℕ
digits_value acc [] = some acc
digits_value acc (c ∷ s) =
    let rest = digits_value (acc * 10 + (code c - b'0')) s in
    if leb b'0' (code c) && leb (code c) b'9' then rest else none

-- The digits after an optional plus sign.
unsigned_digits : String → String
unsigned_digits [] = []
unsigned_digits (c ∷ s) = if code c =ℕ b'+' then s else c ∷ s

-- `strconv.Atoi` where it succeeds with a positive number: the numbers up to 2 ^ 63 - 1.
unfoldable pub positive_number : String → Option ℕ
unfolding digits_value unsigned_digits
positive_number s =
    let digits = unsigned_digits s in
    if digits == "" then none else elim (digits_value 0 digits) [
      | none ↦ none
      | some n ↦ if ltb 0 n && ltb n 0x8000_0000_0000_0000 then some n else none
    ]

bytes_of : ℕ → ℕ
bytes_of n =
    if ltb n 0x80
    then n
    else if ltb n 0x800
    then (0xc0 + n / 64) + (0x80 + n % 64)
    else if ltb n 0x1_0000
    then (0xe0 + n / 4096) + (0x80 + n / 64 % 64) + (0x80 + n % 64)
    else (0xf0 + n / 262144) + (0x80 + n / 4096 % 64) + (0x80 + n / 64 % 64) + (0x80 + n % 64)

-- The sum of the bytes of a text's UTF-8.
unfoldable pub sum_bytes : String → ℕ
unfolding bytes_of
sum_bytes [] = 0
sum_bytes (c ∷ s) = bytes_of (code c) + sum_bytes s

split_example : split b',' "a,b=1,,c" ≡ "a" ∷ "b=1" ∷ "" ∷ "c" ∷ []
unfolding split
split_example = refl

cut_example : cut b'=' "max-age=60=1" ≡ some ("max-age", "60=1")
unfolding cut
cut_example = refl

equal_fold_example : equal_fold "Max-AGE" "max-age" ≡ true
unfolding equal_fold
equal_fold_example = refl

positive_number_example :
    (positive_number "+0900" ≡ some 900) × (positive_number "9223372036854775808" ≡ none)
unfolding positive_number
positive_number_example = (refl, refl)

sum_bytes_example : sum_bytes "aλ" ≡ 97 + (0xce + 0xbb)
unfolding sum_bytes
sum_bytes_example = refl
