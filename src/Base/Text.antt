-- ===== src/Base/Text.antt =====
-- Python's `str` operations. A stored text is a native `String`; where the program looks inside
-- it the text is the list of its code points, `codes`.
use Prim.Native.Char.{code}
use Prim.Native.Nat.{ℕ, zero, suc, ◌+◌, ◌/◌, ◌%◌}
use Prim.Native.String.{String, ◌++◌}
use text.Mathlib.TextLemmas.{append-eq-nil_iff}
use mathlib.Core.Path.{◌≡◌, refl}
use mathlib.Core.Bool.{Bool, true, false, ◌&&◌, ◌||◌}
use mathlib.Core.List.{List, [], ◌∷◌, map}
use text.Mathlib.Text.{◌==◌}
use text.Mathlib.TextEquality.{eq_iff}
use native.Mathlib.Omega.{arith}
use coroner.Base.Tests.{ltb, leb, eqb, if◌then◌else◌}
use coroner.Base.Lists.{any, is_nil}

abbrev pub codes : String → List ℕ
codes String.[] = []
codes (String.◌∷◌ c s) = code c ∷ codes s

-- `str.isspace` on one code point
unfoldable pub is_space : ℕ → Bool
is_space c =
    leb 9 c && leb c 13
    || leb 28 c && leb c 32
    || leb 8192 c && leb c 8202
    || any (eqb c) (133 ∷ 160 ∷ 5760 ∷ 8232 ∷ 8233 ∷ 8239 ∷ 8287 ∷ 12288 ∷ [])

-- `str.lower` on one code point, for ASCII letters
unfoldable pub lower_code : ℕ → ℕ
lower_code c = if leb 65 c && leb c 90 then c + 32 else c

unfoldable pub lower : List ℕ → List ℕ
unfolding lower_code
lower = map lower_code

-- `str.strip`
lstrip : String → String
lstrip String.[] = String.[]
lstrip (String.◌∷◌ c s) = let rest = lstrip s in if is_space (code c) then rest else String.◌∷◌ c s

rstrip : String → String
rstrip String.[] = String.[]
rstrip (String.◌∷◌ c s) =
    let rest = rstrip s in if is_space (code c) && rest == "" then String.[] else String.◌∷◌ c rest

unfoldable pub strip : String → String
unfolding lstrip rstrip is_space
strip s = rstrip (lstrip s)

-- `s.rstrip(c)` for one code point
unfoldable pub rstrip_code : ℕ → String → String
rstrip_code c String.[] = ""
rstrip_code c (String.◌∷◌ d s) =
    let rest = rstrip_code c s in
    if rest == "" then (if eqb (code d) c then "" else String.◌∷◌ d "") else String.◌∷◌ d rest

-- `s.split(c)` for one code point: the first part and the others
unfoldable pub split_on : ℕ → String → String × List String
split_on c String.[] = ("", [])
split_on c (String.◌∷◌ d s) =
    let (part, others) = split_on c s in
    if eqb (code d) c then ("", part ∷ others) else (String.◌∷◌ d part, others)

-- `s[:n]`
abbrev pub first_codes : ℕ → String → String
first_codes zero s = ""
first_codes (suc n) String.[] = ""
first_codes (suc n) (String.◌∷◌ c s) = String.◌∷◌ c (first_codes n s)

-- the text of an f-string: its parts in turn
abbrev pub cat : String → String → String
cat String.[] t = t
cat (String.◌∷◌ c s) t = String.◌∷◌ c (cat s t)

abbrev pub parts : List String → String
parts [] = ""
parts (s ∷ ss) = cat s (parts ss)

-- `separator.join(texts)`
abbrev pub join : String → List String → String
join separator [] = ""
join separator (s ∷ []) = s
join separator (s ∷ t ∷ ss) = cat s (cat separator (join separator (t ∷ ss)))

-- `value or default`
abbrev pub or_text : String → String → String
or_text s d = if s == "" then d else s

-- `str(value).lower()` of a bool
abbrev pub lower_bool : Bool → String
lower_bool true = "true"
lower_bool false = "false"

digit : ℕ → String
digit n =
    if eqb n 0
    then "0"
    else if eqb n 1
    then "1"
    else if eqb n 2
    then "2"
    else if eqb n 3
    then "3"
    else if eqb n 4
    then "4"
    else if eqb n 5
    then "5"
    else if eqb n 6
    then "6"
    else if eqb n 7
    then "7"
    else if eqb n 8
    then "8"
    else "9"

-- the digits of a number in front of a text; a number has fewer digits than its successor
put_digits : ℕ → ℕ → String → String
put_digits zero n rest = rest
put_digits (suc fuel) n rest =
    let more = put_digits fuel (n / 10) (cat (digit (n % 10)) rest) in
    if ltb n 10 then cat (digit n) rest else more

-- `str` of a number that is not negative
unfoldable pub decimal : ℕ → String
unfolding put_digits digit
decimal n = put_digits (suc n) n ""

abbrev pub codes_eq : List ℕ → List ℕ → Bool
codes_eq [] [] = true
codes_eq (x ∷ xs) (y ∷ ys) = eqb x y && codes_eq xs ys
codes_eq _ _ = false

abbrev pub starts_with : List ℕ → List ℕ → Bool
starts_with s [] = true
starts_with [] (p ∷ ps) = false
starts_with (c ∷ s) (p ∷ ps) = eqb c p && starts_with s ps

-- `needle in hay`
unfoldable pub contains : List ℕ → List ℕ → Bool
contains [] needle = is_nil needle
contains (c ∷ hay) needle = starts_with (c ∷ hay) needle || contains hay needle

-- `any(marker in hay for marker in markers)`
unfoldable pub names_any : List String → List ℕ → Bool
unfolding contains
names_any markers hay = any (λ m. contains hay (codes m)) markers

-- A text that equals one of two different texts does not equal the other.
pub eq_disjoint : (s a b : String) → (s == a) ≡ true → (a == b) ≡ false → (s == b) ≡ false
eq_disjoint s a b h k = ground (arith, eq_iff s a, eq_iff s b, eq_iff a b)

-- A text that begins with one that is not empty is not empty.
pub append-not_empty : (a b : String) → (a == "") ≡ false → ((a ++ b) == "") ≡ false
append-not_empty a b h =
    ground (arith, eq_iff a "", eq_iff (a ++ b) "", append-eq-nil_iff {p = a} {q = b})

strip_test : strip "  the tag \n" ≡ "the tag"
unfolding strip
strip_test = refl

contains_test : contains (codes "back-off failed to pull") (codes "failed to") ≡ true
unfolding contains
contains_test = refl

decimal_test : decimal 2906 ≡ "2906"
unfolding decimal
decimal_test = refl
