-- ===== src/Validate/Escape.antt =====
-- Undoing JSON escapes (`_unescape` of brain/src/coroner_brain/validate.py), over code points.
use coroner.Base.{
  ℕ, ◌+◌, ◌-◌, ◌*◌, Bool, true, false, not, ◌&&◌, ◌||◌, Option, none, some, List, [], ◌∷◌, ◌++◌,
  any, ltb, leb, eqb, if◌then◌else◌, ◌≡◌, refl,
}
use coroner.Base.Text.{codes}

-- `cited.replace('"', '\\"')`
escape_quotes : List ℕ → List ℕ
escape_quotes [] = []
escape_quotes (c ∷ s) = let rest = escape_quotes s in if eqb c 34 then 92 ∷ 34 ∷ rest else c ∷ rest

-- `.replace('\\\\"', '\\"')`: a quote behind two backslashes loses one
unescape_twice : List ℕ → List ℕ
unescape_twice (a ∷ b ∷ c ∷ s) =
    let fewer = 92 ∷ 34 ∷ unescape_twice s in
    let same = a ∷ unescape_twice (b ∷ c ∷ s) in
    if eqb a 92 && (eqb b 92 && eqb c 34) then fewer else same
unescape_twice s = s

-- Where the reader of a string literal stands: between characters, behind a backslash, or inside
-- \uXXXX with the digits left and the value so far.
pub data Mode : Type 0 where
  plain escaped : Mode
  hex : ℕ → ℕ → Mode

-- A unit of the text: a code, and whether \u wrote it.
abbrev pub Piece : Type 0
Piece = Bool × ℕ

pub data Step : Type 0 where
  fail finish : Step
  move : Mode → Option Piece → Step

hex_value : ℕ → Option ℕ
hex_value c =
    if leb b'0' c && leb c b'9'
    then some (c - 48)
    else if leb b'a' c && leb c b'f'
    then some (c - 87)
    else if leb b'A' c && leb c b'F'
    then some (c - 55)
    else none

escape_value : ℕ → Option ℕ
escape_value c =
    if eqb c 34 || (eqb c 92 || eqb c b'/')
    then some c
    else if eqb c b'b'
    then some 8
    else if eqb c b'f'
    then some 12
    else if eqb c b'n'
    then some 10
    else if eqb c b'r'
    then some 13
    else if eqb c b't'
    then some 9
    else none

abbrev simple_escape : Option ℕ → Step
simple_escape none = fail
simple_escape (some v) = move plain (some (false, v))

abbrev hex_step : ℕ → ℕ → Option ℕ → Step
hex_step left value none = fail
hex_step left value (some d) =
    if eqb left 1
    then move plain (some (true, value * 16 + d))
    else move (hex (left - 1) (value * 16 + d)) none

read_step : Mode → ℕ → Step
unfolding hex_value escape_value
read_step plain c =
    if eqb c 34
    then finish
    else if eqb c 92
    then move escaped none
    else if ltb c 32
    then fail
    else move plain (some (false, c))
read_step escaped c = if eqb c b'u' then move (hex 4 0) none else simple_escape (escape_value c)
read_step (hex left value) c = hex_step left value (hex_value c)

all_blank : List ℕ → Bool
all_blank s = not (any (λ c. not (any (eqb c) (32 ∷ 9 ∷ 10 ∷ 13 ∷ []))) s)

abbrev put : Option Piece → Option (List Piece) → Option (List Piece)
put out none = none
put none (some rest) = some rest
put (some u) (some rest) = some (u ∷ rest)

-- the literal from behind its first quote; `none` is the JSONDecodeError
read_body : Mode → List ℕ → Option (List Piece)
read_body m [] = none
read_body m (c ∷ s) = elim (read_step m c) [
  | fail ↦ none
  | finish ↦ if all_blank s then some [] else none
  | move next out ↦ put out (read_body next s)
]

is_high : Piece → Bool
is_high (written, v) = written && (leb 55296 v && leb v 56319)

is_low : Piece → Bool
is_low (written, v) = written && (leb 56320 v && leb v 57343)

-- a surrogate pair is one code point; a surrogate alone stays
combine : List Piece → List ℕ
unfolding is_high is_low
combine [] = []
combine (u ∷ []) = u.1 ∷ []
combine (u ∷ v ∷ rest) =
    let pair = (65536 + (u.1 - 55296) * 1024 + (v.1 - 56320)) ∷ combine rest in
    let single = u.1 ∷ combine (v ∷ rest) in if is_high u && is_low v then pair else single

abbrev or_kept : List ℕ → Option (List Piece) → List ℕ
or_kept cited none = cited
or_kept cited (some pieces) = combine pieces

-- the cited text as the rest of a JSON string literal
abbrev quoted_body : List ℕ → List ℕ
quoted_body s = unescape_twice (escape_quotes s) ++ 34 ∷ []

unfoldable pub unescape : List ℕ → List ℕ
unfolding escape_quotes unescape_twice read_body read_step all_blank combine
unescape cited =
    if any (eqb 92) cited then or_kept cited (read_body plain (quoted_body cited)) else cited

newline_test : unescape (codes "exit\\n1") ≡ codes "exit\n1"
unfolding unescape
newline_test = refl

quote_test : unescape (codes "echo \\\"hi\\\"") ≡ codes "echo \"hi\""
unfolding unescape
quote_test = refl

surrogate_test : unescape (codes "\\ud83d\\ude00") ≡ 128512 ∷ []
unfolding unescape
surrogate_test = refl

invalid_test : unescape (codes "C:\\dir") ≡ codes "C:\\dir"
unfolding unescape
invalid_test = refl
