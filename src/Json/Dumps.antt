-- ===== src/Json/Dumps.antt =====
-- `json.dumps(value, sort_keys=True)`, as a list of code points.
use coroner.Base.{
  ℕ, ◌+◌, ◌-◌, ◌/◌, ◌%◌, String, Bool, true, false, ◌&&◌, ◌||◌, List, [], ◌∷◌, ◌++◌, ltb, leb, eqb,
  if◌then◌else◌, ◌≡◌, refl,
}
use coroner.Base.Text.{codes}
use coroner.Json.{Json, null, bool, num, str, arr, obj, Items, nil, cons, Fields, end, field}

unfoldable pub hex_digit : ℕ → ℕ
hex_digit n = if ltb n 10 then 48 + n else 87 + n

-- \uXXXX
unicode_escape : ℕ → List ℕ
unfolding hex_digit
unicode_escape n =
    92
    ∷ 117
    ∷ hex_digit (n / 4096 % 16)
    ∷ hex_digit (n / 256 % 16)
    ∷ hex_digit (n / 16 % 16)
    ∷ hex_digit (n % 16)
    ∷ []

-- one code point inside a string literal, under `ensure_ascii`
escape : ℕ → List ℕ
unfolding unicode_escape
escape c =
    if eqb c 34 || eqb c 92
    then 92 ∷ c ∷ []
    else if eqb c 10
    then 92 ∷ b'n' ∷ []
    else if eqb c 13
    then 92 ∷ b'r' ∷ []
    else if eqb c 9
    then 92 ∷ b't' ∷ []
    else if eqb c 12
    then 92 ∷ b'f' ∷ []
    else if eqb c 8
    then 92 ∷ b'b' ∷ []
    else if leb 32 c && leb c 126
    then c ∷ []
    else if ltb c 65536
    then unicode_escape c
    else unicode_escape (55296 + (c - 65536) / 1024) ++ unicode_escape (56320 + (c - 65536) % 1024)

escape_all : List ℕ → List ℕ
escape_all [] = []
escape_all (c ∷ s) = escape c ++ escape_all s

quote : String → List ℕ
unfolding escape_all escape
quote s = 34 ∷ (escape_all (codes s) ++ (34 ∷ []))

-- the order of the keys
unfoldable pub comes_before : List ℕ → List ℕ → Bool
comes_before [] t = true
comes_before (c ∷ s) [] = false
comes_before (c ∷ s) (d ∷ t) = ltb c d || eqb c d && comes_before s t

insert_field : String → List ℕ → List (String × List ℕ) → List (String × List ℕ)
insert_field k v [] = (k, v) ∷ []
insert_field k v ((j, w) ∷ rest) =
    let later = (j, w) ∷ insert_field k v rest in
    if comes_before (codes k) (codes j) then (k, v) ∷ (j, w) ∷ rest else later

-- the pairs between the braces, with the separators of items and of keys
join_fields : List ℕ → List ℕ → List (String × List ℕ) → List ℕ
unfolding quote
join_fields comma colon [] = []
join_fields comma colon ((k, v) ∷ []) = quote k ++ (colon ++ v)
join_fields comma colon ((k, v) ∷ rest) =
    quote k ++ ((colon ++ v) ++ (comma ++ join_fields comma colon rest))

join_items : List ℕ → List (List ℕ) → List ℕ
join_items comma [] = []
join_items comma (x ∷ []) = x
join_items comma (x ∷ rest) = x ++ (comma ++ join_items comma rest)

unfoldable mutual
  unfolding quote insert_field join_fields join_items comes_before

  pub dumps_with : List ℕ → List ℕ → Json → List ℕ
  dumps_with comma colon null = codes "null"
  dumps_with comma colon (bool true) = codes "true"
  dumps_with comma colon (bool false) = codes "false"
  dumps_with comma colon (num text) = codes text
  dumps_with comma colon (str s) = quote s
  dumps_with comma colon (arr xs) =
      91 ∷ (join_items comma (dumps_items comma colon xs) ++ (93 ∷ []))
  dumps_with comma colon (obj fs) =
      123 ∷ (join_fields comma colon (dumps_fields comma colon fs) ++ (125 ∷ []))

  pub dumps_items : List ℕ → List ℕ → Items → List (List ℕ)
  dumps_items comma colon nil = []
  dumps_items comma colon (cons x xs) = dumps_with comma colon x ∷ dumps_items comma colon xs

  pub dumps_fields : List ℕ → List ℕ → Fields → List (String × List ℕ)
  dumps_fields comma colon end = []
  dumps_fields comma colon (field k v fs) =
      insert_field k (dumps_with comma colon v) (dumps_fields comma colon fs)

-- with the standard separators
unfoldable pub dumps : Json → List ℕ
unfolding dumps_with
dumps = dumps_with (codes ", ") (codes ": ")

-- with `separators=(",", ":")`
unfoldable pub dumps_compact : Json → List ℕ
unfolding dumps_with
dumps_compact = dumps_with (codes ",") (codes ":")

dumps_test :
    dumps (obj (field "b" (arr (cons null (cons (num "3") nil))) (field "a" (str "x\n") end)))
    ≡ codes "{\"a\": \"x\\n\", \"b\": [null, 3]}"
unfolding dumps
dumps_test = refl
