-- ===== src/Validate/Path.antt =====
-- Resolving a citation's path (`resolve_path` and `resolve_citation` of
-- brain/src/coroner_brain/validate.py).
use Prim.Native.Char.{Char, code}
use Prim.Native.String
use coroner.Base.{
  ℕ, ◌+◌, ◌-◌, ◌*◌, String, Bool, true, false, ◌&&◌, Option, none, some, List, [], ◌∷◌, leb, eqb,
  if◌then◌else◌, ◌==◌, ◌≡◌, refl,
}
use coroner.Base.Text.{strip}
use coroner.Json.{Json, num, str, arr, obj, nil, cons, end, field, lookup, item}

abbrev add_char : Char → List String → List String
add_char c [] = (String.◌∷◌ c "") ∷ []
add_char c (s ∷ rest) = (String.◌∷◌ c s) ∷ rest

-- `path.split(".")`
split_dots : String → List String
split_dots String.[] = "" ∷ []
split_dots (String.◌∷◌ c s) =
    let rest = split_dots s in if eqb (code c) b'.' then "" ∷ rest else add_char c rest

is_digit : ℕ → Bool
is_digit c = leb b'0' c && leb c b'9'

-- what follows a "[": digits, at least one, and a "]" at the end
closing : ℕ → Bool → String → Option ℕ
closing n seen String.[] = none
closing n seen (String.◌∷◌ c s) =
    let more = closing (n * 10 + (code c - b'0')) true s in
    if is_digit (code c)
    then more
    else if eqb (code c) b']' && (seen && s == "")
    then some n
    else none

abbrev before_index : Char → Option (String × ℕ) → Option (String × ℕ)
before_index c none = none
before_index c (some (name, n)) = if eqb (code c) 10 then none else some (String.◌∷◌ c name, n)

abbrev at_bracket : Option ℕ → Option (String × ℕ)
at_bracket none = none
at_bracket (some n) = some ("", n)

abbrev first_index : Option (String × ℕ) → Option (String × ℕ) → Option (String × ℕ)
first_index none b = b
first_index (some a) b = some a

-- `_INDEX.match(segment)`: the name before the index, and the index
split_index : String → Option (String × ℕ)
unfolding closing is_digit
split_index String.[] = none
split_index (String.◌∷◌ c s) =
    let here = if eqb (code c) b'[' then at_bracket (closing 0 false s) else none in
    first_index here (before_index c (split_index s))

-- `current[segment]`, if there is a name
abbrev get_key : String → Json → Option Json
get_key name (obj fields) = if name == "" then some (obj fields) else lookup name fields
get_key name value = if name == "" then some value else none

-- `current[index]`
abbrev get_index : ℕ → Json → Option Json
get_index index (arr items) = item items index
get_index index value = none

infixl 5 ◌>>=◌
abbrev ◌>>=◌ : {A B : Type 0} → Option A → (A → Option B) → Option B
none >>= f = none
some a >>= f = f a

abbrev follow : Option (String × ℕ) → String → Json → Option Json
follow none segment current = get_key segment current
follow (some (name, index)) segment current = get_key name current >>= get_index index

-- one round of the loop; `none` is `return False, None`
step : String → Json → Option Json
unfolding split_index lookup item
step raw_segment current =
    let segment = strip raw_segment in
    if segment == "" then none else follow (split_index segment) segment current

resolve_segments : List String → Json → Option Json
resolve_segments [] current = some current
resolve_segments (s ∷ segments) current = step s current >>= resolve_segments segments

unfoldable pub resolve_path : Json → String → Option Json
unfolding resolve_segments step split_dots strip
resolve_path payload path = resolve_segments (split_dots path) payload

abbrev or_joined : Option Json → Option Json → Option Json
or_joined none other = other
or_joined (some v) other = some v

-- the path as it stands in `field`, then behind the label in `source`
unfoldable pub resolve_citation : Json → String → String → Option Json
unfolding resolve_path
resolve_citation payload source path =
    let label = strip source in
    let joined = if label == "" then path else String.◌++◌ label (String.◌++◌ "." (strip path)) in
    or_joined (resolve_path payload path)
      (if joined == path then none else resolve_path payload joined)

abbrev sample : Json
sample = obj (
    field "container" (obj (field "last_terminated" (obj (field "exit_code" (num "1") end)) end))
      (field "events" (arr (cons (obj (field "message" (str "Back-off") end)) nil)) end))

nested_test : resolve_path sample "container.last_terminated.exit_code" ≡ some (num "1")
unfolding resolve_path
nested_test = refl

index_test : resolve_path sample "events[0].message" ≡ some (str "Back-off")
unfolding resolve_path
index_test = refl

invented_test : resolve_path sample "events[1].message" ≡ none
unfolding resolve_path
invented_test = refl

split_test : resolve_citation sample "events[0]" "message" ≡ some (str "Back-off")
unfolding resolve_citation
split_test = refl
