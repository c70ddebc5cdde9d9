-- ===== src/Graph/RetryAfter.antt =====
-- How long a rate limit asks to wait (`retry_after_seconds` of brain/src/coroner_brain/graph.py), over
-- code points; the wait is in microseconds, and digits of the text beyond those are dropped.
use coroner.Base.{
  ℕ, ◌+◌, ◌-◌, ◌*◌, ◌/◌, String, drop, length, Bool, true, false, not, ◌&&◌, ◌||◌, Option, none,
  some, List, [], ◌∷◌, leb, eqb, if◌then◌else◌, ◌≡◌, refl, or_else,
}
use coroner.Base.Text.{codes, lower, is_space, contains, starts_with}

is_digit : ℕ → Bool
is_digit c = leb b'0' c && leb c b'9'

-- `\d+`: the number, whether there was a digit, and what follows
unfoldable pub digits : ℕ → Bool → List ℕ → ℕ × Bool × List ℕ
unfolding is_digit
digits n seen [] = (n, seen, [])
digits n seen (c ∷ s) =
    let more = digits (n * 10 + (c - 48)) true s in if is_digit c then more else (n, seen, c ∷ s)

unfoldable pub skip_spaces : List ℕ → List ℕ
unfolding is_space
skip_spaces [] = []
skip_spaces (c ∷ s) = let rest = skip_spaces s in if is_space c then rest else c ∷ s

-- a fraction in millionths, from the weight of its next digit
fraction : ℕ → ℕ → List ℕ → ℕ × List ℕ
unfolding is_digit
fraction weight value [] = (value, [])
fraction weight value (c ∷ s) =
    let more = fraction (weight / 10) (value + (c - 48) * weight) s in
    if is_digit c then more else (value, c ∷ s)

starts_with_digit : List ℕ → Bool
unfolding is_digit
starts_with_digit [] = false
starts_with_digit (c ∷ s) = is_digit c

-- `(?:\.\d+)?` behind the whole seconds
unfoldable pub with_fraction : ℕ → List ℕ → ℕ × List ℕ
unfolding fraction starts_with_digit
with_fraction n [] = (n * 1000000, [])
with_fraction n (c ∷ s) =
    if eqb c b'.' && starts_with_digit s
    then fraction 100000 (n * 1000000) s
    else (n * 1000000, c ∷ s)

-- `(\d+(?:\.\d+)?)\s*s`
seconds_here : List ℕ → Option ℕ
unfolding digits with_fraction skip_spaces
seconds_here s =
    let (n, seen, rest) = digits 0 false s in
    let (value, last) = with_fraction n rest in
    if seen && starts_with (skip_spaces last) (codes "s") then some value else none

abbrev plus_minutes : ℕ → Option ℕ → Option ℕ
plus_minutes n none = none
plus_minutes n (some value) = some (n * 60000000 + value)

-- `(?:(\d+)m)?` in front of it
time_here : List ℕ → Option ℕ
unfolding digits seconds_here
time_here s =
    let (n, seen, rest) = digits 0 false s in
    if seen && starts_with rest (codes "m")
    then plus_minutes n (seconds_here (drop 1 rest))
    else seconds_here s

-- `\s+` in front of that, behind a phrase of `count` characters
behind : ℕ → List ℕ → Option ℕ
unfolding time_here skip_spaces is_space
behind count s =
    let rest = drop count s in
    let spaced = skip_spaces rest in
    if eqb (length spaced) (length rest) then none else time_here spaced

abbrev first_match : Option ℕ → Option ℕ → Option ℕ
first_match none later = later
first_match (some v) later = some v

-- `_RETRY_AFTER.search`, on a text in lower case
search : List ℕ → Option ℕ
unfolding behind
search [] = none
search (c ∷ s) =
    let text = c ∷ s in
    let here =
      if starts_with text (codes "try again in")
      then behind 12 text
      else if starts_with text (codes "retry-after") || starts_with text (codes "retry after")
      then behind 11 text
      else none in
    first_match here (search s)

unfoldable pub retry_after_seconds : String → Option ℕ
unfolding search lower contains
retry_after_seconds error =
    let text = codes error in
    if not (contains (lower text) (codes "rate limit")) && not (contains text (codes "429"))
    then none
    else some (or_else (search (lower text)) 5000000)

seconds_test :
    retry_after_seconds "Rate limit reached. Please try again in 2.219999999s" ≡ some 2219999
unfolding retry_after_seconds
seconds_test = refl

minutes_test : retry_after_seconds "429: Retry-After 1m3.5 s" ≡ some 63500000
unfolding retry_after_seconds
minutes_test = refl

default_test : retry_after_seconds "429 Too Many Requests" ≡ some 5000000
unfolding retry_after_seconds
default_test = refl

other_test : retry_after_seconds "connection refused" ≡ none
unfolding retry_after_seconds
other_test = refl
