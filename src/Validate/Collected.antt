-- ===== src/Validate/Collected.antt =====
-- The text that quotes are checked against (`collected_text`, `_normalise`, `_render` and the
-- quoted spans of brain/src/coroner_brain/validate.py), over code points. The payload is a dumped
-- contract: where the program calls `str` on a member, a list or a dict does not occur.
use coroner.Base.{
  ℕ, String, true, not, Option, none, some, List, [], ◌∷◌, ◌++◌, map, length, leb, eqb,
  if◌then◌else◌, ◌==◌, ◌≡◌, refl,
}
use mathlib.Core.List.{reverse}
use coroner.Base.Text.{codes, is_space, lower}
use coroner.Json.{Json, bool, num, str, arr, obj, Items, nil, cons, lookup}
use coroner.Json.Dumps.{dumps}

-- `str(value or "")`
abbrev text_of : Option Json → String
text_of (some (str s)) = s
text_of (some (num t)) = if t == "0" then "" else t
text_of (some (bool true)) = "True"
text_of _ = ""

-- `value.get(key)`, after `or {}`
abbrev get : String → Option Json → Option Json
get key (some (obj fields)) = lookup key fields
get key _ = none

-- `value or []`
abbrev items_of : Option Json → Items
items_of (some (arr items)) = items
items_of _ = nil

texts : Items → List String
texts nil = []
texts (cons x xs) = text_of (some x) ∷ texts xs

event_texts : Items → List String
unfolding lookup
event_texts nil = []
event_texts (cons x xs) =
    text_of (get "message" (some x)) ∷ text_of (get "reason" (some x)) ∷ event_texts xs

parts : Json → List String
unfolding lookup texts event_texts
parts payload =
    let top = some payload in
    let container = get "container" top in
    let terminated = get "last_terminated" container in
    let owner = get "owner" top in
    let pod = get "pod" top in
    text_of (get "content" (get "logs" top))
    ∷ text_of (get "waiting_message" container)
    ∷ text_of (get "waiting_reason" container)
    ∷ text_of (get "image" container)
    ∷ text_of (get "message" terminated)
    ∷ text_of (get "reason" terminated)
    ∷ (texts (items_of (get "command" container))
        ++ (texts (items_of (get "args" container))
            ++ (event_texts (items_of (get "events" top))
                ++ (text_of (get "name" owner)
                    ∷ text_of (get "image" owner)
                    ∷ text_of (get "kind" owner)
                    ∷ text_of (get "name" pod)
                    ∷ text_of (get "namespace" pod)
                    ∷ text_of (get "node_name" pod)
                    ∷ []))))

-- `separator.join(texts)`
join : ℕ → List (List ℕ) → List ℕ
join separator [] = []
join separator (x ∷ []) = x
join separator (x ∷ rest) = x ++ (separator ∷ join separator rest)

unfoldable pub collected_text : Json → List ℕ
unfolding parts join
collected_text payload = join 10 (map codes (parts payload))

-- `value.split()`: the words of a text, with the word that is being read
words : List ℕ → List ℕ → List (List ℕ)
words [] [] = []
words (c ∷ word) [] = reverse (c ∷ word) ∷ []
words word (c ∷ s) =
    let closed = close_word word (words [] s) in
    let longer = words (c ∷ word) s in if is_space c then closed else longer
  where
    close_word : List ℕ → List (List ℕ) → List (List ℕ)
    close_word [] rest = rest
    close_word (d ∷ w) rest = reverse (d ∷ w) ∷ rest

unfoldable pub normalise : List ℕ → List ℕ
unfolding words join lower is_space
normalise value = lower (join 32 (words [] value))

-- `_render`
unfoldable pub render : Json → List ℕ
unfolding dumps
render (str s) = codes s
render value = dumps value

abbrev pub min_quoted_length : ℕ
min_quoted_length = 12

-- `_QUOTED.findall`: inside a span, the characters read so far, last first; a span that is too
-- short opens again at its closing quote
quoted_from : Option (List ℕ) → List ℕ → List (List ℕ)
quoted_from span [] = []
quoted_from none (c ∷ s) = quoted_from (if eqb c 34 then some [] else none) s
quoted_from (some span) (c ∷ s) =
    let inside = quoted_from (some (c ∷ span)) s in
    let found = reverse span ∷ quoted_from none s in
    let again = quoted_from (some []) s in
    if not (eqb c 34) then inside else if leb min_quoted_length (length span) then found else again

unfoldable pub quoted : List ℕ → List (List ℕ)
unfolding quoted_from
quoted prose = quoted_from none prose

normalise_test : normalise (codes "  Exit\n CODE  137 ") ≡ codes "exit code 137"
unfolding normalise
normalise_test = refl

quoted_test :
    quoted (codes "says \"no\" and \"connection refused\" twice") ≡ codes "connection refused" ∷ []
unfolding quoted
quoted_test = refl
