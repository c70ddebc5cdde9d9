-- ===== src/Validate/Sound.antt =====
-- What a diagnosis that passes validation is known to satisfy
-- (brain/src/coroner_brain/validate.py).
use coroner.Base.{
  ℕ, ◌<◌, ◌≡◌, ◌≢◌, refl, ◌⊎◌, true, Option, none, some, List, [], ◌∷◌, ◌++◌, length, is_nil,
  if◌then◌else◌, arith, Bool-cases, Option-cases, inl, inr,
}
use coroner.Base.Text.{codes, codes_eq, contains}
use coroner.Diagnosis.{Citation, Diagnosis, Failure}
use coroner.Json.{Json}
use coroner.Validate.{
  resolve_citation, normalise, render, unescape, collected_text, quoted, prose, value_matches,
  effective, citation_failure, citation_failures, quote_failures, validate,
}

-- A cited text stands for an actual one: they are the same, or the actual one is long and the
-- cited one an excerpt of it.
abbrev pub Shows : List ℕ → List ℕ → Type 0
Shows actual cited = (cited ≡ actual) ⊎ ((40 < length actual) × (contains actual cited ≡ true))

-- A citation that is borne out: its path leads to a value of the contract, and its text, as it
-- stands or with JSON escapes undone, is not blank and shows that value.
pub record IsBorneOut (payload : Json) (c : Citation) : Type 0 where
  pub value : Json
  pub resolved : resolve_citation payload c.source c.field ≡ some value
  pub text : List ℕ
  pub read : (text ≡ normalise (codes c.value)) ⊎ (text ≡ normalise (unescape (codes c.value)))
  pub nonempty : text ≢ []
  pub shows : Shows (normalise (render value)) text

abbrev pub All {ℓ κ} : {A : Type ℓ} → (A → Type κ) → List A → Type κ
All P [] = Unit
All P (x ∷ xs) = P x × All P xs

codes_eq→eq : (a b : List ℕ) → codes_eq a b ≡ true → a ≡ b
codes_eq→eq [] [] h = refl
codes_eq→eq [] (d ∷ b) h = ground arith
codes_eq→eq (c ∷ a) [] h = ground arith
codes_eq→eq (c ∷ a) (d ∷ b) h = ground (arith, codes_eq→eq a b)

pub codes_eq_refl : (a : List ℕ) → codes_eq a a ≡ true
codes_eq_refl [] = refl
codes_eq_refl (c ∷ a) = ground (arith, codes_eq_refl a)

value_matches-Shows :
    (cited actual : List ℕ) → value_matches cited actual ≡ true → Shows actual cited
unfolding value_matches
value_matches-Shows cited actual h = ground (arith, codes_eq→eq cited actual)

append-eq-nil : (xs ys : List Failure) → xs ++ ys ≡ [] → (xs ≡ []) × (ys ≡ [])
append-eq-nil [] ys h = (refl, h)
append-eq-nil (x ∷ xs) ys h = absurd (ground arith)

citation-IsBorneOut :
    (payload : Json) (c : Citation) (o : Option Json)
    → resolve_citation payload c.source c.field ≡ o
    → citation_failure c o ≡ none
    → IsBorneOut payload c
unfolding citation_failure effective
citation-IsBorneOut payload c none e h = absurd (ground arith)
citation-IsBorneOut payload c (some v) e h = record {
  value = v;
  resolved = e;
  text = effective c.value (normalise (render v));
  read = ground arith;
  nonempty = ground arith;
  shows = value_matches-Shows _ _ (ground arith);
}

citations-All :
    (payload : Json) (cs : List Citation)
    → citation_failures payload cs ≡ []
    → All (IsBorneOut payload) cs
unfolding citation_failures
citations-All payload [] h = tt
citations-All payload (c ∷ cs) h =
    elim (Option-cases (citation_failure c (resolve_citation payload c.source c.field))) [
      | inl e ↦ (citation-IsBorneOut payload c _ refl e, citations-All payload cs (ground arith))
      | inr (f, e) ↦ absurd (ground arith)
    ]

quotes-All :
    (haystack : List ℕ) (qs : List (List ℕ))
    → quote_failures haystack qs ≡ []
    → All (λ q. contains haystack (normalise q) ≡ true) qs
unfolding quote_failures
quotes-All haystack [] h = tt
quotes-All haystack (q ∷ qs) h = elim (Bool-cases (contains haystack (normalise q))) [
  | inl e ↦ (e, quotes-All haystack qs (ground arith))
  | inr e ↦ absurd (ground arith)
]

not-empty :
    (cs : List Citation) → (if is_nil cs then Failure.empty_evidence ∷ [] else []) ≡ [] → cs ≢ []
not-empty [] h = absurd (ground arith)
not-empty (c ∷ cs) h = ground arith

-- A diagnosis that passes validation cites something; every citation of it is borne out by the
-- contract that was sent; and every quoted span of its prose, of twelve characters or more,
-- stands in the text that the agent collected.
pub validate_sound :
    (d : Diagnosis) (payload : Json)
    → validate d payload ≡ []
    → (d.evidence ≢ [])
      × All (IsBorneOut payload) d.evidence
      × All
          (λ q. contains (normalise (collected_text payload)) (normalise q) ≡ true)
          (quoted (prose d))
unfolding validate
validate_sound d payload h =
    let (cites, rest) = append-eq-nil _ _ h in
    let (cs, qs) = append-eq-nil _ _ rest in
    (
      not-empty d.evidence cites,
      citations-All payload d.evidence cs,
      quotes-All _ (quoted (prose d)) qs,
    )
