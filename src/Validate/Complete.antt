-- ===== src/Validate/Complete.antt =====
-- Which diagnoses pass validation (brain/src/coroner_brain/validate.py).
use coroner.Base.{ℕ, ◌≡◌, refl, true, false, none, some, List, [], ◌∷◌, is_nil, arith}
use coroner.Base.Text.{codes, contains}
use coroner.Diagnosis.{Citation, Diagnosis}
use coroner.Json.{Json}
use coroner.Validate.{
  resolve_citation, normalise, render, collected_text, quoted, prose, value_matches, effective,
  citation_failure, citation_failures, quote_failures, validate,
}
use coroner.Validate.Sound.{All, codes_eq_refl}

-- A citation that copies the value at its path, up to white space and case.
pub record IsCopied (payload : Json) (c : Citation) : Type 0 where
  pub value : Json
  pub resolved : resolve_citation payload c.source c.field ≡ some value
  pub same : normalise (codes c.value) ≡ normalise (render value)
  pub nonempty : is_nil (normalise (codes c.value)) ≡ false

value_matches_refl : (text : List ℕ) → value_matches text text ≡ true
unfolding value_matches
value_matches_refl text = ground (arith, codes_eq_refl text)

accepts-value :
    (c : Citation) (v : Json)
    → normalise (codes c.value) ≡ normalise (render v)
    → is_nil (normalise (codes c.value)) ≡ false
    → citation_failure c (some v) ≡ none
unfolding citation_failure effective
accepts-value c v same n =
    let matches = value_matches_refl (normalise (codes c.value)) in
    rw (← same, matches, n, matches) refl

accepts-citations :
    (payload : Json) (cs : List Citation)
    → All (IsCopied payload) cs
    → citation_failures payload cs ≡ []
unfolding citation_failures
accepts-citations payload [] h = refl
accepts-citations payload (c ∷ cs) h =
    rw (h.0.resolved, accepts-value c h.0.value h.0.same h.0.nonempty)
      (accepts-citations payload cs h.1)

accepts-quotes :
    (haystack : List ℕ) (qs : List (List ℕ))
    → All (λ q. contains haystack (normalise q) ≡ true) qs
    → quote_failures haystack qs ≡ []
unfolding quote_failures
accepts-quotes haystack [] h = refl
accepts-quotes haystack (q ∷ qs) h = rw h.0 (accepts-quotes haystack qs h.1)

-- A diagnosis passes validation if it cites something, every citation copies the value at its path
-- up to white space and case, and every quoted span of its prose, of twelve characters or more,
-- stands in the text that the agent collected.
pub validate_accepts :
    (d : Diagnosis) (payload : Json)
    → is_nil d.evidence ≡ false
    → All (IsCopied payload) d.evidence
    → All
        (λ q. contains (normalise (collected_text payload)) (normalise q) ≡ true)
        (quoted (prose d))
    → validate d payload ≡ []
unfolding validate
validate_accepts d payload n cs qs =
    rw
      (
        n,
        accepts-citations payload d.evidence cs,
        accepts-quotes (normalise (collected_text payload)) (quoted (prose d)) qs,
      )
      refl
