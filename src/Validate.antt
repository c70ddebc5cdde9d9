-- ===== src/Validate.antt =====
-- Mechanical verification of a diagnosis (brain/src/coroner_brain/validate.py).
mod Path
mod Escape
mod Collected
pub mod Failures
pub mod Sound
pub mod Complete
unfoldable pub use Path.{resolve_path, resolve_citation}
unfoldable pub use Escape.{unescape}
unfoldable pub use Collected.{collected_text, normalise, render, quoted}
use Prim.Native.String.{◌++◌ as append_text}
use coroner.Base.{
  ℕ, String, Bool, true, false, not, ◌&&◌, ◌||◌, Option, none, some, List, [], ◌∷◌, ◌++◌, length,
  ltb, is_nil, if◌then◌else◌,
}
use coroner.Base.Text.{codes, codes_eq, contains}
use coroner.Diagnosis.{
  Citation, Diagnosis, Failure, empty_evidence, missing_field, empty_value, value_mismatch,
  fabricated_quote,
}
use coroner.Json.{Json}

abbrev pub scalar_max_length : ℕ
scalar_max_length = 40

-- `_value_matches`
unfoldable pub value_matches : List ℕ → List ℕ → Bool
unfolding contains
value_matches cited actual =
    codes_eq cited actual || ltb scalar_max_length (length actual) && contains actual cited

-- the cited value, unescaped if it does not match as it stands
unfoldable pub effective : String → List ℕ → List ℕ
effective cited_value actual =
    let cited = normalise (codes cited_value) in
    if value_matches cited actual then cited else normalise (unescape (codes cited_value))

-- the failure of one citation, from what its path resolves to
unfoldable pub citation_failure : Citation → Option Json → Option Failure
citation_failure c none = some (missing_field c.field)
citation_failure c (some value) =
    let actual = normalise (render value) in
    let cited = effective c.value actual in
    if is_nil cited
    then some (empty_value c.field)
    else if not (value_matches cited actual)
    then some (value_mismatch c.field c.value)
    else none

abbrev pub add_failure : Option Failure → List Failure → List Failure
add_failure none rest = rest
add_failure (some f) rest = f ∷ rest

-- the loop over the citations
unfoldable pub citation_failures : Json → List Citation → List Failure
citation_failures payload [] = []
citation_failures payload (c ∷ rest) =
    add_failure (citation_failure c (resolve_citation payload c.source c.field))
      (citation_failures payload rest)

-- the loop over the quoted spans
unfoldable pub quote_failures : List ℕ → List (List ℕ) → List Failure
quote_failures haystack [] = []
quote_failures haystack (q ∷ rest) =
    let failures = quote_failures haystack rest in
    if contains haystack (normalise q) then failures else fabricated_quote q ∷ failures

unfoldable pub prose : Diagnosis → List ℕ
prose d = codes d.root_cause ++ (32 ∷ (codes d.explanation ++ (32 ∷ codes d.proposed_action)))

unfoldable pub validate : Diagnosis → Json → List Failure
unfolding citation_failures quote_failures prose
validate d payload =
    (if is_nil d.evidence then empty_evidence ∷ [] else [])
    ++ (citation_failures payload d.evidence
        ++ quote_failures (normalise (collected_text payload)) (quoted (prose d)))
