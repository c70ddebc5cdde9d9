-- ===== src/Examples/OfValidate.antt =====
-- A diagnosis of a crash loop against the evidence that was sent.
use coroner.Base.{◌≡◌, ◌≢◌, refl, true, []}
use coroner.Base.Text.{contains}
use coroner.Validate.{
  validate, citation_failures, citation_failure, quote_failures, value_matches, effective, prose,
  resolve_citation, normalise, render, quoted, collected_text,
}
use coroner.Json.{num}
use coroner.Examples.{payload, diagnosis}
use coroner.Validate.Complete.{IsCopied, validate_accepts}
use coroner.Validate.Sound.{All, IsBorneOut, validate_sound}

pub valid : validate diagnosis payload ≡ []
unfolding validate citation_failures citation_failure quote_failures value_matches effective prose
    resolve_citation normalise render quoted collected_text contains
valid = refl

validate_sound_example :
    (diagnosis.evidence ≢ [])
    × All (IsBorneOut payload) diagnosis.evidence
    × All
        (λ q. contains (normalise (collected_text payload)) (normalise q) ≡ true)
        (quoted (prose diagnosis))
validate_sound_example = validate_sound diagnosis payload valid

copied : All (IsCopied payload) diagnosis.evidence
unfolding resolve_citation normalise render
copied = (record { value = num "137"; resolved = refl; same = refl; nonempty = refl }, tt)

quotes :
    All
      (λ q. contains (normalise (collected_text payload)) (normalise q) ≡ true)
      (quoted (prose diagnosis))
unfolding quoted prose normalise collected_text contains
quotes = (refl, tt)

validate_accepts_example : validate diagnosis payload ≡ []
validate_accepts_example = validate_accepts diagnosis payload refl copied quotes
