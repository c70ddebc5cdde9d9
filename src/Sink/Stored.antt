-- ===== src/Sink/Stored.antt =====
-- The columns of a row that hold encoded values (`record` of brain/src/coroner_brain/ledger.py), and
-- how they are read back (`verdict_from_row` of brain/src/coroner_brain/sink.py). A JSON column is the
-- JSON value that its text stands for.
use coroner.Base.{String, Option, none, some, List, [], ◌∷◌, if◌then◌else◌, ◌==◌, ◌≡◌, refl, ap}
use coroner.Evidence.{EvidenceClass, value, of_value}
use coroner.Evidence.Values.{of_value-value, value-nonempty}
use coroner.Diagnosis.{
  Outcome, diagnosed, insufficient_context, discarded, Citation, outcome_value, outcome_of_value,
}
use coroner.Json.{Json, str, arr, obj, Items, nil, cons, end, field, lookup}
use coroner.Ledger.{Row}

pub record Stored : Type 0 where
  pub outcome : String
  pub evidence_class : String
  pub evidence_json : Json

abbrev outcome_column : Option Outcome → String
outcome_column none = ""
outcome_column (some o) = outcome_value o

abbrev class_column : Option EvidenceClass → String
class_column none = ""
class_column (some c) = value c

-- `c.model_dump()` of a citation
abbrev citation_json : Citation → Json
citation_json c =
    obj (
      field "source" (str c.source) (field "field" (str c.field) (field "value" (str c.value) end)))

abbrev citations_json : List Citation → Items
citations_json [] = nil
citations_json (c ∷ cs) = cons (citation_json c) (citations_json cs)

unfoldable pub stored : Row → Stored
stored row = record {
  outcome = outcome_column row.outcome;
  evidence_class = class_column row.evidence_class;
  evidence_json = arr (citations_json row.evidence);
}

abbrev str_of : Option Json → Option String
str_of (some (str s)) = some s
str_of _ = none

abbrev text_member : String → Json → Option String
text_member key (obj fields) = str_of (lookup key fields)
text_member key _ = none

abbrev citation_with : Option String → Option String → Option String → Option Citation
citation_with (some source) (some path) (some cited) =
    some (record { source = source; field = path; value = cited })
citation_with _ _ _ = none

-- `Citation.model_validate`; `none` is the ValidationError
abbrev citation_of : Json → Option Citation
citation_of j =
    citation_with (text_member "source" j) (text_member "field" j) (text_member "value" j)

abbrev add_citation : Option Citation → Option (List Citation) → Option (List Citation)
add_citation (some c) (some cs) = some (c ∷ cs)
add_citation _ _ = none

abbrev citations_of : Items → Option (List Citation)
citations_of nil = some []
citations_of (cons j js) = add_citation (citation_of j) (citations_of js)

-- the citations of the column evidence_json
unfoldable pub evidence_of_json : Json → Option (List Citation)
unfolding lookup
evidence_of_json (arr items) = citations_of items
evidence_of_json _ = none

abbrev class_found : Option EvidenceClass → Option (Option EvidenceClass)
class_found none = none
class_found (some c) = some (some c)

-- `EvidenceClass(evidence_class) if evidence_class else None`
unfoldable pub class_of_text : String → Option (Option EvidenceClass)
class_of_text s = if s == "" then some none else class_found (of_value s)

citations_of-citations_json : (cs : List Citation) → citations_of (citations_json cs) ≡ some cs
unfolding lookup
citations_of-citations_json [] = refl
citations_of-citations_json (c ∷ cs) = ap (add_citation (some c)) (citations_of-citations_json cs)

by_outcome : (o : Option Outcome) → outcome_of_value (outcome_column o) ≡ o
unfolding outcome_of_value outcome_value
by_outcome none = refl
by_outcome (some diagnosed) = refl
by_outcome (some insufficient_context) = refl
by_outcome (some discarded) = refl

by_class : (o : Option EvidenceClass) → class_of_text (class_column o) ≡ some o
unfolding class_of_text
by_class none = refl
by_class (some c) = rw (value-nonempty c, of_value-value c) refl

-- What is stored is read back as it was.
pub outcome_of_value-stored : (row : Row) → outcome_of_value (stored row).outcome ≡ row.outcome
unfolding stored outcome_of_value outcome_value
outcome_of_value-stored row = by_outcome row.outcome

pub class_of_text-stored :
    (row : Row) → class_of_text (stored row).evidence_class ≡ some row.evidence_class
unfolding stored class_of_text
class_of_text-stored row = by_class row.evidence_class

pub evidence_of_json-stored :
    (row : Row) → evidence_of_json (stored row).evidence_json ≡ some row.evidence
unfolding stored evidence_of_json
evidence_of_json-stored row = citations_of-citations_json row.evidence
