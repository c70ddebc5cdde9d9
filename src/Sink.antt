-- ===== src/Sink.antt =====
-- What a sink is handed, and rebuilding it from a ledger row (brain/src/coroner_brain/sink.py).
pub mod Status
pub mod Render
pub mod Message
pub mod Offers
mod Stored
pub use Stored.*
use coroner.Base.{String, Bool, true, false, not, ◌&&◌, Option, none, some, List, leb}
use coroner.Contract.{Contract, Instant, Micro}
use coroner.Evidence.{EvidenceClass, ceiling}
use coroner.Diagnosis.{Outcome, discarded, Citation, outcome_of_value}
use coroner.Ledger.{Row}
use coroner.Verdict.{Mode, shadow, live, DiagnoseResponse}

pub record Notice : Type 0 where
  pub contract : Contract
  pub verdict : DiagnoseResponse
  pub mode : Mode
  pub deadline : Option Instant
  pub public_url : String

abbrev is_live : Mode → Bool
is_live live = true
is_live shadow = false

unfoldable pub offers_approval : Notice → Bool
offers_approval n = is_live n.mode && n.verdict.approvable

-- `final is not None and final >= threshold`
abbrev pub reaches : Micro → Option Micro → Bool
reaches threshold none = false
reaches threshold (some final) = leb threshold final

abbrev pub ceiling_of : Option EvidenceClass → Option Micro
ceiling_of none = none
ceiling_of (some cls) = some (ceiling cls)

abbrev pub is_discard : Outcome → Bool
is_discard discarded = true
is_discard _ = false

-- the verdict, from the outcome, the class and the citations that the columns are read as
abbrev pub rebuilt :
    Option Outcome
    → Option (Option EvidenceClass)
    → Option (List Citation)
    → Row
    → Micro
    → Option DiagnoseResponse
rebuilt (some outcome) (some evidence_class) (some evidence) row threshold = some (record {
  incident_id = row.incident_id;
  failure_type = row.failure_type;
  outcome = outcome;
  evidence_class = evidence_class;
  context_hash = row.context_hash;
  root_cause = row.root_cause;
  explanation = row.explanation;
  proposed_action = row.proposed_action;
  competing_hypothesis = row.competing_hypothesis;
  evidence = evidence;
  confidence_model = row.confidence_model;
  confidence_final = row.confidence_final;
  confidence_ceiling = ceiling_of evidence_class;
  abstained = row.abstained;
  abstain_reason = row.abstain_reason;
  discarded = is_discard outcome;
  discard_reason = row.discard_reason;
  approvable =
      not row.abstained && (not (is_discard outcome) && reaches threshold row.confidence_final);
  validation_failures = row.validation_failures;
  mode = none;
  delivered = false;
})
rebuilt _ _ _ row threshold = none

-- `none` is the ValueError of an outcome, a class or a citation that is none
unfoldable pub verdict_from_row : Row → Micro → Option DiagnoseResponse
unfolding stored outcome_of_value class_of_text evidence_of_json
verdict_from_row row threshold =
    let columns = stored row in
    rebuilt (outcome_of_value columns.outcome) (class_of_text columns.evidence_class)
      (evidence_of_json columns.evidence_json) row threshold

-- The notice of a row: `none` where verdict_from_row raises; a row without a contract has none.
abbrev pub noticed :
    Option Contract → Option DiagnoseResponse → Mode → String → Option (Option Notice)
noticed none v mode url = some none
noticed (some c) none mode url = none
noticed (some c) (some v) mode url =
    some
      (some (record { contract = c; verdict = v; mode = mode; deadline = none; public_url = url }))

unfoldable pub notice_from_row : Row → Micro → Mode → String → Option (Option Notice)
unfolding verdict_from_row
notice_from_row row threshold mode url =
    noticed row.contract_json (verdict_from_row row threshold) mode url
