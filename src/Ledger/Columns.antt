-- ===== src/Ledger/Columns.antt =====
-- The rows of the ledger and what its methods take and raise (brain/src/coroner_brain/ledger.py).
-- A column that may be NULL is an `Option`; a timestamp column is the instant that its text
-- names; a JSON column is the value that it holds.
use coroner.Base.{ℕ, String, Bool, Option, none, List}
use coroner.Contract.{Instant, Micro, Contract}
use coroner.Evidence.{EvidenceClass}
use coroner.Diagnosis.{Outcome, Citation, Failure, AbstainReason, DiscardReason}

pub record LedgerEntry : Type 0 where
  pub incident_id : String
  pub failure_type : String
  pub contract_version : String
  pub context_hash : String
  pub evidence_class : Option EvidenceClass
  pub model_id : String
  pub prompt_version : String
  pub outcome : Option Outcome
  pub abstained : Bool
  pub abstain_reason : Option AbstainReason
  pub root_cause : String
  pub explanation : String
  pub proposed_action : String
  pub competing_hypothesis : String
  pub evidence : List Citation
  pub confidence_model : Option Micro
  pub confidence_final : Option Micro
  pub validation_failures : List Failure
  pub validation_retries : ℕ
  pub contract_json : Option Contract
  pub discard_reason : Option DiscardReason
  pub prompt_tokens : ℕ
  pub completion_tokens : ℕ
  pub cost_usd : Micro
  pub latency_ms_total : ℕ

-- A row: what the entry recorded, and the labels written back.
pub record Row : Type 0 where
  pub entry : LedgerEntry
  pub open entry use *
  pub recorded_at : Instant
  pub decision : Option String
  pub decision_at : Option Instant
  pub decision_reason : Option String
  pub shadow_rating : Option String
  pub actual_cause : Option String
  pub resolved_within_sla : Option Bool
  pub decision_action : Option String
  pub approval_token : Option String
  pub execution_status : Option String
  pub execution_detail : Option String
  pub executed_at : Option Instant
  pub resolution_detail : Option String
  pub resolved_at : Option Instant

abbrev pub Table : Type 0
Table = List Row

pub data LedgerError : Type 0 where
  unknown_incident : LedgerError
  not_ratable : LedgerError
  -- the state that forbids it
  not_executable : String → LedgerError
  -- the field and its value
  already_labelled : String → String → LedgerError

pub data Result {ℓ} (A : Type ℓ) : Type ℓ where
  ok : A → Result A
  err : LedgerError → Result A

-- the keyword arguments of `label`
pub record Labels : Type 0 where
  pub decision : Option String
  pub decision_reason : Option String
  pub decision_action : Option String
  pub approval_token : Option String
  pub shadow_rating : Option String
  pub actual_cause : Option String
  pub resolved_within_sla : Option Bool

abbrev pub no_labels : Labels
no_labels = record {
  decision = none;
  decision_reason = none;
  decision_action = none;
  approval_token = none;
  shadow_rating = none;
  actual_cause = none;
  resolved_within_sla = none;
}
