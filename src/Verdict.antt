-- ===== src/Verdict.antt =====
-- The verdict returned to the agent and handed to every sink
-- (brain/src/coroner_brain/verdict.py, and `Mode` of brain/src/coroner_brain/sink.py).
use coroner.Base.{String, Bool, Option, List}
use coroner.Contract.{Micro}
use coroner.Evidence.{EvidenceClass}
use coroner.Diagnosis.{Outcome, Citation, Failure, AbstainReason, DiscardReason}

pub data Mode : Type 0 where
  shadow live : Mode

-- `mode` is empty until the verdict is on its way out.
pub record DiagnoseResponse : Type 0 where
  pub incident_id : String
  pub failure_type : String
  pub outcome : Outcome
  pub evidence_class : Option EvidenceClass
  pub context_hash : String
  pub root_cause : String
  pub explanation : String
  pub proposed_action : String
  pub competing_hypothesis : String
  pub evidence : List Citation
  pub confidence_model : Option Micro
  pub confidence_final : Option Micro
  pub confidence_ceiling : Option Micro
  pub abstained : Bool
  pub abstain_reason : Option AbstainReason
  pub discarded : Bool
  pub discard_reason : Option DiscardReason
  pub approvable : Bool
  pub validation_failures : List Failure
  pub mode : Option Mode
  pub delivered : Bool
