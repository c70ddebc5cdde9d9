-- ===== src/Diagnosis.antt =====
-- The model's answer, the outcomes of the pipeline and the reasons that go with them
-- (brain/src/coroner_brain/diagnosis.py). The messages that the program writes out as text are
-- data here: one constructor for each message, with the values that the message shows.
use coroner.Base.{ℕ, String, List, Option, none, some, if◌then◌else◌, ◌==◌}
use coroner.Contract.{Micro}
use coroner.Evidence.{GateReason}

pub data Outcome : Type 0 where
  diagnosed insufficient_context discarded : Outcome

unfoldable pub outcome_value : Outcome → String
outcome_value diagnosed = "DIAGNOSED"
outcome_value insufficient_context = "INSUFFICIENT_CONTEXT"
outcome_value discarded = "DISCARDED"

-- `Outcome(s)`; `none` is the ValueError
unfoldable pub outcome_of_value : String → Option Outcome
outcome_of_value s =
    if s == "DIAGNOSED"
    then some diagnosed
    else if s == "INSUFFICIENT_CONTEXT"
    then some insufficient_context
    else if s == "DISCARDED"
    then some discarded
    else none

pub record Citation : Type 0 where
  pub source : String
  pub field : String
  pub value : String

pub record Diagnosis : Type 0 where
  pub root_cause : String
  pub explanation : String
  pub proposed_action : String
  pub confidence : Micro
  pub evidence : List Citation
  pub competing_hypothesis : String

-- A line of `validation_failures`.
pub data Failure : Type 0 where
  empty_evidence : Failure
  missing_field empty_value : String → Failure
  -- the field and the cited value
  value_mismatch : String → String → Failure
  fabricated_quote : List ℕ → Failure
  -- the number of schema errors
  did_not_parse : ℕ → Failure

pub data AbstainReason : Type 0 where
  gated : GateReason → AbstainReason
  -- the attempts made, and what the last one failed on
  unverified : ℕ → List Failure → AbstainReason
  undetermined : AbstainReason

pub data DiscardReason : Type 0 where
  -- the attempt that the deadline left no time for
  deadline_spent : ℕ → DiscardReason
  -- the time waited on rate limits
  no_answer : ℕ → DiscardReason
  -- the error of the model call
  call_failed : String → DiscardReason
