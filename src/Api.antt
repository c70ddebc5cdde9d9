-- ===== src/Api.antt =====
-- Answering a diagnosis request (`build_response` and `deliver` of brain/src/coroner_brain/api.py).
pub mod EndToEnd
pub mod Endpoints
pub mod Answered
pub mod Answers
pub mod Interactions
pub mod Authorised
pub mod Payload
pub mod Quiet
pub mod Serve
pub mod Startup
pub mod Transports
pub mod Verdicts
use coroner.Base.{ℕ, String, Bool, true, false, not, ◌&&◌, ◌||◌, Option, none, some}
use coroner.Contract.{Contract, Instant, Micro}
use coroner.Evidence.{ceiling}
use coroner.Diagnosis.{Outcome, insufficient_context}
use coroner.Verdict.{Mode, DiagnoseResponse}
use coroner.Inflight.{InFlightStore}
use coroner.Graph.State.{State}
use coroner.Graph.Nodes.{is_discarded}
use coroner.Graph.Record.{is_insufficient, unless, text_of, evidence_of, shown}
use coroner.Sink.{Notice, reaches}
use coroner.Approval.{Pending, PendingRecord, Action, pure, ◌>>=◌}
use coroner.Approval.Rules.{Setup}
use coroner.Approval.Park.{register}

-- `Outcome(state.get("outcome") or INSUFFICIENT_CONTEXT)`
abbrev pub outcome_of : Option Outcome → Outcome
outcome_of none = insufficient_context
outcome_of (some o) = o

-- the verdict that `build_response` shapes, from the state of a run
unfoldable pub response_of : Contract → State → Micro → DiagnoseResponse
response_of c st threshold =
    let outcome = some (outcome_of st.outcome) in
    let told = shown (record st { outcome = outcome }) in
    record {
      incident_id = c.incident_id;
      failure_type = c.failure_type;
      outcome = outcome_of st.outcome;
      evidence_class = some st.evidence_class;
      context_hash = st.context_hash;
      root_cause = text_of (λ d. d.root_cause) told;
      explanation = text_of (λ d. d.explanation) told;
      proposed_action = text_of (λ d. d.proposed_action) told;
      competing_hypothesis = text_of (λ d. d.competing_hypothesis) told;
      evidence = evidence_of told;
      confidence_model = unless (is_discarded outcome) st.confidence_model;
      confidence_final =
          unless (is_insufficient outcome || is_discarded outcome) st.confidence_final;
      confidence_ceiling = some (ceiling st.evidence_class);
      abstained = is_insufficient outcome;
      abstain_reason = st.abstain_reason;
      discarded = is_discarded outcome;
      discard_reason = st.discard_reason;
      approvable =
          not (is_insufficient outcome)
          && (not (is_discarded outcome) && reaches threshold st.confidence_final);
      validation_failures = st.validation_failures;
      mode = none;
      delivered = false;
    }

abbrev pub deadline_of : Option Pending → Option Instant
deadline_of none = none
deadline_of (some q) = some q.deadline

abbrev pub notice_of : Contract → DiagnoseResponse → Mode → String → Option Pending → Notice
notice_of c v mode url parked = record {
  contract = c;
  verdict = v;
  mode = mode;
  deadline = deadline_of parked;
  public_url = url;
}

module _ {S : InFlightStore PendingRecord} (p : Setup) where
  -- `accepts` says whether the sink takes a notice without raising
  unfoldable pub deliver :
      (Notice → Bool) → String → Mode → DiagnoseResponse → Contract → Action S DiagnoseResponse
  deliver accepts url mode v c = do
    parked ← register p c v mode
    pure (record v { delivered = accepts (notice_of c v mode url parked); mode = some mode })
