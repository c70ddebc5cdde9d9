-- ===== src/Api/Endpoints.antt =====
-- The JSON endpoints (brain/src/coroner_brain/api.py): each as an action on the store and the ledger
-- that replies, refuses with a status, or lets an exception through.
use coroner.Base.{
  ℕ, ◌+◌, String, Bool, ◌&&◌, ◌||◌, Option, none, some, List, [], ◌∷◌, length, leb, or_else,
  if◌then◌else◌, ◌==◌,
}
use coroner.Base.Text.{codes, strip, lower_bool}
use coroner.Contract.{Contract, Instant, Micro}
use coroner.Json.{Json, bool, str, obj, field, end}
use coroner.Json.Dumps.{dumps}
use coroner.Inflight.{InFlightStore}
use coroner.Ledger
use coroner.Ledger.{
  Row, Table, Labels, no_labels, LedgerError, unknown_incident, not_ratable, not_executable,
  already_labelled,
}
use coroner.Approval.{
  Detail, Raised, approval_error, ledger_error, Pending, PendingRecord, Resolution, Result, ok, err,
  World,
}
use coroner.Approval.Rules.{Setup, is_human}
use coroner.Approval.Pipeline
use coroner.Approval.Park

-- The `detail` of an `HTTPException`: the text of the exception that it is made from, or what
-- the framework says of a body that its model does not accept.
pub data HttpDetail : Type 0 where
  of_approval : Detail → HttpDetail
  of_ledger : LedgerError → HttpDetail
  invalid_body no_credentials : HttpDetail

-- What a request is answered with: a value with status 200, a refusal with its status, or an
-- exception that no handler catches, which the framework answers with 500.
pub data Reply (A : Type 0) : Type 0 where
  replied : A → Reply A
  refused : ℕ → HttpDetail → Reply A
  crashed : Raised → Reply A

pub record DecisionRequest : Type 0 where
  pub decision : String
  pub reason : String
  pub action : String

pub record DecisionResponse : Type 0 where
  pub incident_id : String
  pub decision : String
  pub decided_at : String
  pub action : String
  pub approval_token : String

pub record LabelResponse : Type 0 where
  pub incident_id : String
  pub field : String
  pub value : String

pub record ExecutionRequest : Type 0 where
  pub status : String
  pub detail : String
  pub plan : Option Json

pub record ResolutionRequest : Type 0 where
  pub ready_within_sla : Bool
  pub stayed_ready : Bool
  pub resolved : Bool
  pub detail : String

-- The date and the contract of a row stand for their texts.
pub record ApprovedResponse : Type 0 where
  pub incident_id : String
  pub failure_type : String
  pub context_hash : String
  pub decision : String
  pub decision_action : String
  pub decision_at : Option Instant
  pub approval_token : String
  pub contract_json : Option Contract
  pub execution_status : String

pub record PendingResponse : Type 0 where
  pub incident_id : String
  pub failure_type : String
  pub proposed_action : String
  pub confidence_final : Micro
  pub deadline : String

-- the values that a `Literal` admits
abbrev pub is_rating : String → Bool
is_rating s = s == "would_approve" || s == "would_reject" || s == "unsure"

abbrev pub is_status : String → Bool
is_status s = s == "proposed" || s == "refused" || s == "executed" || s == "failed"

-- `Field(min_length=1, max_length=2000)`
abbrev pub is_cause : String → Bool
is_cause s = leb 1 (length (codes s)) && leb (length (codes s)) 2000

-- `except ApprovalError as exc: raise HTTPException(exc.status, exc.detail)`
abbrev pub of_result : {A : Type 0} → Result A → Reply A
of_result (ok a) = replied a
of_result (err (approval_error status detail)) = refused status (of_approval detail)
of_result (err e) = crashed e

-- the handlers of `_label`
abbrev pub label_fault : {A : Type 0} → LedgerError → Reply A
label_fault unknown_incident = refused 404 (of_ledger unknown_incident)
label_fault (already_labelled name existing) =
    refused 409 (of_ledger (already_labelled name existing))
label_fault not_ratable = refused 422 (of_ledger not_ratable)
label_fault (not_executable state) = crashed (ledger_error (not_executable state))

-- the handlers of `execution` and `resolution`
abbrev pub execution_fault : {A : Type 0} → LedgerError → Reply A
execution_fault unknown_incident = refused 404 (of_ledger unknown_incident)
execution_fault (not_executable state) = refused 409 (of_ledger (not_executable state))
execution_fault (already_labelled name existing) =
    refused 409 (of_ledger (already_labelled name existing))
execution_fault not_ratable = crashed (ledger_error not_ratable)

abbrev map_reply : {A B : Type 0} → (A → B) → Reply A → Reply B
map_reply f (replied a) = replied (f a)
map_reply f (refused status detail) = refused status detail
map_reply f (crashed e) = crashed e

abbrev pending_response : (Instant → String) → Pending → PendingResponse
pending_response isoformat q = record {
  incident_id = q.incident_id;
  failure_type = q.failure_type;
  proposed_action = q.proposed_action;
  confidence_final = q.confidence_final;
  deadline = isoformat q.deadline;
}

abbrev pending_responses : (Instant → String) → List Pending → List PendingResponse
pending_responses isoformat [] = []
pending_responses isoformat (q ∷ qs) = pending_response isoformat q ∷ pending_responses isoformat qs

abbrev approved_response : Row → ApprovedResponse
approved_response r = record {
  incident_id = r.incident_id;
  failure_type = r.failure_type;
  context_hash = r.context_hash;
  decision = or_else r.decision "";
  decision_action = or_else r.decision_action "";
  decision_at = r.decision_at;
  approval_token = or_else r.approval_token "";
  contract_json = r.contract_json;
  execution_status = or_else r.execution_status "";
}

abbrev approved_responses : Table → List ApprovedResponse
approved_responses [] = []
approved_responses (r ∷ rows) = approved_response r ∷ approved_responses rows

-- `text` is the text with these code points
abbrev pub execution_detail : (List ℕ → String) → ExecutionRequest → String
execution_detail text body = elim body.plan [
  | none ↦ body.detail
  | some plan ↦ text (dumps (obj (field "detail" (str body.detail) (field "plan" plan end))))
]

abbrev pub resolution_detail : (List ℕ → String) → ResolutionRequest → String
resolution_detail text body = text (
    dumps (
      obj (
        field "ready_within_sla" (bool body.ready_within_sla)
          (field "stayed_ready" (bool body.stayed_ready) (field "detail" (str body.detail) end)))))

abbrev pub label_response : String → String → String → LabelResponse
label_response id name value = record { incident_id = id; field = name; value = value }

abbrev decision_response : (Instant → String) → String → Resolution → DecisionResponse
decision_response isoformat id outcome = record {
  incident_id = id;
  decision = outcome.decision;
  decided_at = isoformat outcome.decided_at;
  action = outcome.action;
  approval_token = outcome.approval_token;
}

module _ (S : InFlightStore PendingRecord) where
  abbrev pub Endpoint : Type 0 → Type 0
  Endpoint A = World S → Reply A × World S

module _ {S : InFlightStore PendingRecord} {A : Type 0} where
  -- a body that its model does not accept is refused before the handler runs
  abbrev pub accepting : Bool → Endpoint S A → Endpoint S A
  accepting valid handler w = if valid then handler w else (refused 422 invalid_body, w)

  abbrev pub written :
      (LedgerError → Reply A) → A → World S → Ledger.Result Table → Reply A × World S
  written fault a w (Ledger.ok table) =
      (replied a, record w { ledger = table; reads = w.reads + 1 })
  written fault a w (Ledger.err e) = (fault e, record w { reads = w.reads + 1 })

  -- a write of the ledger: its clock is read, and a refused write changes nothing else
  abbrev pub writing :
      Setup → (Instant → Table → Ledger.Result Table) → (LedgerError → Reply A) → A → Endpoint S A
  writing p write fault a w = written fault a w (write (p.clock w.reads) w.ledger)

module _ {S : InFlightStore PendingRecord} (p : Setup) (text : List ℕ → String) where
  unfoldable pub decide : String → DecisionRequest → Endpoint S DecisionResponse
  decide id body = accepting (is_human body.decision) (λ w.
      let (r, w') = Pipeline.decide p id body.decision body.reason body.action w in
      (map_reply (decision_response p.crypto.isoformat id) (of_result r), w'))

  -- `_label`
  abbrev pub labelling : {A : Type 0} → String → Labels → A → Endpoint S A
  labelling id l = writing p (λ now. Ledger.label now id l) label_fault

  abbrev pub rate_accepted : String → String → Endpoint S LabelResponse
  rate_accepted id rating =
      labelling id (record no_labels { shadow_rating = some rating })
        (label_response id "shadow_rating" rating)

  unfoldable pub rate : String → String → Endpoint S LabelResponse
  rate id rating = accepting (is_rating rating) (rate_accepted id rating)

  -- the length is checked before the cause is stripped, and the reply shows it as it came
  abbrev pub cause_accepted : String → String → Endpoint S LabelResponse
  cause_accepted id cause =
      labelling id (record no_labels { actual_cause = some (strip cause) })
        (label_response id "actual_cause" cause)

  unfoldable pub actual_cause : String → String → Endpoint S LabelResponse
  actual_cause id cause = accepting (is_cause cause) (cause_accepted id cause)

  unfoldable pub pending : Endpoint S (List PendingResponse)
  pending w =
      let (r, w') = Park.pending p w in
      (map_reply (pending_responses p.crypto.isoformat) (of_result r), w')

  unfoldable pub approved : Bool → Endpoint S (List ApprovedResponse)
  approved execute w = (replied (approved_responses (Ledger.approved execute w.ledger)), w)

  abbrev pub execution_accepted : String → ExecutionRequest → Endpoint S LabelResponse
  execution_accepted id body =
      writing p (λ now. Ledger.record_execution now id body.status (execution_detail text body))
        execution_fault (label_response id "execution_status" body.status)

  unfoldable pub execution : String → ExecutionRequest → Endpoint S LabelResponse
  execution id body = accepting (is_status body.status) (execution_accepted id body)

  unfoldable pub resolution : String → ResolutionRequest → Endpoint S LabelResponse
  resolution id body =
      writing p (λ now. Ledger.record_resolution now id body.resolved (resolution_detail text body))
        execution_fault (label_response id "resolved_within_sla" (lower_bool body.resolved))

  unfoldable pub incident : String → Endpoint S Row
  incident id w = elim (Ledger.get id w.ledger) [
    | none ↦ (refused 404 (of_ledger unknown_incident), w)
    | some row ↦ (replied row, w)
  ]
