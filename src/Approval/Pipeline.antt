-- ===== src/Approval/Pipeline.antt =====
-- `ApprovalPipeline` (brain/src/coroner_brain/approval.py): each method as an action on the store and
-- the ledger. The compiled graph is the composition of its nodes along its edges.
use coroner.Base.{
  ℕ, ◌+◌, String, not, ◌&&◌, Option, none, some, ltb, leb, is_some, if◌then◌else◌, ◌==◌,
}
use coroner.Base.Text.{strip}
use coroner.Contract.{Instant}
use coroner.Ledger
use coroner.Ledger.{
  Row, Table, LedgerError, Labels, no_labels, truthy, unknown_incident, already_labelled,
}
use coroner.Inflight.{InFlightStore}
use coroner.Approval.Rules.{
  Setup, token_for, decision_labels, missing, refuse, resolved_action, is_human, start_state,
}
use coroner.Approval.State.{
  Detail, no_such_incident, already_decided, deadline_not_passed, window_expired, unknown_decision,
  needs_reason, needs_action, approval_error, ledger_error, bad_date, missing_key, Pending,
  PendingRecord, Resolution, from_record, DecisionState, ok, Action, pure, raise, ◌>>=◌, ◌>>◌,
}

module _ {S : InFlightStore PendingRecord} (p : Setup) where
  unfoldable pub read_clock : Action S Instant
  read_clock w = (ok (p.clock w.reads), record w { reads = w.reads + 1 })

  unfoldable pub store_get : String → Action S (Option PendingRecord)
  store_get id w =
      let (found, store) = S.get (p.clock w.reads) id w.store in
      (ok found, record w { store = store; reads = w.reads + 1 })

  unfoldable pub store_delete : String → Action S Unit
  store_delete id w = (ok tt, record w { store = S.delete id w.store })

  unfoldable pub ledger_get : String → Action S (Option Row)
  ledger_get id w = (ok (Ledger.get id w.ledger), w)

  -- `self._ledger.label`, whose own reading of the clock becomes `decision_at`
  unfoldable pub ledger_label : String → Labels → Action S (Ledger.Result Table)
  ledger_label id l w =
      (ok (Ledger.label (p.clock w.reads) id l w.ledger), record w { reads = w.reads + 1 })

  unfoldable pub ledger_write : Table → Action S Unit
  ledger_write t w = (ok tt, record w { ledger = t })

  -- the handlers round `self._ledger.label`, and the deletes on each way out
  unfoldable pub settle : String → String → Ledger.Result Table → Action S String
  unfolding ledger_write store_delete
  settle id token (Ledger.ok table) = do ledger_write table; store_delete id; pure token
  settle id token (Ledger.err (already_labelled field existing)) = do
    store_delete id
    raise (approval_error 409 (already_decided existing))
  settle id token (Ledger.err unknown_incident) = do
    store_delete id
    raise (approval_error 404 no_such_incident)
  settle id token (Ledger.err e) = raise (ledger_error e)

  -- `_record`
  unfoldable pub record_decision : Pending → String → String → String → String → Action S String
  unfolding ledger_label
  record_decision pending decision reason action decided_at = do
    let token = token_for p pending decision action decided_at
    written ← ledger_label pending.incident_id (decision_labels decision reason action token)
    settle pending.incident_id token written

  -- the node `load`
  found_pending : Option PendingRecord → DecisionState → Action S DecisionState
  unfolding ledger_get
  found_pending (some r) st = pure (record st { pending = some r })
  found_pending none st = do
    row ← ledger_get st.incident_id
    pure (record st { error = some (missing row) })

  unfoldable pub load : DecisionState → Action S DecisionState
  unfolding store_get found_pending
  load st = do found ← store_get st.incident_id; found_pending found st

  -- `Pending.from_record(state["pending"])`
  abbrev pub or_bad_date : Option Pending → Action S Pending
  or_bad_date none = raise bad_date
  or_bad_date (some pending) = pure pending

  parse_pending : Option PendingRecord → Action S Pending
  parse_pending none = raise missing_key
  parse_pending (some r) = or_bad_date (from_record p.crypto r)

  -- the node `check`, from the reading of the clock on
  unfoldable pub check_at : Instant → Pending → DecisionState → Action S DecisionState
  check_at now pending st =
      let decided_at = p.crypto.isoformat now in
      if st.decision == "expired"
      then (if ltb now pending.deadline
          then pure (refuse 409 deadline_not_passed st)
          else pure (record st { decided_at = some decided_at; resolved_action = "" }))
      else if not (is_human st.decision)
      then pure (refuse 422 (unknown_decision st.decision) st)
      else if leb pending.deadline now
      then (record_decision pending "expired" "" "" decided_at
          >> pure (refuse 409 window_expired st))
      else if st.decision == "rejected" && strip st.reason == ""
      then pure (refuse 422 needs_reason st)
      else if st.decision == "edited" && strip st.action == ""
      then pure (refuse 422 needs_action st)
      else pure (record st {
        decided_at = some decided_at;
        resolved_action = resolved_action st.decision pending st.action;
      })

  unfoldable pub check : DecisionState → Action S DecisionState
  unfolding parse_pending read_clock
  check st = do pending ← parse_pending st.pending; now ← read_clock; check_at now pending st

  abbrev pub or_missing_key : Option String → Action S String
  or_missing_key none = raise missing_key
  or_missing_key (some s) = pure s

  -- the node `record`
  unfoldable pub record_node : DecisionState → Action S DecisionState
  unfolding parse_pending
  record_node st = do
    pending ← parse_pending st.pending
    decided_at ← or_missing_key st.decided_at
    token ← record_decision pending st.decision (strip st.reason) st.resolved_action decided_at
    pure (record st { approval_token = token })

  -- the conditional edges: a state with an error goes to END
  abbrev pub proceed :
      (DecisionState → Action S DecisionState) → DecisionState → Action S DecisionState
  proceed node st = if is_some st.error then pure st else node st

  unfoldable pub graph : DecisionState → Action S DecisionState
  graph st = do st₁ ← load st; st₂ ← proceed check st₁; proceed record_node st₂

  abbrev pub resolution_of : String → DecisionState → Option Instant → Action S Resolution
  resolution_of id st none = raise bad_date
  resolution_of id st (some t) = pure (record {
    incident_id = id;
    decision = st.decision;
    decided_at = t;
    action = st.resolved_action;
    approval_token = st.approval_token;
  })

  abbrev pub finish : String → DecisionState → Option (ℕ × Detail) → Action S Resolution
  finish id st (some (status, detail)) = raise (approval_error status detail)
  finish id st none = do
    decided_at ← or_missing_key st.decided_at
    resolution_of id st (p.crypto.fromisoformat decided_at)

  -- `decide`
  unfoldable pub decide : String → String → String → String → Action S Resolution
  decide id decision reason action = do
    final ← graph (start_state id decision reason action)
    finish id final final.error
