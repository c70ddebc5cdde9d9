-- ===== src/Api/Interactions.antt =====
-- Slack's interactivity endpoint (`slack_interactions` and its helpers of
-- brain/src/coroner_brain/api.py): it checks the signature, reads the payload, applies the decision or
-- the label, and posts to Slack. The calls of the Slack client are listed in the order in which
-- they are made.
use coroner.Base.{◌+◌, String, not, Option, none, some, List, [], ◌∷◌, if◌then◌else◌, ◌==◌}
use coroner.Contract.{Instant}
use coroner.Json.{Json, obj, lookup}
use coroner.Inflight.{InFlightStore}
use coroner.Ledger
use coroner.Ledger.{
  Row, Table, Labels, no_labels, LedgerError, unknown_incident, not_ratable, not_executable,
  already_labelled,
}
use coroner.Slack.{action_approve, action_reject, action_edit, action_actual_cause}
use coroner.Slack.Views.{
  Where, reject_view, edit_view, actual_cause_view, view_reject, view_edit, view_actual_cause,
}
use coroner.Slack.Signature.{verify_signature}
use coroner.Approval.{Detail, approval_error, PendingRecord, Resolution, Result, ok, err, World}
use coroner.Approval.Pipeline
use coroner.Api.Payload.{Click, Submission, read_click, read_submission}
use coroner.Api.Answers.{
  cannot_be_empty, of_approval, of_ledger, SlackCall, open_view, Body, empty, clear, errors, Answer,
  answered, refused, raised, slack_failed, bad_payload, Site, rating_of, refresh, note, label_error,
  proposed_of, reject_with, is_text,
}

module _ (S : InFlightStore PendingRecord) where
  abbrev pub Interaction : Type 0
  Interaction = World S → Answer × List SlackCall × World S

module _ {S : InFlightStore PendingRecord} (s : Site) where
  abbrev with_refresh : Body → Where → Interaction S
  with_refresh body place w =
      let (answer, calls) = refresh s body place w.ledger in (answer, calls, w)

  abbrev pub opened : SlackCall → Interaction S
  opened call w = ((if s.takes call then answered empty else slack_failed), call ∷ [], w)

  -- `services.approvals.decide`, what follows it, and the handler of `ApprovalError`
  abbrev pub after_decision :
      Body
      → Where
      → (Detail → Answer × List SlackCall)
      → Result Resolution × World S
      → Answer × List SlackCall × World S
  after_decision body place handler (ok r, w) = with_refresh body place w
  after_decision body place handler (err (approval_error status detail), w) =
      let (answer, calls) = handler detail in (answer, calls, w)
  after_decision body place handler (err e, w) = (raised e, [], w)

  abbrev pub after_label :
      Body
      → Where
      → (LedgerError → Answer × List SlackCall)
      → World S
      → Ledger.Result Table
      → Answer × List SlackCall × World S
  after_label body place handler w (Ledger.ok table) =
      with_refresh body place (record w { ledger = table; reads = w.reads + 1 })
  after_label body place handler w (Ledger.err e) =
      let (answer, calls) = label_error handler e in
      (answer, calls, record w { reads = w.reads + 1 })

  -- `services.ledger.label`, what follows it, and the handler of its errors
  abbrev pub labelled :
      Body → Where → (LedgerError → Answer × List SlackCall) → Labels → Interaction S
  labelled body place handler l w =
      after_label body place handler w
        (Ledger.label (s.setup.clock w.reads) place.incident_id l w.ledger)

  abbrev pub on_rating : Where → Option String → Interaction S → Interaction S
  on_rating place none other = other
  on_rating place (some rating) other =
      labelled empty place (λ e. (answered empty, note place (of_ledger e)))
        (record no_labels { shadow_rating = some rating })

  -- `_slack_block_action`, from its action on
  unfoldable pub on_click : Click → Interaction S
  on_click c w =
      let id = c.place.incident_id in
      if c.action_id == action_approve
      then after_decision empty c.place (λ d. (answered empty, note c.place (of_approval d)))
          (Pipeline.decide s.setup id "approved" "" "" w)
      else on_rating c.place (rating_of c.action_id)
          (λ v.
            if c.action_id == action_reject
            then opened (open_view c.trigger_id (reject_view c.place)) v
            else if c.action_id == action_edit
            then opened
                (open_view c.trigger_id (edit_view c.place (proposed_of (Ledger.get id v.ledger))))
                v
            else if c.action_id == action_actual_cause
            then opened (open_view c.trigger_id (actual_cause_view c.place)) v
            else (answered empty, [], v))
          w

  -- `_slack_view_submission`, from its text on
  unfoldable pub on_submission : Submission → Interaction S
  on_submission u w =
      let id = u.place.incident_id in
      if u.text == ""
      then (answered (errors cannot_be_empty), [], w)
      else if u.callback == view_reject
      then after_decision clear u.place (λ d. reject_with (of_approval d))
          (Pipeline.decide s.setup id "rejected" u.text "" w)
      else if u.callback == view_edit
      then after_decision clear u.place (λ d. reject_with (of_approval d))
          (Pipeline.decide s.setup id "edited" "" u.text w)
      else if u.callback == view_actual_cause
      then labelled clear u.place (λ e. reject_with (of_ledger e))
          (record no_labels { actual_cause = some u.text }) w
      else (answered clear, [], w)

  abbrev pub clicked : Option (Option Click) → Interaction S
  clicked none w = (bad_payload, [], w)
  clicked (some none) w = (answered empty, [], w)
  clicked (some (some c)) w = on_click c w

  abbrev pub submitted : Option Submission → Interaction S
  submitted none w = (bad_payload, [], w)
  submitted (some u) w = on_submission u w

  -- the dispatch on `payload.get("type")`
  unfoldable pub on_payload : Option Json → Interaction S
  unfolding lookup
  on_payload none w = (refused 400, [], w)
  on_payload (some (obj fields)) w =
      let kind = lookup "type" fields in
      if is_text kind "block_actions"
      then clicked (read_click s.repr (obj fields)) w
      else if is_text kind "view_submission"
      then submitted (read_submission s.repr s.loads (obj fields)) w
      else (answered empty, [], w)
  on_payload (some v) w = (bad_payload, [], w)

  -- `slack_interactions`, with the Slack sink configured; `now` is the clock of the signature
  unfoldable pub slack_interactions : Instant → String → String → String → Interaction S
  slack_interactions now signature timestamp body w =
      if not (verify_signature s.setup.crypto s.int s.signing_secret timestamp body signature now)
      then (refused 401, [], w)
      else on_payload (s.payload_of body) w
