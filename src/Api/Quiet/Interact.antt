-- ===== src/Api/Quiet/Interact.antt =====
-- A Slack interaction that does not approve or edit an incident is quiet about it
-- (`slack_interactions` of brain/src/coroner_brain/api.py).
use coroner.Base.{
  ◌+◌, String, ◌≡◌, ◌⊎◌, inl, inr, refl, sym, subst, false, ◌&&◌, Option, none, some, List, arith,
  ◌==◌, Bool-cases,
}
use coroner.Contract.{Instant}
use coroner.Json.{Json, obj, lookup}
use coroner.Inflight.{InFlightStore}
use coroner.Ledger
use coroner.Ledger.{Table, Labels, no_labels, LedgerError, authorises, record_entry}
use coroner.Ledger.Writes.{Write, write_labels, attempt}
use coroner.Slack.{action_approve}
use coroner.Slack.Views.{Where, view_reject, view_edit, view_actual_cause}
use coroner.Slack.Signature.{verify_signature}
use coroner.Approval.{Detail, PendingRecord, Resolution, World, Result, ok, err, approval_error}
use coroner.Approval.Pipeline
use coroner.Api.Answers.{
  Site, SlackCall, Body, empty, clear, Answer, answered, rating_of, is_text, of_ledger, reject_with,
  note,
}
use coroner.Api.Payload.{Click, Submission, read_click, read_submission}
use coroner.Api.Interactions
use coroner.Api.Interactions.{
  Interaction, after_decision, after_label, labelled, on_rating, on_click, on_submission,
  on_payload, clicked, submitted,
}
use coroner.Api.Serve.{click_approves, submission_approves, payload_approves}
use coroner.Api.Quiet.{Quiet, Quiet-refl, Quiet-trans, read-Quiet, write-Quiet, IsHarmless}
use coroner.Approval.Clock.{IsMonotone}
use coroner.Api.Quiet.Decide.{decide-Quiet}

module _ {S : InFlightStore PendingRecord} (s : Site) (j : String) (mono : IsMonotone s.setup) where
  after_decision_world :
      (body : Body) (place : Where) (handler : Detail → Answer × List SlackCall)
      (r : Result Resolution) (w : World S)
      → (after_decision s body place handler (r, w)).2 ≡ w
  after_decision_world body place handler (ok r) w = refl
  after_decision_world body place handler (err (approval_error status detail)) w = refl
  after_decision_world body place handler (err e) w = refl

  deciding-Quiet :
      (body : Body) (place : Where) (handler : Detail → Answer × List SlackCall)
      (id decision reason action : String) (w : World S)
      → (authorises (some decision) ≡ false) ⊎ ((id == j) ≡ false)
      → Quiet s.setup j w
          (after_decision s body place handler
            (Pipeline.decide s.setup id decision reason action w)).2
  deciding-Quiet body place handler id decision reason action w h =
      let (r, v) = Pipeline.decide s.setup id decision reason action w in
      subst (λ u. Quiet s.setup j w u) (sym (after_decision_world body place handler r v))
        (decide-Quiet s.setup j mono id decision reason action w h)

  after_label-Quiet :
      (body : Body) (place : Where) (handler : LedgerError → Answer × List SlackCall) (x : Write)
      (w : World S) (res : Ledger.Result Table)
      → IsHarmless j x
      → attempt x w.ledger ≡ res
      → Quiet s.setup j w (after_label s body place handler w res).2
  after_label-Quiet body place handler x w (Ledger.ok u) h e =
      let v : World S = record w { reads = w.reads + 1 } in
      Quiet-trans s.setup j w v _ (read-Quiet s.setup j w mono) (write-Quiet s.setup j x u v h e)
  after_label-Quiet body place handler x w (Ledger.err e) h same = read-Quiet s.setup j w mono

  labelled-Quiet :
      (body : Body) (place : Where) (handler : LedgerError → Answer × List SlackCall) (l : Labels)
      (w : World S)
      → authorises l.decision ≡ false
      → Quiet s.setup j w (labelled s body place handler l w).2
  unfolding attempt
  labelled-Quiet body place handler l w h =
      after_label-Quiet body place handler
        (write_labels (s.setup.clock w.reads) place.incident_id l) w
        (Ledger.label (s.setup.clock w.reads) place.incident_id l w.ledger) (inl h) refl

  on_rating-Quiet :
      (place : Where) (rating : Option String) (other : Interaction S) (w : World S)
      → Quiet s.setup j w (other w).2
      → Quiet s.setup j w (on_rating s place rating other w).2
  on_rating-Quiet place none other w h = h
  on_rating-Quiet place (some rating) other w h =
      labelled-Quiet empty place (λ e. (answered empty, note place (of_ledger e)))
        (record no_labels { shadow_rating = some rating }) w refl

  -- a step that stays where it is
  stays : (w v : World S) → v ≡ w → Quiet s.setup j w v
  stays w v e = subst (λ u. Quiet s.setup j w u) (sym e) (Quiet-refl s.setup j w)

  on_click-Quiet :
      (c : Click) (w : World S)
      → (c.action_id == action_approve && c.place.incident_id == j) ≡ false
      → Quiet s.setup j w (on_click s c w).2
  unfolding on_click
  on_click-Quiet c w h = elim (Bool-cases (c.action_id == action_approve)) [
    | inl e ↦ rw e (
        deciding-Quiet _ c.place _ c.place.incident_id "approved" "" "" w
          (inr (ground (arith, h, e))))
    | inr e ↦ rw e (on_rating-Quiet c.place (rating_of c.action_id) _ w (stays w _ (ground arith)))
  ]

  on_submission-Quiet :
      (u : Submission) (w : World S)
      → (u.callback == view_edit && u.place.incident_id == j) ≡ false
      → Quiet s.setup j w (on_submission s u w).2
  unfolding on_submission
  on_submission-Quiet u w h = elim (Bool-cases (u.text == "")) [
    | inl e ↦ rw e (Quiet-refl s.setup j w)
    | inr e ↦ rw e (elim (Bool-cases (u.callback == view_reject)) [
      | inl f ↦
          rw f (deciding-Quiet _ u.place _ u.place.incident_id "rejected" u.text "" w (inl refl))
      | inr f ↦ rw f (elim (Bool-cases (u.callback == view_edit)) [
        | inl g ↦ rw g (
            deciding-Quiet _ u.place _ u.place.incident_id "edited" "" u.text w
              (inr (ground (arith, h, g))))
        | inr g ↦ rw g (elim (Bool-cases (u.callback == view_actual_cause)) [
          | inl k ↦ rw k (
              labelled-Quiet clear u.place (λ e. reject_with (of_ledger e))
                (record no_labels { actual_cause = some u.text }) w refl)
          | inr k ↦ rw k (Quiet-refl s.setup j w)
        ])
      ])
    ])
  ]

  clicked-Quiet :
      (o : Option (Option Click)) (w : World S)
      → click_approves s j o ≡ false
      → Quiet s.setup j w (clicked s o w).2
  clicked-Quiet none w h = Quiet-refl s.setup j w
  clicked-Quiet (some none) w h = Quiet-refl s.setup j w
  clicked-Quiet (some (some c)) w h = on_click-Quiet c w h

  submitted-Quiet :
      (o : Option Submission) (w : World S)
      → submission_approves s j o ≡ false
      → Quiet s.setup j w (submitted s o w).2
  submitted-Quiet none w h = Quiet-refl s.setup j w
  submitted-Quiet (some u) w h = on_submission-Quiet u w h

  on_payload-Quiet :
      (o : Option Json) (w : World S)
      → payload_approves s j o ≡ false
      → Quiet s.setup j w (on_payload s o w).2
  unfolding on_payload lookup
  on_payload-Quiet none w h = Quiet-refl s.setup j w
  on_payload-Quiet (some (obj fields)) w h =
      elim (Bool-cases (is_text (lookup "type" fields) "block_actions")) [
        | inl e ↦ rw e (clicked-Quiet (read_click s.repr (obj fields)) w (rw e at h))
        | inr e ↦ rw e (elim (Bool-cases (is_text (lookup "type" fields) "view_submission")) [
          | inl f ↦
              rw f
                (submitted-Quiet (read_submission s.repr s.loads (obj fields)) w (rw (e, f) at h))
          | inr f ↦ rw f (Quiet-refl s.setup j w)
        ])
      ]
  on_payload-Quiet (some v) w h = Quiet-refl s.setup j w

  pub interaction-Quiet :
      (now : Instant) (signature timestamp body : String) (w : World S)
      → (verify_signature s.setup.crypto s.int s.signing_secret timestamp body signature now
          && payload_approves s j (s.payload_of body))
        ≡ false
      → Quiet s.setup j w (Interactions.slack_interactions s now signature timestamp body w).2
  unfolding Interactions.slack_interactions
  interaction-Quiet now signature timestamp body w h =
      elim (Bool-cases
        (verify_signature s.setup.crypto s.int s.signing_secret timestamp body signature now)) [
          | inl e ↦ rw e (on_payload-Quiet (s.payload_of body) w (rw e at h))
          | inr e ↦ rw e (Quiet-refl s.setup j w)
        ]
