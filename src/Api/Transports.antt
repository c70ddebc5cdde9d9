-- ===== src/Api/Transports.antt =====
-- The two ways to decide, over JSON and over Slack (brain/src/coroner_brain/api.py).
use coroner.Base.{ℕ, String, ◌≡◌, refl, sym, ◌∙◌, true, false, List, ◌==◌}
use coroner.Inflight.{InFlightStore}
use coroner.Slack.{action_approve}
use coroner.Slack.Views.{Where, view_reject, view_edit}
use coroner.Approval.{Detail, PendingRecord, Resolution, World, Result, ok, err, approval_error}
use coroner.Approval.Rules.{is_human}
use coroner.Approval.Pipeline
use coroner.Api.Answers.{
  Site, SlackCall, Body, empty, clear, Answer, answered, of_approval, note, reject_with,
}
use coroner.Api.Payload.{Click, Submission}
use coroner.Api.Endpoints.{decide}
use coroner.Api.Interactions.{after_decision, on_click, on_submission}

module _ {S : InFlightStore PendingRecord} (s : Site) where
  after_decision_world :
      (body : Body) (place : Where) (handler : Detail → Answer × List SlackCall)
      (r : Result Resolution) (w : World S)
      → (after_decision s body place handler (r, w)).2 ≡ w
  after_decision_world body place handler (ok r) w = refl
  after_decision_world body place handler (err (approval_error status detail)) w = refl
  after_decision_world body place handler (err e) w = refl

  decision_world :
      (text : List ℕ → String) (id decision reason action : String) (w : World S)
      → is_human decision ≡ true
      → (decide s.setup text id
          (record { decision = decision; reason = reason; action = action })
          w).1
        ≡ (Pipeline.decide s.setup id decision reason action w).1
  unfolding decide
  decision_world text id decision reason action w h = rw h refl

  -- A press of the approve button, and a sent rejection or edit whose text is not empty, change
  -- the store and the ledger exactly as the JSON decision of that kind with that text does.
  pub slack_decides_as_json :
      (text : List ℕ → String) (place : Where) (trigger said : String) (w : World S)
      → (said == "") ≡ false
      → let id = place.incident_id in
        let click : Click = record {
          action_id = action_approve;
          place = place;
          trigger_id = trigger;
        } in
        let rejection : Submission = record {
          callback = view_reject;
          place = place;
          text = said;
        } in
        let edit : Submission = record { callback = view_edit; place = place; text = said } in
        ((on_click s click w).2
          ≡ (decide s.setup text id
              (record { decision = "approved"; reason = ""; action = "" })
              w).1)
        × ((on_submission s rejection w).2
            ≡ (decide s.setup text id
                (record { decision = "rejected"; reason = said; action = "" })
                w).1)
        × ((on_submission s edit w).2
            ≡ (decide s.setup text id
                (record { decision = "edited"; reason = ""; action = said })
                w).1)
  unfolding on_click on_submission is_human
  slack_decides_as_json text place trigger said w h =
      let id = place.incident_id in
      let p = s.setup in
      let approved = Pipeline.decide p id "approved" "" "" w in
      let rejected = Pipeline.decide p id "rejected" said "" w in
      let edited = Pipeline.decide p id "edited" "" said w in
      (
        after_decision_world empty place (λ d. (answered empty, note place (of_approval d)))
              approved.0 approved.1
            ∙ sym (decision_world text id "approved" "" "" w refl),
        rw h (
            after_decision_world clear place (λ d. reject_with (of_approval d)) rejected.0
              rejected.1
            ∙ sym (decision_world text id "rejected" said "" w refl)),
        rw h (
            after_decision_world clear place (λ d. reject_with (of_approval d)) edited.0 edited.1
            ∙ sym (decision_world text id "edited" "" said w refl)),
      )
