-- ===== src/Slack/Buttons.antt =====
-- Which buttons a Slack message carries (`render_blocks` of brain/src/coroner_brain/slack.py).
use coroner.Base.{String, Bool, ◌&&◌, Option, List, ◌≡◌, arith, any, is_nil, ◌==◌}
use coroner.Contract.{Contract, Micro}
use coroner.Verdict.{Mode, shadow, live}
use coroner.Sink.{Notice, offers_approval}
use coroner.Graph.State.{State}
use coroner.Approval.{Pending}
use coroner.Api.{response_of, notice_of}
use coroner.Slack.{decision_blocks, action_ids, action_approve, action_reject, action_edit}

-- The message carries a button that decides on an action.
abbrev pub has_button : String → Notice → List String → Bool
has_button id n status = any (λ a. a == id) (action_ids (decision_blocks n status))

-- A Slack message about the verdict of a run carries an approve button exactly if the notice offers
-- approval and no status is shown, and the same holds of the edit and the reject button.
pub has_button-decision_blocks :
    (c : Contract) (st : State) (threshold : Micro) (mode : Mode) (url : String)
    (parked : Option Pending) (status : List String)
    → let n = notice_of c (response_of c st threshold) mode url parked in
      let offered = is_nil status && offers_approval n in
      (has_button action_approve n status ≡ offered)
      × (has_button action_edit n status ≡ offered)
      × (has_button action_reject n status ≡ offered)
unfolding decision_blocks offers_approval response_of
has_button-decision_blocks c st threshold shadow url parked status = ground arith
has_button-decision_blocks c st threshold live url parked status = ground arith
