-- ===== src/Api/Answers.antt =====
-- What a Slack interaction is answered with and what is posted to Slack (`_slack_refresh`,
-- `_slack_note` and the settings that `slack_interactions` of brain/src/coroner_brain/api.py reads).
use coroner.Base.{
  ℕ, String, Bool, false, ◌||◌, Option, none, some, List, [], ◌∷◌, if◌then◌else◌, ◌==◌,
}
use coroner.Contract.{ℤ, Micro}
use coroner.Json.{Json, str}
use coroner.Ledger
use coroner.Ledger.{
  Row, Table, Labels, no_labels, LedgerError, unknown_incident, not_ratable, not_executable,
  already_labelled,
}
use coroner.Verdict.{Mode, shadow, live}
use coroner.Sink.{Notice, notice_from_row}
use coroner.Sink.Status.{render_status}
use coroner.Slack.{action_rate_approve, action_rate_reject, action_rate_unsure}
use coroner.Slack.Views.{Where, View}
use coroner.Approval.{Detail, Raised, ledger_error}
use coroner.Approval.Rules.{Setup}

-- The texts that the handlers post: of the exception that they report.
pub data Told : Type 0 where
  cannot_be_empty : Told
  of_approval : Detail → Told
  of_ledger : LedgerError → Told

-- A call of the Slack client.
pub data SlackCall : Type 0 where
  open_view : String → View → SlackCall
  post_message : String → Told → SlackCall
  -- with the lines of the status
  update_message : String → String → Notice → List String → SlackCall

-- The body that Slack is answered with.
pub data Body : Type 0 where
  empty clear : Body
  errors : Told → Body

-- What an interaction is answered with: a body, a refusal with its status, or an exception that
-- no handler catches.
pub data Answer : Type 0 where
  answered : Body → Answer
  refused : ℕ → Answer
  raised : Raised → Answer
  -- of the Slack client, of a row whose outcome is none of the enum's, and of a payload of another
  -- shape
  slack_failed bad_row bad_payload : Answer

-- What the endpoint is configured with, and Python's own functions: `int` and `str`, the reading
-- of JSON and of the form in a body, and whether Slack takes a call.
pub record Site : Type 0 where
  pub setup : Setup
  pub threshold : Micro
  pub is_promoted : String → Bool
  pub public_url : String
  pub signing_secret : String
  pub int : String → Option ℤ
  pub repr : Json → String
  pub loads : String → Option Json
  pub payload_of : String → Option Json
  pub takes : SlackCall → Bool

abbrev pub mode_of : Site → String → Mode
mode_of s failure_type = if s.is_promoted failure_type then live else shadow

-- `render_status(row) or ["recorded"]`
abbrev pub status_of : List String → List String
status_of [] = "recorded" ∷ []
status_of (line ∷ lines) = line ∷ lines

-- `RATING_ACTIONS`
unfoldable pub rating_of : String → Option String
rating_of action_id =
    if action_id == action_rate_approve
    then some "would_approve"
    else if action_id == action_rate_reject
    then some "would_reject"
    else if action_id == action_rate_unsure
    then some "unsure"
    else none

-- `_slack_note`
abbrev pub note : Where → Told → List SlackCall
note place told = if place.channel == "" then [] else post_message place.channel told ∷ []

-- `except (UnknownIncidentError, AlreadyLabelledError, NotRatableError)`
abbrev pub label_error :
    (LedgerError → Answer × List SlackCall) → LedgerError → Answer × List SlackCall
label_error handler (not_executable state) = (raised (ledger_error (not_executable state)), [])
label_error handler e = handler e

-- what the incident proposes, to start an edit from
abbrev pub proposed_of : Option Row → String
proposed_of none = ""
proposed_of (some row) = row.proposed_action

-- `reject_with`
abbrev pub reject_with : Told → Answer × List SlackCall
reject_with told = (answered (errors told), [])

-- `kind == text`
abbrev pub is_text : Option Json → String → Bool
is_text (some (str s)) text = s == text
is_text _ text = false

module _ (s : Site) where
  abbrev refreshed : Body → Where → Row → Option (Option Notice) → Answer × List SlackCall
  refreshed body place row none = (bad_row, [])
  refreshed body place row (some none) = (answered body, [])
  refreshed body place row (some (some notice)) = (
    answered body,
    update_message place.channel place.ts notice
          (status_of (render_status s.setup.crypto.isoformat row))
        ∷ [],
  )

  -- `_slack_refresh`, and the answer after it: an update that fails is logged
  unfoldable pub refresh : Body → Where → Table → Answer × List SlackCall
  refresh body place table = elim (Ledger.get place.incident_id table) [
    | none ↦ (answered body, [])
    | some row ↦
        if place.channel == "" || place.ts == ""
        then (answered body, [])
        else refreshed body place row
            (notice_from_row row s.threshold (mode_of s row.failure_type) s.public_url)
  ]
