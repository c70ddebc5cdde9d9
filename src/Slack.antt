-- ===== src/Slack.antt =====
-- The affordances of a Slack message (brain/src/coroner_brain/slack.py): what `render_blocks` puts under
-- the observed and the inferred block. A fixed text is data, one constructor for each, with the
-- values that it shows.
pub mod Buttons
pub mod Blocks
pub mod Signature
pub mod Views
pub mod Client
use coroner.Base.{
  ℕ, String, Bool, true, false, not, Option, none, some, List, [], ◌∷◌, ◌++◌, is_nil, if◌then◌else◌,
}
use coroner.Contract.{Contract, Instant, Micro}
use coroner.Ledger.{Row, truthy}
use coroner.Verdict.{Mode, shadow, live, DiagnoseResponse}
use coroner.Sink.{Notice, offers_approval}

abbrev pub action_approve : String
action_approve = "coroner_approve"

abbrev pub action_reject : String
action_reject = "coroner_reject"

abbrev pub action_edit : String
action_edit = "coroner_edit"

abbrev pub action_rate_approve : String
action_rate_approve = "coroner_rate_would_approve"

abbrev pub action_rate_reject : String
action_rate_reject = "coroner_rate_would_reject"

abbrev pub action_rate_unsure : String
action_rate_unsure = "coroner_rate_unsure"

abbrev pub action_actual_cause : String
action_actual_cause = "coroner_actual_cause"

pub record Button : Type 0 where
  pub text : String
  pub action_id : String
  pub value : String
  pub style : Option String

pub data Statement : Type 0 where
  no_diagnosis abstention : Statement
  -- the failure type
  in_shadow : String → Statement
  -- the final confidence
  below_threshold : Option Micro → Statement
  decide_before : Option Instant → Statement

pub data Block : Type 0 where
  header incident_line fixed : String → Block
  -- the code points of a text between fences
  code_section : List ℕ → Block
  divider : Block
  -- the lines of the status
  context : List String → Block
  section : Statement → Block
  actions : List Button → Block

abbrev pub button : String → String → String → Button
button text action_id value = record {
  text = text;
  action_id = action_id;
  value = value;
  style = none;
}

abbrev pub styled : String → String → String → String → Button
styled text action_id value style = record {
  text = text;
  action_id = action_id;
  value = value;
  style = some style;
}

abbrev pub abstained_buttons : String → List Button
abstained_buttons incident =
    button "Record actual cause" action_actual_cause incident
    ∷ button "Right to abstain" action_rate_approve incident
    ∷ button "Should have diagnosed" action_rate_reject incident
    ∷ button "Unsure" action_rate_unsure incident
    ∷ []

abbrev pub shadow_buttons : String → List Button
shadow_buttons incident =
    button "Would approve" action_rate_approve incident
    ∷ button "Would reject" action_rate_reject incident
    ∷ button "Unsure" action_rate_unsure incident
    ∷ []

abbrev pub approval_buttons : String → List Button
approval_buttons incident =
    styled "Approve" action_approve incident "primary"
    ∷ styled "Reject" action_reject incident "danger"
    ∷ button "Edit action" action_edit incident
    ∷ []

abbrev pub is_shadow : Mode → Bool
is_shadow shadow = true
is_shadow live = false

-- the blocks from the status on
unfoldable pub decision_blocks : Notice → List String → List Block
unfolding offers_approval
decision_blocks n status =
    let v = n.verdict in
    let incident = v.incident_id in
    if not (is_nil status)
    then context status ∷ []
    else if v.discarded
    then section no_diagnosis ∷ []
    else if v.abstained
    then section abstention ∷ actions (abstained_buttons incident) ∷ []
    else if is_shadow n.mode
    then section (in_shadow v.failure_type) ∷ actions (shadow_buttons incident) ∷ []
    else if not (offers_approval n)
    then section (below_threshold v.confidence_final) ∷ []
    else section (decide_before n.deadline) ∷ actions (approval_buttons incident) ∷ []

-- the ids of the buttons of some blocks
abbrev pub ids_of : List Button → List String
ids_of [] = []
ids_of (b ∷ bs) = b.action_id ∷ ids_of bs

abbrev pub action_ids : List Block → List String
action_ids [] = []
action_ids (actions bs ∷ blocks) = ids_of bs ++ action_ids blocks
action_ids (block ∷ blocks) = action_ids blocks
