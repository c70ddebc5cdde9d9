-- ===== src/Slack/Views.antt =====
-- The modals of the Slack sink (`reject_view`, `edit_view` and `actual_cause_view` of
-- brain/src/coroner_brain/slack.py).
use coroner.Base.{String, Option, none, some}
use coroner.Base.Text.{first_codes, or_text}

-- Where a message stands: the dict that a modal carries as its metadata.
pub record Where : Type 0 where
  pub incident_id : String
  pub channel : String
  pub ts : String

-- What differs between the modals.
pub record View : Type 0 where
  pub callback_id : String
  pub private_metadata : Where
  pub title : String
  pub label : String
  pub placeholder : String
  pub initial_value : Option String

abbrev pub view_reject : String
view_reject = "coroner_reject_view"

abbrev pub view_edit : String
view_edit = "coroner_edit_view"

abbrev pub view_actual_cause : String
view_actual_cause = "coroner_actual_cause_view"

abbrev input_view : String → String → String → String → Where → View
input_view callback title label placeholder metadata = record {
  callback_id = callback;
  private_metadata = metadata;
  title = title;
  label = label;
  placeholder = placeholder;
  initial_value = none;
}

unfoldable pub reject_view : Where → View
reject_view metadata =
    input_view view_reject "Reject diagnosis" "What is wrong with it? One line."
      "the tag is right, the node is missing a pull secret" metadata

unfoldable pub edit_view : Where → String → View
edit_view metadata proposed =
    record (input_view view_edit "Edit action"
      "The action to execute instead. This is what will run."
      (or_text (first_codes 150 proposed) "the corrected action") metadata) {
        initial_value = some (first_codes 3000 proposed);
      }

unfoldable pub actual_cause_view : Where → View
actual_cause_view metadata =
    input_view view_actual_cause "Actual cause" "What actually happened? One line."
      "the database password had rotated" metadata
