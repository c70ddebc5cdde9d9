-- ===== src/Api/Payload.antt =====
-- What the handlers read of a Slack payload (`_slack_block_action` and `_slack_view_submission` of
-- brain/src/coroner_brain/api.py). A result of `none` is the AttributeError, KeyError or TypeError of
-- a payload that has another shape. `repr` is Python's `str` of a value that is no text.
use coroner.Base.{
  String, Bool, true, false, not, ◌||◌, Option, none, some, or_else, if◌then◌else◌, ◌==◌,
}
use coroner.Base.Text.{strip}
use coroner.Slack.Views.{Where}
use coroner.Json.{Json, null, bool, num, str, arr, obj, nil, cons, end, field, lookup}

infixl 5 ◌>>=◌
abbrev ◌>>=◌ : {A B : Type 0} → Option A → (A → Option B) → Option B
none >>= f = none
some a >>= f = f a

-- `bool(value)`
abbrev is_truthy : Json → Bool
is_truthy null = false
is_truthy (bool b) = b
is_truthy (num t) = not (t == "0" || t == "0.0" || t == "-0.0")
is_truthy (str s) = not (s == "")
is_truthy (arr nil) = false
is_truthy (arr (cons x xs)) = true
is_truthy (obj end) = false
is_truthy (obj (field k v fs)) = true

-- `value.get(key)`
unfoldable get : String → Json → Option (Option Json)
get key (obj fields) = some (lookup key fields)
get key _ = none

-- `value or default`
abbrev or_default : Json → Option Json → Json
or_default d none = d
or_default d (some v) = if is_truthy v then v else d

-- `str(value)`
abbrev text_of : (Json → String) → Json → String
text_of repr (str s) = s
text_of repr v = repr v

-- `str(record.get(key, ""))`
abbrev text_at : (Json → String) → String → Json → Option String
text_at repr key v = do found ← get key v; some (text_of repr (or_else found (str "")))

-- `record.get(key) or {}`
abbrev dict_at : String → Json → Option Json
dict_at key v = do found ← get key v; some (or_default (obj end) found)

-- A press of a button.
pub record Click : Type 0 where
  pub action_id : String
  pub place : Where
  pub trigger_id : String

-- A modal that was sent off.
pub record Submission : Type 0 where
  pub callback : String
  pub place : Where
  pub text : String

-- `actions[0]` of what is not empty
abbrev first_of : Json → Option Json
first_of (arr (cons x xs)) = some x
first_of _ = none

module _ (repr : Json → String) where
  read_action : Json → Json → Option Click
  unfolding get
  read_action payload action = do
    action_id ← text_at repr "action_id" action
    incident_id ← text_at repr "value" action
    container ← dict_at "container" payload
    channel ← text_at repr "channel_id" container
    ts ← text_at repr "message_ts" container
    trigger_id ← text_at repr "trigger_id" payload
    user ← dict_at "user" payload
    name ← get "username" user
    some (record {
      action_id = action_id;
      place = record { incident_id = incident_id; channel = channel; ts = ts };
      trigger_id = trigger_id;
    })

  -- `some none`: there is no action in it
  unfoldable pub read_click : Json → Option (Option Click)
  unfolding read_action get
  read_click payload = do
    actions ← get "actions" payload
    let found = or_default (arr nil) actions
    if is_truthy found
        then (do action ← first_of found; click ← read_action payload action; some (some click))
        else some none

  -- `json.loads(metadata)`, and `{}` for what is no JSON; `loads` of a text
  abbrev metadata_of : (String → Option Json) → Json → Option Json
  metadata_of loads (str s) = some (or_else (loads s) (obj end))
  metadata_of loads _ = none

  -- `str((values.get("value") or {}).get("value") or "").strip()`
  abbrev input_text : Json → Option String
  input_text values = do
    input ← dict_at "value" values
    value ← get "value" input
    some (strip (text_of repr (or_default (str "") value)))

  unfoldable pub read_submission : (String → Option Json) → Json → Option Submission
  unfolding get
  read_submission loads payload = do
    view ← dict_at "view" payload
    callback ← text_at repr "callback_id" view
    metadata ← get "private_metadata" view
    place ← metadata_of loads (or_default (str "{}") metadata)
    incident_id ← text_at repr "incident_id" place
    state ← dict_at "state" view
    values ← dict_at "values" state
    texts ← dict_at "text" values
    text ← input_text texts
    channel ← text_at repr "channel" place
    ts ← text_at repr "ts" place
    some (record {
      callback = callback;
      place = record { incident_id = incident_id; channel = channel; ts = ts };
      text = text;
    })
