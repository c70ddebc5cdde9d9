-- ===== src/Slack/Client.antt =====
-- The calls of the Slack API (`SlackClient` and `SlackSink` of brain/src/coroner_brain/slack.py). The
-- HTTP client is a parameter.
use coroner.Base.{
  String, Bool, true, false, not, Option, none, some, List, [], ◌∷◌, if◌then◌else◌, ◌==◌, ◌≡◌, refl,
}
use coroner.Base.Text.{parts}
use coroner.Json.{Json, Fields, null, bool, num, str, arr, obj, nil, end, field, lookup}
use coroner.Ledger.{Row}
use coroner.Contract.{Instant}
use coroner.Sink.{Notice}
use coroner.Sink.Render.{Wording}
use coroner.Sink.Status.{render_status}
use coroner.Slack.{Block}
use coroner.Slack.Blocks.{render_blocks, summary_text}
use coroner.Slack.Views.{View}
use coroner.Api.Startup.{SlackConfig}
use coroner.Api.Answers.{status_of}

-- What is posted.
pub data Post : Type 0 where
  -- the channel, the text and the blocks
  message : String → String → List Block → Post
  -- with the time stamp_text of the message that it replaces
  update : String → String → String → List Block → Post
  -- the trigger and the modal
  view : String → View → Post
  -- to a response_url
  response : Json → Post

-- What a POST comes to: an error of the transport or the status, or an answer with its JSON, if it is
-- any.
pub data Response : Type 0 where
  failed : Response
  responded : Option Json → Response

-- What is returned, or what was raised: by the HTTP client, or a SlackError of a method with its error.
pub data Received (A : Type 0) : Type 0 where
  returned : A → Received A
  http_error : Received A
  slack_error : String → Option Json → Received A

-- whether a value counts as true; a number that is zero is written 0
abbrev counts : Option Json → Bool
counts none = false
counts (some null) = false
counts (some (bool b)) = b
counts (some (num text)) = not (text == "0")
counts (some (str s)) = not (s == "")
counts (some (arr nil)) = false
counts (some (obj end)) = false
counts _ = true

-- `call`, from the response to it: the fields of the answer
unfoldable pub checked : String → Response → Received Fields
unfolding lookup
checked method (responded (some (obj fields))) =
    if counts (lookup "ok" fields)
    then returned fields
    else slack_error method (lookup "error" fields)
checked method (responded (some other)) = slack_error method (some other)
checked method _ = http_error

abbrev stamp_text : (Json → String) → Option Json → String
stamp_text text none = ""
stamp_text text (some value) = text value

-- `data.get("ts", "")`, with Python's `str` of a JSON value
unfoldable pub stamp_of : (Json → String) → Received Fields → Received String
unfolding lookup
stamp_of text (returned fields) = returned (stamp_text text (lookup "ts" fields))
stamp_of text http_error = http_error
stamp_of text (slack_error method error) = slack_error method error

abbrev without_answer : Received Fields → Received Unit
without_answer (returned fields) = returned tt
without_answer http_error = http_error
without_answer (slack_error method error) = slack_error method error

abbrev of_respond : Response → Received Unit
of_respond failed = http_error
of_respond (responded answer) = returned tt

module _ {W : Type 0} (post : String → Option String → Post → W → Response × W) where
  abbrev with_result : {A : Type 0} → (Response → A) → Response × W → A × W
  with_result f (answer, w) = (f answer, w)

  module _ (token : String) where
    -- the POST of `call`, with its headers
    abbrev post_to : String → Post → W → Response × W
    post_to method body w =
        post (parts ("https://slack.com/api/" ∷ method ∷ []))
          (some (parts ("Bearer " ∷ token ∷ []))) body w

    unfoldable pub call : String → Post → W → Received Fields × W
    unfolding checked
    call method body w = with_result (checked method) (post_to method body w)

    unfoldable pub post_message :
        (Json → String) → String → String → List Block → W → Received String × W
    unfolding checked stamp_of
    post_message text channel words blocks w =
        with_result (λ r. stamp_of text (checked "chat.postMessage" r))
          (post_to "chat.postMessage" (message channel words blocks) w)

    unfoldable pub update_message : String → String → String → List Block → W → Received Unit × W
    unfolding checked
    update_message channel ts words blocks w =
        with_result (λ r. without_answer (checked "chat.update" r))
          (post_to "chat.update" (update channel ts words blocks) w)

    unfoldable pub open_view : String → View → W → Received Unit × W
    unfolding checked
    open_view trigger modal w =
        with_result (λ r. without_answer (checked "views.open" r))
          (post_to "views.open" (view trigger modal) w)

  unfoldable pub respond : String → Json → W → Received Unit × W
  respond url body w = with_result of_respond (post url none (response body) w)

  module _ (f : Wording) (config : SlackConfig) where
    -- `SlackSink.deliver`
    unfoldable pub deliver : (Json → String) → Notice → W → Received String × W
    unfolding post_message summary_text render_blocks
    deliver text n w =
        post_message config.bot_token text config.channel (summary_text n) (render_blocks f n []) w

    -- `SlackSink.refresh`
    unfoldable pub refresh :
        (Instant → String) → String → String → Notice → Row → W → Received Unit × W
    unfolding update_message summary_text render_blocks render_status
    refresh isoformat channel ts n row w =
        update_message config.bot_token channel ts (summary_text n)
          (render_blocks f n (status_of (render_status isoformat row))) w

refused_test :
    checked "chat.update"
      (responded (some (obj (field "ok" (bool false) (field "error" (str "not_in_channel") end)))))
    ≡ slack_error "chat.update" (some (str "not_in_channel"))
unfolding checked
refused_test = refl
