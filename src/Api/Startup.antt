-- ===== src/Api/Startup.antt =====
-- What is built from the settings (`build_sink`, `build_services`, `Services.pipeline` and `healthz` of
-- brain/src/coroner_brain/api.py).
use coroner.Base.{ℕ, String, Bool, not, List, [], ◌∷◌, concat, or_else, if◌then◌else◌, ◌==◌}
use coroner.Base.Text.{codes, codes_eq}
use coroner.Config.{Settings, has_credentials}
use coroner.Ledger.{truthy}
use coroner.Api.Endpoints.{Reply, replied, refused, no_credentials}

pub record SlackConfig : Type 0 where
  pub bot_token : String
  pub channel : String
  pub signing_secret : String

pub data Sink : Type 0 where
  stdout_sink : Sink
  slack_sink : SlackConfig → Sink

-- What `build_sink` makes, or its ValueError: the variables that are not set, or a sink that does
-- not exist.
pub data Built : Type 0 where
  built : Sink → Built
  missing : List String → Built
  unknown : List ℕ → Built

abbrev unset : String → String → List String
unset name value = if value == "" then name ∷ [] else []

abbrev slack_or_missing : Settings → List String → Built
slack_or_missing s [] = built (
    slack_sink (record {
      bot_token = s.slack_bot_token;
      channel = s.slack_channel;
      signing_secret = s.slack_signing_secret;
    }))
slack_or_missing s (name ∷ names) = missing (name ∷ names)

unfoldable pub build_sink : Settings → Built
build_sink s =
    if codes_eq s.sink (codes "stdout")
    then built stdout_sink
    else if codes_eq s.sink (codes "slack")
    then slack_or_missing s (
        concat (
          unset "CORONER_SLACK_BOT_TOKEN" s.slack_bot_token
          ∷ unset "CORONER_SLACK_CHANNEL" s.slack_channel
          ∷ unset "CORONER_SLACK_SIGNING_SECRET" s.slack_signing_secret
          ∷ []))
    else unknown s.sink

-- The warnings that `build_services` logs.
pub data Warning : Type 0 where
  no_redis secret_generated : Warning

unfoldable pub warnings : Settings → List Warning
warnings s = concat (
    (if truthy s.redis_url then [] else no_redis ∷ [])
    ∷ (if s.approval_secret_generated then secret_generated ∷ [] else [])
    ∷ [])

-- The client that the pipeline calls: the one it was given, or one for the configured model.
pub data Client : Type 0 where
  given : Client
  configured : String → String → String → Client

-- `Services.pipeline`
unfoldable pub client_of : Bool → Settings → Reply Client
client_of has_client s =
    if has_client
    then replied given
    else if not (has_credentials s)
    then refused 503 no_credentials
    else replied (configured (or_else s.api_key "") s.base_url s.model)

pub record Health : Type 0 where
  pub version : String
  pub contract_version : String
  pub model : String
  pub credentials_present : Bool
  pub sink : String
  pub inflight_store : String
  pub promoted_types : List String

abbrev sink_name : Sink → String
sink_name stdout_sink = "stdout"
sink_name (slack_sink c) = "slack"

-- `sorted` is that of Python
unfoldable pub healthz : (List String → List String) → String → String → Sink → Settings → Health
healthz sorted version contract_version sink s = record {
  version = version;
  contract_version = contract_version;
  model = s.model;
  credentials_present = has_credentials s;
  sink = sink_name sink;
  inflight_store = if truthy s.redis_url then "redis" else "memory";
  promoted_types = sorted s.promoted_types;
}
