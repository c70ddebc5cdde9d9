-- ===== src/Config.antt =====
-- The settings (brain/src/coroner_brain/config.py). The environment is a parameter, `.env` loaded, with
-- Python's `float` and `int` of a text, for numbers that are not negative.
pub mod Promoted
use coroner.Base.{
  ℕ, String, Bool, true, false, not, ◌||◌, Option, none, some, List, [], ◌∷◌, any, is_some, or_else,
  if◌then◌else◌, ◌==◌,
}
use coroner.Base.Text.{codes, codes_eq, lower, strip, or_text, rstrip_code, split_on}
use coroner.Contract.{Micro}

pub record Environment : Type 0 where
  pub environ : String → Option String
  pub float : String → Option Micro
  pub int : String → Option ℕ
  -- `secrets.token_bytes(32)`
  pub token_bytes : String

pub record Settings : Type 0 where
  pub api_key : Option String
  pub base_url : String
  pub model : String
  pub ledger_path : String
  pub abstention_threshold : Micro
  pub max_validation_retries : ℕ
  pub model_deadline_seconds : Micro
  pub price_input_per_m : Micro
  pub price_output_per_m : Micro
  -- in lower case, as code points
  pub sink : List ℕ
  pub public_url : String
  pub approval_ttl_seconds : ℕ
  pub promoted_types : List String
  pub redis_url : Option String
  pub approval_secret : String
  pub approval_secret_generated : Bool
  pub slack_bot_token : String
  pub slack_channel : String
  pub slack_signing_secret : String

-- `bool(self.api_key)`
abbrev pub has_credentials : Settings → Bool
has_credentials s = not (or_else s.api_key "" == "")

abbrev pub is_promoted : Settings → String → Bool
is_promoted s failure_type = any (λ t. t == failure_type) s.promoted_types

abbrev pub stripped_parts : List String → List String
stripped_parts [] = []
stripped_parts (part ∷ others) =
    let rest = stripped_parts others in
    if strip part == "" || any (λ t. t == strip part) rest then rest else strip part ∷ rest

-- `_csv`: a set, as the list of its members, each once
unfoldable pub csv : String → List String
unfolding split_on strip
csv raw = let (part, others) = split_on 44 raw in stripped_parts (part ∷ others)

-- `value or None`
abbrev none_if_empty : Option String → Option String
none_if_empty none = none
none_if_empty (some s) = if s == "" then none else some s

-- `value or default`
abbrev or_default : Option String → String → String
or_default o d = or_text (or_else o "") d

-- the parse of a variable that is set, and otherwise the default
abbrev parsed : {A : Type 0} → (String → Option A) → A → Option String → Option A
parsed parse d none = some d
parsed parse d (some s) = parse s

-- `value.strip().lower() or default`
abbrev sink_of : Option String → List ℕ
sink_of o =
    let s = strip (or_else o "stdout") in if s == "" then codes "stdout" else lower (codes s)

-- The numbers among the settings; `none` is the ValueError of one that does not parse.
pub record Numbers : Type 0 where
  pub threshold : Micro
  pub retries : ℕ
  pub deadline : Micro
  pub price_input : Micro
  pub price_output : Micro
  pub ttl : ℕ

abbrev all_of :
    Option Micro → Option ℕ → Option Micro → Option Micro → Option Micro → Option ℕ → Option Numbers
all_of (some threshold) (some retries) (some deadline) (some price_input) (some price_output)
      (some ttl) =
    some (record {
      threshold = threshold;
      retries = retries;
      deadline = deadline;
      price_input = price_input;
      price_output = price_output;
      ttl = ttl;
    })
all_of _ _ _ _ _ _ = none

module _ (e : Environment) where
  abbrev numbers : Option Numbers
  numbers =
      all_of (parsed e.float 500000 (e.environ "CORONER_ABSTENTION_THRESHOLD"))
        (parsed e.int 1 (e.environ "CORONER_MAX_VALIDATION_RETRIES"))
        (parsed e.float 180000000 (e.environ "CORONER_MODEL_DEADLINE_SECONDS"))
        (parsed e.float 150000 (e.environ "CORONER_PRICE_INPUT_PER_M"))
        (parsed e.float 600000 (e.environ "CORONER_PRICE_OUTPUT_PER_M"))
        (parsed e.int 1800 (e.environ "CORONER_APPROVAL_TTL_SECONDS"))

  abbrev settings_with : Numbers → Settings
  settings_with n =
      let raw_secret = or_else (e.environ "CORONER_APPROVAL_SECRET") "" in
      let generated = raw_secret == "" in
      record {
        api_key = none_if_empty (e.environ "GROQ_API_KEY");
        base_url = or_else (e.environ "CORONER_LLM_BASE_URL") "https://api.groq.com/openai/v1";
        model = or_default (e.environ "CORONER_MODEL") "openai/gpt-oss-120b";
        ledger_path = or_else (e.environ "CORONER_LEDGER_PATH") "coroner-ledger.sqlite3";
        abstention_threshold = n.threshold;
        max_validation_retries = n.retries;
        model_deadline_seconds = n.deadline;
        price_input_per_m = n.price_input;
        price_output_per_m = n.price_output;
        sink = sink_of (e.environ "CORONER_SINK");
        public_url =
            rstrip_code 47 (or_else (e.environ "CORONER_PUBLIC_URL") "http://localhost:8000");
        approval_ttl_seconds = n.ttl;
        promoted_types = csv (or_else (e.environ "CORONER_PROMOTED_TYPES") "");
        redis_url = none_if_empty (e.environ "CORONER_REDIS_URL");
        approval_secret = if generated then e.token_bytes else raw_secret;
        approval_secret_generated = generated;
        slack_bot_token = or_else (e.environ "CORONER_SLACK_BOT_TOKEN") "";
        slack_channel = or_else (e.environ "CORONER_SLACK_CHANNEL") "";
        slack_signing_secret = or_else (e.environ "CORONER_SLACK_SIGNING_SECRET") "";
      }

  abbrev with_numbers : Option Numbers → Option Settings
  with_numbers none = none
  with_numbers (some n) = some (settings_with n)

  unfoldable pub load_settings : Option Settings
  unfolding csv strip lower rstrip_code
  load_settings = with_numbers numbers
