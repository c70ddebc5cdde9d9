-- ===== src/Examples.antt =====
-- Concrete incidents, rows and settings that the examples run on.
pub mod OfEvidence
mod OfLedger
mod OfInflight
mod OfApproval
pub mod OfValidate
pub mod OfGraph
mod OfApi
mod OfSchema
mod OfMessages
mod OfStartup
mod OfRace
mod OfEval
use coroner.Diagnosis.{Diagnosis, Citation}
use coroner.Json.{Json, obj, field, end, str, num}
use coroner.Graph.State.{Pipeline, World as GraphWorld, Reply, replied, Parsed, parsed, Usage}
use coroner.Base.{
  arith, ℕ, zero, suc, ◌+◌, String, ◌≡◌, refl, Option, none, some, Bool, true, false, List, [], ◌∷◌,
  ap,
}
use coroner.Contract.{ℤ, pos, Instant, Terminated, Event, Contract}
use coroner.Evidence.{crashloop_with_fatal_log}
use coroner.Diagnosis.{diagnosed}
use coroner.Verdict.{Mode, DiagnoseResponse}
use coroner.Ledger
use coroner.Ledger.{LedgerEntry, Row, Table, Labels, no_labels, new_row}
use coroner.Inflight.{InFlightStore}
use coroner.Inflight.Memory.{memory_store}
use coroner.Approval.{Crypto}
use coroner.Approval.{Pending, PendingRecord, World, to_record}
use coroner.Approval.Rules.{Setup}

abbrev pub pull_event : Event
pull_event = record {
  type = "Warning";
  reason = "Failed";
  message = "Failed to pull image app:1";
  count = 3;
  first_timestamp = none;
  last_timestamp = none;
  series_count = 0;
  series_last_observed = none;
  occurrences = 3;
  first_seen = none;
  last_seen = none;
  aggregated = "";
}

abbrev pub crashed : Terminated
crashed = record {
  exit_code = pos 1;
  reason = "Error";
  signal = pos 0;
  message = "";
  started_at = none;
  finished_at = none;
}

-- A pod in a crash loop whose log names a failure.
abbrev pub crash_loop : Contract
crash_loop = record {
  contract_version = "1";
  incident_id = "inc-1";
  collected_at = 0;
  failure_type = "CrashLoopBackOff";
  pod = record {
    namespace = "prod";
    name = "api-0";
    uid = "u";
    node_name = "n1";
    phase = "Running";
    created_at = 0;
    age_seconds = 0;
  };
  owner = none;
  container = record {
    name = "api";
    image = "app:1";
    image_id = "";
    ready = false;
    restart_count = 4;
    command = [];
    args = [];
    waiting_reason = "CrashLoopBackOff";
    waiting_message = "";
    last_terminated = some crashed;
    memory_limit = "";
    memory_request = "";
    cpu_limit = "";
    cpu_request = "";
    env_names = [];
    has_liveness_probe = false;
    has_readiness_probe = false;
    crashes_per_minute = 0;
  };
  events = [];
  logs = record {
    available = true;
    empty = false;
    from_previous = true;
    truncated = false;
    content = "panic: no such host";
  };
  node = record {
    name = "n1";
    ready = true;
    memory_pressure = false;
    disk_pressure = false;
    pid_pressure = false;
  };
  redacted_count = 0;
  redacted_kinds = [];
}

abbrev pub entry : LedgerEntry
entry = record {
  incident_id = "inc-1";
  failure_type = "CrashLoopBackOff";
  contract_version = "1";
  context_hash = "hash";
  evidence_class = some crashloop_with_fatal_log;
  model_id = "m";
  prompt_version = "p1";
  outcome = some diagnosed;
  abstained = false;
  abstain_reason = none;
  root_cause = "the host name is wrong";
  explanation = "";
  proposed_action = "fix the host";
  competing_hypothesis = "";
  evidence = [];
  confidence_model = some 900000;
  confidence_final = some 800000;
  validation_failures = [];
  validation_retries = 0;
  contract_json = some crash_loop;
  discard_reason = none;
  prompt_tokens = 10;
  completion_tokens = 5;
  cost_usd = 0;
  latency_ms_total = 7;
}

abbrev pub undecided : Row
undecided = record {
  entry = entry;
  recorded_at = 0;
  decision = none;
  decision_at = none;
  decision_reason = none;
  shadow_rating = none;
  actual_cause = none;
  resolved_within_sla = none;
  decision_action = none;
  approval_token = none;
  execution_status = none;
  execution_detail = none;
  executed_at = none;
  resolution_detail = none;
  resolved_at = none;
}

-- A date as a row of as many marks, and the count of them.
unfoldable pub marks : ℕ → String
marks zero = ""
marks (suc n) = String.◌∷◌ "1" (marks n)

unfoldable pub count_marks : String → ℕ
count_marks String.[] = 0
count_marks (String.◌∷◌ c s) = suc (count_marks s)

pub count_marks-marks : (n : ℕ) → count_marks (marks n) ≡ n
unfolding marks count_marks
count_marks-marks zero = refl
count_marks-marks (suc n) = ap suc (count_marks-marks n)

-- The keyed hash that is the message itself.
abbrev pub plain_crypto : Crypto
plain_crypto = record {
  hexdigest = λ secret m. m;
  isoformat = marks;
  fromisoformat = λ s. some (count_marks s);
  fromisoformat-isoformat = λ n. ap some (count_marks-marks n);
}

-- Each reading of the clock is one later than the one before.
abbrev pub setup : Setup
setup = record { crypto = plain_crypto; secret = "s"; ttl = 300; clock = λ n. n }

abbrev pub parked : Pending
parked = record {
  incident_id = "inc-1";
  failure_type = "CrashLoopBackOff";
  context_hash = "hash";
  proposed_action = "fix the host";
  confidence_final = 800000;
  created_at = 0;
  deadline = 9;
}

abbrev pub store : InFlightStore PendingRecord
store = memory_store PendingRecord

-- The verdict is parked until the instant 100, and it is now as late as the count of readings.
abbrev pub world_at : ℕ → World store
world_at n = record {
  store = ("inc-1", 100, to_record plain_crypto parked) ∷ [];
  ledger = undecided ∷ [];
  reads = n;
}

abbrev pub payload : Json
payload = obj (
    field "container" (obj (field "last_terminated" (obj (field "exit_code" (num "137") end)) end))
      (field "logs" (obj (field "content" (str "panic: dial tcp: no such host") end)) end))

abbrev pub diagnosis : Diagnosis
diagnosis = record {
  root_cause = "the process was killed: \"no such host\"";
  explanation = "";
  proposed_action = "fix the host";
  confidence = 900000;
  evidence =
      record { source = "container.last_terminated"; field = "exit_code"; value = " 137 " } ∷ [];
  competing_hypothesis = "";
}

-- A pipeline whose model answers with that diagnosis at once.
abbrev pub pipeline : Pipeline
pipeline = record {
  threshold = 500000;
  max_retries = 1;
  deadline = 180000000;
  price_in = 150000;
  price_out = 600000;
  model_id = "m";
  tick = λ n. n;
  tick_mono = λ n. omega arith;
  model_dump = λ c. payload;
  digest = λ text. "hash";
  is_printable = λ c. true;
  reply = λ n q budget. replied "{}" (record { prompt_tokens = 100; completion_tokens = 20 });
  model_validate_json = λ raw. parsed diagnosis;
}

abbrev pub idle : GraphWorld
idle = record {
  reads = 0;
  slept = 0;
  calls = 0;
  last_usage = record { prompt_tokens = 0; completion_tokens = 0 };
}
