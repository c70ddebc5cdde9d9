-- ===== src/Contract.antt =====
-- The evidence contract (brain/src/coroner_brain/contract.py): what the agent sends.
-- A date is a count of microseconds, a float that is not negative is a count of millionths, and
-- an exit code is an integer.
use coroner.Base.{ℕ, String, Bool, Option, List}

-- `negsuc n` is -(n + 1).
pub data ℤ : Type 0 where
  pos : ℕ → ℤ
  negsuc : ℕ → ℤ

abbrev pub Instant : Type 0
Instant = ℕ

abbrev pub Micro : Type 0
Micro = ℕ

pub record Owner : Type 0 where
  pub kind : String
  pub name : String
  pub image : String
  pub revision : String

pub record Terminated : Type 0 where
  pub exit_code : ℤ
  pub reason : String
  pub signal : ℤ
  pub message : String
  pub started_at : Option Instant
  pub finished_at : Option Instant

pub record Pod : Type 0 where
  pub namespace : String
  pub name : String
  pub uid : String
  pub node_name : String
  pub phase : String
  pub created_at : Instant
  pub age_seconds : Micro

pub record Container : Type 0 where
  pub name : String
  pub image : String
  pub image_id : String
  pub ready : Bool
  pub restart_count : ℕ
  pub command : List String
  pub args : List String
  pub waiting_reason : String
  pub waiting_message : String
  pub last_terminated : Option Terminated
  pub memory_limit : String
  pub memory_request : String
  pub cpu_limit : String
  pub cpu_request : String
  pub env_names : List String
  pub has_liveness_probe : Bool
  pub has_readiness_probe : Bool
  pub crashes_per_minute : Micro

pub record Event : Type 0 where
  pub type : String
  pub reason : String
  pub message : String
  pub count : ℕ
  pub first_timestamp : Option Instant
  pub last_timestamp : Option Instant
  pub series_count : ℕ
  pub series_last_observed : Option Instant
  pub occurrences : ℕ
  pub first_seen : Option Instant
  pub last_seen : Option Instant
  pub aggregated : String

pub record Logs : Type 0 where
  pub available : Bool
  pub empty : Bool
  pub from_previous : Bool
  pub truncated : Bool
  pub content : String

pub record NodeSummary : Type 0 where
  pub name : String
  pub ready : Bool
  pub memory_pressure : Bool
  pub disk_pressure : Bool
  pub pid_pressure : Bool

pub record Contract : Type 0 where
  pub contract_version : String
  pub incident_id : String
  pub collected_at : Instant
  pub failure_type : String
  pub pod : Pod
  pub owner : Option Owner
  pub container : Container
  pub events : List Event
  pub logs : Logs
  pub node : NodeSummary
  pub redacted_count : ℕ
  pub redacted_kinds : List String
