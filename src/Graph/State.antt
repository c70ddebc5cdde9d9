-- ===== src/Graph/State.antt =====
-- The state of the diagnosis graph, what its pipeline is built with, and the world that it acts on
-- (brain/src/coroner_brain/graph.py). The clock is monotonic, so a difference of two readings in
-- the order of reading is a natural number; it counts microseconds.
use coroner.Base.{ℕ, ◌+◌, ◌≤◌, Bool, String, List, Option}
use coroner.Contract.{Instant, Micro, Contract}
use coroner.Evidence.{EvidenceClass}
use coroner.Diagnosis.{Outcome, Diagnosis, Failure, AbstainReason, DiscardReason}
use coroner.Json.{Json}

-- `State`: a key that is absent is `none`, as is an empty text.
pub record State : Type 0 where
  pub contract : Contract
  pub payload : Json
  pub evidence_class : EvidenceClass
  pub outcome : Option Outcome
  pub abstain_reason : Option AbstainReason
  pub diagnosis : Option Diagnosis
  pub confidence_model : Option Micro
  pub confidence_final : Option Micro
  pub validation_failures : List Failure
  pub attempts : ℕ
  pub context_hash : String
  pub started_at : Instant
  pub discard_reason : Option DiscardReason
  pub prompt_tokens : ℕ
  pub completion_tokens : ℕ

-- `Usage` of llm.py
pub record Usage : Type 0 where
  pub prompt_tokens : ℕ
  pub completion_tokens : ℕ

-- What the model is asked: the two prompts.
pub record Request : Type 0 where
  pub system : List ℕ
  pub user : List ℕ

-- What a call on its thread comes to within its budget: a text with the tokens spent, an error
-- with its class and text, or nothing.
pub data Reply : Type 0 where
  replied : String → Usage → Reply
  failed : String → String → Reply
  silent : Reply

-- `Diagnosis.model_validate_json`: the number of errors, or the diagnosis
pub data Parsed : Type 0 where
  malformed : ℕ → Parsed
  parsed : Diagnosis → Parsed

-- What the pipeline is built with. `tick n` is the n-th reading of a clock on which no sleep was
-- spent, and `reply n` the outcome of the n-th call of the model within a budget.
pub record Pipeline : Type 0 where
  pub threshold : Micro
  pub max_retries : ℕ
  pub deadline : Instant
  pub price_in : Micro
  pub price_out : Micro
  pub model_id : String
  pub tick : ℕ → Instant
  pub tick_mono : (n : ℕ) → tick n ≤ tick (n + 1)
  -- contract.model_dump(mode="json"), and the digest of a canonical dump
  pub model_dump : Contract → Json
  -- `str.isprintable` of a code point that is not ASCII
  pub is_printable : ℕ → Bool
  pub digest : List ℕ → String
  pub reply : ℕ → Request → Instant → Reply
  pub model_validate_json : String → Parsed

-- The readings of the clock, the time slept, the calls made, and the client's `last_usage`.
pub record World : Type 0 where
  pub reads : ℕ
  pub slept : Instant
  pub calls : ℕ
  pub last_usage : Usage

abbrev pub now : Pipeline → World → Instant
now p w = p.tick w.reads + w.slept

abbrev pub after_reads : ℕ → World → World
after_reads n w = record w { reads = w.reads + n }
