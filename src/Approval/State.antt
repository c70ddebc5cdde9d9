-- ===== src/Approval/State.antt =====
-- The state and the errors of the approval graph (brain/src/coroner_brain/approval.py).
use coroner.Base.{ℕ, String, Option, none, some, ◌≡◌, arith}
use coroner.Contract.{Instant, Micro}
use coroner.Ledger.{Table, LedgerError}
use coroner.Inflight.{InFlightStore}
use coroner.Approval.Token.{Crypto}

-- The texts that `ApprovalError` carries, one constructor for each.
pub data Detail : Type 0 where
  no_such_incident no_approval_pending : Detail
  already_decided : String → Detail
  deadline_not_passed window_expired : Detail
  unknown_decision : String → Detail
  needs_reason needs_action : Detail
  different_incidents : Detail

-- What a call raises: an `ApprovalError` with its HTTP status, or an exception of another module
-- that no handler of this one catches.
pub data Raised : Type 0 where
  approval_error : ℕ → Detail → Raised
  ledger_error : LedgerError → Raised
  -- ValueError of `datetime.fromisoformat`, and KeyError
  bad_date missing_key : Raised

pub record Pending : Type 0 where
  pub incident_id : String
  pub failure_type : String
  pub context_hash : String
  pub proposed_action : String
  pub confidence_final : Micro
  pub created_at : Instant
  pub deadline : Instant

-- the JSON object that the store keeps
pub record PendingRecord : Type 0 where
  pub incident_id : String
  pub failure_type : String
  pub context_hash : String
  pub proposed_action : String
  pub confidence_final : Micro
  pub created_at : String
  pub deadline : String

pub record Resolution : Type 0 where
  pub incident_id : String
  pub decision : String
  pub decided_at : Instant
  pub action : String
  pub approval_token : String

module _ (k : Crypto) where
  unfoldable pub to_record : Pending → PendingRecord
  to_record p = record {
    incident_id = p.incident_id;
    failure_type = p.failure_type;
    context_hash = p.context_hash;
    proposed_action = p.proposed_action;
    confidence_final = p.confidence_final;
    created_at = k.isoformat p.created_at;
    deadline = k.isoformat p.deadline;
  }

  abbrev dated : PendingRecord → Option Instant → Option Instant → Option Pending
  dated r none deadline = none
  dated r (some created) none = none
  dated r (some created) (some deadline) = some (record {
    incident_id = r.incident_id;
    failure_type = r.failure_type;
    context_hash = r.context_hash;
    proposed_action = r.proposed_action;
    confidence_final = r.confidence_final;
    created_at = created;
    deadline = deadline;
  })

  -- `none` is the ValueError of a text that is no date
  unfoldable pub from_record : PendingRecord → Option Pending
  from_record r = dated r (k.fromisoformat r.created_at) (k.fromisoformat r.deadline)

  -- A parked verdict is read back from its stored record as it was.
  pub from_record-to_record : (p : Pending) → from_record (to_record p) ≡ some p
  unfolding from_record to_record
  from_record-to_record p =
      ground (arith, k.fromisoformat-isoformat p.created_at, k.fromisoformat-isoformat p.deadline)

-- `DecisionState`: a key that is absent is `none`, and a text that is absent is empty, as
-- `state.get(key, "")` reads it. `error` is `error_status` with `error_detail`.
pub record DecisionState : Type 0 where
  pub incident_id : String
  pub decision : String
  pub reason : String
  pub action : String
  pub pending : Option PendingRecord
  pub error : Option (ℕ × Detail)
  pub decided_at : Option String
  pub resolved_action : String
  pub approval_token : String

pub data Result (A : Type 0) : Type 0 where
  ok : A → Result A
  err : Raised → Result A

-- What a call may change, and the clock: `clock n` is the n-th reading from now on.
pub record World (S : InFlightStore PendingRecord) : Type 0 where
  pub store : S.State
  pub ledger : Table
  pub reads : ℕ

module _ (S : InFlightStore PendingRecord) where
  -- A method: what was written before a raise stays written.
  abbrev pub Action : Type 0 → Type 0
  Action A = World S → Result A × World S

module _ {S : InFlightStore PendingRecord} {A : Type 0} where
  abbrev pub pure : A → Action S A
  pure a w = (ok a, w)

  abbrev pub raise : Raised → Action S A
  raise e w = (err e, w)

module _ {S : InFlightStore PendingRecord} {A B : Type 0} where
  infixl 5 ◌>>=◌ ◌>>◌
  abbrev pub ◌>>=◌ : Action S A → (A → Action S B) → Action S B
  ◌>>=◌ m f w = let (r, w') = m w in elim r [ ok a ↦ f a w' | err e ↦ (err e, w') ]

  abbrev pub ◌>>◌ : Action S A → Action S B → Action S B
  m >> n = m >>= λ _. n
