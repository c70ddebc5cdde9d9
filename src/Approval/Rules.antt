-- ===== src/Approval/Rules.antt =====
-- The decisions that the approval graph makes without touching the store or the ledger
-- (brain/src/coroner_brain/approval.py).
use coroner.Base.{ℕ, String, Bool, ◌||◌, Option, none, some, or_else, if◌then◌else◌, ◌==◌}
use coroner.Base.Text.{strip}
use coroner.Contract.{Instant}
use coroner.Ledger.{Row, Labels, no_labels, truthy}
use coroner.Approval.Token.{Crypto, sign}
use coroner.Approval.State.{
  Detail, no_such_incident, no_approval_pending, already_decided, Pending, DecisionState,
}

-- What the pipeline is built with: the hash and dates, the secret, the time to live in seconds,
-- and the readings of the clock.
pub record Setup : Type 0 where
  pub crypto : Crypto
  pub secret : String
  pub ttl : ℕ
  pub clock : ℕ → Instant

-- `reason or None`
abbrev pub nonempty : String → Option String
nonempty s = if s == "" then none else some s

unfoldable pub mints : String → Bool
mints decision = decision == "approved" || decision == "edited"

unfoldable pub token_for : Setup → Pending → String → String → String → String
unfolding mints
token_for p pending decision action decided_at =
    if mints decision
    then sign p.crypto p.secret (record {
      incident_id = pending.incident_id;
      context_hash = pending.context_hash;
      decision = decision;
      action = action;
      decided_at = decided_at;
    })
    else ""

abbrev pub decision_labels : String → String → String → String → Labels
decision_labels decision reason action token = record no_labels {
  decision = some decision;
  decision_reason = nonempty reason;
  decision_action = nonempty action;
  approval_token = nonempty token;
}

-- the error of `load` where the store holds nothing
abbrev pub missing : Option Row → ℕ × Detail
missing none = (404, no_such_incident)
missing (some row) =
    if truthy row.decision
    then (409, already_decided (or_else row.decision ""))
    else (404, no_approval_pending)

abbrev pub refuse : ℕ → Detail → DecisionState → DecisionState
refuse status detail st = record st { error = some (status, detail) }

-- the action that a human decision authorises
unfoldable pub resolved_action : String → Pending → String → String
resolved_action decision pending action =
    if decision == "approved"
    then pending.proposed_action
    else if decision == "edited"
    then strip action
    else ""

unfoldable pub is_human : String → Bool
is_human decision = decision == "approved" || decision == "rejected" || decision == "edited"

abbrev pub start_state : String → String → String → String → DecisionState
start_state id decision reason action = record {
  incident_id = id;
  decision = decision;
  reason = reason;
  action = action;
  pending = none;
  error = none;
  decided_at = none;
  resolved_action = "";
  approval_token = "";
}
