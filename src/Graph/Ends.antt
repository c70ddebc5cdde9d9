-- ===== src/Graph/Ends.antt =====
-- How long the diagnosis graph runs (brain/src/coroner_brain/graph.py).
use coroner.Base.{
  ℕ, zero, suc, ◌+◌, ◌*◌, ◌≤◌, true, Option, none, some, is_some, ◌≡◌, refl, arith, inl, inr, List,
  [], ◌∷◌, ◌⊎◌,
}
use coroner.Contract.{Contract}
use coroner.Diagnosis.{discarded, Diagnosis, Failure}
use coroner.Evidence.{gate, GateReason}
use coroner.Graph.State.{State, Pipeline, World, Parsed, malformed, parsed, after_reads}
use coroner.Graph.Call.{Called, answered, unavailable}
use coroner.Graph.Calls.{Within, call_with_deadline-Within}
use coroner.Graph.Nodes.{
  Node, evidence_gate_node, diagnose_node, validate_node, diagnosed_node, insufficient_node,
  discarded_node, visit, edge, after_validate, diagnose, diagnose_within, map_called, on_called,
  on_parsed, spend, validate_state, validated, on_report, evidence_gate, gated_state, run_from,
  leave, enter, classify, invoke, request,
}

Within-is_some : (b : ℕ) (w : World) (o : Option (Called × World)) → Within b w o → is_some o ≡ true
Within-is_some b w none h = absurd h
Within-is_some b w (some c) h = refl

-- What one attempt leaves as it was, and how it may end.
pub record Attempted (st st' : State) : Type 0 where
  pub contract : st'.contract ≡ st.contract
  pub payload : st'.payload ≡ st.payload
  pub evidence_class : st'.evidence_class ≡ st.evidence_class
  pub abstain_reason : st'.abstain_reason ≡ st.abstain_reason
  pub attempts : st'.attempts ≡ suc st.attempts
  pub ended :
      ((st'.outcome ≡ some discarded) × (is_some st'.discard_reason ≡ true))
      ⊎ (st'.outcome ≡ st.outcome)

module _ (p : Pipeline) where
  on_parsed-Attempted :
      (o : Parsed) (w : World) (st : State)
      → Attempted st (on_parsed o (st.attempts + 1) (spend w st))
  on_parsed-Attempted (malformed n) w st = record {
    contract = refl;
    payload = refl;
    evidence_class = refl;
    abstain_reason = refl;
    attempts = omega arith;
    ended = inr refl;
  }
  on_parsed-Attempted (parsed d) w st = record {
    contract = refl;
    payload = refl;
    evidence_class = refl;
    abstain_reason = refl;
    attempts = omega arith;
    ended = inr refl;
  }

  on_called-Attempted :
      (st : State) (c : Called × World) → Attempted st (on_called p (st.attempts + 1) st c).0
  on_called-Attempted st (answered raw, w) = on_parsed-Attempted (p.model_validate_json raw) w st
  on_called-Attempted st (unavailable reason, w) = record {
    contract = refl;
    payload = refl;
    evidence_class = refl;
    abstain_reason = refl;
    attempts = omega arith;
    ended = inl (refl, refl);
  }

  -- The state that a node leaves, where it leaves one.
  abbrev pub AllOf : (State → Type 0) → Option (State × World) → Type 0
  AllOf P none = ⊥
  AllOf P (some (st, w)) = P st

  map_called-Attempted :
      (st : State) (o : Option (Called × World))
      → is_some o ≡ true
      → AllOf (Attempted st) (map_called p (st.attempts + 1) st o)
  map_called-Attempted st none h = absurd (ground arith)
  map_called-Attempted st (some c) h = on_called-Attempted st c

  diagnose_within-Attempted :
      (remaining : ℕ) (st : State) (w : World)
      → AllOf (Attempted st) (diagnose_within p remaining st w)
  unfolding diagnose_within
  diagnose_within-Attempted zero st w = record {
    contract = refl;
    payload = refl;
    evidence_class = refl;
    abstain_reason = refl;
    attempts = omega arith;
    ended = inl (refl, refl);
  }
  diagnose_within-Attempted (suc remaining) st w = map_called-Attempted st _ (
      Within-is_some (suc remaining) w _
        (call_with_deadline-Within p (suc remaining) (request p st) w))

  pub diagnose-Attempted : (st : State) (w : World) → AllOf (Attempted st) (diagnose p st w)
  unfolding diagnose
  diagnose-Attempted st w = diagnose_within-Attempted _ st (after_reads 2 w)

  -- The fuel that is enough from a node on.
  abbrev Enough : ℕ → Node → State → Type 0
  Enough fuel evidence_gate_node st = (st.attempts ≡ 0) × (p.max_retries * 2 + 4 ≤ fuel)
  Enough fuel diagnose_node st =
      (st.attempts ≤ p.max_retries) × (p.max_retries * 2 + 3 ≤ fuel + st.attempts * 2)
  Enough fuel validate_node st = (2 ≤ fuel) × (p.max_retries * 2 + 4 ≤ fuel + st.attempts * 2)
  Enough fuel _ st = 1 ≤ fuel

  abbrev EnoughNext : ℕ → Option Node → State → Type 0
  EnoughNext fuel none st = Unit
  EnoughNext fuel (some node) st = Enough fuel node st

  Ends : ℕ → Type 0
  Ends fuel =
      (node : Node) (st : State) (w : World)
      → Enough fuel node st
      → is_some (run_from p fuel node st w) ≡ true

  enter-is_some :
      (fuel : ℕ) (o : Option Node) (st : State) (w : World)
      → Ends fuel
      → EnoughNext fuel o st
      → is_some (enter p (run_from p fuel) o st w) ≡ true
  unfolding Ends
  enter-is_some fuel none st w h e = refl
  enter-is_some fuel (some node) st w h e = h node st w e

  leave-is_some :
      (fuel : ℕ) (node : Node) (o : Option (State × World))
      → Ends fuel
      → AllOf (λ st. EnoughNext fuel (edge p node st) st) o
      → is_some (leave p (run_from p fuel) node o) ≡ true
  leave-is_some fuel node none h e = absurd e
  leave-is_some fuel node (some (st, w)) h e = enter-is_some fuel (edge p node st) st w h e

  gated-attempts : (o : Option GateReason) (st : State) → (gated_state o st).attempts ≡ st.attempts
  gated-attempts none st = refl
  gated-attempts (some r) st = refl

  gate-attempts : (st : State) → (evidence_gate st).attempts ≡ st.attempts
  unfolding evidence_gate
  gate-attempts st = gated-attempts (gate st.contract st.evidence_class) st

  report-attempts :
      (fs : List Failure) (d : Diagnosis) (st : State) → (on_report fs d st).attempts ≡ st.attempts
  report-attempts [] d st = refl
  report-attempts (f ∷ fs) d st = refl

  validated-attempts : (o : Option Diagnosis) (st : State) → (validated o st).attempts ≡ st.attempts
  validated-attempts none st = refl
  validated-attempts (some d) st = report-attempts _ d st

  validate-attempts : (st : State) → (validate_state st).attempts ≡ st.attempts
  unfolding validate_state
  validate-attempts st = validated-attempts st.diagnosis st

  Enough-gate :
      (fuel : ℕ) (st st' : State)
      → Enough (suc fuel) evidence_gate_node st
      → st'.attempts ≡ st.attempts
      → EnoughNext fuel (edge p evidence_gate_node st') st'
  unfolding edge
  Enough-gate fuel st st' e a = ground arith

  Enough-diagnose :
      (fuel : ℕ) (st st' : State)
      → Enough (suc fuel) diagnose_node st
      → st'.attempts ≡ suc st.attempts
      → EnoughNext fuel (edge p diagnose_node st') st'
  unfolding edge
  Enough-diagnose fuel st st' e a = ground arith

  Enough-validate :
      (fuel : ℕ) (st st' : State)
      → Enough (suc fuel) validate_node st
      → st'.attempts ≡ st.attempts
      → EnoughNext fuel (edge p validate_node st') st'
  unfolding edge after_validate
  Enough-validate fuel st st' e a = ground arith

  pub AllOf-map :
      {P Q : State → Type 0} (o : Option (State × World))
      → ((st : State) → P st → Q st)
      → AllOf P o
      → AllOf Q o
  AllOf-map none f h = h
  AllOf-map (some (st, w)) f h = f st h

  ends : (fuel : ℕ) → Ends fuel
  unfolding run_from visit Ends edge
  ends zero evidence_gate_node st w e = absurd (omega arith)
  ends zero diagnose_node st w e = absurd (omega arith)
  ends zero validate_node st w e = absurd (omega arith)
  ends zero diagnosed_node st w e = absurd (omega arith)
  ends zero insufficient_node st w e = absurd (omega arith)
  ends zero discarded_node st w e = absurd (omega arith)
  ends (suc fuel) evidence_gate_node st w e =
      leave-is_some fuel evidence_gate_node (some (evidence_gate st, w)) (ends fuel)
        (Enough-gate fuel st (evidence_gate st) e (gate-attempts st))
  ends (suc fuel) diagnose_node st w e =
      leave-is_some fuel diagnose_node _ (ends fuel)
        (AllOf-map _ (λ st' a. Enough-diagnose fuel st st' e a.attempts) (diagnose-Attempted st w))
  ends (suc fuel) validate_node st w e =
      leave-is_some fuel validate_node (some (validate_state st, w)) (ends fuel)
        (Enough-validate fuel st (validate_state st) e (validate-attempts st))
  ends (suc fuel) diagnosed_node st w e = refl
  ends (suc fuel) insufficient_node st w e = refl
  ends (suc fuel) discarded_node st w e = refl

  -- The diagnosis graph always ends, whatever the model answers and however its clock runs.
  pub invoke-is_some : (c : Contract) (w : World) → is_some (invoke p c w) ≡ true
  unfolding invoke classify Ends
  invoke-is_some c w = ends (p.max_retries * 2 + 4) evidence_gate_node _ _ (refl, omega arith)
