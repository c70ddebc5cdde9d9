-- ===== src/Graph/Nodes.antt =====
-- The nodes and the edges of the diagnosis graph (brain/src/coroner_brain/graph.py).
use coroner.Base.{
  ℕ, zero, suc, ◌+◌, ◌-◌, ◌*◌, Bool, true, false, not, ◌||◌, Option, none, some, List, [], ◌∷◌, ltb,
  leb, is_some, is_nil, or_else, map, if◌then◌else◌,
}
use coroner.Contract.{Micro, Contract}
use coroner.Evidence.{GateReason, ceiling, classify_evidence, gate}
use coroner.Diagnosis.{
  Outcome, diagnosed, insufficient_context, discarded, Diagnosis, Failure, did_not_parse,
  AbstainReason, gated, unverified, undetermined, DiscardReason, deadline_spent,
}
use coroner.Json.Dumps.{dumps}
use coroner.Prompts.{system_prompt, user_prompt, render_contract}
use coroner.Validate.{validate}
use coroner.Validate.Failures.{failure_text}
use coroner.Graph.State.{
  State, Request, Parsed, malformed, parsed, Pipeline, World, now, after_reads,
}
use coroner.Graph.Call.{Called, answered, unavailable, call_with_deadline}

pub data Node : Type 0 where
  evidence_gate_node diagnose_node validate_node diagnosed_node insufficient_node discarded_node :
      Node

-- `_spent`
abbrev pub spend : World → State → State
spend w st = record st {
  prompt_tokens = st.prompt_tokens + w.last_usage.prompt_tokens;
  completion_tokens = st.completion_tokens + w.last_usage.completion_tokens;
}

abbrev pub gated_state : Option GateReason → State → State
gated_state none st = record st { outcome = none }
gated_state (some reason) st = record st {
  outcome = some insufficient_context;
  abstain_reason = some (gated reason);
}

unfoldable pub evidence_gate : State → State
evidence_gate st = gated_state (gate st.contract st.evidence_class) st

-- the keys that `_diagnose` returns, by what the call came to
abbrev pub on_parsed : Parsed → ℕ → State → State
on_parsed (malformed errors) attempts st = record st {
  diagnosis = none;
  attempts = attempts;
  validation_failures = did_not_parse errors ∷ [];
}
on_parsed (parsed d) attempts st = record st {
  diagnosis = some d;
  attempts = attempts;
  confidence_model = some d.confidence;
}

abbrev pub discard : DiscardReason → ℕ → State → State
discard reason attempts st = record st {
  attempts = attempts;
  outcome = some discarded;
  discard_reason = some reason;
}

-- the lower of the model's confidence and the cap
abbrev pub lower_of : Micro → Micro → Micro
lower_of confidence cap = if ltb cap confidence then cap else confidence

abbrev pub on_report : List Failure → Diagnosis → State → State
on_report [] d st = record st {
  validation_failures = [];
  confidence_final = some (lower_of d.confidence (ceiling st.evidence_class));
}
on_report (f ∷ failures) d st = record st { validation_failures = f ∷ failures }

abbrev pub validated : Option Diagnosis → State → State
validated none st = st
validated (some d) st = on_report (validate d st.payload) d st

-- the node `validate`
unfoldable pub validate_state : State → State
validate_state st = validated st.diagnosis st

abbrev pub abstention : State → AbstainReason
abstention st =
    if is_nil st.validation_failures
    then undetermined
    else unverified st.attempts st.validation_failures

abbrev pub abstained : Option AbstainReason → State → State
abstained (some reason) st = record st { outcome = some insufficient_context }
abstained none st = record st {
  outcome = some insufficient_context;
  abstain_reason = some (abstention st);
}

unfoldable pub insufficient : State → State
insufficient st = abstained st.abstain_reason st

abbrev pub is_discarded : Option Outcome → Bool
is_discarded (some discarded) = true
is_discarded _ = false

module _ (p : Pipeline) where
  unfoldable pub classify : Contract → World → State × World
  classify c w =
      let payload = p.model_dump c in
      (
        record {
          contract = c;
          payload = payload;
          evidence_class = classify_evidence c;
          outcome = none;
          abstain_reason = none;
          diagnosis = none;
          confidence_model = none;
          confidence_final = none;
          validation_failures = [];
          attempts = 0;
          context_hash = p.digest (dumps payload);
          started_at = now p w;
          discard_reason = none;
          prompt_tokens = 0;
          completion_tokens = 0;
        },
        after_reads 1 w,
      )

  unfoldable pub request : State → Request
  request st = record {
    system = system_prompt st.contract.failure_type;
    user =
        user_prompt (render_contract st.payload)
          (map (failure_text p.is_printable) st.validation_failures);
  }

  abbrev pub on_called : ℕ → State → Called × World → State × World
  on_called attempts st (answered raw, w) =
      (on_parsed (p.model_validate_json raw) attempts (spend w st), w)
  on_called attempts st (unavailable reason, w) = (discard reason attempts (spend w st), w)

  abbrev pub map_called : ℕ → State → Option (Called × World) → Option (State × World)
  map_called attempts st none = none
  map_called attempts st (some c) = some (on_called attempts st c)

  -- `_diagnose` from its reading of the clock on: the time left is the deadline less the elapsed
  unfoldable pub diagnose_within : ℕ → State → World → Option (State × World)
  diagnose_within zero st w =
      some (discard (deadline_spent (st.attempts + 1)) (st.attempts + 1) st, w)
  diagnose_within (suc remaining) st w =
      map_called (st.attempts + 1) st (call_with_deadline p (suc remaining) (request st) w)

  -- the default of `state.get("started_at", self._clock())` reads the clock too
  unfoldable pub diagnose : State → World → Option (State × World)
  unfolding diagnose_within
  diagnose st w = diagnose_within (p.deadline - (now p w - st.started_at)) st (after_reads 2 w)

  unfoldable pub visit : Node → State → World → Option (State × World)
  unfolding diagnose
  visit evidence_gate_node st w = some (evidence_gate st, w)
  visit diagnose_node st w = diagnose st w
  visit validate_node st w = some (validate_state st, w)
  visit diagnosed_node st w = some (record st { outcome = some diagnosed }, w)
  visit insufficient_node st w = some (insufficient st, w)
  visit discarded_node st w = some (record st { outcome = some discarded }, w)

  unfoldable pub after_validate : State → Node
  after_validate st =
      if not (is_some st.diagnosis) || not (is_nil st.validation_failures)
      then (if leb st.attempts p.max_retries then diagnose_node else insufficient_node)
      else if ltb (or_else st.confidence_final 0) p.threshold
      then insufficient_node
      else diagnosed_node

  -- the node that follows, if any
  unfoldable pub edge : Node → State → Option Node
  unfolding after_validate
  edge evidence_gate_node st =
      if is_some st.outcome then some insufficient_node else some diagnose_node
  edge diagnose_node st =
      if is_discarded st.outcome then some discarded_node else some validate_node
  edge validate_node st = some (after_validate st)
  edge _ st = none

  -- what is run from a node on
  abbrev pub Runner : Type 0
  Runner = Node → State → World → Option (State × World)

  abbrev pub enter : Runner → Option Node → State → World → Option (State × World)
  enter runner none st w = some (st, w)
  enter runner (some node) st w = runner node st w

  abbrev pub leave : Runner → Node → Option (State × World) → Option (State × World)
  leave runner node none = none
  leave runner node (some (st, w)) = enter runner (edge node st) st w

  -- the compiled graph from a node on; `none` is a run out of fuel
  unfoldable pub run_from : ℕ → Runner
  unfolding visit edge
  run_from zero node st w = none
  run_from (suc fuel) node st w = leave (run_from fuel) node (visit node st w)

  -- the gate, two nodes for each attempt, and the terminal
  unfoldable pub invoke : Contract → World → Option (State × World)
  unfolding run_from
  invoke c w =
      let (st, w') = classify c w in run_from (p.max_retries * 2 + 4) evidence_gate_node st w'
