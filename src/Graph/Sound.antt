-- ===== src/Graph/Sound.antt =====
-- What the result of the diagnosis graph rests on (brain/src/coroner_brain/graph.py).
use coroner.Base.{
  ◌⊎◌, false, ℕ, zero, suc, ◌+◌, ◌*◌, ◌≤◌, true, Option, none, some, is_some, ◌≡◌, refl, arith, ltb,
  leb, Bool-cases, subst, inl, inr, List, [], ◌∷◌, ◌∙◌, sym,
}
use coroner.Contract.{Contract, Micro}
use coroner.Diagnosis.{
  Outcome, diagnosed, insufficient_context, discarded, Diagnosis, Failure, AbstainReason, gated,
}
use coroner.Evidence.{gate, GateReason, ceiling, classify_evidence}
use coroner.Validate.{validate}
use coroner.Graph.State.{State, Pipeline, World}
use coroner.Graph.Ends.{Attempted, diagnose-Attempted, AllOf, AllOf-map}
use coroner.Graph.Nodes.{
  Node, evidence_gate_node, diagnose_node, validate_node, diagnosed_node, insufficient_node,
  discarded_node, visit, edge, after_validate, validate_state, validated, on_report, evidence_gate,
  lower_of, gated_state, insufficient, abstained, run_from, leave, enter, classify, invoke,
}

-- A diagnosis stands: it passed validation, and its final confidence is the lower of the model's
-- and the ceiling of the evidence, and no lower than the threshold.
pub record Stands (threshold : Micro) (st : State) : Type 0 where
  pub verdict : Diagnosis
  pub held : st.diagnosis ≡ some verdict
  pub valid : validate verdict st.payload ≡ []
  pub confidence : Micro
  pub final : st.confidence_final ≡ some confidence
  pub above : threshold ≤ confidence
  pub capped : confidence ≤ ceiling st.evidence_class
  pub lowered : confidence ≤ verdict.confidence
  pub attained : (confidence ≡ ceiling st.evidence_class) ⊎ (confidence ≡ verdict.confidence)

-- Each outcome has what it needs.
abbrev pub HasGrounds : Micro → Option Outcome → State → Type 0
HasGrounds threshold none st = ⊥
HasGrounds threshold (some diagnosed) st = Stands threshold st
HasGrounds threshold (some insufficient_context) st = is_some st.abstain_reason ≡ true
HasGrounds threshold (some discarded) st = is_some st.discard_reason ≡ true

module _ (p : Pipeline) (c : Contract) where
  -- The state is about the incident that the run was called with.
  pub record IsAbout (st : State) : Type 0 where
    pub contract : st.contract ≡ c
    pub payload : st.payload ≡ p.model_dump c
    pub evidence_class : st.evidence_class ≡ classify_evidence c

  -- What holds before each node.
  abbrev Before : Node → State → Type 0
  Before diagnosed_node st = Stands p.threshold st
  Before insufficient_node st = Unit
  Before discarded_node st = is_some st.discard_reason ≡ true
  Before _ st = st.outcome ≡ none

  -- What holds once the node has run: the invariant of the next, or the result.
  abbrev After : Option Node → State → Type 0
  After none st = IsAbout st × HasGrounds p.threshold st.outcome st
  After (some node) st = IsAbout st × Before node st

  After-gate :
      (o : Option GateReason) (st : State)
      → IsAbout st
      → After (edge p evidence_gate_node (gated_state o st)) (gated_state o st)
  unfolding edge
  After-gate none st a = (
    record { contract = a.contract; payload = a.payload; evidence_class = a.evidence_class },
    refl,
  )
  After-gate (some r) st a =
      (record { contract = a.contract; payload = a.payload; evidence_class = a.evidence_class }, tt)

  -- the invariant of the node that the edge leads to
  at_edge : (o o' : Option Node) (st : State) → o ≡ o' → After o' st → After o st
  at_edge o o' st e h = subst (λ x. After x st) (sym e) h

  After-diagnose :
      (st st' : State)
      → IsAbout st
      → st.outcome ≡ none
      → Attempted st st'
      → After (edge p diagnose_node st') st'
  unfolding edge
  After-diagnose st st' a h t =
      let about : IsAbout st' = record {
        contract = t.contract ∙ a.contract;
        payload = t.payload ∙ a.payload;
        evidence_class = t.evidence_class ∙ a.evidence_class;
      } in
      elim t.ended [
        | inl (o, r) ↦ at_edge _ (some discarded_node) st' (ground arith) (about, r)
        | inr e ↦ at_edge _ (some validate_node) st' (ground arith) (about, e ∙ h)
      ]

  After-failure :
      (f : Failure) (fs : List Failure) (d : Diagnosis) (st : State)
      → IsAbout st
      → st.outcome ≡ none
      → let st' = on_report (f ∷ fs) d st in After (edge p validate_node st') st'
  unfolding edge after_validate
  After-failure f fs d st a h =
      let st' = on_report (f ∷ fs) d st in
      let about : IsAbout st' = record {
        contract = a.contract;
        payload = a.payload;
        evidence_class = a.evidence_class;
      } in
      elim (Bool-cases (leb st.attempts p.max_retries)) [
        | inl e ↦
            at_edge (edge p validate_node st') (some diagnose_node) st' (ground arith) (about, h)
        | inr e ↦
            at_edge (edge p validate_node st') (some insufficient_node) st' (ground arith)
              (about, tt)
      ]

  judgement :
      (d : Diagnosis) (st : State)
      → st.diagnosis ≡ some d
      → validate d st.payload ≡ []
      → ltb (lower_of d.confidence (ceiling st.evidence_class)) p.threshold ≡ false
      → Stands p.threshold (on_report [] d st)
  judgement d st e v enough = record {
    verdict = d;
    held = e;
    valid = v;
    confidence = lower_of d.confidence (ceiling st.evidence_class);
    final = refl;
    above = ground arith;
    capped = ground arith;
    lowered = ground arith;
    attained = ground arith;
  }

  After-success :
      (d : Diagnosis) (st : State)
      → st.diagnosis ≡ some d
      → validate d st.payload ≡ []
      → IsAbout st
      → let st' = on_report [] d st in After (edge p validate_node st') st'
  unfolding edge after_validate
  After-success d st e v a =
      let st' = on_report [] d st in
      let about : IsAbout st' = record {
        contract = a.contract;
        payload = a.payload;
        evidence_class = a.evidence_class;
      } in
      elim (Bool-cases (ltb (lower_of d.confidence (ceiling st.evidence_class)) p.threshold)) [
        | inl low ↦
            at_edge (edge p validate_node st') (some insufficient_node) st' (ground arith)
              (about, tt)
        | inr enough ↦
            at_edge (edge p validate_node st') (some diagnosed_node) st' (ground arith)
              (about, judgement d st e v enough)
      ]

  judged :
      (fs : List Failure) (d : Diagnosis) (st : State)
      → st.diagnosis ≡ some d
      → validate d st.payload ≡ fs
      → IsAbout st
      → st.outcome ≡ none
      → After (edge p validate_node (on_report fs d st)) (on_report fs d st)
  judged [] d st e v a h = After-success d st e v a
  judged (f ∷ fs) d st e v a h = After-failure f fs d st a h

  After-no_diagnosis :
      (st : State)
      → st.diagnosis ≡ none
      → IsAbout st
      → st.outcome ≡ none
      → After (edge p validate_node st) st
  unfolding edge after_validate
  After-no_diagnosis st e a h = elim (Bool-cases (leb st.attempts p.max_retries)) [
    | inl k ↦ at_edge (edge p validate_node st) (some diagnose_node) st (ground arith) (a, h)
    | inr k ↦ at_edge (edge p validate_node st) (some insufficient_node) st (ground arith) (a, tt)
  ]

  After-validated :
      (o : Option Diagnosis) (st : State)
      → st.diagnosis ≡ o
      → IsAbout st
      → st.outcome ≡ none
      → After (edge p validate_node (validated o st)) (validated o st)
  After-validated none st e a h = After-no_diagnosis st e a h
  After-validated (some d) st e a h = judged (validate d st.payload) d st e refl a h

  After-insufficient :
      (o : Option AbstainReason) (st : State)
      → st.abstain_reason ≡ o
      → IsAbout st
      → After none (abstained o st)
  After-insufficient none st e a = (
    record { contract = a.contract; payload = a.payload; evidence_class = a.evidence_class },
    refl,
  )
  After-insufficient (some r) st e a = (
    record { contract = a.contract; payload = a.payload; evidence_class = a.evidence_class },
    ground arith,
  )

  -- Each node keeps the invariant.
  visit-After :
      (node : Node) (st : State) (w : World)
      → IsAbout st
      → Before node st
      → AllOf p (λ st'. After (edge p node st') st') (visit p node st w)
  unfolding visit evidence_gate validate_state insufficient edge
  visit-After evidence_gate_node st w a b = After-gate _ st a
  visit-After diagnose_node st w a b =
      AllOf-map p _ (λ st' t. After-diagnose st st' a b t) (diagnose-Attempted p st w)
  visit-After validate_node st w a b = After-validated st.diagnosis st refl a b
  visit-After diagnosed_node st w a b = (
    record { contract = a.contract; payload = a.payload; evidence_class = a.evidence_class },
    record {
      verdict = b.verdict;
      held = b.held;
      valid = b.valid;
      confidence = b.confidence;
      final = b.final;
      above = b.above;
      capped = b.capped;
      lowered = b.lowered;
      attained = b.attained;
    },
  )
  visit-After insufficient_node st w a b = After-insufficient st.abstain_reason st refl a
  visit-After discarded_node st w a b =
      (record { contract = a.contract; payload = a.payload; evidence_class = a.evidence_class }, b)

  Keeps : ℕ → Type 0
  Keeps fuel =
      (node : Node) (st st' : State) (w w' : World)
      → IsAbout st
      → Before node st
      → run_from p fuel node st w ≡ some (st', w')
      → After none st'

  entered :
      (fuel : ℕ) (o : Option Node) (st st' : State) (w w' : World)
      → Keeps fuel
      → After o st
      → enter p (run_from p fuel) o st w ≡ some (st', w')
      → After none st'
  unfolding Keeps
  entered fuel none st st' w w' k h e = subst (After none) (ground arith) h
  entered fuel (some node) st st' w w' k h e = k node st st' w w' h.0 h.1 e

  left :
      (fuel : ℕ) (node : Node) (o : Option (State × World)) (st' : State) (w' : World)
      → Keeps fuel
      → AllOf p (λ st. After (edge p node st) st) o
      → leave p (run_from p fuel) node o ≡ some (st', w')
      → After none st'
  left fuel node none st' w' k h e = absurd h
  left fuel node (some (st, w)) st' w' k h e = entered fuel (edge p node st) st st' w w' k h e

  keeps : (fuel : ℕ) → Keeps fuel
  unfolding Keeps run_from
  keeps zero node st st' w w' a b e = absurd (ground arith)
  keeps (suc fuel) node st st' w w' a b e =
      left fuel node (visit p node st w) st' w' (keeps fuel) (visit-After node st w a b) e

-- A run of the diagnosis graph is about the contract that it was called with, and ends with an
-- outcome that has its grounds: a diagnosis only if it passed validation against the payload that
-- was sent, its final confidence being the lower of the model's and the ceiling of the evidence,
-- and no lower than the threshold; an abstention only with a reason; a discard only with a reason.
pub invoke-HasGrounds :
    (p : Pipeline) (c : Contract) (st : State) (w w' : World)
    → invoke p c w ≡ some (st, w')
    → IsAbout p c st × HasGrounds p.threshold st.outcome st
unfolding invoke classify Keeps
invoke-HasGrounds p c st w w' e =
    keeps p c (p.max_retries * 2 + 4) evidence_gate_node _ st _ w'
      (record { contract = refl; payload = refl; evidence_class = refl }) refl e

gate_stops :
    (p : Pipeline) (fuel : ℕ) (st : State) (w : World) (r : GateReason)
    → gate st.contract st.evidence_class ≡ some r
    → run_from p (suc (suc fuel)) evidence_gate_node st w
      ≡ some (record st { outcome = some insufficient_context; abstain_reason = some (gated r) }, w)
unfolding run_from visit edge evidence_gate insufficient
gate_stops p fuel st w r h = ground arith

-- What a run that the gate stopped comes to: an abstention with the gate's reason, and no call.
pub record StoppedBy (p : Pipeline) (c : Contract) (w : World) (r : GateReason) : Type 0 where
  pub state : State
  pub world : World
  pub ran : invoke p c w ≡ some (state, world)
  pub outcome : state.outcome ≡ some insufficient_context
  pub reason : state.abstain_reason ≡ some (gated r)
  pub calls : world.calls ≡ w.calls

-- A run on an incident that the evidence gate stops abstains with the reason of the gate, and
-- never calls the model.
pub gate_before_model :
    (p : Pipeline) (c : Contract) (w : World) (r : GateReason)
    → gate c (classify_evidence c) ≡ some r
    → StoppedBy p c w r
unfolding invoke classify
gate_before_model p c w r h =
    let (st, w') = classify p c w in
    let enough : p.max_retries * 2 + 4 ≡ suc (suc (p.max_retries * 2 + 2)) = omega arith in
    record {
      state = record st { outcome = some insufficient_context; abstain_reason = some (gated r) };
      world = w';
      ran = rw enough (gate_stops p (p.max_retries * 2 + 2) st w' r h);
      outcome = refl;
      reason = refl;
      calls = refl;
    }
