-- ===== src/Api/Verdicts.antt =====
-- What a verdict promises (brain/src/coroner_brain/api.py, sink.py and graph.py).
use coroner.Base.{ℕ, ◌≤◌, true, Option, none, some, [], ◌≡◌, refl, arith}
use coroner.Contract.{Contract, Instant, Micro}
use coroner.Evidence.{ceiling, classify_evidence}
use coroner.Diagnosis.{Outcome, diagnosed, insufficient_context, discarded, Diagnosis}
use coroner.Validate.{validate}
use coroner.Verdict.{DiagnoseResponse}
use coroner.Ledger.{new_row}
use coroner.Graph.State.{State, Pipeline, World}
use coroner.Graph.Nodes.{invoke}
use coroner.Graph.Record.{entry_of}
use coroner.Graph.Sound.{IsAbout, HasGrounds, Stands, invoke-HasGrounds}
use coroner.Sink.{
  outcome_of_value-stored, class_of_text-stored, evidence_of_json-stored, rebuilt, verdict_from_row,
}
use coroner.Api.{response_of}

-- a verdict from what the columns were written from
rebuilt-entry_of :
    (p : Pipeline) (c : Contract) (st : State) (at : Instant) (latency : ℕ) (threshold : Micro)
    (o : Outcome)
    → st.outcome ≡ some o
    → let row = new_row at (entry_of p c st latency) in
      rebuilt row.outcome (some row.evidence_class) (some row.evidence) row threshold
      ≡ some (response_of c st threshold)
unfolding new_row entry_of response_of
rebuilt-entry_of p c st at latency threshold diagnosed h = ground arith
rebuilt-entry_of p c st at latency threshold insufficient_context h = ground arith
rebuilt-entry_of p c st at latency threshold discarded h = ground arith

-- The verdict that is rebuilt from the ledger row of a run, from the texts of its outcome and its
-- evidence class and the JSON of its citations, is the one that build_response shapes from the same
-- run, if that came to an outcome.
pub verdict_from_row-entry_of :
    (p : Pipeline) (c : Contract) (st : State) (at : Instant) (latency : ℕ) (threshold : Micro)
    (o : Outcome)
    → st.outcome ≡ some o
    → verdict_from_row (new_row at (entry_of p c st latency)) threshold
      ≡ some (response_of c st threshold)
unfolding verdict_from_row
verdict_from_row-entry_of p c st at latency threshold o h =
    let row = new_row at (entry_of p c st latency) in
    rw (outcome_of_value-stored row, class_of_text-stored row, evidence_of_json-stored row)
      (rebuilt-entry_of p c st at latency threshold o h)

-- A verdict is verified: it shows a diagnosis that passed validation against the payload that was
-- sent, with a confidence that reaches the threshold and stays under the ceiling of the evidence.
pub record IsVerified (p : Pipeline) (c : Contract) (v : DiagnoseResponse) : Type 0 where
  pub verdict : Diagnosis
  pub valid : validate verdict (p.model_dump c) ≡ []
  pub outcome : v.outcome ≡ diagnosed
  pub action : v.proposed_action ≡ verdict.proposed_action
  pub evidence : v.evidence ≡ verdict.evidence
  pub confidence : Micro
  pub final : v.confidence_final ≡ some confidence
  pub above : p.threshold ≤ confidence
  pub capped : confidence ≤ ceiling (classify_evidence c)

module _ (p : Pipeline) (c : Contract) (st : State) where
  Stands-IsVerified :
      IsAbout p c st
      → st.outcome ≡ some diagnosed
      → Stands p.threshold st
      → IsVerified p c (response_of c st p.threshold)
  unfolding response_of
  Stands-IsVerified a o s = record {
    verdict = s.verdict;
    valid = ground (arith, a.payload, s.valid);
    outcome = ground arith;
    action = ground (arith, s.held);
    evidence = ground (arith, s.held);
    confidence = s.confidence;
    final = ground (arith, s.final);
    above = s.above;
    capped = ground (arith, s.capped, a.evidence_class);
  }

  grounds-IsVerified :
      (o : Option Outcome)
      → st.outcome ≡ o
      → IsAbout p c st
      → HasGrounds p.threshold o st
      → (response_of c st p.threshold).approvable ≡ true
      → IsVerified p c (response_of c st p.threshold)
  unfolding response_of
  grounds-IsVerified none e a g h = absurd g
  grounds-IsVerified (some diagnosed) e a g h = Stands-IsVerified a e g
  grounds-IsVerified (some insufficient_context) e a g h = absurd (ground arith)
  grounds-IsVerified (some discarded) e a g h = absurd (ground arith)

-- A verdict that may be approved is verified: approval is offered only for a diagnosis that passed
-- validation, with its action, and with a confidence between the threshold and the ceiling.
pub approvable-IsVerified :
    (p : Pipeline) (c : Contract) (st : State) (w w' : World)
    → invoke p c w ≡ some (st, w')
    → (response_of c st p.threshold).approvable ≡ true
    → IsVerified p c (response_of c st p.threshold)
approvable-IsVerified p c st w w' e h =
    let (a, g) = invoke-HasGrounds p c st w w' e in grounds-IsVerified p c st st.outcome refl a g h
