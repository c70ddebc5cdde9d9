-- ===== src/Api/Answered.antt =====
-- What the agent is answered with and what is on record (`build_response` and `deliver` of
-- brain/src/coroner_brain/api.py, `run` of graph.py, `verdict_from_row` of sink.py).
use coroner.Base.{
  ◌+◌, ◌-◌, ◌/◌, eq_iff, String, ◌≡◌, refl, Bool, Option, none, some, arith, Option-cases, inl, inr,
}
use coroner.Contract.{Contract, Instant, Micro}
use coroner.Diagnosis.{Outcome}
use coroner.Verdict.{Mode, DiagnoseResponse}
use coroner.Inflight.{InFlightStore}
use coroner.Ledger
use coroner.Ledger.{LedgerEntry, Row, Table, new_row, record_entry}
use coroner.Ledger.Keys.{get-record_entry}
use coroner.Graph.State.{State, Pipeline, World as GraphWorld, now}
use coroner.Graph.Nodes.{invoke}
use coroner.Graph.Record.{entry_of, run, record_run}
use coroner.Graph.Ends.{invoke-is_some}
use coroner.Graph.Sound.{HasGrounds, invoke-HasGrounds}
use coroner.Sink.{Notice, verdict_from_row}
use coroner.Approval.{Pending, PendingRecord, World, ok}
use coroner.Approval.Rules.{Setup}
use coroner.Approval.Park.{offered, register, pending_of}
use coroner.Approval.Parked.{register_parks}
use coroner.Api.{response_of, deliver, notice_of}
use coroner.Api.Verdicts.{verdict_from_row-entry_of}

-- What is on record after a run: its row, from which the verdict of the run is rebuilt.
record OnRecord (c : Contract) (st : State) (threshold : Micro) (t : Table) : Type 0 where
  pub row : Row
  pub found : Ledger.get c.incident_id t ≡ some row
  pub rebuilt : verdict_from_row row threshold ≡ some (response_of c st threshold)

has_outcome :
    (threshold : Micro) (o : Option Outcome) (st : State)
    → HasGrounds threshold o st
    → (x : Outcome) × (o ≡ some x)
has_outcome threshold none st g = absurd g
has_outcome threshold (some x) st g = (x, refl)

module _ (p : Pipeline) (at : Instant) (c : Contract) (threshold : Micro) (t : Table) where
  row_found :
      (e : LedgerEntry)
      → e.incident_id ≡ c.incident_id
      → Ledger.get c.incident_id (record_entry at e t) ≡ some (new_row at e)
  row_found e h =
      ground (arith, get-record_entry at e c.incident_id t, eq_iff e.incident_id c.incident_id)

  record_run-OnRecord :
      (st : State) (w : GraphWorld) (x : Outcome)
      → st.outcome ≡ some x
      → OnRecord c st threshold (record_run p at c st w t).1
  unfolding record_run entry_of
  record_run-OnRecord st w x h = record {
    row = new_row at (entry_of p c st ((now p w - st.started_at) / 1000));
    found = row_found _ refl;
    rebuilt = verdict_from_row-entry_of p c st at _ threshold x h;
  }

  -- a run that has ended with its verdict on record
  record Ran (g : GraphWorld) : Type 0 where
    pub state : State
    pub graph : GraphWorld
    pub table : Table
    pub ran : run p at c g t ≡ some (state, graph, table)
    pub on_record : OnRecord c state threshold table

  run-Ran : (g : GraphWorld) → Ran g
  unfolding run
  run-Ran g = elim (Option-cases (invoke p c g)) [
    | inl e ↦ absurd (ground (arith, invoke-is_some p c g))
    | inr ((st, v), e) ↦
        let (a, grounds) = invoke-HasGrounds p c st g v e in
        let (x, h) = has_outcome p.threshold st.outcome st grounds in
        record {
          state = st;
          graph = (record_run p at c st v t).0;
          table = (record_run p at c st v t).1;
          ran = rw e refl;
          on_record = record_run-OnRecord st v x h;
        }
  ]

module _ {S : InFlightStore PendingRecord} (setup : Setup) (accepts : Notice → Bool) (url : String)
    (mode : Mode) (c : Contract) where
  register-nothing :
      (v : DiagnoseResponse) (w : World S)
      → offered mode v ≡ none
      → register setup c v mode w ≡ (ok none, w)
  unfolding register
  register-nothing v w e = rw e refl

  -- what `deliver` answers: the verdict with its mode, and whether the sink took the notice
  record Delivered (v : DiagnoseResponse) (w : World S) : Type 0 where
    pub parked : Option Pending
    pub world : World S
    pub answered : deliver setup accepts url mode v c w ≡ (
      ok (record v { delivered = accepts (notice_of c v mode url parked); mode = some mode }),
      world,
    )
    pub kept : world.ledger ≡ w.ledger

  deliver-Delivered :
      (v : DiagnoseResponse) (w : World S) → c.incident_id ≡ v.incident_id → Delivered v w
  unfolding deliver
  deliver-Delivered v w same = elim (Option-cases (offered mode v)) [
    | inl e ↦ record {
      parked = none;
      world = w;
      answered = ground (arith, register-nothing v w e);
      kept = refl;
    }
    | inr (confidence, e) ↦ record {
      parked = some (pending_of setup v confidence (setup.clock w.reads));
      world = (register setup c v mode w).1;
      answered = ground (arith, register_parks setup c v mode confidence w e same);
      kept = rw (register_parks setup c v mode confidence w e same) refl;
    }
  ]

module _ {S : InFlightStore PendingRecord} (p : Pipeline) (setup : Setup) (accepts : Notice → Bool)
    (url : String) (mode : Mode) (threshold : Micro) (c : Contract) (g : GraphWorld)
    (w : World S) where
  -- A diagnosis from the request to its answer: the run, its row in the ledger when the answer is
  -- given, and the answer, which is the verdict rebuilt from that row, with its mode and whether the
  -- sink took it.
  pub record Answered : Type 0 where
    pub state : State
    pub graph : GraphWorld
    pub table : Table
    pub ran : run p (setup.clock w.reads) c g w.ledger ≡ some (state, graph, table)
    pub verdict : DiagnoseResponse
    pub parked : Option Pending
    pub world : World S
    pub answered :
        deliver setup accepts url mode
          (response_of c state threshold)
          c
          (record w { ledger = table; reads = w.reads + 1 })
        ≡ (
          ok (record verdict {
            delivered = accepts (notice_of c verdict mode url parked);
            mode = some mode;
          }),
          world,
        )
    pub row : Row
    pub found : Ledger.get c.incident_id world.ledger ≡ some row
    pub rebuilt : verdict_from_row row threshold ≡ some verdict

  -- A diagnosis always comes to an answer, whatever the model replies and whether or not the sink
  -- takes the notice. When the answer is given the ledger holds the row of the incident, and the
  -- answer is the verdict that verdict_from_row rebuilds from that row, but for two fields: its mode
  -- is the one that it was delivered in, and it says whether the sink took the notice.
  pub diagnose-Answered : Answered
  unfolding response_of
  diagnose-Answered =
      let r = run-Ran p (setup.clock w.reads) c threshold w.ledger g in
      let v = response_of c r.state threshold in
      let d =
        deliver-Delivered setup accepts url mode c v
          (record w { ledger = r.table; reads = w.reads + 1 }) refl in
      record {
        state = r.state;
        graph = r.graph;
        table = r.table;
        ran = r.ran;
        verdict = v;
        parked = d.parked;
        world = d.world;
        answered = d.answered;
        row = r.on_record.row;
        found = rw d.kept r.on_record.found;
        rebuilt = r.on_record.rebuilt;
      }
