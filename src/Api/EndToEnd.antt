-- ===== src/Api/EndToEnd.antt =====
-- From a diagnosis to its approval (`diagnose` and `decide` of brain/src/coroner_brain/api.py).
use coroner.Base.{
  ℕ, ◌+◌, ◌-◌, ◌/◌, ◌<◌, String, ◌≡◌, refl, true, false, Option, none, some, List, arith, eq_iff,
  Option-cases, inl, inr,
}
use coroner.Contract.{Contract, Instant, Micro}
use coroner.Verdict.{live, DiagnoseResponse}
use coroner.Inflight.{InFlightStore, seconds}
use coroner.Ledger
use coroner.Ledger.{Table, Row, new_row, record_entry, truthy}
use coroner.Ledger.Keys.{get-record_entry}
use coroner.Graph.State.{State, Pipeline, World as GraphWorld, now}
use coroner.Graph.Nodes.{invoke}
use coroner.Graph.Record.{run, recorded, record_run, entry_of}
use coroner.Approval.{PendingRecord, World, to_record, from_record-to_record}
use coroner.Approval.Rules.{Setup, is_human}
use coroner.Approval.Pipeline
use coroner.Approval.Park.{register, offered, pending_of}
use coroner.Approval.Parked.{register_parks, register_parked}
use coroner.Approval.Completes.{decide_completes, IsComplete, is_ok}
use coroner.Api.{response_of, deliver}
use coroner.Api.Authorised.{is_replied}
use coroner.Api.Endpoints
use coroner.Api.Serve.{Services, Served, serve_diagnose}
use coroner.Approval.Clock.{IsMonotone}

offered_confidence :
    (c : Contract) (st : State) (threshold : Micro)
    → (response_of c st threshold).approvable ≡ true
    → (confidence : Micro) × (offered live (response_of c st threshold) ≡ some confidence)
unfolding response_of
offered_confidence c st threshold h = elim (Option-cases st.confidence_final) [
  | inl e ↦ absurd (ground arith)
  | inr (confidence, e) ↦ (confidence, ground arith)
]

recorded_table :
    (p : Pipeline) (at : Instant) (c : Contract) (g' : GraphWorld) (t u : Table) (st : State)
    (o : Option (State × GraphWorld))
    → recorded p at c t o ≡ some (st, g', u)
    → (latency : ℕ) × (u ≡ record_entry at (entry_of p c st latency) t)
unfolding record_run
recorded_table p at c g' t u st none h = absurd (ground arith)
recorded_table p at c g' t u st (some (st₁, g₁)) h =
    ((now p g₁ - st₁.started_at) / 1000, ground arith)

recorded_row :
    (p : Pipeline) (at : Instant) (c : Contract) (g g' : GraphWorld) (t u : Table) (st : State)
    → run p at c g t ≡ some (st, g', u)
    → (row : Row) × (Ledger.get c.incident_id u ≡ some row) × (truthy row.decision ≡ false)
unfolding run entry_of new_row
recorded_row p at c g g' t u st h =
    let (latency, e) = recorded_table p at c g' t u st (invoke p c g) h in
    (
      new_row at (entry_of p c st latency),
      ground (
        arith,
        e,
        get-record_entry at (entry_of p c st latency) c.incident_id t,
        eq_iff c.incident_id c.incident_id,
      ),
      refl,
    )

is_ok-replied :
    {S : InFlightStore PendingRecord} (p : Setup) (text : List ℕ → String) (id : String)
    (w : World S)
    → is_ok (Pipeline.decide p id "approved" "" "" w).0 ≡ true
    → is_replied
        (Endpoints.decide p text id
          (record { decision = "approved"; reason = ""; action = "" })
          w).0
      ≡ true
unfolding Endpoints.decide is_human
is_ok-replied p text id w h = ground arith

approval-IsComplete : IsComplete "approved" "" ""
unfolding is_human
approval-IsComplete = (
  refl,
  λ e. ground (arith, eq_iff "approved" "rejected"),
  λ e. ground (arith, eq_iff "approved" "edited"),
)

module _ {S : InFlightStore PendingRecord} (p : Setup) (mono : IsMonotone p) where
  -- what was parked under a row without a decision can be approved in time
  parked_is_approved :
      (c : Contract) (r : DiagnoseResponse) (confidence : Micro) (w : World S) (row : Row)
      → offered live r ≡ some confidence
      → c.incident_id ≡ r.incident_id
      → Ledger.get r.incident_id w.ledger ≡ some row
      → truthy row.decision ≡ false
      → p.clock (w.reads + 1 + 1 + 1) < p.clock w.reads + seconds p.ttl
      → is_ok (Pipeline.decide p r.incident_id "approved" "" "" (register p c r live w).1).0 ≡ true
  parked_is_approved c r confidence w row o same found undecided timely =
      let q = pending_of p r confidence (p.clock w.reads) in
      let parks = register_parks p c r live confidence w o same in
      let (_, _, shown, _) =
        register_parked p c r live confidence w (p.clock (w.reads + 1 + 1)) o same (mono w.reads)
          (omega (arith, timely, mono (w.reads + 1 + 1))) in
      rw parks (
        decide_completes p r.incident_id "approved" "" "" _ (to_record p.crypto q) q row
          (rw parks at shown) (from_record-to_record p.crypto q) found undecided approval-IsComplete
          timely)

module _ {S : InFlightStore PendingRecord} (v : Services) where
  -- where a diagnosis of a promoted type leaves the service
  after_diagnosis :
      (c : Contract) (x : Served S) (st : State) (g' : GraphWorld) (u : Table)
      → run v.pipeline (v.site.setup.clock x.world.reads) c x.graph x.world.ledger
        ≡ some (st, g', u)
      → v.site.is_promoted c.failure_type ≡ true
      → let w : World S = record x.world { ledger = u; reads = x.world.reads + 1 } in
        (serve_diagnose v c x).world
        ≡ (register v.site.setup c (response_of c st v.site.threshold) live w).1
  unfolding serve_diagnose deliver
  after_diagnosis c x st g' u ran promoted = rw (ran, promoted) (ground arith)

  -- A verdict that offers approval can be approved: after a diagnosis of a promoted failure type
  -- whose verdict is approvable, a human's approval over JSON is accepted, if it is checked before
  -- the time to live has passed since the verdict was parked, and the clock never goes back.
  pub approvable_is_approved :
      (c : Contract) (x : Served S) (st : State) (g' : GraphWorld) (u : Table)
      → IsMonotone v.site.setup
      → run v.pipeline (v.site.setup.clock x.world.reads) c x.graph x.world.ledger
        ≡ some (st, g', u)
      → v.site.is_promoted c.failure_type ≡ true
      → (response_of c st v.site.threshold).approvable ≡ true
      → v.site.setup.clock (x.world.reads + 1 + 1 + 1 + 1)
        < v.site.setup.clock (x.world.reads + 1) + seconds v.site.setup.ttl
      → is_replied
          (Endpoints.decide v.site.setup v.text c.incident_id
            (record { decision = "approved"; reason = ""; action = "" })
            (serve_diagnose v c x).world).0
        ≡ true
  unfolding response_of
  approvable_is_approved c x st g' u mono ran promoted approvable timely =
      let p = v.site.setup in
      let n = x.world.reads + 1 in
      let r = response_of c st v.site.threshold in
      let w : World S = record x.world { ledger = u; reads = n } in
      let (confidence, o) = offered_confidence c st v.site.threshold approvable in
      let (row, found, undecided) =
        recorded_row v.pipeline (p.clock x.world.reads) c x.graph g' x.world.ledger u st ran in
      rw (after_diagnosis c x st g' u ran promoted) (
        is_ok-replied p v.text c.incident_id (register p c r live w).1
          (parked_is_approved p mono c r confidence w row o refl found undecided timely))
