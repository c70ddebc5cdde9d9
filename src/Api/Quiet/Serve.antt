-- ===== src/Api/Quiet/Serve.antt =====
-- Every request that is not a human's approval or edit of an incident is quiet about it
-- (brain/src/coroner_brain/api.py).
use coroner.Base.{
  ◌+◌, String, ◌≡◌, ◌⊎◌, inl, inr, refl, sym, subst, Bool, true, false, ◌&&◌, Option, none, some,
  List, [], ◌∷◌, any, arith, ◌==◌, Bool-cases,
}
use coroner.Base.Text.{strip, lower_bool}
use coroner.Contract.{Contract}
use coroner.Verdict.{Mode, DiagnoseResponse}
use coroner.Inflight.{InFlightStore}
use coroner.Ledger
use coroner.Ledger.{Table, Labels, no_labels, LedgerError, authorises, record_entry}
use coroner.Ledger.Writes.{Write, write_labels, write_execution, write_resolution, attempt}
use coroner.Graph.State.{State, World as GraphWorld}
use coroner.Graph.Nodes.{invoke}
use coroner.Graph.Record.{run, recorded, record_run}
use coroner.Approval.{PendingRecord, World}
use coroner.Approval.Rules.{Setup, is_human, mints}
use coroner.Approval.Park.{register}
use coroner.Api.{deliver, response_of}
use coroner.Api.Answers.{mode_of}
use coroner.Api.Endpoints
use coroner.Api.Endpoints.{
  Reply, Endpoint, DecisionRequest, LabelResponse, accepting, written, labelling, label_fault,
  execution_fault, label_response, is_rating, is_cause, is_status, rate_accepted, cause_accepted,
  execution_accepted, execution_detail, resolution_detail,
}
use coroner.Api.Serve.{
  Services, Request, Served, serve_world, serve_diagnose, serve, serve_all, approves, delivered,
}
use coroner.Api.Quiet.{
  Quiet, Quiet-refl, Quiet-trans, read-Quiet, write-Quiet, record_entry-Quiet, IsHarmless,
}
use coroner.Approval.Clock.{IsMonotone}
use coroner.Api.Quiet.Decide.{decide-Quiet}
use coroner.Api.Quiet.Interact.{interaction-Quiet}
use coroner.Api.Quiet.Sweep.{pending-IsQuiet, register-IsQuiet, expire_overdue-IsQuiet}

module _ {S : InFlightStore PendingRecord} (p : Setup) (j : String) (mono : IsMonotone p) where
  written-Quiet :
      {A : Type 0} (x : Write) (fault : LedgerError → Reply A) (a : A) (w : World S)
      (res : Ledger.Result Table)
      → IsHarmless j x
      → attempt x w.ledger ≡ res
      → Quiet p j w (written fault a w res).1
  written-Quiet x fault a w (Ledger.ok u) h e =
      let v : World S = record w { reads = w.reads + 1 } in
      Quiet-trans p j w v _ (read-Quiet p j w mono) (write-Quiet p j x u v h e)
  written-Quiet x fault a w (Ledger.err e) h same = read-Quiet p j w mono

either_false : (a b : Bool) → (a && b) ≡ false → (a ≡ false) ⊎ (b ≡ false)
either_false true b h = inr h
either_false false b h = inl refl

module _ {S : InFlightStore PendingRecord} (v : Services) (j : String)
    (mono : IsMonotone v.site.setup) where
  deciding_endpoint-Quiet :
      (id : String) (body : DecisionRequest) (w : World S)
      → (mints body.decision && id == j) ≡ false
      → Quiet v.site.setup j w (Endpoints.decide v.site.setup v.text id body w).1
  unfolding Endpoints.decide mints
  deciding_endpoint-Quiet id body w h = elim (Bool-cases (is_human body.decision)) [
    | inl e ↦ rw e (
        decide-Quiet v.site.setup j mono id body.decision body.reason body.action w
          (either_false (mints body.decision) (id == j) h))
    | inr e ↦ rw e (Quiet-refl v.site.setup j w)
  ]

  accepting-Quiet :
      {A : Type 0} (valid : Bool) (handler : Endpoint S A) (w : World S)
      → Quiet v.site.setup j w (handler w).1
      → Quiet v.site.setup j w (accepting valid handler w).1
  accepting-Quiet true handler w h = h
  accepting-Quiet false handler w h = Quiet-refl v.site.setup j w

  label-Quiet :
      (id : String) (l : Labels) (a : LabelResponse) (w : World S)
      → authorises l.decision ≡ false
      → Quiet v.site.setup j w (labelling v.site.setup v.text id l a w).1
  unfolding attempt
  label-Quiet id l a w h =
      written-Quiet v.site.setup j mono (write_labels (v.site.setup.clock w.reads) id l) label_fault
        a w (Ledger.label (v.site.setup.clock w.reads) id l w.ledger) (inl h) refl

  incident_world : (id : String) (w : World S) → (Endpoints.incident v.site.setup v.text id w).1 ≡ w
  unfolding Endpoints.incident
  incident_world id w = ground arith

  serve_world-Quiet :
      (request : Request) (w : World S)
      → approves v.site j request ≡ false
      → Quiet v.site.setup j w (serve_world v request w)
  unfolding serve_world approves Endpoints.rate Endpoints.actual_cause Endpoints.pending
      Endpoints.approved Endpoints.execution Endpoints.resolution attempt
  serve_world-Quiet (Request.diagnose c) w h = Quiet-refl v.site.setup j w
  serve_world-Quiet (Request.decide id body) w h = deciding_endpoint-Quiet id body w h
  serve_world-Quiet (Request.rate id rating) w h =
      accepting-Quiet (is_rating rating) (rate_accepted v.site.setup v.text id rating) w (
        label-Quiet id (record no_labels { shadow_rating = some rating })
          (label_response id "shadow_rating" rating) w refl)
  serve_world-Quiet (Request.actual_cause id cause) w h =
      accepting-Quiet (is_cause cause) (cause_accepted v.site.setup v.text id cause) w (
        label-Quiet id (record no_labels { actual_cause = some (strip cause) })
          (label_response id "actual_cause" cause) w refl)
  serve_world-Quiet Request.pending w h = pending-IsQuiet v.site.setup j mono w
  serve_world-Quiet (Request.approved execute) w h = Quiet-refl v.site.setup j w
  serve_world-Quiet (Request.execution id body) w h =
      let at = v.site.setup.clock w.reads in
      let detail = execution_detail v.text body in
      accepting-Quiet (is_status body.status) (execution_accepted v.site.setup v.text id body) w (
        written-Quiet v.site.setup j mono (write_execution at id body.status detail) execution_fault
          (label_response id "execution_status" body.status) w
          (Ledger.record_execution at id body.status detail w.ledger) tt refl)
  serve_world-Quiet (Request.resolution id body) w h =
      let at = v.site.setup.clock w.reads in
      let detail = resolution_detail v.text body in
      written-Quiet v.site.setup j mono (write_resolution at id body.resolved detail)
        execution_fault (label_response id "resolved_within_sla" (lower_bool body.resolved)) w
        (Ledger.record_resolution at id body.resolved detail w.ledger) tt refl
  serve_world-Quiet (Request.incident id) w h =
      subst (λ u. Quiet v.site.setup j w u) (sym (incident_world id w))
        (Quiet-refl v.site.setup j w)
  serve_world-Quiet (Request.slack_interactions now signature timestamp body) w h =
      interaction-Quiet v.site j mono now signature timestamp body w h
  serve_world-Quiet Request.sweep w h = expire_overdue-IsQuiet v.site.setup j mono w

  pub deliver_world :
      (c : Contract) (m : Mode) (r : DiagnoseResponse) (w : World S)
      → (deliver v.site.setup v.accepts v.site.public_url m r c w).1
        ≡ (register v.site.setup c r m w).1
  unfolding deliver
  deliver_world c m r w = ground arith

  delivered-Quiet :
      (c : Contract) (x : Served S) (o : Option (State × GraphWorld))
      → Quiet v.site.setup j x.world
          (delivered v c x.world x
            (recorded v.pipeline (v.site.setup.clock x.world.reads) c x.world.ledger o)).world
  unfolding record_run
  delivered-Quiet c x none = Quiet-refl v.site.setup j x.world
  delivered-Quiet c x (some (st, g)) =
      let w = x.world in
      let at = v.site.setup.clock w.reads in
      let w₁ : World S = record w { reads = w.reads + 1 } in
      let (g', u) = record_run v.pipeline at c st g w.ledger in
      let w₂ : World S = record w₁ { ledger = u } in
      let m = mode_of v.site c.failure_type in
      let r = response_of c st v.site.threshold in
      Quiet-trans v.site.setup j w w₁ _ (read-Quiet v.site.setup j w mono) (
        Quiet-trans v.site.setup j w₁ w₂ _ (record_entry-Quiet v.site.setup j at _ w₁) (
          subst (λ z. Quiet v.site.setup j w₂ z) (sym (deliver_world c m r w₂))
            (register-IsQuiet v.site.setup j mono c r m w₂)))

  pub serve-Quiet :
      (request : Request) (x : Served S)
      → approves v.site j request ≡ false
      → Quiet v.site.setup j x.world (serve v request x).world
  unfolding serve serve_diagnose run
  serve-Quiet (Request.diagnose c) x h = delivered-Quiet c x (invoke v.pipeline c x.graph)
  serve-Quiet request x h = serve_world-Quiet request x.world h

  pub serve_all-Quiet :
      (requests : List Request) (x : Served S)
      → any (approves v.site j) requests ≡ false
      → Quiet v.site.setup j x.world (serve_all v requests x).world
  unfolding serve_all
  serve_all-Quiet [] x h = Quiet-refl v.site.setup j x.world
  serve_all-Quiet (request ∷ requests) x h =
      Quiet-trans v.site.setup j x.world (serve v request x).world _
        (serve-Quiet request x (ground arith))
        (serve_all-Quiet requests (serve v request x) (ground arith))
