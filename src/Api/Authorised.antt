-- ===== src/Api/Authorised.antt =====
-- Nothing is executed that no human approved: the whole service over any sequence of requests
-- (brain/src/coroner_brain/api.py, approval.py and ledger.py).
use coroner.Base.{ℕ, String, ◌≡◌, refl, Bool, true, false, List, any, arith, Bool-cases, inl, inr}
use coroner.Inflight.{InFlightStore}
use coroner.Ledger
use coroner.Ledger.{Table, authorises, execution_refusal}
use coroner.Ledger.Writes.{write_execution, attempt, attempt-Wrote}
use coroner.Approval.{PendingRecord, World}
use coroner.Api.Endpoints
use coroner.Api.Endpoints.{
  Reply, replied, refused, crashed, ExecutionRequest, LabelResponse, written, execution_fault,
  is_status, execution_detail, label_response,
}
use coroner.Api.Serve.{Services, Request, Served, serve_all, approves}
use coroner.Api.Quiet.{IsKeyedFrom, authorised}
use coroner.Approval.Clock.{IsMonotone}
use coroner.Api.Quiet.Serve.{serve_all-Quiet}

abbrev pub is_replied : {A : Type 0} → Reply A → Bool
is_replied (replied a) = true
is_replied _ = false

execution_allowed :
    (j status detail : String) (t u : Table) (now : ℕ)
    → attempt (write_execution now j status detail) t ≡ Ledger.ok u
    → authorised j t ≡ true
unfolding execution_refusal
execution_allowed j status detail t u now h =
    let d = attempt-Wrote (write_execution now j status detail) t u h in
    ground (arith, d.found, d.allowed)

module _ {S : InFlightStore PendingRecord} (v : Services) (j : String) where
  -- Whatever requests are served, an incident whose decision did not authorise action comes to a
  -- decision that does only if one of them is a human's approval or edit of that incident, sent
  -- as JSON or signed by Slack, if the clock never goes back and each parked record stood under
  -- its own incident.
  pub authorised_by_human :
      (requests : List Request) (x : Served S)
      → IsMonotone v.site.setup
      → IsKeyedFrom v.site.setup x.world
      → authorised j x.world.ledger ≡ false
      → authorised j (serve_all v requests x).world.ledger ≡ true
      → any (approves v.site j) requests ≡ true
  authorised_by_human requests x mono keyed before after =
      elim (Bool-cases (any (approves v.site j) requests)) [
        | inl e ↦ e
        | inr e ↦
            let quiet = serve_all-Quiet v j mono requests x e in
            absurd (ground (arith, quiet.unauthorised keyed before, after))
      ]

  written_replied :
      (status detail : String) (a : LabelResponse) (w : World S) (now : ℕ)
      (res : Ledger.Result Table)
      → attempt (write_execution now j status detail) w.ledger ≡ res
      → is_replied (written execution_fault a w res).0 ≡ true
      → authorised j w.ledger ≡ true
  written_replied status detail a w now (Ledger.ok u) e h =
      execution_allowed j status detail w.ledger u now e
  written_replied status detail a w now (Ledger.err e) same h = absurd (ground arith)

  execution_replied :
      (text : List ℕ → String) (body : ExecutionRequest) (w : World S)
      → is_replied (Endpoints.execution v.site.setup text j body w).0 ≡ true
      → authorised j w.ledger ≡ true
  unfolding Endpoints.execution attempt
  execution_replied text body w h = elim (Bool-cases (is_status body.status)) [
    | inl e ↦
        let now = v.site.setup.clock w.reads in
        let detail = execution_detail text body in
        written_replied body.status detail (label_response j "execution_status" body.status) w now
          (Ledger.record_execution now j body.status detail w.ledger) refl (rw e at h)
    | inr e ↦ absurd (ground arith)
  ]

  -- Whatever requests are served, the report of an execution is accepted for an incident whose
  -- decision did not authorise action only if one of the requests before is a human's approval or
  -- edit of that incident, sent as JSON or signed by Slack, if the clock never goes back and each
  -- parked record stood under its own incident.
  pub executed_by_human :
      (requests : List Request) (x : Served S) (body : ExecutionRequest)
      → IsMonotone v.site.setup
      → IsKeyedFrom v.site.setup x.world
      → authorised j x.world.ledger ≡ false
      → is_replied (Endpoints.execution v.site.setup v.text j body (serve_all v requests x).world).0
        ≡ true
      → any (approves v.site j) requests ≡ true
  executed_by_human requests x body mono keyed before h =
      authorised_by_human requests x mono keyed before
        (execution_replied v.text body (serve_all v requests x).world h)
