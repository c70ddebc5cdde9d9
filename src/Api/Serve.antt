-- ===== src/Api/Serve.antt =====
-- The whole service as a machine: every request of the API, and each tick of the sweeper
-- (brain/src/coroner_brain/api.py), as a step on the graph's world, the store and the ledger.
use coroner.Base.{
  ℕ, ◌+◌, String, Bool, false, ◌&&◌, Option, none, some, List, [], ◌∷◌, if◌then◌else◌, ◌==◌,
}
use coroner.Contract.{Contract, Instant}
use coroner.Json.{Json, obj, lookup}
use coroner.Inflight.{InFlightStore}
use coroner.Ledger.{Table}
use coroner.Graph.State.{State, Pipeline, World as GraphWorld}
use coroner.Graph.Record.{run}
use coroner.Sink.{Notice}
use coroner.Slack.{action_approve}
use coroner.Slack.Views.{view_edit}
use coroner.Slack.Signature.{verify_signature}
use coroner.Approval.{PendingRecord, World}
use coroner.Approval.Rules.{mints}
use coroner.Approval.Park.{expire_overdue}
use coroner.Api.{response_of, deliver}
use coroner.Api.Answers.{Site, mode_of, is_text}
use coroner.Api.Payload.{Click, Submission, read_click, read_submission}
use coroner.Api.Endpoints.{DecisionRequest, ExecutionRequest, ResolutionRequest}
use coroner.Api.Endpoints
use coroner.Api.Interactions

-- The services: the pipeline, what the endpoints are configured with, whether the sink takes a
-- notice, and the text with given code points.
pub record Services : Type 0 where
  pub pipeline : Pipeline
  pub site : Site
  pub accepts : Notice → Bool
  pub text : List ℕ → String

pub data Request : Type 0 where
  diagnose : Contract → Request
  decide : String → DecisionRequest → Request
  rate actual_cause : String → String → Request
  pending : Request
  approved : Bool → Request
  execution : String → ExecutionRequest → Request
  resolution : String → ResolutionRequest → Request
  incident : String → Request
  -- the signature, the timestamp and the body, with the clock that the signature is checked by
  slack_interactions : Instant → String → String → String → Request
  -- a round of the `Sweeper`
  sweep : Request

pub record Served (S : InFlightStore PendingRecord) : Type 0 where
  pub graph : GraphWorld
  pub world : World S

module _ {S : InFlightStore PendingRecord} (v : Services) where
  abbrev pub delivered :
      Contract → World S → Served S → Option (State × GraphWorld × Table) → Served S
  delivered c w old none = old
  delivered c w old (some (st, g, table)) = record {
    graph = g;
    world =
        (deliver v.site.setup v.accepts v.site.public_url (mode_of v.site c.failure_type)
          (response_of c st v.site.threshold) c
          (record w { ledger = table; reads = w.reads + 1 })).1;
  }

  -- `diagnose`: build_response, then deliver
  unfoldable pub serve_diagnose : Contract → Served S → Served S
  serve_diagnose c x =
      let w = x.world in
      delivered c w x (run v.pipeline (v.site.setup.clock w.reads) c x.graph w.ledger)

  -- what a request other than a diagnosis does to the store and the ledger
  unfoldable pub serve_world : Request → World S → World S
  serve_world (diagnose c) w = w
  serve_world (decide id body) w = (Endpoints.decide v.site.setup v.text id body w).1
  serve_world (rate id rating) w = (Endpoints.rate v.site.setup v.text id rating w).1
  serve_world (actual_cause id cause) w = (Endpoints.actual_cause v.site.setup v.text id cause w).1
  serve_world pending w = (Endpoints.pending v.site.setup v.text w).1
  serve_world (approved execute) w = (Endpoints.approved v.site.setup v.text execute w).1
  serve_world (execution id body) w = (Endpoints.execution v.site.setup v.text id body w).1
  serve_world (resolution id body) w = (Endpoints.resolution v.site.setup v.text id body w).1
  serve_world (incident id) w = (Endpoints.incident v.site.setup v.text id w).1
  serve_world (slack_interactions now signature timestamp body) w =
      (Interactions.slack_interactions v.site now signature timestamp body w).2
  serve_world sweep w = (expire_overdue v.site.setup w).1

  unfoldable pub serve : Request → Served S → Served S
  serve (diagnose c) x = serve_diagnose c x
  serve request x = record x { world = serve_world request x.world }

  -- any number of requests, one after the other
  unfoldable pub serve_all : List Request → Served S → Served S
  serve_all [] x = x
  serve_all (request ∷ requests) x = serve_all requests (serve request x)

module _ (s : Site) (j : String) where
  abbrev pub click_approves : Option (Option Click) → Bool
  click_approves (some (some c)) = c.action_id == action_approve && c.place.incident_id == j
  click_approves _ = false

  abbrev pub submission_approves : Option Submission → Bool
  submission_approves none = false
  submission_approves (some u) = u.callback == view_edit && u.place.incident_id == j

  abbrev pub payload_approves : Option Json → Bool
  payload_approves (some (obj fields)) =
      let kind = lookup "type" fields in
      if is_text kind "block_actions"
      then click_approves (read_click s.repr (obj fields))
      else is_text kind "view_submission"
        && submission_approves (read_submission s.repr s.loads (obj fields))
  payload_approves _ = false

  -- The request is a human's approval or edit of the incident: over JSON, or with the signature of
  -- Slack.
  unfoldable pub approves : Request → Bool
  unfolding lookup
  approves (decide id body) = mints body.decision && id == j
  approves (slack_interactions now signature timestamp body) =
      verify_signature s.setup.crypto s.int s.signing_secret timestamp body signature now
      && payload_approves (s.payload_of body)
  approves _ = false
