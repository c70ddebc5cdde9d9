-- ===== src/Examples/OfApi.antt =====
-- The service with one incident parked, and with none.
use coroner.Base.{
  ◌≤◌, ◌≡◌, ◌↔◌, refl, true, false, none, some, List, [], ◌∷◌, any, arith, eq_iff, ◌==◌,
}
use coroner.Base.Text.{strip}
use coroner.Contract.{ℤ, pos}
use coroner.Inflight.{seconds}
use coroner.Inflight.Memory
use coroner.Ledger
use coroner.Ledger.{Table, record_entry}
use coroner.Graph.State.{World as GraphWorld}
use coroner.Graph.Record.{run, record_run}
use coroner.Approval.{to_record, from_record, sign, message}
use coroner.Approval.Rules.{token_for, mints, resolved_action, is_human}
use coroner.Approval.Pipeline
use coroner.Approval.Pipeline.{
  graph, load, check, check_at, record_node, record_decision, settle, store_get, store_delete,
  read_clock, ledger_get, ledger_label, ledger_write,
}
use coroner.Slack.{action_approve}
use coroner.Slack.Views.{Where, view_reject, view_edit}
use coroner.Slack.Signature.{
  verify_signature, sign_request, age, max_request_age_seconds, verify_signature_iff,
}
use coroner.Api.{response_of}
use coroner.Api.Answers.{Site}
use coroner.Api.Endpoints
use coroner.Api.Endpoints.{DecisionRequest, ExecutionRequest}
use coroner.Api.Interactions.{on_click, on_submission}
use coroner.Api.Serve.{
  Services, Request, Served, serve_diagnose, serve, serve_world, serve_all, approves,
}
use coroner.Api.Quiet.{IsKeyedFrom, authorised}
use coroner.Approval.Clock.{IsMonotone}
use coroner.Api.Authorised.{is_replied, authorised_by_human, executed_by_human}
use coroner.Api.Transports.{slack_decides_as_json}
use coroner.Verdict.{live}
use coroner.Api.Answered.{Answered, diagnose-Answered}
use coroner.Api.EndToEnd.{approvable_is_approved}
use coroner.Examples.{
  setup, store, world_at, plain_crypto, undecided, crash_loop, pipeline, idle, marks, count_marks,
}
use coroner.Examples.OfGraph.{final_state, final_world, ran}

abbrev site : Site
site = record {
  setup = setup;
  threshold = 500000;
  is_promoted = λ failure_type. true;
  public_url = "http://brain";
  signing_secret = "k";
  int = λ t. some (pos 7);
  repr = λ value. "";
  loads = λ t. none;
  payload_of = λ body. none;
  takes = λ call. true;
}

abbrev services : Services
services = record { pipeline = pipeline; site = site; accepts = λ notice. true; text = λ codes. "" }

abbrev with_parked : Served store
with_parked = record { graph = idle; world = world_at 0 }

abbrev approval : DecisionRequest
approval = record { decision = "approved"; reason = ""; action = "" }

abbrev report : ExecutionRequest
report = record { status = "executed"; detail = "rolled back"; plan = none }

abbrev requests : List Request
requests = Request.approved true ∷ Request.decide "inc-1" approval ∷ []

setup-IsMonotone : IsMonotone setup
setup-IsMonotone n = omega arith

parked-IsKeyedFrom : IsKeyedFrom {S = store} setup (world_at 0)
unfolding Memory.find to_record
parked-IsKeyedFrom t id r le h = ground (arith, eq_iff "inc-1" id)

unauthorised : authorised "inc-1" (undecided ∷ []) ≡ false
unfolding Ledger.get
unauthorised = refl

becomes_authorised :
    authorised "inc-1" (serve_all {S = store} services requests with_parked).world.ledger ≡ true
unfolding serve_all serve serve_world Endpoints.approved Endpoints.decide Pipeline.decide graph load
    check check_at record_node record_decision settle store_get store_delete read_clock ledger_get
    ledger_label ledger_write token_for mints sign message resolved_action is_human to_record
    from_record marks count_marks Memory.get Memory.find Memory.delete Memory.put Ledger.label
    Ledger.label_refusal Ledger.apply_labels Ledger.get strip
becomes_authorised = refl

authorised_by_human_example : any (approves site "inc-1") requests ≡ true
authorised_by_human_example =
    authorised_by_human {S = store} services "inc-1" requests with_parked setup-IsMonotone
      parked-IsKeyedFrom unauthorised becomes_authorised

report_accepted :
    is_replied
      (Endpoints.execution {S = store} setup services.text "inc-1" report
        (serve_all {S = store} services requests with_parked).world).0
    ≡ true
unfolding serve_all serve serve_world Endpoints.approved Endpoints.decide Pipeline.decide graph load
    check check_at record_node record_decision settle store_get store_delete read_clock ledger_get
    ledger_label ledger_write token_for mints sign message resolved_action is_human to_record
    from_record marks count_marks Memory.get Memory.find Memory.delete Memory.put Ledger.label
    Ledger.label_refusal Ledger.apply_labels Ledger.get strip Endpoints.execution
    Ledger.record_execution Ledger.execution_refusal Ledger.apply_execution
report_accepted = refl

executed_by_human_example : any (approves site "inc-1") requests ≡ true
executed_by_human_example =
    executed_by_human {S = store} services "inc-1" requests with_parked report setup-IsMonotone
      parked-IsKeyedFrom unauthorised report_accepted

abbrev place : Where
place = record { incident_id = "inc-1"; channel = "C1"; ts = "17.5" }

slack_decides_as_json_example :
    ((on_click {S = store} site
        (record { action_id = action_approve; place = place; trigger_id = "t" })
        (world_at 0)).2
      ≡ (Endpoints.decide {S = store} setup services.text "inc-1"
          (record { decision = "approved"; reason = ""; action = "" })
          (world_at 0)).1)
    × ((on_submission {S = store} site
          (record { callback = view_reject; place = place; text = "no" })
          (world_at 0)).2
        ≡ (Endpoints.decide {S = store} setup services.text "inc-1"
            (record { decision = "rejected"; reason = "no"; action = "" })
            (world_at 0)).1)
    × ((on_submission {S = store} site
          (record { callback = view_edit; place = place; text = "no" })
          (world_at 0)).2
        ≡ (Endpoints.decide {S = store} setup services.text "inc-1"
            (record { decision = "edited"; reason = ""; action = "no" })
            (world_at 0)).1)
slack_decides_as_json_example =
    slack_decides_as_json {S = store} site services.text place "t" "no" (world_at 0) refl

verify_signature_iff_example :
    (verify_signature plain_crypto site.int "k" "7" "{}" "v0=v0:7:{}" 9000000 ≡ true) ↔ (
      (("k" == "") ≡ false)
      × (("7" == "") ≡ false)
      × ((sent : ℤ) × (site.int "7" ≡ some sent)
          × (age 9000000 sent ≤ seconds max_request_age_seconds))
      × (sign_request plain_crypto "k" "7" "{}" ≡ "v0=v0:7:{}"))
verify_signature_iff_example =
    verify_signature_iff plain_crypto site.int "k" "7" "{}" "v0=v0:7:{}" 9000000

abbrev empty_service : Served store
empty_service = record { graph = idle; world = record { store = []; ledger = []; reads = 0 } }

diagnose-Answered_example :
    Answered {S = store} pipeline setup services.accepts "http://brain" live 500000 crash_loop idle
      empty_service.world
diagnose-Answered_example =
    diagnose-Answered {S = store} pipeline setup services.accepts "http://brain" live 500000
      crash_loop idle empty_service.world

abbrev after_run : GraphWorld × Table
after_run = record_run pipeline 0 crash_loop final_state final_world []

recorded : run pipeline 0 crash_loop idle [] ≡ some (final_state, after_run.0, after_run.1)
unfolding run
recorded = rw ran refl

approvable : (response_of crash_loop final_state 500000).approvable ≡ true
unfolding response_of
approvable = refl

approvable_is_approved_example :
    is_replied
      (Endpoints.decide {S = store} setup services.text "inc-1"
        (record { decision = "approved"; reason = ""; action = "" })
        (serve_diagnose services crash_loop empty_service).world).0
    ≡ true
approvable_is_approved_example =
    approvable_is_approved {S = store} services crash_loop empty_service final_state after_run.0
      after_run.1 setup-IsMonotone recorded refl approvable (omega arith)
