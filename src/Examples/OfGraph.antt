-- ===== src/Examples/OfGraph.antt =====
-- A run of the diagnosis graph on a crash loop that the model explains at once.
use coroner.Base.{String, ◌&&◌, is_nil, ◌≡◌, refl, some, is_some, true, false, [], arith}
use coroner.Base.Text.{codes, strip, contains, lower, names_any}
use coroner.Contract.{pos}
use coroner.Evidence.{
  classify_evidence, gate, no_causal_signal, has_usable_logs, has_fatal_marker, ceiling,
}
use coroner.Diagnosis.{diagnosed}
use coroner.Verdict.{live}
use coroner.Validate.{
  validate, citation_failures, citation_failure, quote_failures, value_matches, effective, prose,
  resolve_citation, normalise, render, quoted, collected_text,
}
use coroner.Graph.State.{State, Pipeline, World, Request, silent}
use coroner.Graph.Call.{call_with_deadline, call_loop}
use coroner.Graph.Calls.{Within, call_with_deadline-Within}
use coroner.Graph.Nodes.{
  classify, invoke, run_from, visit, edge, evidence_gate, diagnose, diagnose_within, validate_state,
  after_validate,
}
use coroner.Graph.Ends.{invoke-is_some}
use coroner.Graph.Sound.{IsAbout, HasGrounds, invoke-HasGrounds, StoppedBy, gate_before_model}
use coroner.Graph.Charges.{Charged, diagnose-Charged}
use coroner.Graph.Record.{entry_of}
use coroner.Ledger.{new_row}
use coroner.Sink.{verdict_from_row, offers_approval}
use coroner.Api.{response_of, notice_of}
use coroner.Slack.{action_approve, action_edit, action_reject}
use coroner.Slack.Buttons.{has_button, has_button-decision_blocks}
use coroner.Api.Verdicts.{verdict_from_row-entry_of, IsVerified, approvable-IsVerified}
use coroner.Examples.{pipeline, idle, crash_loop, diagnosis, parked}
use coroner.Examples.OfEvidence.{without_log}

abbrev pub final_state : State
final_state = record (classify pipeline crash_loop idle).0 {
  outcome = some diagnosed;
  diagnosis = some diagnosis;
  confidence_model = some 900000;
  confidence_final = some 800000;
  attempts = 1;
  prompt_tokens = 100;
  completion_tokens = 20;
}

abbrev pub final_world : World
final_world = record {
  reads = 5;
  slept = 0;
  calls = 1;
  last_usage = record { prompt_tokens = 100; completion_tokens = 20 };
}

pub ran : invoke pipeline crash_loop idle ≡ some (final_state, final_world)
unfolding invoke classify run_from visit edge evidence_gate gate diagnose diagnose_within
    call_with_deadline call_loop validate_state after_validate classify_evidence has_usable_logs
    has_fatal_marker ceiling strip names_any contains lower validate citation_failures
    citation_failure quote_failures value_matches effective prose resolve_citation normalise render
    quoted collected_text
ran = refl

invoke-HasGrounds_example :
    IsAbout pipeline crash_loop final_state × HasGrounds 500000 (some diagnosed) final_state
invoke-HasGrounds_example = invoke-HasGrounds pipeline crash_loop final_state idle final_world ran

invoke-is_some_example : is_some (invoke pipeline crash_loop idle) ≡ true
invoke-is_some_example = invoke-is_some pipeline crash_loop idle

abbrev asked : Request
asked = record { system = codes "s"; user = codes "u" }

call_with_deadline-Within_example : Within 1000 idle (call_with_deadline pipeline 1000 asked idle)
call_with_deadline-Within_example = call_with_deadline-Within pipeline 1000 asked idle

gated_incident :
    gate without_log (classify_evidence without_log) ≡ some (no_causal_signal (some (pos 1)) false)
unfolding gate classify_evidence has_usable_logs
gated_incident = refl

gate_before_model_example :
    StoppedBy pipeline without_log idle (no_causal_signal (some (pos 1)) false)
gate_before_model_example =
    gate_before_model pipeline without_log idle (no_causal_signal (some (pos 1)) false)
      gated_incident

abbrev silent_pipeline : Pipeline
silent_pipeline = record pipeline { reply = λ n q budget. silent }

abbrev used : World
used = record {
  reads = 3;
  slept = 0;
  calls = 1;
  last_usage = record { prompt_tokens = 100; completion_tokens = 20 };
}

diagnose-Charged_example :
    Charged
      (classify pipeline crash_loop idle).0
      used
      (diagnose silent_pipeline (classify pipeline crash_loop idle).0 used)
unfolding classify
diagnose-Charged_example =
    diagnose-Charged silent_pipeline (classify pipeline crash_loop idle).0 used (λ n q budget. refl)
      (omega arith)

verdict_from_row-entry_of_example :
    verdict_from_row (new_row 9 (entry_of pipeline crash_loop final_state 3)) 500000
    ≡ some (response_of crash_loop final_state 500000)
verdict_from_row-entry_of_example =
    verdict_from_row-entry_of pipeline crash_loop final_state 9 3 500000 diagnosed refl

may_be_approved : (response_of crash_loop final_state 500000).approvable ≡ true
unfolding response_of
may_be_approved = refl

approvable-IsVerified_example :
    IsVerified pipeline crash_loop (response_of crash_loop final_state 500000)
approvable-IsVerified_example =
    approvable-IsVerified pipeline crash_loop final_state idle final_world ran may_be_approved

has_button-decision_blocks_example :
    let n =
      notice_of crash_loop
        (response_of crash_loop final_state 500000)
        live
        "http://brain"
        (some parked) in
    let offered = is_nil {A = String} [] && offers_approval n in
    (has_button action_approve n [] ≡ offered)
    × (has_button action_edit n [] ≡ offered)
    × (has_button action_reject n [] ≡ offered)
has_button-decision_blocks_example =
    has_button-decision_blocks crash_loop final_state 500000 live "http://brain" (some parked) []
