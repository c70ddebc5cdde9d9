-- ===== src/Sink/Message.antt =====
-- The text of a message but for the observed block (`render_inferred`, `render_decision` and
-- `render_text` of brain/src/coroner_brain/sink.py).
use coroner.Base.{
  ℕ, zero, suc, String, not, Option, none, some, List, [], ◌∷◌, concat, map, if◌then◌else◌, ◌==◌,
}
use coroner.Base.Text.{cat, parts, join}
use coroner.Contract.{Instant, Micro}
use coroner.Evidence.{EvidenceClass, value}
use coroner.Diagnosis.{Outcome, diagnosed, insufficient_context, discarded, Citation}
use coroner.Verdict.{Mode, shadow, live, DiagnoseResponse}
use coroner.Sink.{Notice}
use coroner.Sink.Render.{Wording, render_observed}

abbrev outcome_text : Outcome → String
outcome_text diagnosed = "DIAGNOSED"
outcome_text insufficient_context = "INSUFFICIENT_CONTEXT"
outcome_text discarded = "DISCARDED"

abbrev class_text : Option EvidenceClass → String
class_text none = ""
class_text (some cls) = value cls

abbrev cited : List Citation → List String
cited [] = []
cited (c ∷ cs) = c.field ∷ cited cs

abbrev cited_lines : List Citation → List String
cited_lines [] = []
cited_lines (c ∷ cs) = cat "cited         " (join "; " (cited (c ∷ cs))) ∷ []

abbrev outcome_line : DiagnoseResponse → String
outcome_line v = parts (
    "outcome       "
    ∷ outcome_text v.outcome
    ∷ "   evidence class "
    ∷ class_text v.evidence_class
    ∷ [])

-- `n * text`
abbrev repeated : ℕ → String → String
repeated zero s = ""
repeated (suc n) s = cat s (repeated n s)

abbrev labelled_rating : String → String
labelled_rating post = parts (
    "  " ∷ post
    ∷ "/rating -H 'content-type: application/json' -d '{\"rating\": \"would_approve\"}'   (would_approve, would_reject, unsure)"
    ∷ [])

module _ (f : Wording) where
  -- `_conf`
  abbrev conf : Option Micro → String
  conf none = "-"
  conf (some value) = f.two_places value

  abbrev time_text : Option Instant → String
  time_text none = "-"
  time_text (some t) = f.time_of_day t

  unfoldable pub render_inferred : DiagnoseResponse → List String
  render_inferred v =
      if v.discarded
      then outcome_line v
        ∷ "root cause    not attempted: the model did not answer"
        ∷ cat "reason        " (f.discard_reason v.discard_reason)
        ∷ "proposal      none. This incident is recorded and not scored."
        ∷ []
      else if v.abstained
      then outcome_line v
        ∷ "root cause    not determinable from the collected evidence"
        ∷ cat "reason        " (f.abstain_reason v.abstain_reason)
        ∷ "proposal      none. Nothing can be approved."
        ∷ []
      else concat (
          (outcome_line v
            ∷ parts (
                "confidence    "
                ∷ conf v.confidence_final
                ∷ "   (model "
                ∷ conf v.confidence_model
                ∷ ", ceiling "
                ∷ conf v.confidence_ceiling
                ∷ ")"
                ∷ [])
            ∷ cat "root cause    " v.root_cause
            ∷ cat "explanation   " v.explanation
            ∷ cat "proposal      " v.proposed_action
            ∷ [])
          ∷ (if v.competing_hypothesis == ""
              then []
              else cat "competing     " v.competing_hypothesis ∷ [])
          ∷ cited_lines v.evidence
          ∷ [])

  abbrev decide_lines : Mode → DiagnoseResponse → String → Option Instant → List String
  decide_lines shadow v post deadline =
      parts (
        "shadow mode for " ∷ v.failure_type ∷ ": no approval is offered and nothing will execute."
        ∷ [])
      ∷ "would you have approved this? The answer is a label, not an action (section 5.5):"
      ∷ labelled_rating post
      ∷ []
  decide_lines live v post deadline =
      if not v.approvable
      then parts (
          "not approvable: confidence " ∷ conf v.confidence_final ∷ " is below the threshold." ∷ [])
        ∷ "no approval is offered. Nothing will execute."
        ∷ []
      else parts (
          "approvable. Decide before "
          ∷ time_text deadline
          ∷ "; after that it is recorded as expired."
          ∷ [])
        ∷ parts (
            "  approve  " ∷ post
            ∷ "/decision -H 'content-type: application/json' -d '{\"decision\": \"approved\"}'"
            ∷ [])
        ∷ parts (
            "  reject   " ∷ post
            ∷ "/decision -H 'content-type: application/json' -d '{\"decision\": \"rejected\", \"reason\": \"one line on what is wrong\"}'"
            ∷ [])
        ∷ parts (
            "  edit     " ∷ post
            ∷ "/decision -H 'content-type: application/json' -d '{\"decision\": \"edited\", \"action\": \"the corrected action\"}'"
            ∷ [])
        ∷ []

  unfoldable pub render_decision : Notice → List String
  render_decision n =
      let v = n.verdict in
      let post = parts ("curl -s -X POST " ∷ n.public_url ∷ "/incidents/" ∷ v.incident_id ∷ []) in
      if v.discarded
      then "nothing to approve or rate. The model did not answer and no diagnosis exists."
        ∷ "the incident is recorded as DISCARDED and excluded from accuracy." ∷ []
      else if v.abstained
      then "no proposal to approve. Coroner abstained."
        ∷ "when the incident is resolved, record the actual cause so the abstention"
        ∷ "can be scored (section 5.3):"
        ∷ parts (
            "  " ∷ post
            ∷ "/actual-cause -H 'content-type: application/json' -d '{\"actual_cause\": \"...\"}'"
            ∷ [])
        ∷ "was abstaining the right call?"
        ∷ labelled_rating post
        ∷ []
      else decide_lines n.mode v post n.deadline

  -- the message as text, for the standard output
  unfoldable pub render_text : Notice → String
  unfolding render_inferred render_decision
  render_text n =
      let v = n.verdict in
      let pod = n.contract.pod in
      let head = parts (
        "CORONER  " ∷ v.incident_id ∷ "  " ∷ v.failure_type ∷ "  " ∷ pod.namespace ∷ "/" ∷ pod.name
        ∷ []) in
      let lines = concat (
        (repeated 72 "="
          ∷ head
          ∷ repeated 72 "-"
          ∷ "OBSERVED   collected by the agent, verbatim, no model involvement"
          ∷ [])
        ∷ map (cat "  ") (render_observed f n.contract)
        ∷ (repeated 72 "-"
            ∷ "INFERRED   model output, every citation checked against the evidence above"
            ∷ [])
        ∷ map (cat "  ") (render_inferred v)
        ∷ (repeated 72 "-" ∷ "DECISION" ∷ [])
        ∷ map (cat "  ") (render_decision n)
        ∷ (repeated 72 "=" ∷ [])
        ∷ []) in
      cat (join "\n" lines) "\n"
