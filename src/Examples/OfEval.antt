-- ===== src/Examples/OfEval.antt =====
-- A memory kill of the catalogue that the model explains, and the report on a crash loop.
use coroner.Base.{
  ℕ, ◌+◌, String, true, false, none, some, List, [], ◌∷◌, or_else, ◌≡◌, refl, length, arith,
}
use coroner.Base.Text.{lower, names_any, contains, strip, decimal}
use coroner.Ledger.{Row}
use coroner.Eval.Catalog.{Incident, oom, memory}
use coroner.Eval.Catalog.All.{all, by_id, incident_of}
use coroner.Json.{Json, str, obj, end, field}
use coroner.Eval.Resume.{failed_enough}
use coroner.Eval.Collect.{Cluster, pod_state, pod_of_line, names_of, lines_to_write, poll, collect}
use coroner.Eval.Collect.Ends.{IsTimely, enough}
use coroner.Eval.Collect.Resumes.{Adds, collect-Adds}
use coroner.Eval.Judge.{judge, right, written, named, competes}
use coroner.Eval.Judge.Why.{IsFair, judge-IsFair}
use coroner.Eval.Score.{of_class, scored}
use coroner.Eval.Score.Balanced.{IsBalanced, score-IsBalanced}
use coroner.Examples.{crash_loop, entry, undecided}

abbrev leaking : Incident
leaking = oom "oom-leak-64mi-logs" "64Mi" "leak" "killed at 64Mi" "sleep 1" memory false

abbrev explained : Row
explained = record undecided {
  entry = record entry { failure_type = "OOMKilled"; root_cause = "the process leaks memory" };
}

judge-IsFair_example : IsFair leaking explained (judge leaking explained)
judge-IsFair_example = judge-IsFair leaking explained refl refl

leak_test : (judge leaking explained).oom_why ≡ right
unfolding judge written named competes lower names_any contains strip
leak_test = refl

-- the row of a pod of the catalogue
abbrev captured : Row
captured = record undecided {
  entry = record entry {
    contract_json =
        some (record crash_loop { pod = record crash_loop.pod { name = "eval-crash-dns" } });
  };
}

score-IsBalanced_example :
    IsBalanced (of_class "CrashLoopBackOff" (scored (captured ∷ undecided ∷ [])))
score-IsBalanced_example = score-IsBalanced (captured ∷ undecided ∷ []) "CrashLoopBackOff"

only_captured_test : length (scored (captured ∷ undecided ∷ [])) ≡ 1
unfolding scored incident_of by_id all judge decimal
only_captured_test = refl

abbrev line : String → Json
line name = obj (field "pod" (obj (field "name" (str name) end)) end)

-- what the agent prints of a pod of the catalogue, and of one that is not
abbrev scanned : List Json
scanned = line "eval-crash-dns" ∷ line "eval-other" ∷ []

-- A cluster whose state is its clock, and whose pods never fail.
abbrev cluster : Cluster ℕ
cluster = record {
  clock = λ w. w;
  sleep = λ time w. w + time;
  create_namespace = λ w. w;
  apply = λ manifests w. (true, w);
  get_pod = λ name w. (none, w);
  scan = λ w. (some scanned, w);
  delete_pods = λ names w. w;
}

cluster-IsTimely : IsTimely cluster
cluster-IsTimely = record { asked = λ name w. omega arith; slept = λ time w. omega arith }

collect-Adds_example :
    Adds
      (or_else (names_of (line "eval-crash-config" ∷ [])) [])
      (line "eval-crash-config" ∷ [])
      (collect cluster enough 12 (line "eval-crash-config" ∷ []) 0)
collect-Adds_example = collect-Adds cluster 12 (line "eval-crash-config" ∷ []) 0 cluster-IsTimely

lines_to_write_test :
    lines_to_write ("eval-crash-dns" ∷ []) scanned ≡ (true, line "eval-crash-dns" ∷ [])
unfolding lines_to_write pod_of_line
lines_to_write_test = refl

poll_test : (poll cluster (leaking ∷ []) 0).0 ≡ leaking ∷ []
unfolding poll pod_state failed_enough
poll_test = refl
