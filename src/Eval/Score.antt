-- ===== src/Eval/Score.antt =====
-- The report of the accuracy harness (`score` of eval/run.py), as numbers; a ratio of counts is kept
-- as its two parts, and `none` is the float that is not a number.
pub mod Balanced
use coroner.Base.{
  ℕ, zero, suc, ◌+◌, ◌*◌, String, Bool, true, false, not, ◌&&◌, ◌||◌, Option, none, some, List, [],
  ◌∷◌, length, keep, map, leb, ltb, eqb, is_nil, or_else, if◌then◌else◌, ◌==◌, ◌≡◌, refl,
}
use coroner.Contract.{Micro, Contract}
use coroner.Evidence.{EvidenceClass, value}
use coroner.Ledger.{Row}
use coroner.Eval.Catalog.{Incident}
use coroner.Eval.Catalog.All.{incident_of}
use coroner.Eval.Judge.{
  Judged, judge, OomWhy, right, wrong, declined, unscored, is_diagnosed, is_discarded,
}

pub record Ratio : Type 0 where
  pub part : ℕ
  pub whole : ℕ

-- `part / whole if whole else nan`
abbrev pub ratio : ℕ → ℕ → Option Ratio
ratio part whole = if eqb whole 0 then none else some (record { part = part; whole = whole })

-- a ratio is at least so many percent
abbrev at_least : ℕ → Ratio → Bool
at_least percent r = leb (percent * r.whole) (100 * r.part)

abbrev pub pod_of : Option Contract → String
pod_of none = ""
pod_of (some c) = c.pod.name

abbrev pub judged_if : Option Incident → Row → List Judged → List Judged
judged_if none row rest = rest
judged_if (some i) row rest = judge i row ∷ rest

-- the rows of incidents of the catalogue, scored
unfoldable pub scored : List Row → List Judged
unfolding incident_of judge
scored [] = []
scored (row ∷ rows) =
    let rest = scored rows in judged_if (incident_of (pod_of row.entry.contract_json)) row rest

abbrev pub of_class : String → List Judged → List Judged
of_class cls items = keep (λ j. j.failure_class == cls) items

-- `[i for i in items if i["outcome"] != "DISCARDED"]`
abbrev pub live : List Judged → List Judged
live items = keep (λ j. not (is_discarded j.outcome)) items

abbrev pub are_diagnosed : List Judged → List Judged
are_diagnosed items = keep (λ j. is_diagnosed j.outcome) items

abbrev pub are_correct : List Judged → List Judged
are_correct items = keep (λ j. j.correct) items

abbrev pub have_abstained : List Judged → List Judged
have_abstained items = keep (λ j. j.abstained) items

abbrev total : List Judged → Micro
total [] = 0
total (j ∷ js) = j.cost_usd + total js

pub record Summary : Type 0 where
  pub n : ℕ
  pub discarded : ℕ
  pub live : ℕ
  pub correct : ℕ
  pub accuracy : Option Ratio
  pub abstained : ℕ
  pub abstentions_correct : ℕ
  pub misclassified : ℕ
  pub cost_per_diagnosis : Ratio
  pub cost_per_correct : Option Ratio
  pub cost_per_abstention : Option Ratio

unfoldable pub summary_of : List Judged → Summary
summary_of items =
    let alive = live items in
    let correct = length (are_correct alive) in
    let abstained = have_abstained alive in
    let cost_live = total (are_diagnosed alive) in
    record {
      n = length items;
      discarded = length (keep (λ j. is_discarded j.outcome) items);
      live = length alive;
      correct = correct;
      accuracy = ratio correct (length alive);
      abstained = length abstained;
      abstentions_correct = length (keep (λ j. not j.diagnosable) abstained);
      misclassified = length (keep (λ j. j.misclassified) alive);
      cost_per_diagnosis =
          or_else (ratio cost_live (length (are_diagnosed alive))) (record { part = 0; whole = 1 });
      cost_per_correct = ratio cost_live correct;
      cost_per_abstention = ratio (total abstained) (length abstained);
    }

-- `summary.get(cls)`: a failure type without rows has no summary
abbrev pub summary_for : String → List Judged → Option Summary
summary_for cls items =
    let own = of_class cls items in if is_nil own then none else some (summary_of own)

pub record CrashRow : Type 0 where
  pub n : ℕ
  pub correct : ℕ
  pub abstained : ℕ
  pub abstentions_correct : ℕ

unfoldable pub crash_row : String → List Judged → Option CrashRow
crash_row shape items =
    let own =
      keep (λ j. j.log_shape == shape && not (is_discarded j.outcome))
        (of_class "CrashLoopBackOff" items) in
    let abstained = have_abstained own in
    if is_nil own
    then none
    else some (record {
      n = length own;
      correct = length (are_correct own);
      abstained = length abstained;
      abstentions_correct = length (keep (λ j. not j.diagnosable) abstained);
    })

abbrev is_right : OomWhy → Bool
is_right right = true
is_right _ = false

abbrev is_declined : OomWhy → Bool
is_declined declined = true
is_declined _ = false

abbrev is_wrong : OomWhy → Bool
is_wrong wrong = true
is_wrong _ = false

pub record OomCounts : Type 0 where
  pub n : ℕ
  pub what : ℕ
  pub why_n : ℕ
  pub why_right : ℕ
  pub why_declined : ℕ
  pub why_wrong : ℕ

abbrev pub oom_live : List Judged → List Judged
oom_live items =
    keep
      (λ j.
        (j.failure_class == "OOMKilled" || j.failure_class == "OOMKilledDuringInit")
        && not (is_discarded j.outcome))
      items

unfoldable pub oom_counts : List Judged → OomCounts
oom_counts items =
    let oom = oom_live items in
    let why_items = of_class "OOMKilled" oom in
    record {
      n = length oom;
      what = length (keep (λ j. j.oom_what) oom);
      why_n = length why_items;
      why_right = length (keep (λ j. is_right j.oom_why) why_items);
      why_declined = length (keep (λ j. is_declined j.oom_why) why_items);
      why_wrong = length (keep (λ j. is_wrong j.oom_why) why_items);
    }

pub data PredictionVerdict : Type 0 where
  no_data met missed : PredictionVerdict

abbrev pub verdict_on : ℕ → Option Ratio → PredictionVerdict
verdict_on percent none = no_data
verdict_on percent (some r) = if at_least percent r then met else missed

abbrev pub accuracy_of : Option Summary → Option Ratio
accuracy_of none = none
accuracy_of (some s) = s.accuracy

-- the three predictions: pulls, crash loops, and what killed for memory
unfoldable pub predictions : List Judged → List (String × PredictionVerdict)
unfolding summary_of oom_counts
predictions items =
    let oom = oom_counts items in
    ("ImagePullBackOff", verdict_on 90 (accuracy_of (summary_for "ImagePullBackOff" items)))
    ∷ ("CrashLoopBackOff", verdict_on 60 (accuracy_of (summary_for "CrashLoopBackOff" items)))
    ∷ ("OOMKilled (what)", verdict_on 95 (ratio oom.what oom.n))
    ∷ []

-- A line of the falsification criteria: whether the parser, or the contract, is not indicted, and
-- whether the sample is likely biased.
pub data Criterion : Type 0 where
  pull_criterion : Bool → Criterion
  crash_criterion : Bool → Bool → Criterion

abbrev pub pull_criteria : Option Ratio → List Criterion
pull_criteria none = []
pull_criteria (some r) = pull_criterion (at_least 75 r) ∷ []

abbrev crash_criteria_at : Option Ratio → List Criterion
crash_criteria_at none = []
crash_criteria_at (some r) =
    crash_criterion (at_least 40 r) (ltb (80 * r.whole) (100 * r.part)) ∷ []

abbrev pub crash_criteria : Option Summary → List Criterion
crash_criteria none = []
crash_criteria (some s) = if leb 20 s.live then crash_criteria_at s.accuracy else []
