-- ===== src/Eval/Report.antt =====
-- The whole report of the accuracy harness, with the calibration (`score` of eval/run.py).
use coroner.Base.{
  ℕ, String, Bool, ◌&&◌, ◌||◌, Option, none, some, List, [], ◌∷◌, ◌++◌, ltb, eqb, or_else,
  if◌then◌else◌, ◌==◌, length, is_nil,
}
use coroner.Base.Text.{codes}
use coroner.Contract.{Micro}
use coroner.Evidence.{EvidenceClass, value}
use coroner.Ledger.{Row}
use coroner.Inflight.Redis.{at_most}
use coroner.Eval.Judge.{Judged}
use coroner.Eval.Score.{
  Summary, CrashRow, OomCounts, PredictionVerdict, Criterion, scored, are_diagnosed, are_correct,
  summary_of, summary_for, crash_row, oom_live, oom_counts, predictions, pull_criteria,
  crash_criteria, accuracy_of,
}

-- The diagnoses of one confidence and evidence class.
pub record Group : Type 0 where
  pub ceiling : Micro
  pub evidence_class : String
  pub items : List Judged

abbrev class_name : Option EvidenceClass → String
class_name none = ""
class_name (some cls) = value cls

abbrev ceiling_at : Judged → Micro
ceiling_at j = or_else j.ceiling 0

abbrev is_of : Judged → Group → Bool
is_of j g = eqb (ceiling_at j) g.ceiling && class_name j.evidence_class == g.evidence_class

-- `by_ceiling[key].append(i)`
abbrev add_item : Judged → List Group → List Group
add_item j [] =
    record { ceiling = ceiling_at j; evidence_class = class_name j.evidence_class; items = j ∷ [] }
    ∷ []
add_item j (g ∷ gs) =
    let later = g ∷ add_item j gs in
    if is_of j g then record g { items = g.items ++ j ∷ [] } ∷ gs else later

abbrev grouped : List Group → List Judged → List Group
grouped gs [] = gs
grouped gs (j ∷ js) = grouped (add_item j gs) js

-- a group that comes before another in `sorted(..., reverse=True)`
abbrev precedes : Group → Group → Bool
precedes a b =
    ltb b.ceiling a.ceiling
    || eqb a.ceiling b.ceiling && at_most (codes b.evidence_class) (codes a.evidence_class)

abbrev insert_group : Group → List Group → List Group
insert_group a [] = a ∷ []
insert_group a (b ∷ bs) =
    let later = b ∷ insert_group a bs in if precedes a b then a ∷ b ∷ bs else later

abbrev sort_groups : List Group → List Group
sort_groups [] = []
sort_groups (a ∷ others) = insert_group a (sort_groups others)

-- A line of the calibration table.
pub record Calibration : Type 0 where
  pub ceiling : Micro
  pub evidence_class : String
  pub n : ℕ
  pub correct : ℕ

abbrev lines_of : List Group → List Calibration
lines_of [] = []
lines_of (g ∷ gs) =
    record {
      ceiling = g.ceiling;
      evidence_class = g.evidence_class;
      n = length g.items;
      correct = length (are_correct g.items);
    }
    ∷ lines_of gs

unfoldable pub calibration : List Judged → List Calibration
calibration items = lines_of (sort_groups (grouped [] (are_diagnosed items)))

pub record Report : Type 0 where
  pub scored : List Judged
  pub summary : List (String × Summary)
  pub crash_rows : List (String × CrashRow)
  -- `none` without a memory kill
  pub oom : Option OomCounts
  pub calibration : List Calibration
  pub predictions : List (String × PredictionVerdict)
  pub falsification : List Criterion

abbrev with_name {ℓ} : {A : Type ℓ} → String → Option A → List (String × A) → List (String × A)
with_name name none rest = rest
with_name name (some a) rest = (name, a) ∷ rest

abbrev summaries : List String → List Judged → List (String × Summary)
summaries [] items = []
summaries (cls ∷ classes) items = with_name cls (summary_for cls items) (summaries classes items)

abbrev crash_rows_of : List String → List Judged → List (String × CrashRow)
crash_rows_of [] items = []
crash_rows_of (shape ∷ shapes) items =
    with_name shape (crash_row shape items) (crash_rows_of shapes items)

unfoldable pub score : List Row → Report
unfolding scored summary_of crash_row oom_counts predictions calibration
score rows =
    let items = scored rows in
    record {
      scored = items;
      summary =
          summaries
            ("ImagePullBackOff" ∷ "CrashLoopBackOff" ∷ "OOMKilled" ∷ "OOMKilledDuringInit" ∷ [])
            items;
      crash_rows = crash_rows_of ("fatal" ∷ "no_clear_error" ∷ "no_logs" ∷ []) items;
      oom = if is_nil (oom_live items) then none else some (oom_counts items);
      calibration = calibration items;
      predictions = predictions items;
      falsification =
          pull_criteria (accuracy_of (summary_for "ImagePullBackOff" items))
          ++ crash_criteria (summary_for "CrashLoopBackOff" items);
    }
