-- ===== src/Eval/Score/Balanced.antt =====
-- The counts of the report agree with each other (`score` and `judge` of eval/run.py).
use coroner.Base.{
  ◌+◌, ◌≤◌, String, Bool, true, false, not, ◌||◌, Option, none, some, List, [], ◌∷◌, length, keep,
  ◌==◌, ◌≡◌, refl, arith, Bool-cases, inl, inr,
}
use coroner.Ledger.{Row}
use coroner.Eval.Catalog.{Incident}
use coroner.Eval.Catalog.All.{incident_of}
use coroner.Eval.Judge.{Judged, judge, is_diagnosed, is_insufficient}
use coroner.Eval.Score.{summary_of, scored, judged_if, pod_of, are_correct, are_diagnosed, of_class}

-- What holds of a row that was scored.
pub record IsConsistent (j : Judged) : Type 0 where
  pub abstained : j.abstained ≡ is_insufficient j.outcome
  pub right_to_abstain : j.abstained ≡ true → j.correct ≡ not j.diagnosable
  pub accounted : j.correct ≡ true → (is_diagnosed j.outcome || j.abstained) ≡ true
  pub classified : is_diagnosed j.outcome ≡ true → j.correct ≡ true → j.misclassified ≡ false

judge-IsConsistent : (i : Incident) (row : Row) → IsConsistent (judge i row)
unfolding judge
judge-IsConsistent i row = record {
  abstained = refl;
  right_to_abstain = λ h. ground (arith, h);
  accounted = λ h. ground (arith, h);
  classified = λ d c. ground (arith, d, c);
}

abbrev pub AreConsistent : List Judged → Type 0
AreConsistent [] = Unit
AreConsistent (j ∷ js) = IsConsistent j × AreConsistent js

judged_if-AreConsistent :
    (o : Option Incident) (row : Row) (js : List Judged)
    → AreConsistent js
    → AreConsistent (judged_if o row js)
judged_if-AreConsistent none row js c = c
judged_if-AreConsistent (some i) row js c = (judge-IsConsistent i row, c)

scored-AreConsistent : (rows : List Row) → AreConsistent (scored rows)
unfolding scored
scored-AreConsistent [] = tt
scored-AreConsistent (row ∷ rows) =
    judged_if-AreConsistent (incident_of (pod_of row.entry.contract_json)) row (scored rows)
      (scored-AreConsistent rows)

keep-AreConsistent :
    (p : Judged → Bool) (js : List Judged) → AreConsistent js → AreConsistent (keep p js)
keep-AreConsistent p [] c = tt
keep-AreConsistent p (j ∷ js) (c, cs) = elim (Bool-cases (p j)) [
  | inl e ↦ rw e (c, keep-AreConsistent p js cs)
  | inr e ↦ rw e (keep-AreConsistent p js cs)
]

-- The counts of a failure type: each row is discarded or live, the correct ones are the correct
-- diagnoses and the correct abstentions, nobody abstains without counting as live, and a correct
-- diagnosis is not misclassified.
pub record IsBalanced (items : List Judged) : Type 0 where
  pub rows : (summary_of items).n ≡ (summary_of items).discarded + (summary_of items).live
  pub correct :
      (summary_of items).correct
      ≡ length (are_correct (are_diagnosed items)) + (summary_of items).abstentions_correct
  pub abstentions : (summary_of items).abstentions_correct ≤ (summary_of items).abstained
  pub outcomes :
      length (are_diagnosed items) + (summary_of items).abstained ≤ (summary_of items).live
  pub classified :
      length (are_correct (are_diagnosed items)) + (summary_of items).misclassified
      ≤ (summary_of items).live

items-IsBalanced : (items : List Judged) → AreConsistent items → IsBalanced items
unfolding summary_of
items-IsBalanced [] c = record {
  rows = omega arith;
  correct = omega arith;
  abstentions = omega arith;
  outcomes = omega arith;
  classified = omega arith;
}
items-IsBalanced (j ∷ js) (c, cs) =
    let b = items-IsBalanced js cs in
    record {
      rows = ground (arith, b.rows);
      correct = ground (arith, b.correct, c.abstained, c.right_to_abstain, c.accounted);
      abstentions = ground (arith, b.abstentions);
      outcomes = ground (arith, b.outcomes, c.abstained);
      classified = ground (arith, b.classified, c.classified);
    }

-- For every ledger and failure type the counts of the report agree: each scored row is discarded or
-- live, the correct ones are the correct diagnoses and the correct abstentions, abstentions and
-- diagnoses are live, and no correct diagnosis is misclassified.
pub score-IsBalanced : (rows : List Row) (cls : String) → IsBalanced (of_class cls (scored rows))
score-IsBalanced rows cls =
    items-IsBalanced (of_class cls (scored rows))
      (keep-AreConsistent (λ j. j.failure_class == cls) (scored rows) (scored-AreConsistent rows))
