-- ===== src/Examples/OfRace.antt =====
-- A rejection and an approval of one incident that come at the same time, and one after the other.
use coroner.Base.{ℕ, ◌≡◌, ◌≢◌, refl, some, [], ◌∷◌, eqb, if◌then◌else◌, arith}
use coroner.Ledger
use coroner.Ledger.{Labels}
use coroner.Ledger.Race.{System, asked, acknowledged, nobody, turn, labels, after_label}
use coroner.Ledger.Race.Lost.{IsDecision, IsOverwritten, decision_lost}
use coroner.Ledger.Race.Kept.{IsTold, IsOnce, Reach-IsTold, Turns-IsOnce}
use coroner.Approval.Rules.{decision_labels}
use coroner.Examples.{undecided}

abbrev rejection : Labels
rejection = decision_labels "rejected" "too risky" "" ""

abbrev approval : Labels
approval = decision_labels "approved" "" "fix the host" "v1.x"

-- The first thread rejects, and every other approves.
abbrev both : System
both = record {
  table = undecided ∷ [];
  calls = λ n. if eqb n 0 then asked rejection else asked approval;
}

rejection-IsDecision : IsDecision "rejected" rejection
rejection-IsDecision = record { decision = refl; shadow_rating = refl; actual_cause = refl }

approval-IsDecision : IsDecision "approved" approval
approval-IsDecision = record { decision = refl; shadow_rating = refl; actual_cause = refl }

undecided_row : Ledger.get "inc-1" both.table ≡ some undecided
unfolding Ledger.get
undecided_row = refl

decision_lost_example : IsOverwritten "inc-1" both 0 1 rejection approval "approved"
decision_lost_example =
    decision_lost "inc-1" both 0 1 rejection approval 5 6 (omega arith) undecided "rejected"
      "approved" refl refl undecided_row refl rejection-IsDecision approval-IsDecision

approved_over : IsOverwritten "inc-1" both 0 1 rejection approval "approved"
approved_over =
    decision_lost "inc-1" both 0 1 rejection approval 5 6 (omega arith) undecided "rejected"
      "approved" refl refl undecided_row refl rejection-IsDecision approval-IsDecision

Reach-IsTold_example : IsTold approved_over.final "approved"
Reach-IsTold_example =
    Reach-IsTold "inc-1" both approved_over.final "approved" approved_over.reached
      (rw undecided_row refl) approved_over.on_record refl

first_turn : System
first_turn = after_label 0 rejection (Ledger.label 5 "inc-1" rejection both.table) both

none_told : (n : ℕ) (l : Labels) → both.calls n ≢ acknowledged l
none_told n l h = ground (arith, h)

Turns-IsOnce_example : IsOnce "inc-1" first_turn
unfolding first_turn
Turns-IsOnce_example =
    Turns-IsOnce "inc-1" both first_turn none_told (turn nobody (labels both 0 rejection 5 refl))
