-- ===== src/Ledger/Approved.antt =====
-- The rows that the agent may act on (`approved` of brain/src/coroner_brain/ledger.py).
use mathlib.Core.List.{Perm}
use mathlib.Core.List.Perm
use coroner.Base.{
  ◌≡◌, refl, Bool, true, false, [], ◌∷◌, keep, arith, Bool-cases, inl, inr, none, some, Option,
  or_else, eq_disjoint, eq_iff, ◌↔◌, ◌⊎◌, ◌==◌, ◌&&◌, ◌||◌, String,
}
use coroner.Contract.{Instant}
use coroner.Ledger.{
  Table, Row, at_or_before, insert_by_decision, sort_by_decision, is_actionable, approved,
  authorises, is_final,
}

abbrev AllAfter : Row → Table → Type 0
AllAfter r [] = Unit
AllAfter r (s ∷ t) = (at_or_before r.decision_at s.decision_at ≡ true) × AllAfter r t

-- Decided no later than every row that follows.
abbrev pub IsOrdered : Table → Type 0
IsOrdered [] = Unit
IsOrdered (r ∷ t) = AllAfter r t × IsOrdered t

at_or_before_trans :
    (a b c : Option Instant)
    → at_or_before a b ≡ true
    → at_or_before b c ≡ true
    → at_or_before a c ≡ true
at_or_before_trans a b c h k = ground arith

at_or_before_total : (a b : Option Instant) → at_or_before a b ≡ false → at_or_before b a ≡ true
at_or_before_total a b h = ground arith

AllAfter-trans :
    (r s : Row) (t : Table)
    → at_or_before r.decision_at s.decision_at ≡ true
    → AllAfter s t
    → AllAfter r t
AllAfter-trans r s [] h a = tt
AllAfter-trans r s (x ∷ t) h a =
    (at_or_before_trans r.decision_at s.decision_at x.decision_at h a.0, AllAfter-trans r s t h a.1)

insert-AllAfter :
    (r s : Row) (t : Table)
    → at_or_before s.decision_at r.decision_at ≡ true
    → AllAfter s t
    → AllAfter s (insert_by_decision r t)
unfolding insert_by_decision
insert-AllAfter r s [] h a = (h, tt)
insert-AllAfter r s (x ∷ t) h a = ground (arith, insert-AllAfter r s t h a.1)

insert-IsOrdered : (r : Row) (t : Table) → IsOrdered t → IsOrdered (insert_by_decision r t)
unfolding insert_by_decision
insert-IsOrdered r [] o = (tt, tt)
insert-IsOrdered r (s ∷ t) o = elim (Bool-cases (at_or_before r.decision_at s.decision_at)) [
  | inl first ↦ rw first (((first, AllAfter-trans r s t first o.0)), o)
  | inr later ↦ rw later (
    insert-AllAfter r s t (at_or_before_total r.decision_at s.decision_at later) o.0,
    insert-IsOrdered r t o.1,
  )
]

sort-IsOrdered : (t : Table) → IsOrdered (sort_by_decision t)
unfolding sort_by_decision
sort-IsOrdered [] = tt
sort-IsOrdered (r ∷ t) = insert-IsOrdered r (sort_by_decision t) (sort-IsOrdered t)

insert-perm : (r : Row) (t : Table) → Perm (insert_by_decision r t) (r ∷ t)
unfolding insert_by_decision
insert-perm r [] = Perm.refl (r ∷ [])
insert-perm r (s ∷ t) = elim (Bool-cases (at_or_before r.decision_at s.decision_at)) [
  | inl first ↦ rw first (Perm.refl (r ∷ s ∷ t))
  | inr later ↦ rw later (Perm.trans (Perm.cons s (insert-perm r t)) (Perm.swap r s t))
]

sort-perm : (t : Table) → Perm (sort_by_decision t) t
unfolding sort_by_decision
sort-perm [] = Perm.refl []
sort-perm (r ∷ t) = Perm.trans (insert-perm r (sort_by_decision t)) (Perm.cons r (sort-perm t))

-- The decision lets an action run, and no execution has ended.
abbrev pub IsOpen : Row → Type 0
IsOpen r = (authorises r.decision ≡ true) × (is_final r.execution_status ≡ false)

-- the status test of the WHERE clause lets no final status through
open_status :
    (b : Bool) (o : Option String)
    → (or_else o "" == "" || b && or_else o "" == "proposed") ≡ true
    → is_final o ≡ false
open_status b none h = refl
open_status b (some s) h = ground (
  arith,
  eq_disjoint s "" "executed",
  eq_disjoint s "" "failed",
  eq_disjoint s "" "refused",
  eq_disjoint s "proposed" "executed",
  eq_disjoint s "proposed" "failed",
  eq_disjoint s "proposed" "refused",
)

actionable-IsOpen : (b : Bool) (r : Row) → is_actionable b r ≡ true → IsOpen r
unfolding is_actionable
actionable-IsOpen b r h = ground (arith, open_status b r.execution_status)

abbrev pub AllOpen : Table → Type 0
AllOpen [] = Unit
AllOpen (r ∷ t) = IsOpen r × AllOpen t

keep-AllOpen : (b : Bool) (t : Table) → AllOpen (keep (is_actionable b) t)
keep-AllOpen b [] = tt
keep-AllOpen b (r ∷ t) = elim (Bool-cases (is_actionable b r)) [
  | inl e ↦ rw e (actionable-IsOpen b r e, keep-AllOpen b t)
  | inr e ↦ rw e (keep-AllOpen b t)
]

insert-AllOpen : (r : Row) (t : Table) → IsOpen r → AllOpen t → AllOpen (insert_by_decision r t)
unfolding insert_by_decision
insert-AllOpen r [] h a = (h, tt)
insert-AllOpen r (s ∷ t) h a = elim (Bool-cases (at_or_before r.decision_at s.decision_at)) [
  | inl e ↦ rw e (h, a)
  | inr e ↦ rw e (a.0, insert-AllOpen r t h a.1)
]

sort-AllOpen : (t : Table) → AllOpen t → AllOpen (sort_by_decision t)
unfolding sort_by_decision
sort-AllOpen [] a = tt
sort-AllOpen (r ∷ t) a = insert-AllOpen r (sort_by_decision t) a.0 (sort-AllOpen t a.1)

-- What the agent is due: an approved or an edited action that has not begun, or that is proposed
-- where those are asked for too.
abbrev pub IsDue : Bool → Row → Type 0
IsDue include_proposed r =
    ((r.decision ≡ some "approved") ⊎ (r.decision ≡ some "edited"))
    × ((or_else r.execution_status "" ≡ "")
        ⊎ ((include_proposed ≡ true) × (or_else r.execution_status "" ≡ "proposed")))

authorises_iff :
    (o : Option String) → (authorises o ≡ true) ↔ ((o ≡ some "approved") ⊎ (o ≡ some "edited"))
authorises_iff none = ground arith
authorises_iff (some d) = ground (arith, eq_iff d "approved", eq_iff d "edited")

is_actionable_iff : (b : Bool) (r : Row) → (is_actionable b r ≡ true) ↔ IsDue b r
unfolding is_actionable
is_actionable_iff b r =
    let s = or_else r.execution_status "" in
    ground (arith, authorises_iff r.decision, eq_iff s "", eq_iff s "proposed")

-- The agent is handed the rows of the table that are due, each as often as it stands there, in the
-- order of their decisions, and none whose execution has ended; a row is due exactly if its decision
-- is an approval or an edit and it has no execution status, or, where proposed ones are asked for,
-- that status.
pub approved_lem :
    (include_proposed : Bool) (t : Table)
    → Perm (approved include_proposed t) (keep (is_actionable include_proposed) t)
      × IsOrdered (approved include_proposed t)
      × AllOpen (approved include_proposed t)
      × ((r : Row) → (is_actionable include_proposed r ≡ true) ↔ IsDue include_proposed r)
unfolding approved
approved_lem include_proposed t =
    let kept = keep (is_actionable include_proposed) t in
    (
      sort-perm kept,
      sort-IsOrdered kept,
      sort-AllOpen kept (keep-AllOpen include_proposed t),
      is_actionable_iff include_proposed,
    )
