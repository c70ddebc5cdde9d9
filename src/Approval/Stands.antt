-- ===== src/Approval/Stands.antt =====
-- A decision that stands, whatever is decided afterwards (`decide` of
-- brain/src/coroner_brain/approval.py).
use native.Mathlib.Nat.{le_refl}
use coroner.Base.{◌+◌, String, ◌≡◌, refl, sym, ◌∙◌, false, List, ◌==◌}
use coroner.Inflight.{InFlightStore}
use coroner.Ledger.{apply_labels}
use coroner.Approval.Rules.{Setup}
use coroner.Approval.State.{
  PendingRecord, Resolution, ok, err, World, approval_error, already_decided,
}
use coroner.Approval.Pipeline.{decide}
use coroner.Approval.Decided.{Decided, decide-Decided}
use coroner.Approval.Once.{IsKeyed, decide_decided, decided_row, not_parked, decision_nonempty}
use coroner.Approval.Clock.{IsMonotone}
use coroner.Approval.Settled.{Call, after_calls, Settled, after_calls-Settled}

module _ {S : InFlightStore PendingRecord} (p : Setup) (mono : IsMonotone p)
    (id decision reason action : String) (w w' : World S) (res : Resolution) (keyed : IsKeyed S w)
    (D : Decided p id decision reason action w res w') where
  full : (decision == "") ≡ false
  full = decision_nonempty p (p.clock (w.reads + 1)) D.pending decision D.in_time

  Decided-Settled : Settled p mono id decision full w'
  unfolding apply_labels
  Decided-Settled = record {
    absent = λ t h.
        sym (S.get-eq-view t id w'.store)
        ∙ not_parked p id decision reason action w w' res keyed D t;
    row = _;
    found = (decided_row p id decision reason action w w' res keyed D).relabelled;
    decided = refl;
  }

  later_refused :
      (later : List Call) (d reason₂ action₂ : String)
      → (decide p id d reason₂ action₂ (after_calls p later w')).0
        ≡ err (approval_error 409 (already_decided decision))
  later_refused later d reason₂ action₂ =
      let v = after_calls p later w' in
      let s = after_calls-Settled p mono id decision full later w' Decided-Settled in
      decide_decided p id d reason₂ action₂ v s.row decision
        (S.get-eq-view (p.clock v.reads) id v.store
          ∙ s.absent (p.clock v.reads) (le_refl (p.clock v.reads)))
        s.found s.decided full

-- Once a decision on an incident has gone through, each later call of `decide` on it is refused with
-- status 409 and the decision that stands, whatever calls of `decide`, on any incidents, come in
-- between, if each parked record stood under its own incident and the clock never goes back.
pub decide_once :
    {S : InFlightStore PendingRecord} (p : Setup) (id decision reason action : String)
    (w w' : World S) (res : Resolution) (later : List Call) (d reason₂ action₂ : String)
    → IsMonotone p
    → IsKeyed S w
    → decide p id decision reason action w ≡ (ok res, w')
    → (decide p id d reason₂ action₂ (after_calls p later w')).0
      ≡ err (approval_error 409 (already_decided decision))
decide_once p id decision reason action w w' res later d reason₂ action₂ mono keyed h =
    later_refused p mono id decision reason action w w' res keyed
      (decide-Decided p id decision reason action w w' res h) later d reason₂ action₂
