-- ===== src/Approval/Sweeps/Clears.antt =====
-- A round of the sweeper clears what is overdue (`expire_overdue` of
-- brain/src/coroner_brain/approval.py).
use native.Mathlib.Nat.{le_trans}
use coroner.Base.{
  ◌+◌, ◌≤◌, String, ◌≡◌, refl, ap, ◌∙◌, subst, true, false, some, List, arith, is_some, ltb, any,
}
use coroner.Ledger
use coroner.Ledger.{Row, truthy}
use coroner.Inflight.{InFlightStore}
use coroner.Approval.Rules.{Setup}
use coroner.Approval.State.{Pending, PendingRecord, ok, World, from_record}
use coroner.Approval.Pipeline.{read_clock}
use coroner.Approval.Park.{sweep, read_pending, store_ids, pending, expire_overdue}
use coroner.Approval.Clock.{IsMonotone, clock_mono}
use coroner.Approval.Completes.{is_ok}
use coroner.Approval.Expires.Cases.{AreSound}
use coroner.Approval.Sweeps.{
  is_due, Stays, IsGone, IsExpired, sweep-Passage, sweep-IsGone, sweep-IsExpired,
}
use coroner.Approval.Sweeps.Listing.{
  Reading, Reading-trans, Reading-sound, Reading-Stays, Listed, read_pending-Listed,
}

module _ {S : InFlightStore PendingRecord} (p : Setup) (mono : IsMonotone p) where
  -- the world once the round has listed the incidents
  listed_world : World S → World S
  listed_world w = record w {
    store = (S.ids (p.clock (w.reads + 1)) w.store).1;
    reads = w.reads + 1 + 1;
  }

  ids-Reading : (w : World S) → Reading p mono w (listed_world w)
  unfolding listed_world
  ids-Reading w = record {
    later = omega arith;
    view =
        λ t i h. S.view-ids (p.clock (w.reads + 1)) t i w.store (le_trans (mono (w.reads + 1)) h);
    ledger = refl;
  }

  expire_overdue-sweep :
      (w w' : World S) (qs : List Pending)
      → read_pending p (S.ids (p.clock (w.reads + 1)) w.store).0 (listed_world w) ≡ (ok qs, w')
      → expire_overdue p w ≡ sweep p (p.clock w.reads) qs w'
  unfolding expire_overdue read_clock pending store_ids listed_world
  expire_overdue-sweep w w' qs h = ground (arith, h)

  module _ (w : World S) (j : String) (r : PendingRecord) (q : Pending)
      (L : Listed p mono j r q
        (p.clock w.reads)
        (S.ids (p.clock (w.reads + 1)) w.store).0
        (listed_world w)) where
    swept_world : World S
    swept_world = (sweep p (p.clock w.reads) L.found L.after).1

    all : Reading p mono w L.after
    all = Reading-trans p mono w (listed_world w) L.after (ids-Reading w) L.reading

    listing-due :
        S.IsIndexed (p.clock (w.reads + 1)) w.store
        → L.after.reads ≤ swept_world.reads
        → Stays p mono j r w swept_world.reads
        → any (is_due (p.clock w.reads) j) L.found ≡ true
    unfolding listed_world
    listing-due indexed passed stays =
        let up : w.reads + 1 ≤ swept_world.reads = omega (arith, L.reading.later, passed) in
        L.due
          (S.names-ids (p.clock (w.reads + 1)) j w.store indexed
            ∙ ap is_some (stays (w.reads + 1) (omega arith) up))
          (Reading-Stays p mono j r w (listed_world w) L.after.reads (ids-Reading w)
            (λ n h k. stays n h (omega (arith, k, passed))))

    cleared :
        (row : Row)
        → AreSound p w
        → S.IsIndexed (p.clock (w.reads + 1)) w.store
        → from_record p.crypto r ≡ some q
        → q.deadline ≤ p.clock w.reads
        → Stays p mono j r w swept_world.reads
        → Ledger.get j w.ledger ≡ some row
        → truthy row.decision ≡ false
        → (is_ok (sweep p (p.clock w.reads) L.found L.after).0 ≡ true)
          × IsGone p mono j swept_world
          × IsExpired p mono j swept_world
    unfolding swept_world
    cleared row sound indexed parsed late stays f t =
        let now = p.clock w.reads in
        let sound' = Reading-sound p mono w L.after all sound in
        let (fine, passage) = sweep-Passage p mono j now L.found L.after sound' in
        let listed = listing-due indexed passage.later stays in
        (
          fine,
          sweep-IsGone p mono j now L.found L.after sound' listed,
          sweep-IsExpired p mono j now L.found L.after r q row sound' listed parsed
              (le_trans late (clock_mono p mono w.reads L.after.reads all.later))
              (Reading-Stays p mono j r w L.after swept_world.reads all stays)
              (ap (Ledger.get j) all.ledger ∙ f) t,
        )

  -- A round of the sweeper goes through to its end, and clears an incident whose deadline had passed
  -- when it began, if its record can still be read at each reading of the clock: it is parked no
  -- longer, and its row is labelled expired if it had no decision. The store is one whose listing
  -- misses nothing, each parked record stands under its own incident and can be parsed, and the
  -- clock never goes back.
  pub expire_overdue_clears :
      (w : World S) (j : String) (r : PendingRecord) (q : Pending) (row : Row)
      → AreSound p w
      → S.IsIndexed (p.clock (w.reads + 1)) w.store
      → from_record p.crypto r ≡ some q
      → q.deadline ≤ p.clock w.reads
      → Stays p mono j r w (expire_overdue p w).1.reads
      → Ledger.get j w.ledger ≡ some row
      → truthy row.decision ≡ false
      → (is_ok (expire_overdue p w).0 ≡ true)
        × IsGone p mono j (expire_overdue p w).1
        × IsExpired p mono j (expire_overdue p w).1
  unfolding swept_world
  expire_overdue_clears w j r q row sound indexed parsed late stays f t =
      let due : ltb (p.clock w.reads) q.deadline ≡ false = ground (arith, late) in
      let w₂ = listed_world w in
      let L =
        read_pending-Listed p mono j r q (p.clock w.reads) parsed due
          (S.ids (p.clock (w.reads + 1)) w.store).0 w₂
          (Reading-sound p mono w w₂ (ids-Reading w) sound) in
      let same = expire_overdue-sweep w L.after L.found L.goes_through in
      rw same (
        cleared w j r q L row sound indexed parsed late
          (subst (λ x. Stays p mono j r w x.1.reads) same stays) f t)
