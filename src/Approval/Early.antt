-- ===== src/Approval/Early.antt =====
-- What happens to the clock's own decision before the deadline (`decide` of
-- brain/src/coroner_brain/approval.py).
use coroner.Base.{◌+◌, ◌≤◌, ◌<◌, String, ◌≡◌, refl, ◌∙◌, some, arith}
use coroner.Contract.{Instant}
use coroner.Inflight.{InFlightStore}
use coroner.Approval.Rules.{Setup, refuse, start_state}
use coroner.Approval.State.{
  Pending, PendingRecord, DecisionState, ok, err, World, from_record, approval_error,
  deadline_not_passed,
}
use coroner.Approval.Pipeline.{decide, check_at}
use coroner.Approval.Decided.{after_load, decide_found}

module _ {S : InFlightStore PendingRecord} (p : Setup) where
  check_at_early :
      (now : Instant) (q : Pending) (st : DecisionState) (w : World S)
      → st.decision ≡ "expired"
      → now < q.deadline
      → check_at p now q st w ≡ (ok (refuse 409 deadline_not_passed st), w)
  unfolding check_at
  check_at_early now q st w expired early = rw expired (ground arith)

  -- A parked incident cannot be expired before its deadline: the decision is refused with status
  -- 409, the ledger stays as it was, and so does what every read from then on finds parked.
  decide_early :
      (id reason action : String) (w : World S) (r : PendingRecord) (q : Pending)
      → S.view (p.clock w.reads) w.store id ≡ some r
      → from_record p.crypto r ≡ some q
      → p.clock (w.reads + 1) < q.deadline
      → let (result, w') = decide p id "expired" reason action w in
        (result ≡ err (approval_error 409 deadline_not_passed))
        × (w'.ledger ≡ w.ledger)
        × ((t : Instant) (j : String)
            → p.clock w.reads ≤ t
            → S.view t w'.store j ≡ S.view t w.store j)
  decide_early id reason action w r q view parsed early =
      let now = p.clock (w.reads + 1) in
      let loaded = record (start_state id "expired" reason action) { pending = some r } in
      let v : World S = record (after_load p id w) { reads = w.reads + 1 + 1 } in
      rw
        (
          decide_found p id "expired" reason action w r q
              (S.get-eq-view (p.clock w.reads) id w.store ∙ view) parsed,
          check_at_early now q loaded v refl early,
        )
        (refl, refl, λ t j h. S.view-get (p.clock w.reads) t id j w.store h)
