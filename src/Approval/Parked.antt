-- ===== src/Approval/Parked.antt =====
-- What is parked, and under which incident (`register` of brain/src/coroner_brain/approval.py).
use coroner.Base.{
  ◌+◌, ◌*◌, ◌≤◌, String, ◌≡◌, refl, ◌∙◌, false, Option, none, some, arith, eq_iff, ◌==◌,
}
use coroner.Contract.{Instant, Micro, Contract}
use coroner.Verdict.{Mode, DiagnoseResponse}
use coroner.Inflight.{InFlightStore, seconds}
use coroner.Approval.Rules.{Setup}
use coroner.Approval.State.{PendingRecord, ok, World, to_record}
use coroner.Approval.Once.{IsKeyed}
use coroner.Approval.Park.{register, offered, pending_of, park, or_nothing}

module _ {S : InFlightStore PendingRecord} (p : Setup) where
  -- What is parked when a verdict offers approval and names its contract's incident.
  pub register_parks :
      (c : Contract) (v : DiagnoseResponse) (mode : Mode) (confidence : Micro) (w : World S)
      → offered mode v ≡ some confidence
      → c.incident_id ≡ v.incident_id
      → register p c v mode w ≡ (
        ok (some (pending_of p v confidence (p.clock w.reads))),
        record w {
          store =
              S.put
                (p.clock (w.reads + 1))
                v.incident_id
                (to_record p.crypto (pending_of p v confidence (p.clock w.reads)))
                (p.ttl * 2 + 60)
                w.store;
          reads = w.reads + 1 + 1;
        },
      )
  unfolding register
  register_parks c v mode confidence w o same = ground (arith, eq_iff c.incident_id v.incident_id)

  -- A verdict that offers approval is parked with a deadline one time to live ahead, and the
  -- record is read back as it was parked at every instant up to that long again after the
  -- deadline; no other incident's record changes.
  pub register_parked :
      (c : Contract) (v : DiagnoseResponse) (mode : Mode) (confidence : Micro) (w : World S)
      (later : Instant)
      → offered mode v ≡ some confidence
      → c.incident_id ≡ v.incident_id
      → p.clock w.reads ≤ p.clock (w.reads + 1)
      → later ≤ p.clock w.reads + seconds p.ttl + seconds p.ttl
      → let (result, w') = register p c v mode w in
        let q = pending_of p v confidence (p.clock w.reads) in
        (result ≡ ok (some q))
        × (q.deadline ≡ p.clock w.reads + seconds p.ttl)
        × (S.view later w'.store v.incident_id ≡ some (to_record p.crypto q))
        × ((j : String)
            → (v.incident_id == j) ≡ false
            → S.view later w'.store j ≡ S.view later w.store j)
  register_parked c v mode confidence w later o same mono soon =
      rw (register_parks c v mode confidence w o same) (
        refl,
        refl,
        S.view-put _ later v.incident_id v.incident_id _ _ w.store (omega arith)
            ∙ ground (arith, eq_iff v.incident_id v.incident_id),
        λ j ne. S.view-put _ later v.incident_id j _ _ w.store (omega arith) ∙ ground arith,
      )

  offer-IsKeyed :
      (c : Contract) (v : DiagnoseResponse) (o : Option Micro) (w : World S)
      → IsKeyed S w
      → IsKeyed S (or_nothing p c v o w).1
  unfolding park to_record
  offer-IsKeyed c v none w keyed t id r h = keyed t id r h
  offer-IsKeyed c v (some confidence) w keyed t id r h = ground (
    arith,
    eq_iff c.incident_id v.incident_id,
    eq_iff v.incident_id id,
    keyed t id r,
    S.view-put (p.clock (w.reads + 1)) t v.incident_id id
        (to_record p.crypto (pending_of p v confidence (p.clock w.reads))) (p.ttl * 2 + 60) w.store,
  )

  -- Parking keeps every record under its own incident, whether it parks, declines or raises.
  register-IsKeyed :
      (c : Contract) (v : DiagnoseResponse) (mode : Mode) (w : World S)
      → IsKeyed S w
      → IsKeyed S (register p c v mode w).1
  unfolding register
  register-IsKeyed c v mode w keyed = offer-IsKeyed c v (offered mode v) w keyed
