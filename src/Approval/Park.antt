-- ===== src/Approval/Park.antt =====
-- Parking a verdict, listing what is parked, and the clock's own decisions (`register`, `pending`
-- and `expire_overdue` of brain/src/coroner_brain/approval.py).
use coroner.Base.{
  ℕ, ◌+◌, ◌*◌, String, not, Option, none, some, List, [], ◌∷◌, ltb, if◌then◌else◌, ◌==◌,
}
use coroner.Contract.{Micro, Contract, Instant}
use coroner.Verdict.{Mode, shadow, live, DiagnoseResponse}
use coroner.Inflight.{InFlightStore, seconds}
use coroner.Approval.Rules.{Setup}
use coroner.Approval.State.{
  different_incidents, approval_error, Pending, PendingRecord, Resolution, to_record, from_record,
  Result, ok, err, Action, pure, raise, ◌>>=◌, ◌>>◌,
}
use coroner.Approval.Pipeline.{read_clock, store_get, store_delete, or_bad_date, decide}

-- `mode != "live" or not verdict.approvable or verdict.confidence_final is None`
abbrev pub offered : Mode → DiagnoseResponse → Option Micro
offered shadow v = none
offered live v = if v.approvable then v.confidence_final else none

abbrev pub pending_of : Setup → DiagnoseResponse → Micro → Instant → Pending
pending_of p v confidence now = record {
  incident_id = v.incident_id;
  failure_type = v.failure_type;
  context_hash = v.context_hash;
  proposed_action = v.proposed_action;
  confidence_final = confidence;
  created_at = now;
  deadline = now + seconds p.ttl;
}

abbrev pub cons_some {ℓ} : {A : Type ℓ} → Option A → List A → List A
cons_some none rest = rest
cons_some (some a) rest = a ∷ rest

module _ {S : InFlightStore PendingRecord} (p : Setup) where
  unfoldable pub store_put : String → PendingRecord → ℕ → Action S Unit
  store_put id r ttl w =
      (ok tt, record w { store = S.put (p.clock w.reads) id r ttl w.store; reads = w.reads + 1 })

  unfoldable pub park : Contract → DiagnoseResponse → Micro → Action S (Option Pending)
  unfolding read_clock store_put
  park c v confidence =
      if not (c.incident_id == v.incident_id)
      then raise (approval_error 500 different_incidents)
      else do
        now ← read_clock p
        let q = pending_of p v confidence now
        store_put q.incident_id (to_record p.crypto q) (p.ttl * 2 + 60)
        pure (some q)

  abbrev pub or_nothing : Contract → DiagnoseResponse → Option Micro → Action S (Option Pending)
  or_nothing c v none = pure none
  or_nothing c v (some confidence) = park c v confidence

  unfoldable pub register : Contract → DiagnoseResponse → Mode → Action S (Option Pending)
  unfolding park
  register c v mode = or_nothing c v (offered mode v)

  unfoldable pub store_ids : Action S (List String)
  store_ids w =
      let (found, store) = S.ids (p.clock w.reads) w.store in
      (ok found, record w { store = store; reads = w.reads + 1 })

  abbrev pub parse_found : Option PendingRecord → Action S (Option Pending)
  parse_found none = pure none
  parse_found (some r) = do q ← or_bad_date p (from_record p.crypto r); pure (some q)

  unfoldable pub read_pending : List String → Action S (List Pending)
  unfolding store_get
  read_pending [] = pure []
  read_pending (id ∷ ids) = do
    found ← store_get p id
    parsed ← parse_found found
    rest ← read_pending ids
    pure (cons_some parsed rest)

  -- the records of the store, each read in turn
  unfoldable pub pending : Action S (List Pending)
  unfolding store_ids read_pending
  pending = do ids ← store_ids; read_pending ids

  -- `except ApprovalError`: the record is dropped, and the sweep goes on
  abbrev pub swept : String → Result Resolution → List String → Action S (List String)
  swept id (ok r) rest = pure (id ∷ rest)
  swept id (err e) rest = pure rest

  abbrev pub drop_refused : String → Result Resolution → Action S Unit
  drop_refused id (ok r) = pure tt
  drop_refused id (err (approval_error status detail)) = store_delete p id
  drop_refused id (err e) = raise e

  unfoldable pub attempt_expiry : String → Action S (Result Resolution)
  attempt_expiry id w = let (r, w') = decide p id "expired" "" "" w in (ok r, w')

  unfoldable pub sweep : Instant → List Pending → Action S (List String)
  unfolding attempt_expiry store_delete
  sweep now [] = pure []
  sweep now (q ∷ qs) =
      let skipped = sweep now qs in
      let expired = do
        r ← attempt_expiry q.incident_id
        drop_refused q.incident_id r
        rest ← sweep now qs
        swept q.incident_id r rest
      in if ltb now q.deadline then skipped else expired

  unfoldable pub expire_overdue : Action S (List String)
  unfolding read_clock sweep
  expire_overdue = do now ← read_clock p; parked ← pending; sweep now parked
