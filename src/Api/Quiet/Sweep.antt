-- ===== src/Api/Quiet/Sweep.antt =====
-- Listing what is parked, parking a verdict, and a round of the sweeper are quiet (`pending`,
-- `register` and `expire_overdue` of brain/src/coroner_brain/approval.py).
use coroner.Base.{
  ◌+◌, ◌*◌, String, inl, inr, refl, not, Option, none, some, List, [], ◌∷◌, arith, ◌==◌, ltb,
  Bool-cases,
}
use coroner.Contract.{Contract, Instant, Micro}
use coroner.Verdict.{Mode, DiagnoseResponse}
use coroner.Inflight.{InFlightStore}
use coroner.Approval.{
  Pending, PendingRecord, Resolution, Result, ok, err, approval_error, World, Action, ◌>>=◌, pure,
  from_record, to_record,
}
use coroner.Approval.Rules.{Setup}
use coroner.Approval.Pipeline.{read_clock, store_get, store_delete, or_bad_date}
use coroner.Approval.Park.{
  store_ids, parse_found, read_pending, pending, swept, drop_refused, attempt_expiry, sweep,
  expire_overdue, register, park, cons_some, offered, or_nothing, pending_of,
}
use coroner.Api.Quiet.{
  Quiet, Quiet-refl, Quiet-trans, read-Quiet, get-Quiet, ids-Quiet, delete-Quiet, put-Quiet,
}
use coroner.Approval.Clock.{IsMonotone}
use coroner.Api.Quiet.Decide.{decide-Quiet}

module _ {S : InFlightStore PendingRecord} (p : Setup) (j : String) where
  abbrev IsQuiet : {A : Type 0} → Action S A → Type 0
  IsQuiet m = (w : World S) → Quiet p j w (m w).1

  after_bind :
      {A B : Type 0} (f : A → Action S B)
      → ((a : A) → IsQuiet (f a))
      → (r : Result A) (w : World S) → Quiet p j w (((λ v. (r, v)) >>= f) w).1
  after_bind f g (ok a) w = g a w
  after_bind f g (err e) w = Quiet-refl p j w

  bind-IsQuiet :
      {A B : Type 0} (m : Action S A) (f : A → Action S B)
      → IsQuiet m
      → ((a : A) → IsQuiet (f a))
      → IsQuiet (m >>= f)
  bind-IsQuiet m f h g w = Quiet-trans p j w (m w).1 _ (h w) (after_bind f g (m w).0 (m w).1)

  pure-IsQuiet : {A : Type 0} (a : A) → IsQuiet {A = A} (pure a)
  pure-IsQuiet a w = Quiet-refl p j w

  module _ (mono : IsMonotone p) where
    read_clock-IsQuiet : IsQuiet (read_clock p)
    unfolding read_clock
    read_clock-IsQuiet w = read-Quiet p j w mono

    store_get-IsQuiet : (id : String) → IsQuiet (store_get p id)
    unfolding store_get
    store_get-IsQuiet id w = get-Quiet p j id w mono

    store_delete-IsQuiet : (id : String) → IsQuiet (store_delete p id)
    unfolding store_delete
    store_delete-IsQuiet id w = delete-Quiet p j id w

    store_ids-IsQuiet : IsQuiet (store_ids p)
    unfolding store_ids
    store_ids-IsQuiet w = ids-Quiet p j w mono

    or_bad_date-IsQuiet : (o : Option Pending) → IsQuiet (or_bad_date p o)
    or_bad_date-IsQuiet none w = Quiet-refl p j w
    or_bad_date-IsQuiet (some q) w = Quiet-refl p j w

    parse_found-IsQuiet : (o : Option PendingRecord) → IsQuiet (parse_found p o)
    parse_found-IsQuiet none w = Quiet-refl p j w
    parse_found-IsQuiet (some r) w =
        bind-IsQuiet (or_bad_date p (from_record p.crypto r)) (λ q. pure (some q))
          (or_bad_date-IsQuiet (from_record p.crypto r)) (λ q. pure-IsQuiet (some q)) w

    read_pending-IsQuiet : (ids : List String) → IsQuiet (read_pending p ids)
    unfolding read_pending
    read_pending-IsQuiet [] w = Quiet-refl p j w
    read_pending-IsQuiet (id ∷ ids) w =
        let rest_of : Option Pending → Action S (List Pending) =
          λ parsed. read_pending p ids >>= λ rest. pure (cons_some parsed rest) in
        bind-IsQuiet (store_get p id) (λ found. parse_found p found >>= rest_of)
          (store_get-IsQuiet id)
          (λ found.
            bind-IsQuiet (parse_found p found) rest_of (parse_found-IsQuiet found) (λ parsed.
              bind-IsQuiet (read_pending p ids) (λ rest. pure (cons_some parsed rest))
                (read_pending-IsQuiet ids) (λ rest. pure-IsQuiet (cons_some parsed rest))))
          w

    pub pending-IsQuiet : IsQuiet (pending p)
    unfolding pending
    pending-IsQuiet =
        bind-IsQuiet (store_ids p) (read_pending p) store_ids-IsQuiet
          (λ ids. read_pending-IsQuiet ids)

    attempt_expiry-IsQuiet : (id : String) → IsQuiet (attempt_expiry p id)
    unfolding attempt_expiry
    attempt_expiry-IsQuiet id w = decide-Quiet p j mono id "expired" "" "" w (inl refl)

    drop_refused-IsQuiet : (id : String) (r : Result Resolution) → IsQuiet (drop_refused p id r)
    drop_refused-IsQuiet id (ok r) w = Quiet-refl p j w
    drop_refused-IsQuiet id (err (approval_error status detail)) w = store_delete-IsQuiet id w
    drop_refused-IsQuiet id (err e) w = Quiet-refl p j w

    swept-IsQuiet :
        (id : String) (r : Result Resolution) (rest : List String) → IsQuiet (swept p id r rest)
    swept-IsQuiet id (ok r) rest w = Quiet-refl p j w
    swept-IsQuiet id (err e) rest w = Quiet-refl p j w

    -- one overdue incident, and the rest of the sweep
    expired-IsQuiet :
        (id : String) (others : Action S (List String))
        → IsQuiet others
        → IsQuiet (
            attempt_expiry p id >>= λ r.
            drop_refused p id r >>= λ u. others >>= λ rest. swept p id r rest)
    expired-IsQuiet id others h =
        bind-IsQuiet (attempt_expiry p id)
          (λ r. drop_refused p id r >>= λ u. others >>= λ rest. swept p id r rest)
          (attempt_expiry-IsQuiet id)
          (λ r.
            bind-IsQuiet (drop_refused p id r) (λ u. others >>= λ rest. swept p id r rest)
              (drop_refused-IsQuiet id r)
              (λ u. bind-IsQuiet others (swept p id r) h (swept-IsQuiet id r)))

    sweep-IsQuiet : (now : Instant) (qs : List Pending) → IsQuiet (sweep p now qs)
    unfolding sweep
    sweep-IsQuiet now [] w = Quiet-refl p j w
    sweep-IsQuiet now (q ∷ qs) w = elim (Bool-cases (ltb now q.deadline)) [
      | inl e ↦ rw e (sweep-IsQuiet now qs w)
      | inr e ↦ rw e (expired-IsQuiet q.incident_id (sweep p now qs) (sweep-IsQuiet now qs) w)
    ]

    pub expire_overdue-IsQuiet : IsQuiet (expire_overdue p)
    unfolding expire_overdue
    expire_overdue-IsQuiet =
        bind-IsQuiet (read_clock p) (λ now. pending p >>= λ parked. sweep p now parked)
          read_clock-IsQuiet
          (λ now. bind-IsQuiet (pending p) (sweep p now) pending-IsQuiet (sweep-IsQuiet now))

    park-IsQuiet :
        (c : Contract) (v : DiagnoseResponse) (confidence : Micro) → IsQuiet (park p c v confidence)
    unfolding park to_record
    park-IsQuiet c v confidence w = elim (Bool-cases (not (c.incident_id == v.incident_id))) [
      | inl e ↦ rw e (Quiet-refl p j w)
      | inr e ↦ rw e (
          let u : World S = record w { reads = w.reads + 1 } in
          Quiet-trans p j w u _ (read-Quiet p j w mono) (
            put-Quiet p j v.incident_id
              (to_record p.crypto (pending_of p v confidence (p.clock w.reads))) (p.ttl * 2 + 60) u
              mono (omega arith) refl))
    ]

    or_nothing-IsQuiet :
        (c : Contract) (v : DiagnoseResponse) (o : Option Micro) → IsQuiet (or_nothing p c v o)
    or_nothing-IsQuiet c v none w = Quiet-refl p j w
    or_nothing-IsQuiet c v (some confidence) w = park-IsQuiet c v confidence w

    pub register-IsQuiet :
        (c : Contract) (v : DiagnoseResponse) (mode : Mode) → IsQuiet (register p c v mode)
    unfolding register
    register-IsQuiet c v mode = or_nothing-IsQuiet c v (offered mode v)
