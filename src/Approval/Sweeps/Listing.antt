-- ===== src/Approval/Sweeps/Listing.antt =====
-- The listing that a round of the sweeper starts from (`pending` of
-- brain/src/coroner_brain/approval.py).
use native.Mathlib.Nat.{le_trans}
use coroner.Base.{
  ℕ, ◌+◌, ◌≤◌, String, ◌≡◌, refl, sym, ◌∙◌, true, false, none, some, List, [], ◌∷◌, arith, eq_iff,
  Option-cases, Bool-cases, inl, inr, ltb, any, ◌==◌,
}
use coroner.Contract.{Instant}
use coroner.Inflight.{InFlightStore, names}
use coroner.Approval.Rules.{Setup}
use coroner.Approval.State.{Pending, PendingRecord, ok, World, from_record}
use coroner.Approval.Pipeline.{store_get}
use coroner.Approval.Park.{read_pending}
use coroner.Approval.Clock.{IsMonotone, clock_mono}
use coroner.Approval.Once.{from_record_key}
use coroner.Approval.Expires.Cases.{AreSound}
use coroner.Approval.Sweeps.{is_due, Stays}

module _ {S : InFlightStore PendingRecord} (p : Setup) (mono : IsMonotone p) where
  -- A step that reads the store and the clock only.
  pub record Reading (w w' : World S) : Type 0 where
    pub later : w.reads ≤ w'.reads
    pub view :
        (t : Instant) (i : String) → p.clock w'.reads ≤ t → S.view t w'.store i ≡ S.view t w.store i
    pub ledger : w'.ledger ≡ w.ledger

  pub Reading-trans : (a b c : World S) → Reading a b → Reading b c → Reading a c
  Reading-trans a b c f g = record {
    later = omega (arith, f.later, g.later);
    view =
        λ t i h. g.view t i h ∙ f.view t i (le_trans (clock_mono p mono b.reads c.reads g.later) h);
    ledger = g.ledger ∙ f.ledger;
  }

  pub Reading-sound : (w w' : World S) → Reading w w' → AreSound p w → AreSound p w'
  Reading-sound w w' x sound t i r h v =
      sound t i r (le_trans (clock_mono p mono w.reads w'.reads x.later) h) (sym (x.view t i h) ∙ v)

  pub Reading-Stays :
      (j : String) (r : PendingRecord) (w w' : World S) (until : ℕ)
      → Reading w w'
      → Stays p mono j r w until
      → Stays p mono j r w' until
  Reading-Stays j r w w' until x stays n h k =
      x.view (p.clock n) j (clock_mono p mono w'.reads n h) ∙ stays n (omega (arith, x.later, h)) k

  after_get : String → World S → World S
  after_get id w = record w { store = (S.get (p.clock w.reads) id w.store).1; reads = w.reads + 1 }

  get-Reading : (id : String) (w : World S) → Reading w (after_get id w)
  unfolding after_get
  get-Reading id w = record {
    later = omega arith;
    view = λ t i h. S.view-get (p.clock w.reads) t id i w.store (le_trans (mono w.reads) h);
    ledger = refl;
  }

  read-absent :
      (id : String) (ids : List String) (w w' : World S) (qs : List Pending)
      → S.view (p.clock w.reads) w.store id ≡ none
      → read_pending p ids (after_get id w) ≡ (ok qs, w')
      → read_pending p (id ∷ ids) w ≡ (ok qs, w')
  unfolding read_pending store_get after_get
  read-absent id ids w w' qs e h = ground (arith, S.get-eq-view (p.clock w.reads) id w.store, e, h)

  read-present :
      (id : String) (ids : List String) (w w' : World S) (r : PendingRecord) (q : Pending)
      (qs : List Pending)
      → S.view (p.clock w.reads) w.store id ≡ some r
      → from_record p.crypto r ≡ some q
      → read_pending p ids (after_get id w) ≡ (ok qs, w')
      → read_pending p (id ∷ ids) w ≡ (ok (q ∷ qs), w')
  unfolding read_pending store_get after_get
  read-present id ids w w' r q qs e parsed h =
      ground (arith, S.get-eq-view (p.clock w.reads) id w.store, e, parsed, h)

  -- What a listing brings: it goes through, and names the due verdict of an incident that is listed
  -- and whose record stays.
  pub record Listed (j : String) (r : PendingRecord) (q : Pending) (now : Instant)
      (ids : List String) (w : World S) : Type 0 where
    pub found : List Pending
    pub after : World S
    pub goes_through : read_pending p ids w ≡ (ok found, after)
    pub reading : Reading w after
    pub due : names j ids ≡ true → Stays p mono j r w after.reads → any (is_due now j) found ≡ true

  module _ (j : String) (r : PendingRecord) (q : Pending) (now : Instant)
      (parsed : from_record p.crypto r ≡ some q) (late : ltb now q.deadline ≡ false) where
    -- an incident whose record is gone by the time that it is read
    absent-Listed :
        (id : String) (ids : List String) (w : World S)
        → S.view (p.clock w.reads) w.store id ≡ none
        → Listed j r q now ids (after_get id w)
        → Listed j r q now (id ∷ ids) w
    absent-Listed id ids w e rest =
        let until : w.reads ≤ rest.after.reads =
          omega (arith, (get-Reading id w).later, rest.reading.later) in
        record {
          found = rest.found;
          after = rest.after;
          goes_through = read-absent id ids w rest.after rest.found e rest.goes_through;
          reading = Reading-trans w (after_get id w) rest.after (get-Reading id w) rest.reading;
          due = λ listed stays. elim (Bool-cases (id == j)) [
            | inl here ↦
                absurd (ground (arith, eq_iff id j, here, e, stays w.reads (omega arith) until))
            | inr other ↦
                rest.due (ground (arith, listed, other))
                  (Reading-Stays j r w (after_get id w) rest.after.reads (get-Reading id w) stays)
          ];
        }

    present-Listed :
        (id : String) (ids : List String) (w : World S) (r' : PendingRecord) (q' : Pending)
        → S.view (p.clock w.reads) w.store id ≡ some r'
        → from_record p.crypto r' ≡ some q'
        → q'.incident_id ≡ id
        → Listed j r q now ids (after_get id w)
        → Listed j r q now (id ∷ ids) w
    present-Listed id ids w r' q' e parsed' own rest =
        let until : w.reads ≤ rest.after.reads =
          omega (arith, (get-Reading id w).later, rest.reading.later) in
        record {
          found = q' ∷ rest.found;
          after = rest.after;
          goes_through =
              read-present id ids w rest.after r' q' rest.found e parsed' rest.goes_through;
          reading = Reading-trans w (after_get id w) rest.after (get-Reading id w) rest.reading;
          due = λ listed stays. elim (Bool-cases (id == j)) [
            | inl here ↦ ground (
              arith,
              eq_iff id j,
              here,
              e,
              parsed',
              parsed,
              late,
              own,
              stays w.reads (omega arith) until,
            )
            | inr other ↦
                let more = rest.due (ground (arith, listed, other)) (
                  Reading-Stays j r w (after_get id w) rest.after.reads (get-Reading id w) stays) in
                ground (arith, more)
          ];
        }

    pub read_pending-Listed :
        (ids : List String) (w : World S) → AreSound p w → Listed j r q now ids w
    unfolding read_pending
    read_pending-Listed [] w sound = record {
      found = [];
      after = w;
      goes_through = refl;
      reading = record { later = omega arith; view = λ t i h. refl; ledger = refl };
      due = λ listed stays. absurd (ground (arith, listed));
    }
    read_pending-Listed (id ∷ ids) w sound =
        let rest =
          read_pending-Listed ids (after_get id w)
            (Reading-sound w (after_get id w) (get-Reading id w) sound) in
        elim (Option-cases (S.view (p.clock w.reads) w.store id)) [
          | inl e ↦ absent-Listed id ids w e rest
          | inr (r', e) ↦
              let (own, readable) = sound (p.clock w.reads) id r' (omega arith) e in
              elim (Option-cases (from_record p.crypto r')) [
                | inl bad ↦ absurd (ground (arith, readable, bad))
                | inr (q', parsed') ↦
                    present-Listed id ids w r' q' e parsed'
                      (from_record_key p.crypto r' q' parsed' ∙ own) rest
              ]
        ]
