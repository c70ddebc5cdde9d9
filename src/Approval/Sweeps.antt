-- ===== src/Approval/Sweeps.antt =====
-- The sweep over the incidents that are listed (`expire_overdue` of
-- brain/src/coroner_brain/approval.py).
pub mod Listing
pub mod Clears
use native.Mathlib.Nat.{le_trans}
use coroner.Base.{
  ℕ, ◌+◌, ◌≤◌, String, ◌≡◌, refl, sym, ap, ◌∙◌, subst, Bool, true, false, not, ◌&&◌, Option, none,
  some, List, [], ◌∷◌, arith, eq_iff, Option-cases, Bool-cases, inl, inr, is_some, ltb, any,
  if◌then◌else◌, ◌==◌,
}
use coroner.Contract.{Instant}
use coroner.Ledger
use coroner.Ledger.{Row, truthy}
use coroner.Ledger.Keys.{decision_of}
use coroner.Inflight.{InFlightStore, names}
use coroner.Approval.Rules.{Setup}
use coroner.Approval.State.{
  Pending, PendingRecord, Resolution, Result, ok, err, World, Action, ◌>>=◌, pure, from_record,
}
use coroner.Approval.Pipeline.{store_get, read_clock, or_bad_date}
use coroner.Approval.Park.{
  attempt_expiry, drop_refused, swept, sweep, parse_found, read_pending, store_ids, pending,
  expire_overdue, cons_some,
}
use coroner.Approval.Clock.{IsMonotone, clock_mono}
use coroner.Approval.Completes.{is_ok}
use coroner.Approval.Once.{from_record_key}
use coroner.Approval.Expires.{expire_one}
use coroner.Approval.Expires.Cases.{Expiry, expire_one-Expiry, AreSound}

-- The verdict of an incident, due at an instant.
abbrev pub is_due : Instant → String → Pending → Bool
is_due now j q = q.incident_id == j && not (ltb now q.deadline)

module _ {S : InFlightStore PendingRecord} (p : Setup) (mono : IsMonotone p) where
  -- Nothing of an incident is parked from the next reading of the clock on.
  abbrev pub IsGone : String → World S → Type 0
  IsGone j w = (t : Instant) → p.clock w.reads ≤ t → S.view t w.store j ≡ none

  abbrev pub IsExpired : String → World S → Type 0
  IsExpired j w = decision_of (Ledger.get j w.ledger) ≡ some "expired"

  -- A step that keeps what a sweep has done so far.
  pub record Passage (j : String) (w w' : World S) : Type 0 where
    pub later : w.reads ≤ w'.reads
    pub sound : AreSound p w → AreSound p w'
    pub gone : IsGone j w → IsGone j w'
    pub expired : IsExpired j w → IsExpired j w'

  Passage-refl : (j : String) (w : World S) → Passage j w w
  Passage-refl j w = record { later = omega arith; sound = λ h. h; gone = λ h. h; expired = λ h. h }

  Passage-trans : (j : String) (a b c : World S) → Passage j a b → Passage j b c → Passage j a c
  Passage-trans j a b c f g = record {
    later = omega (arith, f.later, g.later);
    sound = λ h. g.sound (f.sound h);
    gone = λ h. g.gone (f.gone h);
    expired = λ h. g.expired (f.expired h);
  }

  IsExpired-Expiry :
      (j id : String) (w w' : World S) → Expiry p id w w' → IsExpired j w → IsExpired j w'
  IsExpired-Expiry j id w w' x e = elim (Bool-cases (id == j)) [
    | inr ne ↦ ap decision_of (x.others j ne) ∙ e
    | inl same ↦ elim (Option-cases (Ledger.get id w.ledger)) [
      | inl n ↦ absurd (ground (arith, eq_iff id j, same, n, e))
      | inr (row, f) ↦ ground (arith, eq_iff id j, same, f, e, x.kept row f)
    ]
  ]

  Expiry-Passage : (j id : String) (w w' : World S) → Expiry p id w w' → Passage j w w'
  Expiry-Passage j id w w' x =
      let back = clock_mono p mono w.reads w'.reads x.later in
      record {
        later = x.later;
        sound = λ h t i r k v.
            h t i r (le_trans back k) (ground (arith, x.view t i (le_trans back k), v));
        gone = λ h t k. ground (arith, x.view t j (le_trans back k), h t (le_trans back k));
        expired = IsExpired-Expiry j id w w' x;
      }

  abbrev rest_of : Instant → String → List Pending → Result Resolution → Action S (List String)
  rest_of now id qs r = sweep p now qs >>= λ rest. swept p id r rest

  -- a due incident is expired, and the sweep goes on from there
  sweep-due :
      (now : Instant) (q : Pending) (qs : List Pending) (w : World S)
      → ltb now q.deadline ≡ false
      → (expire_one p q.incident_id w).0 ≡ ok tt
      → is_ok (sweep p now qs (expire_one p q.incident_id w).1).0 ≡ true
      → (is_ok (sweep p now (q ∷ qs) w).0 ≡ true)
        × ((sweep p now (q ∷ qs) w).1 ≡ (sweep p now qs (expire_one p q.incident_id w).1).1)
  unfolding sweep attempt_expiry
  sweep-due now q qs w due h k = ground (arith, due, h, k)

  sweep-skipped :
      (now : Instant) (q : Pending) (qs : List Pending) (w : World S)
      → ltb now q.deadline ≡ true
      → sweep p now (q ∷ qs) w ≡ sweep p now qs w
  unfolding sweep
  sweep-skipped now q qs w early = rw early refl

  -- A sweep goes through to its end and keeps what was done before it.
  pub sweep-Passage :
      (j : String) (now : Instant) (qs : List Pending) (w : World S)
      → AreSound p w
      → (is_ok (sweep p now qs w).0 ≡ true) × Passage j w (sweep p now qs w).1
  unfolding sweep
  sweep-Passage j now [] w sound = (refl, Passage-refl j w)
  sweep-Passage j now (q ∷ qs) w sound = elim (Bool-cases (ltb now q.deadline)) [
    | inl early ↦ rw (sweep-skipped now q qs w early) (sweep-Passage j now qs w sound)
    | inr due ↦
        let (done, x) = expire_one-Expiry p mono q.incident_id w sound in
        let w₁ = (expire_one p q.incident_id w).1 in
        let first = Expiry-Passage j q.incident_id w w₁ x in
        let (ended, rest) = sweep-Passage j now qs w₁ (first.sound sound) in
        let (fine, same) = sweep-due now q qs w due done ended in
        (
          fine,
          subst (Passage j w) (sym same) (Passage-trans j w w₁ (sweep p now qs w₁).1 first rest),
        )
  ]

  pub sweep-IsGone :
      (j : String) (now : Instant) (qs : List Pending) (w : World S)
      → AreSound p w
      → any (is_due now j) qs ≡ true
      → IsGone j (sweep p now qs w).1
  unfolding sweep
  sweep-IsGone j now [] w sound listed = absurd (ground (arith, listed))
  sweep-IsGone j now (q ∷ qs) w sound listed = elim (Bool-cases (ltb now q.deadline)) [
    | inl early ↦
        rw (sweep-skipped now q qs w early)
          (sweep-IsGone j now qs w sound (ground (arith, listed, early)))
    | inr due ↦
        let (done, x) = expire_one-Expiry p mono q.incident_id w sound in
        let w₁ = (expire_one p q.incident_id w).1 in
        let first = Expiry-Passage j q.incident_id w w₁ x in
        let (ended, rest) = sweep-Passage j now qs w₁ (first.sound sound) in
        let (fine, same) = sweep-due now q qs w due done ended in
        let back = clock_mono p mono w.reads w₁.reads x.later in
        subst (IsGone j) (sym same) (elim (Bool-cases (q.incident_id == j)) [
          | inl here ↦ rest.gone (λ t k. ground (arith, x.view t j (le_trans back k), here))
          | inr other ↦ sweep-IsGone j now qs w₁ (first.sound sound) (ground (arith, listed, other))
        ])
  ]

  -- The record of an incident is there at each reading of the clock up to some point.
  abbrev pub Stays : String → PendingRecord → World S → ℕ → Type 0
  Stays j r w until = (n : ℕ) → w.reads ≤ n → n ≤ until → S.view (p.clock n) w.store j ≡ some r

  Stays-Expiry :
      (j id : String) (r : PendingRecord) (w w' : World S) (until : ℕ)
      → Expiry p id w w'
      → (id == j) ≡ false
      → Stays j r w until
      → Stays j r w' until
  Stays-Expiry j id r w w' until x other stays n h k = ground (
    arith,
    x.view (p.clock n) j (clock_mono p mono w.reads n (omega (arith, x.later, h))),
    other,
    stays n (omega (arith, x.later, h)) k,
  )

  Expiry-IsExpired :
      (j id : String) (w w' : World S) (r : PendingRecord) (q : Pending) (row : Row)
      → Expiry p id w w'
      → (id == j) ≡ true
      → S.view (p.clock w.reads) w.store j ≡ some r
      → from_record p.crypto r ≡ some q
      → q.deadline ≤ p.clock w.reads
      → Ledger.get j w.ledger ≡ some row
      → truthy row.decision ≡ false
      → IsExpired j w'
  Expiry-IsExpired j id w w' r q row x here v parsed late f t =
      ground (arith, eq_iff id j, here, x.expired r q row, v, parsed, mono w.reads, late, f, t)

  pub sweep-IsExpired :
      (j : String) (now : Instant) (qs : List Pending) (w : World S) (r : PendingRecord)
      (q₀ : Pending) (row : Row)
      → AreSound p w
      → any (is_due now j) qs ≡ true
      → from_record p.crypto r ≡ some q₀
      → q₀.deadline ≤ p.clock w.reads
      → Stays j r w (sweep p now qs w).1.reads
      → Ledger.get j w.ledger ≡ some row
      → truthy row.decision ≡ false
      → IsExpired j (sweep p now qs w).1
  unfolding sweep
  sweep-IsExpired j now [] w r q₀ row sound listed parsed late stays f t =
      absurd (ground (arith, listed))
  sweep-IsExpired j now (q ∷ qs) w r q₀ row sound listed parsed late stays f t =
      elim (Bool-cases (ltb now q.deadline)) [
        | inl early ↦
            let same = sweep-skipped now q qs w early in
            subst (IsExpired j) (sym (ap (λ x. x.1) same)) (
              sweep-IsExpired j now qs w r q₀ row sound (ground (arith, listed, early)) parsed late
                (subst (λ x. Stays j r w x.1.reads) same stays) f t)
        | inr due ↦
            let id = q.incident_id in
            let (done, x) = expire_one-Expiry p mono id w sound in
            let w₁ = (expire_one p id w).1 in
            let first = Expiry-Passage j id w w₁ x in
            let (ended, rest) = sweep-Passage j now qs w₁ (first.sound sound) in
            let (fine, same) = sweep-due now q qs w due done ended in
            let until : w.reads ≤ (sweep p now qs w₁).1.reads =
              omega (arith, x.later, rest.later) in
            let stays' = subst (λ v. Stays j r w v.reads) same stays in
            subst (IsExpired j) (sym same) (elim (Bool-cases (id == j)) [
              | inl here ↦ rest.expired (
                  Expiry-IsExpired j id w w₁ r q₀ row x here (stays' w.reads (omega arith) until)
                    parsed late f t)
              | inr other ↦
                  sweep-IsExpired j now qs w₁ r q₀ row (first.sound sound)
                    (ground (arith, listed, other)) parsed
                    (le_trans late (clock_mono p mono w.reads w₁.reads x.later))
                    (Stays-Expiry j id r w w₁ (sweep p now qs w₁).1.reads x other stays')
                    (x.others j other ∙ f) t
            ])
      ]
