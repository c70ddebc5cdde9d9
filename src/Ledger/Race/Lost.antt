-- ===== src/Ledger/Race/Lost.antt =====
-- Two threads that decide one incident at the same time (`Ledger.label` of
-- brain/src/coroner_brain/ledger.py).
use coroner.Base.{ℕ, String, ◌≡◌, ◌≢◌, refl, sym, ap, ◌∙◌, false, none, some, arith, eq_iff}
use coroner.Contract.{Instant}
use coroner.Ledger.{Row, Labels, truthy, get, update, label_refusal, apply_labels}
use coroner.Ledger.Keys.{decision_of, get-update}
use coroner.Ledger.Race.{
  Call, asked, cleared, acknowledged, System, set_call, after_read, Reach, here, next, reads,
  writes,
}

-- Labels that hold a decision and no other judgement.
pub record IsDecision (d : String) (l : Labels) : Type 0 where
  pub decision : l.decision ≡ some d
  pub shadow_rating : l.shadow_rating ≡ none
  pub actual_cause : l.actual_cause ≡ none

-- A system where two calls have been acknowledged and the later one's decision is on record.
pub record IsOverwritten (id : String) (s : System) (n m : ℕ) (l k : Labels) (e : String)
    : Type 0 where
  pub final : System
  pub reached : Reach id s final
  pub first : final.calls n ≡ acknowledged l
  pub second : final.calls m ≡ acknowledged k
  pub on_record : decision_of (get id final.table) ≡ some e

cleared_at :
    (d : String) (l : Labels) (row : Row)
    → IsDecision d l
    → truthy row.decision ≡ false
    → after_read l (some row) ≡ cleared l
unfolding label_refusal
cleared_at d l row x undecided =
    ground (arith, x.decision, x.shadow_rating, x.actual_cause, undecided)

set_same : (n : ℕ) (c : Call) (calls : ℕ → Call) → set_call n c calls n ≡ c
set_same n c calls = ground arith

set_other : (n m : ℕ) (c : Call) (calls : ℕ → Call) → n ≢ m → set_call n c calls m ≡ calls m
set_other n m c calls ne = ground (arith, ne)

module _ (id : String) (s : System) (n m : ℕ) (l k : Labels) (now later : Instant) where
  read_one : System
  read_one = record s { calls = set_call n (after_read l (get id s.table)) s.calls }

  read_both : System
  unfolding read_one
  read_both = record read_one { calls = set_call m (after_read k (get id s.table)) read_one.calls }

  written_one : System
  unfolding read_both
  written_one = record {
    table = update id (apply_labels now l) s.table;
    calls = set_call n (acknowledged l) read_both.calls;
  }

  written_both : System
  unfolding written_one
  written_both = record {
    table = update id (apply_labels later k) written_one.table;
    calls = set_call m (acknowledged k) written_one.calls;
  }

  module _ (ne : n ≢ m) (row : Row) (d e : String) (asked_n : s.calls n ≡ asked l)
      (asked_m : s.calls m ≡ asked k) (found : get id s.table ≡ some row)
      (undecided : truthy row.decision ≡ false) (x : IsDecision d l) (y : IsDecision e k) where
    cleared_n : read_both.calls n ≡ cleared l
    unfolding read_one read_both
    cleared_n =
        set_other m n (after_read k (get id s.table)) read_one.calls (λ h. ne (sym h))
        ∙ (set_same n (after_read l (get id s.table)) s.calls
            ∙ (ap (after_read l) found ∙ cleared_at d l row x undecided))

    cleared_m : written_one.calls m ≡ cleared k
    unfolding read_one read_both written_one
    cleared_m =
        set_other n m (acknowledged l) read_both.calls ne
        ∙ (set_same m (after_read k (get id s.table)) read_one.calls
            ∙ (ap (after_read k) found ∙ cleared_at e k row y undecided))

    four_steps : Reach id s written_both
    unfolding read_one read_both written_one written_both
    four_steps =
        next
          (next
            (next (next here (reads s n l asked_n)) (
              reads read_one m k
                (set_other n m (after_read l (get id s.table)) s.calls ne ∙ asked_m)))
            (writes read_both n l now cleared_n))
          (writes written_one m k later cleared_m)

    overwrites : decision_of (get id written_both.table) ≡ some e
    unfolding written_one written_both apply_labels
    overwrites = ground (
      arith,
      found,
      get-update id id (apply_labels now l) s.table (λ r. refl),
      get-update id id (apply_labels later k) (update id (apply_labels now l) s.table) (λ r. refl),
      eq_iff id id,
      y.decision,
    )

    -- Two calls that both begin before either has written are both acknowledged, and the row is left
    -- with the decision of the one that writes last: whatever two decisions they hold, on a row that
    -- has none.
    pub decision_lost : IsOverwritten id s n m l k e
    unfolding written_both written_one
    decision_lost = record {
      final = written_both;
      reached = four_steps;
      first =
          set_other m n (acknowledged k) written_one.calls (λ h. ne (sym h))
          ∙ set_same n (acknowledged l) read_both.calls;
      second = set_same m (acknowledged k) written_one.calls;
      on_record = overwrites;
    }
