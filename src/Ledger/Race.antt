-- ===== src/Ledger/Race.antt =====
-- Calls of `Ledger.label` for one incident on several threads (brain/src/coroner_brain/ledger.py).
-- The handlers run in a thread pool and the sweeper on its own thread. A call reads the row over one
-- connection, tests it, and writes over another, so each of the two is a step of its own.
pub mod Kept
pub mod Lost
use coroner.Base.{ℕ, String, ◌≡◌, Option, none, some, eqb, if◌then◌else◌}
use coroner.Contract.{Instant}
use coroner.Ledger.{
  Table, Row, Labels, LedgerError, unknown_incident, Result, ok, err, get, update, label,
  label_refusal, apply_labels,
}

-- How far a call has come: it has begun, its read let it through, its write is done, or it raised.
pub data Call : Type 0 where
  asked cleared acknowledged : Labels → Call
  refused : LedgerError → Call

-- The table, and the calls by the number of their thread.
pub record System : Type 0 where
  pub table : Table
  pub calls : ℕ → Call

abbrev pub set_call : ℕ → Call → (ℕ → Call) → ℕ → Call
set_call n c calls m = if eqb n m then c else calls m

-- a call once its tests have been made on what it has read
abbrev pub tested : Labels → Option LedgerError → Call
tested l none = cleared l
tested l (some e) = refused e

abbrev pub after_read : Labels → Option Row → Call
after_read l none = refused unknown_incident
after_read l (some r) = tested l (label_refusal l r)

-- a call that runs from its beginning to its end
abbrev pub after_label : ℕ → Labels → Result Table → System → System
after_label n l (ok table) s = record { table = table; calls = set_call n (acknowledged l) s.calls }
after_label n l (err e) s = record s { calls = set_call n (refused e) s.calls }

module _ (id : String) where
  -- The steps of the threads, in any order.
  pub data Step : System → System → Type 0 where
    reads :
        (s : System) (n : ℕ) (l : Labels)
        → s.calls n ≡ asked l
        → Step s (record s { calls = set_call n (after_read l (get id s.table)) s.calls })
    writes :
        (s : System) (n : ℕ) (l : Labels) (now : Instant)
        → s.calls n ≡ cleared l
        → Step s (record {
          table = update id (apply_labels now l) s.table;
          calls = set_call n (acknowledged l) s.calls;
        })

  pub data Reach (s : System) : System → Type 0 where
    here : Reach s s
    next : {t u : System} → Reach s t → Step t u → Reach s u

  -- The steps if no call begins before another has ended.
  pub data Turn : System → System → Type 0 where
    labels :
        (s : System) (n : ℕ) (l : Labels) (now : Instant)
        → s.calls n ≡ asked l
        → Turn s (after_label n l (label now id l s.table) s)

  pub data Turns (s : System) : System → Type 0 where
    nobody : Turns s s
    turn : {t u : System} → Turns s t → Turn t u → Turns s u
