-- ===== src/Ledger/Keys.antt =====
-- The table as a map from incident ids to rows (brain/src/coroner_brain/ledger.py): what a read
-- finds after each kind of write.
use mathlib.Core.Option
use coroner.Base.{
  String, ◌≡◌, refl, Option, none, some, [], ◌∷◌, ◌++◌, arith, if◌then◌else◌, ◌==◌, eq_iff,
}
use coroner.Contract.{Instant}
use coroner.Ledger.{Table, Row, LedgerEntry, get, update, without, new_row, record_entry}

abbrev pub decision_of : Option Row → Option String
decision_of none = none
decision_of (some r) = r.decision

abbrev pub KeepsKey : (Row → Row) → Type 0
KeepsKey f = (r : Row) → (f r).incident_id ≡ r.incident_id

-- An update changes what a read of its own key finds, and no other read.
pub get-update :
    (i j : String) (f : Row → Row) (t : Table)
    → KeepsKey f
    → get j (update i f t) ≡ (if i == j then Option.map f (get j t) else get j t)
unfolding get update
get-update i j f [] k = ground arith
get-update i j f (r ∷ t) k =
    ground
      (arith, get-update i j f t k, k r, eq_iff r.incident_id i, eq_iff r.incident_id j, eq_iff i j)

pub get-without :
    (i j : String) (t : Table) → get j (without i t) ≡ (if i == j then none else get j t)
unfolding get without
get-without i j [] = ground arith
get-without i j (r ∷ t) =
    ground (arith, get-without i j t, eq_iff r.incident_id i, eq_iff r.incident_id j, eq_iff i j)

abbrev first_of_two : Option Row → Option Row → Option Row
first_of_two none b = b
first_of_two (some a) b = some a

get-append : (j : String) (t u : Table) → get j (t ++ u) ≡ first_of_two (get j t) (get j u)
unfolding get
get-append j [] u = refl
get-append j (r ∷ t) u = ground (arith, get-append j t u)

-- Recording an entry makes its row the one that a read of its incident finds, with every label
-- of an earlier row of that incident gone, and leaves every other incident's row as it was.
pub get-record_entry :
    (now : Instant) (e : LedgerEntry) (j : String) (t : Table)
    → get j (record_entry now e t) ≡ (if e.incident_id == j then some (new_row now e) else get j t)
unfolding record_entry get
get-record_entry now e j t = ground (
  arith,
  get-append j (without e.incident_id t) (new_row now e ∷ []),
  get-without e.incident_id j t,
)

-- Each incident has at most one row.
abbrev HasUniqueKeys : Table → Type 0
HasUniqueKeys [] = Unit
HasUniqueKeys (r ∷ t) = (get r.incident_id t ≡ none) × HasUniqueKeys t

update-HasUniqueKeys :
    (i : String) (f : Row → Row) (t : Table)
    → KeepsKey f
    → HasUniqueKeys t
    → HasUniqueKeys (update i f t)
unfolding update
update-HasUniqueKeys i f [] k u = tt
update-HasUniqueKeys i f (r ∷ t) k u =
    ground (arith, k r, get-update i r.incident_id f t k, update-HasUniqueKeys i f t k)

without-HasUniqueKeys : (i : String) (t : Table) → HasUniqueKeys t → HasUniqueKeys (without i t)
unfolding without
without-HasUniqueKeys i [] u = tt
without-HasUniqueKeys i (r ∷ t) u =
    ground (arith, get-without i r.incident_id t, without-HasUniqueKeys i t)

append-HasUniqueKeys :
    (t : Table) (r : Row)
    → HasUniqueKeys t
    → get r.incident_id t ≡ none
    → HasUniqueKeys (t ++ r ∷ [])
unfolding get
append-HasUniqueKeys [] r u n = (refl, tt)
append-HasUniqueKeys (s ∷ t) r u n = ground (
  arith,
  get-append s.incident_id t (r ∷ []),
  append-HasUniqueKeys t r,
  eq_iff s.incident_id r.incident_id,
  eq_iff r.incident_id s.incident_id,
)

-- Recording an entry in a table where each incident has at most one row leaves such a table.
record_entry-HasUniqueKeys :
    (now : Instant) (e : LedgerEntry) (t : Table)
    → HasUniqueKeys t
    → HasUniqueKeys (record_entry now e t)
unfolding record_entry
record_entry-HasUniqueKeys now e t u =
    append-HasUniqueKeys (without e.incident_id t) (new_row now e)
      (without-HasUniqueKeys e.incident_id t u)
      (ground
        (arith, get-without e.incident_id e.incident_id t, eq_iff e.incident_id e.incident_id))
