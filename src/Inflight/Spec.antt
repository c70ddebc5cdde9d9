-- ===== src/Inflight/Spec.antt =====
-- What a store of in-flight incidents promises (the protocol `InFlightStore` of
-- brain/src/coroner_brain/inflight.py), as an abstract machine: a map from an incident to its record
-- and the instant at which that expires, and the answers that each operation may give.
pub mod Refines
use coroner.Base.{
  ℕ, ◌+◌, ◌≤◌, String, ◌≡◌, Option, none, some, List, [], ◌∷◌, leb, if◌then◌else◌, is_some, ◌==◌,
}
use coroner.Contract.{Instant}
use coroner.Inflight.{InFlightStore, seconds, names}

-- A call of the protocol.
pub data Op (V : Type 0) : Type 0 where
  put : String → V → ℕ → Op V
  get : String → Op V
  delete : String → Op V
  ids : Op V

pub data Answer (V : Type 0) : Type 0 where
  done : Answer V
  found : Option V → Answer V
  listed : List String → Answer V

-- The abstract state.
abbrev pub Held : Type 0 → Type 0
Held V = String → Option (Instant × V)

module _ {V : Type 0} where
  abbrev pub live : Instant → Option (Instant × V) → Option V
  live now none = none
  live now (some (expires, v)) = if leb expires now then none else some v

  -- the abstract state after a call: a read and a listing leave it as it is
  abbrev pub after : Instant → Op V → Held V → Held V
  after now (put id v ttl) h j = if id == j then some (now + seconds ttl, v) else h j
  after now (get id) h j = h j
  after now (delete id) h j = if id == j then none else h j
  after now ids h j = h j

  -- the answers that a call may give: a listing names exactly what a read would find, in any order
  abbrev pub Permits : Instant → Held V → Op V → Answer V → Type 0
  Permits now h (get id) (found o) = o ≡ live now (h id)
  Permits now h ids (listed xs) = (id : String) → names id xs ≡ is_some (live now (h id))
  Permits now h (put id v ttl) done = Unit
  Permits now h (delete id) done = Unit
  Permits now h _ _ = ⊥

  -- The runs of the abstract machine: calls at instants that never go back, with their answers.
  pub data Runs : Instant → Held V → List (Instant × Op V) → List (Answer V) → Type 0 where
    stop : {t : Instant} {h : Held V} → Runs t h [] []
    step :
        {t : Instant} {h : Held V} (now : Instant) (op : Op V) (a : Answer V)
        {ops : List (Instant × Op V)} {answers : List (Answer V)}
        → t ≤ now
        → Permits now h op a
        → Runs now (after now op h) ops answers
        → Runs t h ((now, op) ∷ ops) (a ∷ answers)

  -- The calls as a program may make them: in the order of time, each put for a second at least.
  abbrev pub Lasts : Op V → Type 0
  Lasts (put id v ttl) = 1 ≤ ttl
  Lasts _ = Unit

  abbrev pub IsTimely : Instant → List (Instant × Op V) → Type 0
  IsTimely t [] = Unit
  IsTimely t ((now, op) ∷ ops) = (t ≤ now) × Lasts op × IsTimely now ops

  -- A call of an implementation, and the answers to a sequence of calls.
  abbrev pub perform : (S : InFlightStore V) → Instant → Op V → S.State → Answer V × S.State
  perform S now (put id v ttl) s = (done, S.put now id v ttl s)
  perform S now (get id) s = let (o, s') = S.get now id s in (found o, s')
  perform S now (delete id) s = (done, S.delete id s)
  perform S now ids s = let (xs, s') = S.ids now s in (listed xs, s')

  abbrev pub answers : (S : InFlightStore V) → List (Instant × Op V) → S.State → List (Answer V)
  answers S [] s = []
  answers S ((now, op) ∷ ops) s = let (a, s') = perform S now op s in a ∷ answers S ops s'

  -- the abstract store that holds nothing
  abbrev pub nothing_held : Held V
  nothing_held id = none
