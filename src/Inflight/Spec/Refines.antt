-- ===== src/Inflight/Spec/Refines.antt =====
-- Every store that keeps the protocol of brain/src/coroner_brain/inflight.py implements the abstract
-- machine, `MemoryStore` and `RedisStore` among them.
use native.Mathlib.Nat.{le_trans, le_refl}
use coroner.Base.{◌≤◌, String, ◌≡◌, refl, ◌∙◌, ap, List, [], ◌∷◌, is_some, arith}
use coroner.Contract.{Instant}
use coroner.Inflight.{InFlightStore}
use coroner.Inflight.Memory.{memory_store, find}
use coroner.Inflight.Redis.{Redis}
use coroner.Inflight.Redis.Keeps.{redis_store}
use coroner.Inflight.Spec.{
  Op, put, get, delete, ids, Held, live, after, Permits, Runs, Lasts, IsTimely, perform, answers,
  nothing_held,
}

-- An implementation's state stands for an abstract one from an instant on: each later read finds
-- what the abstract state says.
pub record Simulates {V : Type 0} (S : InFlightStore V) (t : Instant) (h : Held V) (s : S.State)
    : Type 0 where
  pub indexed : S.IsIndexed t s
  pub shows : (later : Instant) (j : String) → t ≤ later → S.view later s j ≡ live later (h j)

module _ {V : Type 0} (S : InFlightStore V) where
  Simulates-later :
      (t now : Instant) (h : Held V) (s : S.State)
      → t ≤ now
      → Simulates S t h s
      → Simulates S now h s
  Simulates-later t now h s le r = record {
    indexed = S.IsIndexed-mono t now s le r.indexed;
    shows = λ later j k. r.shows later j (le_trans le k);
  }

  permits :
      (now : Instant) (op : Op V) (h : Held V) (s : S.State)
      → Simulates S now h s
      → Permits now h op (perform S now op s).0
  permits now (put id v ttl) h s r = tt
  permits now (get id) h s r = S.get-eq-view now id s ∙ r.shows now id (le_refl now)
  permits now (delete id) h s r = tt
  permits now ids h s r =
      λ id. S.names-ids now id s r.indexed ∙ ap is_some (r.shows now id (le_refl now))

  Simulates-after :
      (now : Instant) (op : Op V) (h : Held V) (s : S.State)
      → Lasts op
      → Simulates S now h s
      → Simulates S now (after now op h) (perform S now op s).1
  Simulates-after now (put id v ttl) h s l r = record {
    indexed = S.put-IsIndexed now id v ttl s r.indexed;
    shows = λ later j k. ground (arith, S.view-put now later id j v ttl s l, r.shows later j k);
  }
  Simulates-after now (get id) h s l r = record {
    indexed = S.get-IsIndexed now id s r.indexed;
    shows = λ later j k. S.view-get now later id j s k ∙ r.shows later j k;
  }
  Simulates-after now (delete id) h s l r = record {
    indexed = S.delete-IsIndexed now id s r.indexed;
    shows = λ later j k. ground (arith, S.view-delete later id j s, r.shows later j k);
  }
  Simulates-after now ids h s l r = record {
    indexed = S.ids-IsIndexed now s r.indexed;
    shows = λ later j k. S.view-ids now later j s k ∙ r.shows later j k;
  }

  simulates_runs :
      (t : Instant) (ops : List (Instant × Op V)) (h : Held V) (s : S.State)
      → IsTimely t ops
      → Simulates S t h s
      → Runs t h ops (answers S ops s)
  simulates_runs t [] h s timely r = Runs.stop
  simulates_runs t ((now, op) ∷ ops) h s (le, l, timely) r =
      let here = Simulates-later t now h s le r in
      Runs.step now op (perform S now op s).0 le (permits now op h s here) (
        simulates_runs now ops (after now op h) (perform S now op s).1 timely
          (Simulates-after now op h s l here))

module _ {V : Type 0} where
  -- The store in process memory implements the abstract machine: started empty, and called at
  -- instants that never go back with times to live of a second at least, it gives only answers
  -- that the abstract store may give. So a read finds the latest record put under its incident
  -- that is neither deleted nor expired, and a listing names exactly what a read would find.
  pub memory_refines :
      (t : Instant) (ops : List (Instant × Op V))
      → IsTimely t ops
      → Runs t nothing_held ops (answers (memory_store V) ops [])
  unfolding find
  memory_refines t ops timely =
      simulates_runs (memory_store V) t ops nothing_held [] timely
        (record { indexed = tt; shows = λ later j k. refl })

  -- The store over Redis implements the abstract machine too, from whatever it holds when the brain
  -- starts, provided that its index names every record: called at instants that never go back with
  -- times to live of a second at least, it gives only answers that the abstract store may give.
  -- So what was parked before a restart is read and listed after it.
  pub redis_refines :
      (r : Redis V) (t : Instant) (h : Held V) (s : r.State) (ops : List (Instant × Op V))
      → IsTimely t ops
      → Simulates (redis_store r) t h s
      → Runs t h ops (answers (redis_store r) ops s)
  redis_refines r t h s ops timely sim = simulates_runs (redis_store r) t ops h s timely sim
