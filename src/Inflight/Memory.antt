-- ===== src/Inflight/Memory.antt =====
-- `MemoryStore` (brain/src/coroner_brain/inflight.py) as an implementation of the store protocol.
-- The dict is an association list, newest entry first; a stored record is copied, and values
-- that are never mutated are their own copies.
use native.Mathlib.Nat.{le_refl}
use coroner.Base.{
  ℕ, ◌+◌, ◌≤◌, String, ◌≡◌, refl, Option, none, some, List, [], ◌∷◌, ◌&&◌, ltb, leb, if◌then◌else◌,
  is_some, ◌==◌, eq_iff, arith,
}
use coroner.Contract.{Instant}
use coroner.Inflight.{InFlightStore, seconds, names}

abbrev pub Items : Type 0 → Type 0
Items V = List (String × Instant × V)

abbrev keys_of : {V : Type 0} → Items V → List String
keys_of [] = []
keys_of ((id, expires, v) ∷ items) = id ∷ keys_of items

module _ {V : Type 0} where
  -- `self._items.get(incident_id)`
  unfoldable pub find : String → Items V → Option (Instant × V)
  find id [] = none
  find id ((j, expires, v) ∷ items) = if j == id then some (expires, v) else find id items

  -- `self._items.pop(incident_id, None)`
  unfoldable pub delete : String → Items V → Items V
  delete id [] = []
  delete id ((j, expires, v) ∷ items) =
      let rest = delete id items in if j == id then rest else (j, expires, v) ∷ rest

  unfoldable pub put : Instant → String → V → ℕ → Items V → Items V
  unfolding delete
  put now id v ttl items = (id, now + seconds ttl, v) ∷ delete id items

  abbrev pub unexpired : Instant → Option (Instant × V) → Option V
  unexpired now none = none
  unexpired now (some (expires, v)) = if leb expires now then none else some v

  abbrev after_read : Instant → String → Option (Instant × V) → Items V → Items V
  after_read now id none items = items
  after_read now id (some (expires, v)) items = if leb expires now then delete id items else items

  -- `get`: an expired record is dropped by the read that finds it
  unfoldable pub get : Instant → String → Items V → Option V × Items V
  unfolding find
  get now id items = (unexpired now (find id items), after_read now id (find id items) items)

  -- `ids`: each key is read in turn, over the keys as they were at the start
  read_keys : Instant → List String → Items V → List String × Items V
  read_keys now [] items = ([], items)
  read_keys now (id ∷ keys) items =
      let (found, items') = get now id items in
      let (rest, last) = read_keys now keys items' in
      (if is_some found then id ∷ rest else rest, last)

  unfoldable pub ids : Instant → Items V → List String × Items V
  unfolding read_keys get
  ids now items = read_keys now (keys_of items) items

  abbrev pub view : Instant → Items V → String → Option V
  view now items id = unexpired now (find id items)

  find-delete :
      (id j : String) (items : Items V)
      → find j (delete id items) ≡ (if id == j then none else find j items)
  unfolding find delete
  find-delete id j [] = ground arith
  find-delete id j ((i, expires, v) ∷ items) =
      ground (arith, find-delete id j items, eq_iff i id, eq_iff i j, eq_iff id j)

  pub view-delete :
      (later : Instant) (id j : String) (items : Items V)
      → view later (delete id items) j ≡ (if id == j then none else view later items j)
  view-delete later id j items = ground (arith, find-delete id j items)

  pub view-put :
      (now later : Instant) (id j : String) (v : V) (ttl : ℕ) (items : Items V)
      → view later (put now id v ttl items) j ≡ (
          if id == j
          then (if ltb later (now + seconds ttl) then some v else none)
          else view later items j)
  unfolding put find
  view-put now later id j v ttl items = ground (arith, find-delete id j items)

  pub view-get :
      (now later : Instant) (id j : String) (items : Items V)
      → now ≤ later
      → view later (get now id items).1 j ≡ view later items j
  unfolding get
  view-get now later id j items h = ground (arith, find-delete id j items, eq_iff id j)

  view-read_keys :
      (now later : Instant) (keys : List String) (j : String) (items : Items V)
      → now ≤ later
      → view later (read_keys now keys items).1 j ≡ view later items j
  unfolding read_keys
  view-read_keys now later [] j items h = refl
  view-read_keys now later (id ∷ keys) j items h = ground (
    arith,
    view-read_keys now later keys j (get now id items).1 h,
    view-get now later id j items h,
  )

  names-keys : (id : String) (items : Items V) → names id (keys_of items) ≡ is_some (find id items)
  unfolding find
  names-keys id [] = refl
  names-keys id ((i, expires, v) ∷ items) = ground (arith, names-keys id items)

  pub reads_view :
      (now : Instant) (id : String) (items : Items V) → (get now id items).0 ≡ view now items id
  unfolding get
  reads_view now id items = refl

  names-read_keys :
      (now : Instant) (keys : List String) (id : String) (items : Items V)
      → names id (read_keys now keys items).0 ≡ (names id keys && is_some (view now items id))
  unfolding read_keys
  names-read_keys now [] id items = refl
  names-read_keys now (k ∷ keys) id items = ground (
    arith,
    reads_view now k items,
    eq_iff k id,
    names-read_keys now keys id (get now k items).1,
    view-get now now k id items (le_refl now),
  )

  pub view-ids :
      (now later : Instant) (j : String) (items : Items V)
      → now ≤ later
      → view later (ids now items).1 j ≡ view later items j
  unfolding ids
  view-ids now later j items h = view-read_keys now later (keys_of items) j items h

  pub names-ids :
      (now : Instant) (id : String) (items : Items V)
      → names id (ids now items).0 ≡ is_some (view now items id)
  unfolding ids
  names-ids now id items =
      ground (arith, names-read_keys now (keys_of items) id items, names-keys id items)

-- The store in process memory as an implementation of the protocol.
abbrev pub memory_store : (V : Type 0) → InFlightStore V
memory_store V = record {
  State = Items V;
  put = put;
  get = get;
  delete = delete;
  ids = ids;
  view = view;
  get-eq-view = reads_view;
  view-get = view-get;
  view-put = λ now later id j v ttl s _. view-put now later id j v ttl s;
  view-delete = view-delete;
  view-ids = view-ids;
  IsIndexed = λ now s. Unit;
  IsIndexed-mono = λ now later s h k. tt;
  put-IsIndexed = λ now id v ttl s h. tt;
  get-IsIndexed = λ now id s h. tt;
  delete-IsIndexed = λ now id s h. tt;
  ids-IsIndexed = λ now s h. tt;
  names-ids = λ now id s h. names-ids now id s;
}
