-- ===== src/Inflight/Redis/Keeps.antt =====
-- `RedisStore` (brain/src/coroner_brain/inflight.py) keeps the store protocol, and the store that
-- `build_store` picks.
use native.Mathlib.Nat.{le_refl, le_trans}
use coroner.Base.{
  ℕ, ◌+◌, ◌≤◌, String, ◌≡◌, refl, ◌∙◌, true, ◌&&◌, Option, none, some, List, [], ◌∷◌, ltb, leb,
  if◌then◌else◌, is_some, or_else, ◌==◌, eq_iff, arith,
}
use coroner.Contract.{Instant}
use coroner.Ledger.{truthy}
use coroner.Inflight.{InFlightStore, seconds, names}
use coroner.Inflight.Memory.{memory_store}
use coroner.Inflight.Redis.{
  Redis, index_key, key_of, key_of-not_index, key_of-eq, names-sorted, put, after_read, get, delete,
  read_members, ids,
}

module _ {V : Type 0} (r : Redis V) where
  abbrev pub view : Instant → r.State → String → Option V
  view now s id = r.get now (key_of id) s

  -- every record that a read finds from an instant on is named by the index
  abbrev pub IsIndexed : Instant → r.State → Type 0
  IsIndexed now s =
      (later : Instant) (j : String)
      → now ≤ later
      → is_some (view later s j) ≡ true
      → names j (r.smembers index_key s) ≡ true

  pub view-put :
      (now later : Instant) (id j : String) (v : V) (ttl : ℕ) (s : r.State)
      → 1 ≤ ttl
      → view later (put r now id v ttl s) j ≡ (
          if id == j
          then (if ltb later (now + seconds ttl) then some v else none)
          else view later s j)
  unfolding put
  view-put now later id j v ttl s h = ground (
    arith,
    key_of-eq id j,
    r.get-sadd later index_key (key_of j) id (r.set now (key_of id) v ttl s) (key_of-not_index j),
    r.get-set now later (key_of id) (key_of j) v ttl s,
  )

  view-after_read :
      (later : Instant) (id j : String) (o : Option V) (s : r.State)
      → view later (after_read r id o s) j ≡ view later s j
  view-after_read later id j none s =
      r.get-srem later index_key (key_of j) id s (key_of-not_index j)
  view-after_read later id j (some v) s = refl

  pub view-get :
      (now later : Instant) (id j : String) (s : r.State)
      → view later (get r now id s).1 j ≡ view later s j
  unfolding get
  view-get now later id j s = view-after_read later id j (r.get now (key_of id) s) s

  pub view-delete :
      (later : Instant) (id j : String) (s : r.State)
      → view later (delete r id s) j ≡ (if id == j then none else view later s j)
  unfolding delete
  view-delete later id j s = ground (
    arith,
    key_of-eq id j,
    r.get-srem later index_key (key_of j) id (r.delete (key_of id) s) (key_of-not_index j),
    r.get-delete later (key_of id) (key_of j) s,
  )

  view-read_members :
      (now later : Instant) (members : List String) (j : String) (s : r.State)
      → view later (read_members r now members s).1 j ≡ view later s j
  unfolding read_members
  view-read_members now later [] j s = refl
  view-read_members now later (id ∷ members) j s =
      view-read_members now later members j (get r now id s).1 ∙ view-get now later id j s

  names-read_members :
      (now : Instant) (members : List String) (j : String) (s : r.State)
      → names j (read_members r now members s).0 ≡ (names j members && is_some (view now s j))
  unfolding read_members get
  names-read_members now [] j s = refl
  names-read_members now (id ∷ members) j s = ground (
    arith,
    eq_iff id j,
    names-read_members now members j (get r now id s).1,
    view-get now now id j s,
  )

  pub put-IsIndexed :
      (now : Instant) (id : String) (v : V) (ttl : ℕ) (s : r.State)
      → IsIndexed now s
      → IsIndexed now (put r now id v ttl s)
  unfolding put
  put-IsIndexed now id v ttl s h later j le live = ground (
    arith,
    eq_iff id j,
    key_of-eq id j,
    r.names-sadd index_key id j (r.set now (key_of id) v (if leb ttl 1 then 1 else ttl) s),
    r.smembers-set now index_key (key_of id) v (if leb ttl 1 then 1 else ttl) s
        (key_of-not_index id),
    r.get-sadd later index_key (key_of j) id
        (r.set now (key_of id) v (if leb ttl 1 then 1 else ttl) s) (key_of-not_index j),
    r.get-set now later (key_of id) (key_of j) v (if leb ttl 1 then 1 else ttl) s,
    h later j le,
  )

  after_read-IsIndexed :
      (now : Instant) (id : String) (o : Option V) (s : r.State)
      → view now s id ≡ o
      → IsIndexed now s
      → IsIndexed now (after_read r id o s)
  after_read-IsIndexed now id none s e h later j le live = ground (
    arith,
    eq_iff id j,
    r.names-srem index_key id j s,
    r.get_expired now later (key_of id) s le e,
    view-after_read later id j none s,
    h later j le,
  )
  after_read-IsIndexed now id (some v) s e h later j le live = h later j le live

  pub get-IsIndexed :
      (now : Instant) (id : String) (s : r.State)
      → IsIndexed now s
      → IsIndexed now (get r now id s).1
  unfolding get
  get-IsIndexed now id s h = after_read-IsIndexed now id (view now s id) s refl h

  pub delete-IsIndexed :
      (now : Instant) (id : String) (s : r.State) → IsIndexed now s → IsIndexed now (delete r id s)
  unfolding delete
  delete-IsIndexed now id s h later j le live = ground (
    arith,
    view-delete later id j s,
    r.names-srem index_key id j (r.delete (key_of id) s),
    r.smembers-delete index_key (key_of id) s (key_of-not_index id),
    h later j le,
  )

  read_members-IsIndexed :
      (now : Instant) (members : List String) (s : r.State)
      → IsIndexed now s
      → IsIndexed now (read_members r now members s).1
  unfolding read_members
  read_members-IsIndexed now [] s h = h
  read_members-IsIndexed now (id ∷ members) s h =
      read_members-IsIndexed now members (get r now id s).1 (get-IsIndexed now id s h)

  pub names-ids :
      (now : Instant) (id : String) (s : r.State)
      → IsIndexed now s
      → names id (ids r now s).0 ≡ is_some (view now s id)
  unfolding ids
  names-ids now id s h = ground (
    arith,
    names-sorted id (read_members r now (r.smembers index_key s) s).0,
    names-read_members now (r.smembers index_key s) id s,
    h now id (le_refl now),
  )

  pub get-eq-view : (now : Instant) (id : String) (s : r.State) → (get r now id s).0 ≡ view now s id
  unfolding get
  get-eq-view now id s = refl

  pub view-ids :
      (now later : Instant) (j : String) (s : r.State)
      → view later (ids r now s).1 j ≡ view later s j
  unfolding ids
  view-ids now later j s = view-read_members now later (r.smembers index_key s) j s

  pub ids-IsIndexed :
      (now : Instant) (s : r.State) → IsIndexed now s → IsIndexed now (ids r now s).1
  unfolding ids
  ids-IsIndexed now s h = read_members-IsIndexed now (r.smembers index_key s) s h

  -- The store over Redis as an implementation of the protocol.
  abbrev pub redis_store : InFlightStore V
  redis_store = record {
    State = r.State;
    put = put r;
    get = get r;
    delete = delete r;
    ids = ids r;
    view = view;
    get-eq-view = get-eq-view;
    view-get = λ now later id j s _. view-get now later id j s;
    view-put = view-put;
    view-delete = view-delete;
    view-ids = λ now later j s _. view-ids now later j s;
    IsIndexed = IsIndexed;
    IsIndexed-mono = λ now later s k h at j le live. h at j (le_trans k le) live;
    put-IsIndexed = put-IsIndexed;
    get-IsIndexed = get-IsIndexed;
    delete-IsIndexed = delete-IsIndexed;
    ids-IsIndexed = ids-IsIndexed;
    names-ids = names-ids;
  }

-- `connect` is `RedisStore.from_url`, whose client answers at that address
unfoldable pub build_store : {V : Type 0} → (String → Redis V) → Option String → InFlightStore V
build_store {V} connect url =
    if truthy url then redis_store (connect (or_else url "")) else memory_store V
