-- ===== src/Inflight/Redis.antt =====
-- `RedisStore` and `build_store` (brain/src/coroner_brain/inflight.py): the store over a Redis client,
-- which is a parameter, taken with the `json.dumps` and `json.loads` round each value.
pub mod Keeps
use Prim.Native.String.{◌++◌}
use text.Mathlib.TextLemmas.{append_cancel_left, append_assoc}
use native.Mathlib.Nat.{le_refl, le_trans}
use coroner.Base.{
  ℕ, ◌+◌, ◌≤◌, String, ◌≡◌, ◌≢◌, refl, sym, ap, ◌∙◌, Bool-cases, inl, inr, Bool, true, false, not,
  ◌&&◌, ◌||◌, Option, none, some, List, [], ◌∷◌, map, leb, ltb, eqb, if◌then◌else◌, is_some, ◌==◌,
  eq_iff, arith, any,
}
use coroner.Base.Text.{codes, append-not_empty}
use coroner.Contract.{Instant}
use coroner.Inflight.{InFlightStore, seconds, names}
use coroner.Inflight.Memory.{memory_store}

-- The commands that the store sends, and what Redis documents of them. A key that has expired is
-- gone, and stays so until it is set again; a command on one key leaves the others alone.
pub record Redis (V : Type 0) : Type 1 where
  pub State : Type 0
  pub set : Instant → String → V → ℕ → State → State
  pub get : Instant → String → State → Option V
  pub delete : String → State → State
  pub sadd : String → String → State → State
  pub srem : String → String → State → State
  pub smembers : String → State → List String
  pub get-set :
      (now later : Instant) (k j : String) (v : V) (ex : ℕ) (s : State)
      → get later j (set now k v ex s) ≡ (
          if k == j then (if ltb later (now + seconds ex) then some v else none) else get later j s)
  pub get-delete :
      (later : Instant) (k j : String) (s : State)
      → get later j (delete k s) ≡ (if k == j then none else get later j s)
  pub get_expired :
      (now later : Instant) (k : String) (s : State)
      → now ≤ later
      → get now k s ≡ none
      → get later k s ≡ none
  pub get-sadd :
      (later : Instant) (k j m : String) (s : State)
      → (j == k) ≡ false
      → get later j (sadd k m s) ≡ get later j s
  pub get-srem :
      (later : Instant) (k j m : String) (s : State)
      → (j == k) ≡ false
      → get later j (srem k m s) ≡ get later j s
  pub smembers-set :
      (now : Instant) (k j : String) (v : V) (ex : ℕ) (s : State)
      → (j == k) ≡ false
      → smembers k (set now j v ex s) ≡ smembers k s
  pub smembers-delete :
      (k j : String) (s : State) → (j == k) ≡ false → smembers k (delete j s) ≡ smembers k s
  pub names-sadd :
      (k x m : String) (s : State)
      → names m (smembers k (sadd k x s)) ≡ (x == m || names m (smembers k s))
  pub names-srem :
      (k x m : String) (s : State)
      → names m (smembers k (srem k x s)) ≡ (not (x == m) && names m (smembers k s))

abbrev pub index_key : String
index_key = "coroner:inflight"

unfoldable pub key_of : String → String
key_of id = "coroner:inflight:" ++ id

pub key_of-not_index : (id : String) → (key_of id == index_key) ≡ false
unfolding key_of
key_of-not_index id = ground (
  arith,
  eq_iff (key_of id) index_key,
  append_assoc index_key ":" id,
  append_cancel_left index_key (":" ++ id) "",
  eq_iff (":" ++ id) "",
  append-not_empty ":" id refl,
)

key_of-inj : (a b : String) → key_of a ≡ key_of b → a ≡ b
unfolding key_of
key_of-inj a b e = append_cancel_left "coroner:inflight:" a b e

pub key_of-eq : (a b : String) → (key_of a == key_of b) ≡ (a == b)
key_of-eq a b =
    ground
      (arith, eq_iff a b, eq_iff (key_of a) (key_of b), key_of-inj a b, ap key_of {x = a} {y = b})

-- `sorted` on texts, which compares them by code points
abbrev pub at_most : List ℕ → List ℕ → Bool
at_most [] ys = true
at_most (x ∷ xs) [] = false
at_most (x ∷ xs) (y ∷ ys) = ltb x y || eqb x y && at_most xs ys

unfoldable pub insert_text : String → List String → List String
insert_text s [] = s ∷ []
insert_text s (x ∷ xs) =
    let later = x ∷ insert_text s xs in if at_most (codes s) (codes x) then s ∷ x ∷ xs else later

unfoldable pub sorted : List String → List String
unfolding insert_text
sorted [] = []
sorted (x ∷ xs) = insert_text x (sorted xs)

names-insert_text :
    (id s : String) (xs : List String) → names id (insert_text s xs) ≡ (s == id || names id xs)
unfolding insert_text
names-insert_text id s [] = refl
names-insert_text id s (x ∷ xs) = ground (arith, names-insert_text id s xs)

pub names-sorted : (id : String) (xs : List String) → names id (sorted xs) ≡ names id xs
unfolding sorted
names-sorted id [] = refl
names-sorted id (x ∷ xs) = ground (arith, names-insert_text id x (sorted xs), names-sorted id xs)

module _ {V : Type 0} (r : Redis V) where
  -- `max(1, ttl_seconds)`
  unfoldable pub put : Instant → String → V → ℕ → r.State → r.State
  put now id v ttl s =
      r.sadd index_key id (r.set now (key_of id) v (if leb ttl 1 then 1 else ttl) s)

  abbrev after_read : String → Option V → r.State → r.State
  after_read id none s = r.srem index_key id s
  after_read id (some v) s = s

  -- `get`: the index forgets an incident whose key is gone
  unfoldable pub get : Instant → String → r.State → Option V × r.State
  get now id s = let found = r.get now (key_of id) s in (found, after_read id found s)

  unfoldable pub delete : String → r.State → r.State
  delete id s = r.srem index_key id (r.delete (key_of id) s)

  unfoldable pub read_members : Instant → List String → r.State → List String × r.State
  read_members now [] s = ([], s)
  read_members now (id ∷ members) s =
      let (found, s') = get now id s in
      let (rest, last) = read_members now members s' in
      (if is_some found then id ∷ rest else rest, last)

  unfoldable pub ids : Instant → r.State → List String × r.State
  unfolding read_members
  ids now s = let (found, s') = read_members now (r.smembers index_key s) s in (sorted found, s')
