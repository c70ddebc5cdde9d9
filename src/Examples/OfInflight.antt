-- ===== src/Examples/OfInflight.antt =====
-- The store in process memory with one record in it, and a Redis that keeps its keys in a list.
use coroner.Base.{
  ℕ, ◌≤◌, String, ◌≡◌, refl, not, ◌&&◌, ◌||◌, none, some, List, [], ◌∷◌, arith, if◌then◌else◌, ◌==◌,
  eq_iff,
}
use coroner.Contract.{Instant}
use coroner.Inflight.{names}
use coroner.Inflight.Memory.{Items, find, put, delete, view, view-put, view-delete, memory_store}
use coroner.Inflight.Redis.{Redis, key_of, key_of-eq}
use coroner.Inflight.Redis.Keeps.{redis_store}
use coroner.Inflight.Spec
use coroner.Inflight.Spec.{Op, Held, Runs, IsTimely, answers, nothing_held}
use coroner.Inflight.Spec.Refines.{Simulates, memory_refines, redis_refines}

-- A set of pairs of a key and a member.
abbrev Members : Type 0
Members = List (String × String)

abbrev members_of : String → Members → List String
members_of k [] = []
members_of k ((j, x) ∷ rest) =
    let others = members_of k rest in if j == k then x ∷ others else others

abbrev drop_member : String → String → Members → Members
drop_member k x [] = []
drop_member k x ((j, y) ∷ rest) =
    let others = drop_member k x rest in if j == k && y == x then others else (j, y) ∷ others

names-drop_member :
    (k x m : String) (s : Members)
    → names m (members_of k (drop_member k x s)) ≡ (not (x == m) && names m (members_of k s))
names-drop_member k x m [] = ground arith
names-drop_member k x m ((j, y) ∷ rest) =
    ground (arith, names-drop_member k x m rest, eq_iff j k, eq_iff y x, eq_iff y m, eq_iff x m)

names-add_member :
    (k x m : String) (s : Members)
    → names m (members_of k ((k, x) ∷ s)) ≡ (x == m || names m (members_of k s))
names-add_member k x m s = ground (arith, eq_iff k k)

view_expired :
    {V : Type 0} (now later : Instant) (k : String) (items : Items V)
    → now ≤ later
    → view now items k ≡ none
    → view later items k ≡ none
view_expired now later k items le e = ground arith

abbrev listed_redis : (V : Type 0) → Redis V
listed_redis V = record {
  State = Items V × Members;
  set = λ now k v ex s. (put now k v ex s.0, s.1);
  get = λ now k s. view now s.0 k;
  delete = λ k s. (delete k s.0, s.1);
  sadd = λ k x s. (s.0, (k, x) ∷ s.1);
  srem = λ k x s. (s.0, drop_member k x s.1);
  smembers = λ k s. members_of k s.1;
  get-set = λ now later k j v ex s. view-put now later k j v ex s.0;
  get-delete = λ later k j s. view-delete later k j s.0;
  get_expired = λ now later k s le e. view_expired now later k s.0 le e;
  get-sadd = λ later k j m s h. refl;
  get-srem = λ later k j m s h. refl;
  smembers-set = λ now k j v ex s h. refl;
  smembers-delete = λ k j s h. refl;
  names-sadd = λ k x m s. names-add_member k x m s.1;
  names-srem = λ k x m s. names-drop_member k x m s.1;
}

-- Two incidents are parked, one of them is read, dropped, and the store is listed; the second
-- record has expired when it is read.
abbrev calls : List (Instant × Op ℕ)
calls =
    (5, Spec.put "a" 7 60)
    ∷ (6, Spec.put "b" 8 2)
    ∷ (7, Spec.get "a")
    ∷ (8, Spec.ids)
    ∷ (9, Spec.delete "a")
    ∷ (3000000, Spec.get "b")
    ∷ (3000001, Spec.ids)
    ∷ []

calls-IsTimely : IsTimely 0 calls
calls-IsTimely = (
  omega arith,
  omega arith,
  (
    omega arith,
    omega arith,
    (
      omega arith,
      tt,
      (omega arith, tt, (omega arith, tt, (omega arith, tt, (omega arith, tt, tt)))),
    ),
  ),
)

memory_refines_example : Runs 0 nothing_held calls (answers (memory_store ℕ) calls [])
memory_refines_example = memory_refines 0 calls calls-IsTimely

abbrev held : Held ℕ
held id = if "c" == id then some (50, 9) else none

abbrev kept : Items ℕ × Members
kept = (("coroner:inflight:c", 50, 9) ∷ [], ("coroner:inflight", "c") ∷ [])

c_key : (j : String) → ("coroner:inflight:c" == key_of j) ≡ ("c" == j)
unfolding key_of
c_key j = key_of-eq "c" j

kept-Simulates : Simulates (redis_store (listed_redis ℕ)) 0 held kept
unfolding find
kept-Simulates = record {
  indexed = λ later j le live. ground (arith, c_key j);
  shows = λ later j le. ground (arith, c_key j);
}

redis_refines_example : Runs 0 held calls (answers (redis_store (listed_redis ℕ)) calls kept)
redis_refines_example =
    redis_refines (listed_redis ℕ) 0 held kept calls calls-IsTimely kept-Simulates
