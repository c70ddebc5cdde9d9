-- ===== src/Inflight.antt =====
-- In-flight incidents (brain/src/coroner_brain/inflight.py): the protocol `InFlightStore` with its
-- contract, and the store in process memory. A clock reading is an argument; one reading stands
-- for all that a call makes. A time to live is in seconds, an instant in microseconds.
pub mod Memory
pub mod Redis
pub mod Spec
use coroner.Base.{
  ℕ, ◌+◌, ◌*◌, ◌≤◌, String, ◌≡◌, Option, none, some, List, ltb, any, if◌then◌else◌, is_some, Bool,
  ◌==◌,
}
use coroner.Contract.{Instant}

abbrev pub seconds : ℕ → Instant
seconds n = n * 1000000

-- `id in names`
abbrev pub names : String → List String → Bool
names id ids = any (λ j. j == id) ids

-- What the approval pipeline may rely on, whichever store it has. `view` is the contract: the
-- record that is pending for an incident at an instant. `IsIndexed` is what an implementation
-- keeps true of its state from an instant on, so that a listing misses nothing.
pub record InFlightStore (V : Type 0) : Type 1 where
  pub State : Type 0
  pub put : Instant → String → V → ℕ → State → State
  pub get : Instant → String → State → Option V × State
  pub delete : String → State → State
  pub ids : Instant → State → List String × State
  pub view : Instant → State → String → Option V
  pub get-eq-view : (now : Instant) (id : String) (s : State) → (get now id s).0 ≡ view now s id
  pub view-get :
      (now later : Instant) (id j : String) (s : State)
      → now ≤ later
      → view later (get now id s).1 j ≡ view later s j
  pub view-put :
      (now later : Instant) (id j : String) (v : V) (ttl : ℕ) (s : State)
      → 1 ≤ ttl
      → view later (put now id v ttl s) j ≡ (
          if id == j
          then (if ltb later (now + seconds ttl) then some v else none)
          else view later s j)
  pub view-delete :
      (later : Instant) (id j : String) (s : State)
      → view later (delete id s) j ≡ (if id == j then none else view later s j)
  pub view-ids :
      (now later : Instant) (j : String) (s : State)
      → now ≤ later
      → view later (ids now s).1 j ≡ view later s j
  pub IsIndexed : Instant → State → Type 0
  pub IsIndexed-mono :
      (now later : Instant) (s : State) → now ≤ later → IsIndexed now s → IsIndexed later s
  pub put-IsIndexed :
      (now : Instant) (id : String) (v : V) (ttl : ℕ) (s : State)
      → IsIndexed now s
      → IsIndexed now (put now id v ttl s)
  pub get-IsIndexed :
      (now : Instant) (id : String) (s : State) → IsIndexed now s → IsIndexed now (get now id s).1
  pub delete-IsIndexed :
      (now : Instant) (id : String) (s : State) → IsIndexed now s → IsIndexed now (delete id s)
  pub ids-IsIndexed : (now : Instant) (s : State) → IsIndexed now s → IsIndexed now (ids now s).1
  pub names-ids :
      (now : Instant) (id : String) (s : State)
      → IsIndexed now s
      → names id (ids now s).0 ≡ is_some (view now s id)
