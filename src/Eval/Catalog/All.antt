-- ===== src/Eval/Catalog/All.antt =====
-- The whole catalogue, and how a captured pod is traced to its incident (`ALL` and `by_id` of
-- eval/catalog.py, `score` of eval/run.py).
use Prim.Native.Char.{code}
use coroner.Base.{
  ℕ, zero, suc, String, Bool, true, false, not, ◌&&◌, Option, none, some, List, [], ◌∷◌, ◌++◌, any,
  get_elem?, or_else, eqb, if◌then◌else◌, ◌==◌, ◌≡◌, refl, arith, eq_iff,
}
use coroner.Base.Text.{decimal}
use coroner.Eval.Catalog.{Incident, pod_name}
use coroner.Eval.Catalog.Crashloop.{crashloop}
use coroner.Eval.Catalog.Imagepull.{imagepull}
use coroner.Eval.Catalog.Oom.{oom_killed}

unfoldable pub all : List Incident
all = crashloop ++ (imagepull ++ oom_killed)

abbrev or_earlier : Option Incident → Option Incident → Option Incident
or_earlier none earlier = earlier
or_earlier (some i) earlier = some i

-- a dict by id, where a later incident replaces an earlier one
abbrev lookup : String → List Incident → Option Incident
lookup id [] = none
lookup id (i ∷ is) = or_earlier (lookup id is) (if i.id == id then some i else none)

-- `by_id().get(id)`
unfoldable pub by_id : String → Option Incident
by_id id = lookup id all

abbrev behind_prefix : String → String → Option String
behind_prefix String.[] s = some s
behind_prefix (String.◌∷◌ c p) String.[] = none
behind_prefix (String.◌∷◌ c p) (String.◌∷◌ d s) =
    let rest = behind_prefix p s in if eqb (code c) (code d) then rest else none

-- `s.removeprefix(p)`
abbrev removeprefix : String → String → String
removeprefix p s = or_else (behind_prefix p s) s

-- the incident that a pod was built for
unfoldable pub incident_of : String → Option Incident
unfolding by_id
incident_of pod = by_id (removeprefix "eval-" pod)

-- No two incidents have one id.
abbrev distinct : List Incident → Bool
distinct [] = true
distinct (i ∷ is) = not (any (λ j. j.id == i.id) is) && distinct is

all-distinct : distinct all ≡ true
unfolding all decimal
all-distinct = refl

lookup-absent :
    (id : String) (is : List Incident) → any (λ j. j.id == id) is ≡ false → lookup id is ≡ none
lookup-absent id [] h = refl
lookup-absent id (i ∷ is) h = ground (arith, lookup-absent id is, h)

listed :
    (is : List Incident) (n : ℕ) (i : Incident)
    → get_elem? is n ≡ some i
    → any (λ j. j.id == i.id) is ≡ true
listed [] n i e = ground arith
listed (j ∷ is) zero i e = ground (arith, e, eq_iff j.id i.id)
listed (j ∷ is) (suc n) i e = ground (arith, listed is n i e)

lookup-listed :
    (is : List Incident) (n : ℕ) (i : Incident)
    → distinct is ≡ true
    → get_elem? is n ≡ some i
    → lookup i.id is ≡ some i
lookup-listed [] n i d e = ground arith
lookup-listed (j ∷ is) zero i d e = ground (arith, lookup-absent j.id is, d, e, eq_iff j.id j.id)
lookup-listed (j ∷ is) (suc n) i d e = ground (arith, lookup-listed is n i, d, e)

-- The pod of every incident of the catalogue is traced back to that incident.
incident_of-pod_name :
    (n : ℕ) (i : Incident) → get_elem? all n ≡ some i → incident_of (pod_name i) ≡ some i
unfolding incident_of by_id
incident_of-pod_name n i e = lookup-listed all n i all-distinct e
