-- ===== src/Eval/Collect/Fresh.antt =====
-- What the collect phase adds to the file of contracts (`collect` of eval/run.py).
use coroner.Base.{
  ℕ, zero, suc, String, Bool, true, false, not, ◌&&◌, Option, none, some, List, [], ◌∷◌, map, keep,
  drop, ◌==◌, eq_iff, ◌≡◌, refl, ap, arith, Bool-cases, inl, inr,
}
use coroner.Eval.Catalog.{Incident, pod_name}
use coroner.Eval.Catalog.All.{all}
use coroner.Eval.Resume.{is_one_of, todo}
use coroner.Json.{Json}
use coroner.Eval.Collect.{pod_of_line, lines_to_write, write_line, take}

-- the pod of an incident of the catalogue that was not captured before
abbrev pub is_new_name : List String → String → Bool
is_new_name done name = not (is_one_of name done) && is_one_of name (map pod_name all)

abbrev pub has_new_name : List String → Option String → Bool
has_new_name done none = false
has_new_name done (some name) = is_new_name done name

-- Each line holds the contract of such a pod.
abbrev pub all_new : List String → List Json → Bool
all_new done [] = true
all_new done (c ∷ cs) = has_new_name done (pod_of_line c) && all_new done cs

-- the names of a group, each of which is new
abbrev pub AreNew : List String → List Incident → Type 0
AreNew done group =
    (name : String) → is_one_of name (map pod_name group) ≡ true → is_new_name done name ≡ true

-- A text that equals another is one of the same texts.
is_one_of-equal :
    (s t : String) (texts : List String) → (s == t) ≡ true → is_one_of s texts ≡ is_one_of t texts
is_one_of-equal s t texts e = ap (λ x. is_one_of x texts) ((eq_iff s t).0 e)

module _ (done : List String) where
  abbrev lacks : Incident → Bool
  lacks i = not (is_one_of (pod_name i) done)

  keep-lacks :
      (is : List Incident) (name : String)
      → is_one_of name (map pod_name (keep lacks is)) ≡ true
      → (is_one_of name done ≡ false) × (is_one_of name (map pod_name is) ≡ true)
  keep-lacks [] name h = ground arith
  keep-lacks (i ∷ is) name h =
      let ih = keep-lacks is name in
      let equal = is_one_of-equal (pod_name i) name done in ground arith

pub todo-AreNew : (done : List String) → AreNew done (todo done)
unfolding todo
todo-AreNew done name h = let e = keep-lacks done all name h in ground arith

pub is_one_of-take :
    (n : ℕ) (is : List Incident) (name : String)
    → is_one_of name (map pod_name (take n is)) ≡ true
    → is_one_of name (map pod_name is) ≡ true
is_one_of-take zero is name h = ground arith
is_one_of-take (suc n) [] name h = h
is_one_of-take (suc n) (i ∷ is) name h = let ih = is_one_of-take n is name in ground arith

pub is_one_of-drop :
    (n : ℕ) (is : List Incident) (name : String)
    → is_one_of name (map pod_name (drop n is)) ≡ true
    → is_one_of name (map pod_name is) ≡ true
is_one_of-drop zero is name h = h
is_one_of-drop (suc n) [] name h = h
is_one_of-drop (suc n) (i ∷ is) name h = let ih = is_one_of-drop n is name in ground arith

write_line-all_new :
    (done : List String) (group : List Incident) (c : Json) (o : Option String)
    (rest : Bool × List Json)
    → AreNew done group
    → pod_of_line c ≡ o
    → all_new done rest.1 ≡ true
    → all_new done (write_line o (map pod_name group) c rest).1 ≡ true
write_line-all_new done group c none rest h e r = refl
write_line-all_new done group c (some name) (ok, lines) h e r =
    elim (Bool-cases (is_one_of name (map pod_name group))) [
      | inl t ↦ rw t (rw e (rw (h name t) r))
      | inr t ↦ rw t r
    ]

-- What is written of a scan for a group of new names is new.
pub lines_to_write-all_new :
    (done : List String) (group : List Incident) (captured : List Json)
    → AreNew done group
    → all_new done (lines_to_write (map pod_name group) captured).1 ≡ true
unfolding lines_to_write
lines_to_write-all_new done group [] h = refl
lines_to_write-all_new done group (c ∷ cs) h =
    write_line-all_new done group c (pod_of_line c) (lines_to_write (map pod_name group) cs) h refl
      (lines_to_write-all_new done group cs h)
