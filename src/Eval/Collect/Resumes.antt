-- ===== src/Eval/Collect/Resumes.antt =====
-- The whole of the collect phase (`collect` of eval/run.py).
use coroner.Base.{
  ℕ, zero, suc, ◌+◌, String, Bool, true, false, Option, none, some, List, [], ◌∷◌, ◌++◌, map, drop,
  length, eqb, or_else, ◌≡◌, refl, sym, ap, ◌∙◌, arith, Bool-cases, inl, inr,
}
use mathlib.Core.List.{append_assoc, append-nil}
use coroner.Eval.Catalog.{Incident, pod_name}
use coroner.Eval.Resume.{todo}
use coroner.Json.{Json}
use coroner.Eval.Collect.{
  Cluster, Ended, collected, raised, Collection, Batches, take, in_batches, names_of,
  lines_to_write, wait_for_failure, manifests, as_pending, written, on_scan, on_applied,
  collect_batch, go_on, collect_batches, from_done, collect,
}
use coroner.Eval.Collect.Ends.{IsTimely, enough, await_failure-ends}
use coroner.Eval.Collect.Fresh.{
  all_new, AreNew, todo-AreNew, is_one_of-take, is_one_of-drop, lines_to_write-all_new,
}

all_new-append :
    (done : List String) (xs ys : List Json)
    → all_new done xs ≡ true
    → all_new done ys ≡ true
    → all_new done (xs ++ ys) ≡ true
all_new-append done [] ys h g = g
all_new-append done (x ∷ xs) ys h g = let ih = all_new-append done xs ys in ground arith

-- A collection that comes to an end, and adds lines to the file, each for a pod of the catalogue that
-- was not captured before.
pub record Adds {W : Type 0} (done : List String) (file : List Json) (o : Option (Collection W))
    : Type 0 where
  pub ended : Ended
  pub lines : List Json
  pub world : W
  pub result : o ≡ some (ended, file ++ lines, world)
  pub are_new : all_new done lines ≡ true

module _ {W : Type 0} (k : Cluster W) (done : List String) where
  unchanged-Adds :
      (ended : Ended) (file : List Json) (w : W) → Adds done file (some (ended, file, w))
  unchanged-Adds ended file w = record {
    ended = ended;
    lines = [];
    world = w;
    result = ap (λ l. some (ended, l, w)) (sym (append-nil file));
    are_new = refl;
  }

  after_lines :
      (file lines : List Json) (o : Option (Collection W))
      → all_new done lines ≡ true
      → Adds done (file ++ lines) o
      → Adds done file o
  after_lines file lines o h a = record {
    ended = a.ended;
    lines = lines ++ a.lines;
    world = a.world;
    result = a.result ∙ ap (λ l. some (a.ended, l, a.world)) (append_assoc file lines a.lines);
    are_new = all_new-append done lines a.lines h a.are_new;
  }

  go_on-after_lines :
      (others : Batches k) (ended : Ended) (file lines : List Json) (w : W)
      → all_new done lines ≡ true
      → ((file' : List Json) (w' : W) → Adds done file' (others file' w'))
      → Adds done file (go_on k others (some (ended, file ++ lines, w)))
  go_on-after_lines others raised file lines w h more =
      after_lines file lines _ h (unchanged-Adds raised (file ++ lines) w)
  go_on-after_lines others collected file lines w h more =
      after_lines file lines _ h (more (file ++ lines) w)

  go_on-Adds :
      (others : Batches k) (file : List Json) (o : Option (Collection W))
      → Adds done file o
      → ((file' : List Json) (w' : W) → Adds done file' (others file' w'))
      → Adds done file (go_on k others o)
  go_on-Adds others file o a more =
      rw a.result (go_on-after_lines others a.ended file a.lines a.world a.are_new more)

  written-Adds :
      (names : List String) (ok : Bool) (lines file : List Json) (w : W)
      → all_new done lines ≡ true
      → Adds done file (some (written k names (ok, lines) file w))
  written-Adds names false lines file w h =
      after_lines file lines _ h (unchanged-Adds raised (file ++ lines) w)
  written-Adds names true lines file w h =
      after_lines file lines _ h (unchanged-Adds collected (file ++ lines) _)

  on_scan-Adds :
      (group : List Incident) (scanned : Option (List Json)) (w : W) (file : List Json)
      → AreNew done group
      → Adds done file (some (on_scan k (map pod_name group) (scanned, w) file))
  on_scan-Adds group none w file h = unchanged-Adds raised file w
  on_scan-Adds group (some captured) w file h =
      let lines = lines_to_write (map pod_name group) captured in
      written-Adds (map pod_name group) lines.0 lines.1 file w
        (lines_to_write-all_new done group captured h)

  module _ (timely : IsTimely k) where
    on_applied-Adds :
        (group : List Incident) (ok : Bool) (w : W) (file : List Json)
        → AreNew done group
        → Adds done file (on_applied k enough group (ok, w) file)
    on_applied-Adds group false w file h = unchanged-Adds raised file w
    on_applied-Adds group true w file h =
        let (w', e) =
          await_failure-ends k timely 120 (k.clock w + wait_for_failure) (as_pending [] group) w
            (omega arith) in
        rw e (on_scan-Adds group (k.scan w').0 (k.scan w').1 file h)

    collect_batches-Adds :
        (n batch : ℕ) (is : List Incident) (file : List Json) (w : W)
        → AreNew done is
        → Adds done file (collect_batches k enough (in_batches n batch is) file w)
    unfolding collect_batches collect_batch
    collect_batches-Adds zero batch is file w h = unchanged-Adds collected file w
    collect_batches-Adds (suc n) batch [] file w h = unchanged-Adds collected file w
    collect_batches-Adds (suc n) batch (i ∷ is) file w h =
        let group = take batch (i ∷ is) in
        let applied = k.apply (manifests group) w in
        go_on-Adds (collect_batches k enough (in_batches n batch (drop batch (i ∷ is)))) file _
          (on_applied-Adds group applied.0 applied.1 file
            (λ name e. h name (is_one_of-take batch (i ∷ is) name e)))
          (λ file' w'.
            collect_batches-Adds n batch (drop batch (i ∷ is)) file' w'
              (λ name e. h name (is_one_of-drop batch (i ∷ is) name e)))

    from_done-Adds :
        (batch : ℕ) (file : List Json) (w : W)
        → Adds done file (from_done k enough batch (some done) file w)
    from_done-Adds batch file w = elim (Bool-cases (eqb batch 0)) [
      | inl e ↦ rw e (unchanged-Adds raised file w)
      | inr e ↦
          rw e
            (collect_batches-Adds (length (todo done)) batch (todo done) file w (todo-AreNew done))
    ]

by_names :
    {W : Type 0} (k : Cluster W) (batch : ℕ) (file : List Json) (w : W)
    → IsTimely k
    → (names : Option (List String))
    → Adds (or_else names []) file (from_done k enough batch names file w)
by_names k batch file w timely none = unchanged-Adds k [] raised file w
by_names k batch file w timely (some done) = from_done-Adds k done timely batch file w

-- Whatever the cluster answers, if its clock does not go back while kubectl is asked and a sleep takes
-- its time, a collection comes to an end: it keeps every line of the file, and adds only contracts
-- of pods of the catalogue; if each line of the file names a pod, none of those is named again.
pub collect-Adds :
    {W : Type 0} (k : Cluster W) (batch : ℕ) (file : List Json) (w : W)
    → IsTimely k
    → Adds (or_else (names_of file) []) file (collect k enough batch file w)
unfolding collect
collect-Adds k batch file w timely =
    by_names k batch file (k.create_namespace w) timely (names_of file)
