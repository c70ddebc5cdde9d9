-- ===== src/Ledger/Race/Kept.antt =====
-- What holds of the calls of `Ledger.label` for one incident, in any order of their steps and if each
-- runs to its end before the next begins (brain/src/coroner_brain/ledger.py).
use coroner.Base.{
  ℕ, String, ◌≡◌, ◌≢◌, ◌⊎◌, refl, sym, true, false, Option, none, some, eqb, arith, eq_iff, ◌==◌,
  Option-cases, Bool-cases, inl, inr,
}
use coroner.Contract.{Instant}
use coroner.Ledger.{
  Table, Labels, Result, ok, err, truthy, get, update, label, label_refusal, apply_labels,
}
use coroner.Ledger.Keys.{decision_of, get-update}
use coroner.Ledger.Writes.{label-Labelled}
use coroner.Ledger.Race.{
  Call, acknowledged, refused, System, set_call, after_read, after_label, Reach, here, next, Step,
  reads, writes, labels, Turns, nobody, turn,
}

-- A call that was told that its decision is recorded.
pub record IsTold (s : System) (d : String) : Type 0 where
  pub thread : ℕ
  pub asked_for : Labels
  pub told : s.calls thread ≡ acknowledged asked_for
  pub said : asked_for.decision ≡ some d

module _ (id : String) where
  abbrev pub decision : System → Option String
  decision s = decision_of (get id s.table)

  -- Every decision on record is one that a caller was told is recorded.
  abbrev IsAccounted : System → Type 0
  IsAccounted s = (d : String) → decision s ≡ some d → (d == "") ≡ false → IsTold s d

  -- another call's step leaves the call that was told
  set_call-IsTold :
      (s : System) (n : ℕ) (c : Call) (d : String) (t : Table)
      → ((l : Labels) → s.calls n ≢ acknowledged l)
      → IsTold s d
      → IsTold (record { table = t; calls = set_call n c s.calls }) d
  set_call-IsTold s n c d t pending a = record {
    thread = a.thread;
    asked_for = a.asked_for;
    told = elim (Bool-cases (eqb n a.thread)) [
      | inl same ↦ absurd (pending a.asked_for (ground (arith, same, a.told)))
      | inr other ↦ rw other a.told
    ];
    said = a.said;
  }

  written_decision :
      (now : Instant) (l : Labels) (t : Table) (d : String)
      → decision_of (get id (update id (apply_labels now l) t)) ≡ some d
      → (l.decision ≡ some d) ⊎ ((l.decision ≡ none) × (decision_of (get id t) ≡ some d))
  unfolding apply_labels
  written_decision now l t d h = elim (Option-cases l.decision) [
    | inl e ↦
        inr (
          e,
          ground (arith, h, e, get-update id id (apply_labels now l) t (λ r. refl), eq_iff id id),
        )
    | inr (x, e) ↦
        inl
          (ground (arith, h, e, get-update id id (apply_labels now l) t (λ r. refl), eq_iff id id))
  ]

  Step-IsAccounted : {s t : System} → Step id s t → IsAccounted s → IsAccounted t
  Step-IsAccounted (reads s n l e) a d h k =
      set_call-IsTold s n (after_read l (get id s.table)) d s.table (λ k. ground (arith, e))
        (a d h k)
  Step-IsAccounted (writes s n l now e) a d h k = elim (written_decision now l s.table d h) [
    | inl x ↦ record { thread = n; asked_for = l; told = ground arith; said = x }
    | inr (x, y) ↦
        set_call-IsTold s n (acknowledged l) d (update id (apply_labels now l) s.table)
          (λ k. ground (arith, e)) (a d y k)
  ]

  Reach-IsAccounted : {s t : System} → Reach id s t → IsAccounted s → IsAccounted t
  Reach-IsAccounted here a = a
  Reach-IsAccounted (next r x) a = Step-IsAccounted x (Reach-IsAccounted r a)

  -- In whatever order the steps of the calls come, a decision that is found on a row that had none is
  -- the decision of a call that was acknowledged.
  pub Reach-IsTold :
      (s t : System) (d : String)
      → Reach id s t
      → truthy (decision_of (get id s.table)) ≡ false
      → decision_of (get id t.table) ≡ some d
      → (d == "") ≡ false
      → IsTold t d
  Reach-IsTold s t d r undecided found nonempty =
      Reach-IsAccounted r (λ e h k. absurd (ground (arith, undecided, h, k))) d found nonempty

  -- A call that was told that a decision of its own is recorded.
  abbrev pub Decides : System → ℕ → String → Type 0
  Decides s n d =
      (l : Labels) × (s.calls n ≡ acknowledged l) × (l.decision ≡ some d) × ((d == "") ≡ false)

  -- At most one call has been told so, and its decision is the one on record.
  pub record IsOnce (s : System) : Type 0 where
    pub on_record : (n : ℕ) (d : String) → Decides s n d → decision s ≡ some d
    pub single : (n m : ℕ) (d e : String) → Decides s n d → Decides s m e → n ≡ m

  -- a call that has not been acknowledged in the new state was there before
  before_call :
      (s : System) (n m : ℕ) (c : Call) (t : Table) (d : String)
      → eqb n m ≡ false
      → Decides (record { table = t; calls = set_call n c s.calls }) m d
      → Decides s m d
  before_call s n m c t d other (l, told, said, nonempty) =
      (l, ground (arith, other, told), said, nonempty)

  err-IsOnce :
      (s : System) (n : ℕ) (c : Call)
      → ((l : Labels) → c ≢ acknowledged l)
      → IsOnce s
      → IsOnce (record s { calls = set_call n c s.calls })
  err-IsOnce s n c not_told o =
      let back : (m : ℕ) (d : String)
          → Decides (record s { calls = set_call n c s.calls }) m d
          → Decides s m d =
        λ m d x. elim (Bool-cases (eqb n m)) [
          | inl same ↦ absurd (not_told x.0 (ground (arith, same, x.1)))
          | inr other ↦ before_call s n m c s.table d other x
        ] in
      record {
        on_record = λ m d x. o.on_record m d (back m d x);
        single = λ m k d e x y. o.single m k d e (back m d x) (back k e y);
      }

  module _ (s : System) (n : ℕ) (l : Labels) (now : Instant) (u : Table)
      (written : label now id l s.table ≡ ok u) (o : IsOnce s) where
    after : System
    after = record { table = u; calls = set_call n (acknowledged l) s.calls }

    -- a row that a decision of this call was written to had none before
    first_decision : (x d : String) → l.decision ≡ some x → decision s ≡ some d → (d == "") ≡ true
    unfolding label_refusal
    first_decision x d said before =
        let w = label-Labelled now id l s.table u written in
        ground (arith, w.found, w.allowed, said, before)

    after_decision : (d : String) → l.decision ≡ some d → decision_of (get id u) ≡ some d
    unfolding apply_labels
    after_decision d said =
        let w = label-Labelled now id l s.table u written in ground (arith, w.relabelled, said)

    kept_decision :
        (d : String) → l.decision ≡ none → decision s ≡ some d → decision_of (get id u) ≡ some d
    unfolding apply_labels
    kept_decision d silent before =
        let w = label-Labelled now id l s.table u written in
        ground (arith, w.relabelled, w.found, silent, before)

    own_call : (m : ℕ) (d : String) → eqb n m ≡ true → Decides after m d → l.decision ≡ some d
    unfolding after
    own_call m d same (k, told, said, nonempty) = ground (arith, same, told, said)

    old_call : (m : ℕ) (d : String) → eqb n m ≡ false → Decides after m d → Decides s m d
    unfolding after
    old_call m d other x = before_call s n m (acknowledged l) u d other x

    -- two different calls cannot both have been told
    no_second :
        (m k : ℕ) (d e : String)
        → eqb n m ≡ true
        → eqb n k ≡ false
        → Decides after m d
        → Decides after k e
        → m ≡ k
    no_second m k d e same other x y =
        let old = old_call k e other y in
        absurd
          (ground (arith, first_decision d e (own_call m d same x) (o.on_record k e old), old.3))

    ok-IsOnce : IsOnce after
    unfolding after
    ok-IsOnce = record {
      on_record = λ m d x. elim (Bool-cases (eqb n m)) [
        | inl same ↦ after_decision d (own_call m d same x)
        | inr other ↦
            let old = old_call m d other x in
            elim (Option-cases l.decision) [
              | inl silent ↦ kept_decision d silent (o.on_record m d old)
              | inr (y, said) ↦
                  absurd (ground (arith, first_decision y d said (o.on_record m d old), old.3))
            ]
      ];
      single = λ m k d e x y. elim (Bool-cases (eqb n m)) [
        | inl a ↦ elim (Bool-cases (eqb n k)) [
          | inl b ↦ ground (arith, a, b)
          | inr b ↦ no_second m k d e a b x y
        ]
        | inr a ↦ elim (Bool-cases (eqb n k)) [
          | inl b ↦ sym (no_second k m e d b a y x)
          | inr b ↦ o.single m k d e (old_call m d a x) (old_call k e b y)
        ]
      ];
    }

  result-IsOnce :
      (s : System) (n : ℕ) (l : Labels) (now : Instant) (r : Result Table)
      → label now id l s.table ≡ r
      → IsOnce s
      → IsOnce (after_label n l r s)
  unfolding after
  result-IsOnce s n l now (ok u) h o = ok-IsOnce s n l now u h o
  result-IsOnce s n l now (err e) h o = err-IsOnce s n (refused e) (λ k. ground arith) o

  IsOnce-Turns : {s t : System} → Turns id s t → IsOnce s → IsOnce t
  IsOnce-Turns nobody o = o
  IsOnce-Turns (turn r (labels s n l now e)) o =
      result-IsOnce s n l now (label now id l s.table) refl (IsOnce-Turns r o)

  -- If no call begins before another has ended, at most one call is told that its decision is
  -- recorded, however many there are, and that decision is the one on record.
  pub Turns-IsOnce :
      (s t : System) → ((n : ℕ) (l : Labels) → s.calls n ≢ acknowledged l) → Turns id s t → IsOnce t
  Turns-IsOnce s t none_told r = IsOnce-Turns r (record {
    on_record = λ n d x. absurd (none_told n x.0 x.1);
    single = λ n m d e x y. absurd (none_told n x.0 x.1);
  })
