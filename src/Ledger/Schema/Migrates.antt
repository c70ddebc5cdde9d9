-- ===== src/Ledger/Schema/Migrates.antt =====
-- Opening a ledger file brings it to the latest schema (`Ledger.__init__` and `_apply_migrations` of
-- brain/src/coroner_brain/ledger.py).
use mathlib.Core.List.{append_assoc, append-nil}
use coroner.Base.{
  ℕ, zero, suc, ◌+◌, ◌-◌, ◌≤◌, String, ◌≡◌, refl, sym, ap, subst, ◌∙◌, true, false, not, ◌&&◌, ◌||◌,
  none, some, List, [], ◌∷◌, ◌++◌, eq_iff, arith, Bool-cases, inl, inr,
}
use coroner.Ledger.Schema.{
  Column, File, has, later, missing, migrations, first_columns, schema, schema_version,
  apply_migrations, opened,
}

-- the columns that a file of a version has
abbrev pub added : ℕ → List Column
added zero = []
added (suc version) = added version ++ migrations (suc version)

abbrev pub columns_of : ℕ → List Column
columns_of version = first_columns ++ added version

-- A fresh file has the columns of the latest version.
schema-columns_of : schema ≡ columns_of schema_version
unfolding schema first_columns migrations
schema-columns_of = refl

added-later : (version count : ℕ) → added (version + count) ≡ added version ++ later version count
added-later version zero =
    let same : version + 0 ≡ version = omega arith in
    ap added same ∙ sym (append-nil (added version))
added-later version (suc count) =
    let same : version + suc count ≡ suc version + count = omega arith in
    ap added same
    ∙ (added-later (suc version) count
        ∙ append_assoc (added version) (migrations (suc version)) (later (suc version) count))

has-append : (n : String) (a b : List Column) → has n (a ++ b) ≡ (has n a || has n b)
has-append n [] b = refl
has-append n (c ∷ a) b = ground (arith, has-append n a b)

has-missing :
    (n : String) (existing cs : List Column)
    → has n (missing existing cs) ≡ (has n cs && not (has n existing))
has-missing n existing [] = ground arith
has-missing n existing (c ∷ cs) = ground (arith, has-missing n existing cs, eq_iff c.name n)

-- No two columns have one name.
abbrev pub IsDistinct : List Column → Type 0
IsDistinct [] = Unit
IsDistinct (c ∷ cs) = (has c.name cs ≡ false) × IsDistinct cs

suffix-IsDistinct : (a b : List Column) → IsDistinct (a ++ b) → IsDistinct b
suffix-IsDistinct [] b d = d
suffix-IsDistinct (c ∷ a) b (h, d) = suffix-IsDistinct a b d

missing-IsDistinct : (existing cs : List Column) → IsDistinct cs → IsDistinct (missing existing cs)
missing-IsDistinct existing [] d = tt
missing-IsDistinct existing (c ∷ cs) (h, d) = elim (Bool-cases (has c.name existing)) [
  | inl e ↦ rw e (missing-IsDistinct existing cs d)
  | inr e ↦
      rw e (ground (arith, has-missing c.name existing cs, h), missing-IsDistinct existing cs d)
]

append-IsDistinct :
    (a b : List Column)
    → IsDistinct a
    → IsDistinct b
    → ((n : String) → has n a ≡ true → has n b ≡ false)
    → IsDistinct (a ++ b)
append-IsDistinct [] b d e h = e
append-IsDistinct (c ∷ a) b (k, d) e h = (
  ground (arith, has-append c.name a b, k, h c.name, eq_iff c.name c.name),
  append-IsDistinct a b d e (λ n m. h n (ground (arith, m))),
)

latest-IsDistinct : IsDistinct (added schema_version)
unfolding migrations
latest-IsDistinct = (
  refl,
  (
    refl,
    (refl, (refl, (refl, (refl, (refl, (refl, (refl, (refl, (refl, (refl, (refl, tt))))))))))),
  ),
)

later-IsDistinct :
    (version : ℕ) → version ≤ schema_version → IsDistinct (later version (schema_version - version))
later-IsDistinct version h =
    let same : version + (schema_version - version) ≡ schema_version = omega (arith, h) in
    suffix-IsDistinct (added version) (later version (schema_version - version)) (
      subst IsDistinct (sym (ap added same) ∙ added-later version (schema_version - version))
        latest-IsDistinct)

has-schema :
    (n : String) (version : ℕ)
    → version ≤ schema_version
    → has n schema
      ≡ (has n (columns_of version) || has n (later version (schema_version - version)))
has-schema n version h =
    let same : version + (schema_version - version) ≡ schema_version = omega (arith, h) in
    let split = sym (ap added same) ∙ added-later version (schema_version - version) in
    ap (has n) (schema-columns_of ∙ ap (λ a. first_columns ++ a) split)
    ∙ ground (
      arith,
      has-append n first_columns (added version ++ later version (schema_version - version)),
      has-append n (added version) (later version (schema_version - version)),
      has-append n first_columns (added version),
    )

-- A file at the latest schema that extends some columns: its table has every column of the schema,
-- each name once, what was there is still there in its place, and opening it again changes nothing.
pub record IsCurrent (before : List Column) (f : File) : Type 0 where
  pub version : f.version ≡ some schema_version
  pub new : List Column
  pub columns : f.columns ≡ some (before ++ new)
  pub complete : (n : String) → has n schema ≡ true → has n (before ++ new) ≡ true
  pub distinct : IsDistinct (before ++ new)
  pub stable : opened f ≡ f

-- The columns of a file that records a version: all that the version has, and no name twice.
pub record IsAtVersion (version : ℕ) (cols : List Column) : Type 0 where
  pub supported : version ≤ schema_version
  pub complete : (n : String) → has n (columns_of version) ≡ true → has n cols ≡ true
  pub distinct : IsDistinct cols

abbrev pub file : ℕ → List Column → File
file version cols = record { version = some version; columns = some cols }

reopened : (cols : List Column) → opened (file schema_version cols) ≡ file schema_version cols
unfolding opened apply_migrations
reopened cols = ap (λ c. file schema_version c) (append-nil cols)

-- Opening a ledger file of any version up to the latest brings it to the latest: it records that
-- version, its table keeps its columns in their places and has every column of the schema, and no
-- name twice, and opening it again changes nothing, if it had all the columns of its version and
-- no name twice.
pub opened-IsCurrent :
    (version : ℕ) (cols : List Column)
    → IsAtVersion version cols
    → IsCurrent cols (opened (file version cols))
unfolding opened apply_migrations
opened-IsCurrent version cols a =
    let wanted = later version (schema_version - version) in
    let latest : (opened (file version cols)).version ≡ some schema_version = ground arith in
    let same : opened (file version cols) ≡ file schema_version (cols ++ missing cols wanted) =
      ap (λ v. record { version = v; columns = some (cols ++ missing cols wanted) }) latest in
    record {
      version = latest;
      new = missing cols wanted;
      columns = refl;
      complete = λ n h. ground (
        arith,
        has-schema n version a.supported,
        has-append n cols (missing cols wanted),
        has-missing n cols wanted,
        a.complete n,
        h,
      );
      distinct =
          append-IsDistinct cols (missing cols wanted) a.distinct
            (missing-IsDistinct cols wanted (later-IsDistinct version a.supported))
            (λ n h. ground (arith, has-missing n cols wanted, h));
      stable = ap opened same ∙ (reopened (cols ++ missing cols wanted) ∙ sym same);
    }

new_file_test : opened (record { version = none; columns = none }) ≡ file schema_version schema
unfolding opened apply_migrations schema migrations
new_file_test = refl
