-- ===== src/Schema/Strict.antt =====
-- What a schema is once it has been made strict (`strictify` of brain/src/coroner_brain/schema.py).
use coroner.Base.{
  String, ◌≡◌, refl, ◌∙◌, Bool, true, false, not, ◌&&◌, Option, none, some, is_some, arith,
  if◌then◌else◌, ◌==◌, eq_iff, Bool-cases, inl, inr,
}
use coroner.Json.{
  Json, null, bool, num, str, arr, obj, Items, nil, cons, Fields, end, field, lookup,
}
use coroner.Schema.{
  set_key, pop_key, keys_of, is_text, require, harden, strictify, strictify_node, strictify_items,
  strictify_fields,
}

abbrev pub is_false : Option Json → Bool
is_false (some (bool false)) = true
is_false _ = false

-- A node of its own: it has no default, and an object admits no other properties.
abbrev pub is_closed_node : Fields → Bool
is_closed_node fs =
    not (is_some (lookup "default" fs))
    && (if is_text "object" (lookup "type" fs)
        then is_false (lookup "additionalProperties" fs)
        else true)

mutual
  -- Every node of a schema is.
  pub is_closed : Json → Bool
  is_closed (obj fs) = is_closed_node fs && are_closed fs
  is_closed (arr items) = items_closed items
  is_closed v = true

  pub items_closed : Items → Bool
  items_closed nil = true
  items_closed (cons x xs) = is_closed x && items_closed xs

  pub are_closed : Fields → Bool
  are_closed end = true
  are_closed (field k v fs) = is_closed v && are_closed fs

lookup-set_key :
    (k j : String) (v : Json) (fs : Fields)
    → lookup j (set_key k v fs) ≡ (if k == j then some v else lookup j fs)
unfolding lookup set_key
lookup-set_key k j v end = refl
lookup-set_key k j v (field i u fs) =
    ground (arith, lookup-set_key k j v fs, eq_iff i k, eq_iff i j, eq_iff k j)

lookup-pop_key :
    (k j : String) (fs : Fields) → lookup j (pop_key k fs) ≡ (if k == j then none else lookup j fs)
unfolding lookup pop_key
lookup-pop_key k j end = ground arith
lookup-pop_key k j (field i u fs) =
    ground (arith, lookup-pop_key k j fs, eq_iff i k, eq_iff i j, eq_iff k j)

is_text-strictify_node :
    (s : String) (v : Json) → is_text s (some (strictify_node v)) ≡ is_text s (some v)
unfolding strictify_node
is_text-strictify_node s (obj fs) = refl
is_text-strictify_node s v = refl

is_text-strictify_fields :
    (s k : String) (fs : Fields)
    → is_text s (lookup k (strictify_fields fs)) ≡ is_text s (lookup k fs)
unfolding lookup strictify_node
is_text-strictify_fields s k end = refl
is_text-strictify_fields s k (field i v fs) = elim (Bool-cases (i == k)) [
  | inl e ↦ rw e (is_text-strictify_node s v)
  | inr e ↦ rw e (is_text-strictify_fields s k fs)
]

both : (a b : Bool) → a && b ≡ true → (a ≡ true) × (b ≡ true)
both a b h = ground arith

are_closed-field :
    (k : String) (v : Json) (fs : Fields)
    → is_closed v ≡ true
    → are_closed fs ≡ true
    → are_closed (field k v fs) ≡ true
unfolding is_closed
are_closed-field k v fs h e = rw (h, e) refl

are_closed-set_key :
    (k : String) (v : Json) (fs : Fields)
    → is_closed v ≡ true
    → are_closed fs ≡ true
    → are_closed (set_key k v fs) ≡ true
unfolding set_key is_closed
are_closed-set_key k v end h e = are_closed-field k v end h refl
are_closed-set_key k v (field i u fs) h e =
    let (here, there) = both (is_closed u) (are_closed fs) e in
    elim (Bool-cases (i == k)) [
      | inl m ↦ rw m (are_closed-field k v fs h there)
      | inr m ↦
          rw m (are_closed-field i u (set_key k v fs) here (are_closed-set_key k v fs h there))
    ]

are_closed-pop_key :
    (k : String) (fs : Fields) → are_closed fs ≡ true → are_closed (pop_key k fs) ≡ true
unfolding pop_key is_closed
are_closed-pop_key k end e = refl
are_closed-pop_key k (field i u fs) e =
    let (here, there) = both (is_closed u) (are_closed fs) e in
    elim (Bool-cases (i == k)) [
      | inl m ↦ rw m (are_closed-pop_key k fs there)
      | inr m ↦ rw m (are_closed-field i u (pop_key k fs) here (are_closed-pop_key k fs there))
    ]

items_closed-keys_of : (fs : Fields) → items_closed (keys_of fs) ≡ true
unfolding keys_of is_closed
items_closed-keys_of end = refl
items_closed-keys_of (field i u fs) = items_closed-keys_of fs

are_closed-require :
    (o : Option Json) (fs : Fields) → are_closed fs ≡ true → are_closed (require o fs) ≡ true
unfolding is_closed
are_closed-require (some (obj props)) fs e =
    are_closed-set_key "required" (arr (keys_of props)) fs (items_closed-keys_of props) e
are_closed-require (some null) fs e = e
are_closed-require (some (bool b)) fs e = e
are_closed-require (some (num n)) fs e = e
are_closed-require (some (str s)) fs e = e
are_closed-require (some (arr xs)) fs e = e
are_closed-require none fs e = e

lookup-require :
    (o : Option Json) (j : String) (fs : Fields)
    → ("required" == j) ≡ false
    → lookup j (require o fs) ≡ lookup j fs
lookup-require (some (obj props)) j fs e = lookup-set_key "required" j _ fs ∙ ground arith
lookup-require (some null) j fs e = refl
lookup-require (some (bool b)) j fs e = refl
lookup-require (some (num n)) j fs e = refl
lookup-require (some (str s)) j fs e = refl
lookup-require (some (arr xs)) j fs e = refl
lookup-require none j fs e = refl

are_closed-harden : (node fs : Fields) → are_closed fs ≡ true → are_closed (harden node fs) ≡ true
unfolding harden is_closed
are_closed-harden node fs e = ground (
  arith,
  are_closed-require (lookup "properties" node) (set_key "additionalProperties" (bool false) fs),
  are_closed-set_key "additionalProperties" (bool false) fs,
)

closed-strictified :
    (node : Fields)
    → is_closed_node (pop_key "default" (harden node (strictify_fields node))) ≡ true
unfolding harden
closed-strictified node =
    let fs = strictify_fields node in
    let closed = set_key "additionalProperties" (bool false) fs in
    let props = lookup "properties" node in
    ground (
      arith,
      lookup-pop_key "default" "default" (harden node fs),
      lookup-pop_key "default" "type" (harden node fs),
      lookup-pop_key "default" "additionalProperties" (harden node fs),
      lookup-require props "type" closed,
      lookup-require props "additionalProperties" closed,
      lookup-set_key "additionalProperties" "type" (bool false) fs,
      lookup-set_key "additionalProperties" "additionalProperties" (bool false) fs,
      is_text-strictify_fields "object" "type" node,
    )

mutual
  unfolding strictify_node is_closed

  closed_node : (v : Json) → is_closed (strictify_node v) ≡ true
  closed_node (obj fs) = ground (
    arith,
    closed-strictified fs,
    are_closed-pop_key "default" (harden fs (strictify_fields fs)),
    are_closed-harden fs (strictify_fields fs) (closed_fields fs),
  )
  closed_node (arr items) = closed_items items
  closed_node (str s) = refl
  closed_node (num n) = refl
  closed_node (bool b) = refl
  closed_node null = refl

  closed_items : (xs : Items) → items_closed (strictify_items xs) ≡ true
  closed_items nil = refl
  closed_items (cons x xs) = ground (arith, closed_node x, closed_items xs)

  closed_fields : (fs : Fields) → are_closed (strictify_fields fs) ≡ true
  closed_fields end = refl
  closed_fields (field k v fs) = ground (arith, closed_node v, closed_fields fs)

-- A strict schema is closed at every node: nothing has a default, and every object admits no
-- property that it does not name.
pub is_closed-strictify : (node : Json) → is_closed (strictify node) ≡ true
unfolding strictify
is_closed-strictify node = closed_node node
