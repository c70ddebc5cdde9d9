-- ===== src/Schema.antt =====
-- Making a JSON schema strict (`strictify` of brain/src/coroner_brain/schema.py). The program changes the
-- schema in place; a changed dict is a new value here. A dict has no key twice.
pub mod Strict
use coroner.Base.{String, Bool, true, false, Option, none, some, if◌then◌else◌, ◌==◌}
use coroner.Json.{
  Json, null, bool, num, str, arr, obj, Items, nil, cons, Fields, end, field, lookup,
}

-- `node[key] = value`: a key that is there keeps its place
unfoldable pub set_key : String → Json → Fields → Fields
set_key k v end = field k v end
set_key k v (field j u fs) =
    let rest = set_key k v fs in if j == k then field k v fs else field j u rest

-- `node.pop(key, None)`
unfoldable pub pop_key : String → Fields → Fields
pop_key k end = end
pop_key k (field j u fs) = let rest = pop_key k fs in if j == k then rest else field j u rest

-- `list(properties.keys())`
unfoldable pub keys_of : Fields → Items
keys_of end = nil
keys_of (field j u fs) = cons (str j) (keys_of fs)

abbrev pub is_text : String → Option Json → Bool
is_text s (some (str t)) = t == s
is_text s _ = false

abbrev pub require : Option Json → Fields → Fields
require (some (obj properties)) fs = set_key "required" (arr (keys_of properties)) fs
require _ fs = fs

-- what an object node gains: the node as it was, and with its values made strict
unfoldable pub harden : Fields → Fields → Fields
unfolding set_key keys_of lookup
harden node fs =
    if is_text "object" (lookup "type" node)
    then require (lookup "properties" node) (set_key "additionalProperties" (bool false) fs)
    else fs

-- the values first: what is set on the node is no dict, and the keys are read off the node as it was
mutual
  unfolding harden pop_key

  strictify_node : Json → Json
  strictify_node (obj fs) = obj (pop_key "default" (harden fs (strictify_fields fs)))
  strictify_node (arr items) = arr (strictify_items items)
  strictify_node v = v

  strictify_items : Items → Items
  strictify_items nil = nil
  strictify_items (cons x xs) = cons (strictify_node x) (strictify_items xs)

  strictify_fields : Fields → Fields
  strictify_fields end = end
  strictify_fields (field k v fs) = field k (strictify_node v) (strictify_fields fs)

unfoldable pub strictify : Json → Json
unfolding strictify_node
strictify node = strictify_node node
