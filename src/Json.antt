-- ===== src/Json.antt =====
-- JSON values as Python's `json` module reads and writes them. A number is the text that it prints as.
pub mod Dumps
use coroner.Base.{ℕ, zero, suc, String, Bool, Option, none, some, if◌then◌else◌, ◌==◌}

mutual
  pub data Json : Type 0 where
    null : Json
    bool : Bool → Json
    num : String → Json
    str : String → Json
    arr : Items → Json
    obj : Fields → Json

  pub data Items : Type 0 where
    nil : Items
    cons : Json → Items → Items

  pub data Fields : Type 0 where
    end : Fields
    field : String → Json → Fields → Fields

-- `current[segment]` of a dict
unfoldable pub lookup : String → Fields → Option Json
lookup k end = none
lookup k (field j v fs) = if j == k then some v else lookup k fs

-- `current[index]` of a list
unfoldable pub item : Items → ℕ → Option Json
item nil i = none
item (cons x xs) zero = some x
item (cons x xs) (suc i) = item xs i
