-- ===== src/Eval/Catalog.antt =====
-- What an incident of the accuracy harness is (eval/catalog.py).
pub mod Crashloop
pub mod Imagepull
pub mod Oom
pub mod All
use coroner.Base.{
  ℕ, String, Bool, true, false, not, List, [], ◌∷◌, ◌++◌, any, if◌then◌else◌, is_nil, ◌==◌, ◌≡◌,
  refl,
}
use coroner.Base.Text.{codes, lower, names_any, cat, or_text}
use coroner.Json.{Json, Items, Fields, str, num, obj, arr, nil, cons, end, field}

abbrev pub image : String
image = "redis:alpine"

pub record Rubric : Type 0 where
  pub any_of : List (List String)
  pub none_of : List String

abbrev pub rubric : List (List String) → List String → Rubric
rubric any_of none_of = record { any_of = any_of; none_of = none_of }

abbrev all_named : List (List String) → List ℕ → Bool
all_named [] t = true
all_named (group ∷ groups) t = if names_any group t then all_named groups t else false

-- `Rubric.matches`
unfoldable pub matches : Rubric → String → Bool
unfolding lower names_any
matches r text =
    let t = lower (codes text) in if names_any r.none_of t then false else all_named r.any_of t

pub record Incident : Type 0 where
  pub id : String
  pub failure_class : String
  pub truth : String
  pub diagnosable : Bool
  pub rubric : Rubric
  pub log_shape : String
  pub why : String
  pub image : String
  pub command : List String
  pub script : String
  pub memory_limit : String
  pub memory_request : String

abbrev pub pod_name : Incident → String
pod_name i = cat "eval-" i.id

abbrev shell : List String
shell = "/bin/sh" ∷ "-c" ∷ []

-- `_crash`
abbrev pub crash : String → String → String → Rubric → Bool → String → Incident
crash id truth script rubric diagnosable log_shape = record {
  id = id;
  failure_class = "CrashLoopBackOff";
  truth = truth;
  diagnosable = diagnosable;
  rubric = rubric;
  log_shape = log_shape;
  why = "";
  image = image;
  command = shell;
  script = script;
  memory_limit = "";
  memory_request = "";
}

-- `_pull`
abbrev pub pull : String → String → String → Rubric → Bool → Incident
pull id image truth rubric diagnosable = record {
  id = id;
  failure_class = "ImagePullBackOff";
  truth = truth;
  diagnosable = diagnosable;
  rubric = rubric;
  log_shape = "";
  why = "";
  image = image;
  command = [];
  script = "";
  memory_limit = "";
  memory_request = "";
}

-- `_oom`, with `init` last
abbrev pub oom : String → String → String → String → String → Rubric → Bool → Incident
oom id limit why truth script rubric init = record {
  id = id;
  failure_class = if init then "OOMKilledDuringInit" else "OOMKilled";
  truth = truth;
  diagnosable = true;
  rubric = rubric;
  log_shape = "";
  why = why;
  image = image;
  command = shell;
  script = script;
  memory_limit = limit;
  memory_request = limit;
}

abbrev pub memory : Rubric
memory = rubric (("memory" ∷ "oom" ∷ []) ∷ []) []

abbrev pub not_memory : List String
not_memory = "out of memory" ∷ "oom" ∷ "memory limit" ∷ []

abbrev strings : List String → Items
strings [] = nil
strings (s ∷ ss) = cons (str s) (strings ss)

abbrev command_fields : Incident → Fields → Fields
command_fields i rest =
    if is_nil i.command
    then rest
    else field "command" (arr (strings i.command))
        (field "args" (arr (strings (i.script ∷ []))) rest)

abbrev policy_field : Incident → Fields → Fields
policy_field i rest = if i.image == image then field "imagePullPolicy" (str "Never") rest else rest

abbrev resources : Incident → Fields
resources i =
    let request = or_text i.memory_request i.memory_limit in
    if i.memory_limit == ""
    then end
    else field "resources"
        (obj (
          field "limits" (obj (field "memory" (str i.memory_limit) end))
            (field "requests" (obj (field "memory" (str request) end)) end)))
        end

-- A bare pod; no incident has extra labels.
unfoldable pub manifest : Incident → String → Json
manifest i namespace =
    let container =
      field "name" (str "app")
        (field "image" (str i.image) (command_fields i (policy_field i (resources i)))) in
    let labels =
      field "coroner.dev/purpose" (str "eval") (field "coroner.dev/eval-id" (str i.id) end) in
    obj (
      field "apiVersion" (str "v1") (
        field "kind" (str "Pod") (
          field "metadata"
            (obj (
              field "name" (str (pod_name i))
                (field "namespace" (str namespace) (field "labels" (obj labels) end))))
            (field "spec"
              (obj (
                field "restartPolicy" (str "Always") (
                  field "terminationGracePeriodSeconds" (num "1")
                    (field "containers" (arr (cons (obj container) nil)) end))))
              end))))
