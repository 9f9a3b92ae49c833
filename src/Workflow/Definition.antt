-- ===== src/Workflow/Definition.antt =====
-- packages/workflows/src/definition.ts. The types say what the source checks of the shape of an
-- unknown value; the handlers of a step are the caller's.
pub mod Registered
use nuxt_laravelize.Common.Map
use nuxt_laravelize.Common.{
  ℕ, String, Bool, true, false, not, ◌&&◌, ◌||◌, Option, none, some, List, [], ◌∷◌, ◌++◌, str_eq,
  leb, if◌then◌else◌, max_safe_integer, any,
}
use nuxt_laravelize.Workflow.Identity.{
  Checked, check, and_then, assert_workflow_version, assert_workflow_name, WorkflowFailure,
  type_error, duplicate_workflow_definition, workflow_definition_not_found,
  workflow_resolver_contract,
}
use nuxt_laravelize.Workflow.Json.{◌+++◌}
use nuxt_laravelize.Workflow.Types.{WorkflowStep, WorkflowDefinition}
use nuxt_laravelize.Common.Map.{Map}
use nuxt_laravelize.Common.Exec.{Exec, Result, ok, throw}

pub record Reference : Type 0 where
  pub name : String
  pub version : String

abbrev is_attempt_limit : ℕ → Bool
is_attempt_limit n = leb 1 n && leb n max_safe_integer

abbrev limit_or_one : Option ℕ → ℕ
limit_or_one none = 1
limit_or_one (some n) = n

unfoldable pub define_step : String → Bool → Option ℕ → Result WorkflowFailure WorkflowStep
unfolding assert_workflow_name
define_step name compensable max_attempts =
    elim (and_then (assert_workflow_name name)
      (check (is_attempt_limit (limit_or_one max_attempts)) type_error)) [
        | throw e ↦ throw e
        | ok u ↦ ok (record {
          name = name;
          compensable = compensable;
          max_attempts = limit_or_one max_attempts;
        })
      ]

assert_steps : List WorkflowStep → Checked
assert_steps [] = ok tt
assert_steps (step ∷ steps) =
    let rest = assert_steps steps in
    and_then (assert_workflow_name step.name)
      (and_then (check (is_attempt_limit step.max_attempts) type_error) rest)

distinct_names : List WorkflowStep → Bool
distinct_names [] = true
distinct_names (step ∷ steps) =
    not (any (λ other. str_eq other.name step.name) steps) && distinct_names steps

abbrev is_empty : List WorkflowStep → Bool
is_empty [] = true
is_empty (step ∷ steps) = false

-- `assertDefinition`, and `defineWorkflow`, which freezes what passes it.
unfoldable pub assert_definition : WorkflowDefinition → Checked
unfolding assert_steps distinct_names assert_workflow_name assert_workflow_version
assert_definition definition = and_then (assert_workflow_name definition.name) (
    and_then (assert_workflow_version definition.version) (
      and_then (check (not (is_empty definition.steps)) type_error) (
        and_then (assert_steps definition.steps)
          (check (distinct_names definition.steps) type_error))))

pub record Registry : Type 0 where
  pub definitions : Map WorkflowDefinition
  pub versions_by_name : Map (List String)

-- `#key`
abbrev pub registry_key : String → String → String
registry_key name version = name +++ "\0" +++ version

abbrev versions_or_none : Option (List String) → List String
versions_or_none none = []
versions_or_none (some versions) = versions

-- The checks of `register`: each definition, then no key twice in the batch or the registry.
unfoldable pub assert_all : List WorkflowDefinition → Checked
unfolding assert_definition
assert_all [] = ok tt
assert_all (d ∷ ds) = let rest = assert_all ds in and_then (assert_definition d) rest

unfoldable pub assert_unregistered : List String → Registry → List WorkflowDefinition → Checked
assert_unregistered batch r [] = ok tt
assert_unregistered batch r (d ∷ ds) =
    let key = registry_key d.name d.version in
    let rest = assert_unregistered (key ∷ batch) r ds in
    and_then
      (check (not (any (str_eq key) batch || Map.has key r.definitions))
        duplicate_workflow_definition)
      rest

abbrev add_definition : Registry → WorkflowDefinition → Registry
add_definition r d = record {
  definitions = Map.put (registry_key d.name d.version) d r.definitions;
  versions_by_name =
      Map.put d.name (versions_or_none (Map.get d.name r.versions_by_name) ++ d.version ∷ [])
        r.versions_by_name;
}

unfoldable pub add_definitions : List WorkflowDefinition → Registry → Registry
add_definitions [] r = r
add_definitions (d ∷ ds) r = add_definitions ds (add_definition r d)

unfoldable pub register : List WorkflowDefinition → Exec Registry WorkflowFailure Unit
register ds r = elim (and_then (assert_all ds) (assert_unregistered [] r ds)) [
  | throw e ↦ (throw e, r)
  | ok u ↦ (ok tt, add_definitions ds r)
]

abbrev found : Option WorkflowDefinition → Result WorkflowFailure WorkflowDefinition
found none = throw workflow_definition_not_found
found (some d) = ok d

-- A check, and then a value.
module _ {A : Type 0} where
  abbrev pub checked : Checked → Result WorkflowFailure A → Result WorkflowFailure A
  checked (ok u) r = r
  checked (throw e) r = throw e

unfoldable pub resolve : Registry → Reference → Result WorkflowFailure WorkflowDefinition
unfolding assert_workflow_name assert_workflow_version
resolve r reference =
    checked
      (and_then (assert_workflow_name reference.name) (assert_workflow_version reference.version))
      (found (Map.get (registry_key reference.name reference.version) r.definitions))

unfoldable pub has : Registry → Reference → Result WorkflowFailure Bool
unfolding assert_workflow_name assert_workflow_version
has r reference =
    checked
      (and_then (assert_workflow_name reference.name) (assert_workflow_version reference.version))
      (ok (Map.has (registry_key reference.name reference.version) r.definitions))

unfoldable pub versions : Registry → String → Result WorkflowFailure (List String)
unfolding assert_workflow_name
versions r name =
    checked (assert_workflow_name name) (ok (versions_or_none (Map.get name r.versions_by_name)))

abbrev pub Resolver : Type 0
Resolver = Reference → Result WorkflowFailure WorkflowDefinition

-- What a resolver returned is an exact answer to the reference, or its contract is broken.
unfoldable pub exact : Reference → WorkflowDefinition → Result WorkflowFailure WorkflowDefinition
unfolding assert_definition
exact reference d = elim (assert_definition d) [
  | throw e ↦ throw workflow_resolver_contract
  | ok u ↦
      if str_eq d.name reference.name && str_eq d.version reference.version
      then ok d
      else throw workflow_resolver_contract
]

unfoldable pub resolve_exact : Resolver → Resolver
unfolding exact assert_workflow_name assert_workflow_version
resolve_exact resolver reference =
    checked
      (and_then (assert_workflow_name reference.name) (assert_workflow_version reference.version))
      (elim (resolver reference) [ throw e ↦ throw e | ok d ↦ exact reference d ])
