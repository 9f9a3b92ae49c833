-- ===== src/Workflow/Definition/Registered.antt =====
-- What a registry and the check of a resolver promise.
use nuxt_laravelize.Common.Map
use nuxt_laravelize.Common.{String, ◌≡◌, inl, inr, some, List, ◌∷◌, arith, eq_iff, []}
use nuxt_laravelize.Workflow.Identity.{WorkflowFailure}
use nuxt_laravelize.Workflow.Types.{WorkflowDefinition}
use nuxt_laravelize.Workflow.Definition.{
  assert_definition, registry_key, add_definitions, register, Resolver, exact, resolve_exact,
  Reference, Registry, assert_unregistered,
}
use nuxt_laravelize.Common.Map.{Map, get-put, get-has}
use nuxt_laravelize.Common.Exec.{Result-cases, throw, ok}

-- A definition that the exact resolution returns has exactly the name and the version of the
-- reference, is valid, and is what the resolver returned.
pub resolve_exact-exact :
    (resolver : Resolver) (reference : Reference) (d : WorkflowDefinition)
    → resolve_exact resolver reference ≡ ok d
    → (d.name ≡ reference.name)
      × (d.version ≡ reference.version)
      × (assert_definition d ≡ ok tt)
      × (resolver reference ≡ ok d)
unfolding resolve_exact exact
resolve_exact-exact resolver reference d h = elim (Result-cases (resolver reference)) [
  | inr (e, thrown) ↦ absurd (ground (arith, h, thrown))
  | inl (given, answer) ↦ (
    ground (arith, h, answer, eq_iff given.name reference.name),
    ground (arith, h, answer, eq_iff given.version reference.version),
    ground (arith, h, answer),
    ground (arith, h, answer),
  )
]

-- If registering a batch throws, then the registry stays as it was.
pub register-throws :
    (ds : List WorkflowDefinition) (r : Registry) (e : WorkflowFailure)
    → (register ds r).0 ≡ throw e
    → (register ds r).1 ≡ r
unfolding register
register-throws ds r e h = ground (arith, h)

abbrev pub key_of : WorkflowDefinition → String
key_of d = registry_key d.name d.version

kept-definition :
    (ds : List WorkflowDefinition) (batch : List String) (r : Registry) (key : String)
    (d : WorkflowDefinition)
    → assert_unregistered batch r ds ≡ ok tt
    → Map.get key r.definitions ≡ some d
    → (s : Registry) → Map.get key s.definitions ≡ some d
    → Map.get key (add_definitions ds s).definitions ≡ some d
unfolding assert_unregistered add_definitions
kept-definition [] batch r key d fresh known s h = h
kept-definition (x ∷ xs) batch r key d fresh known s h =
    let rest : assert_unregistered (key_of x ∷ batch) r xs ≡ ok tt = ground (arith, fresh) in
    kept-definition xs (key_of x ∷ batch) r key d rest known _ (
      ground (
        arith,
        fresh,
        known,
        h,
        get-put (key_of x) key x s.definitions,
        eq_iff (key_of x) key,
        get-has key r.definitions d known,
      ))

-- A definition that is registered under a key stays registered under it, whatever batch is
-- registered next.
pub register-keeps :
    (ds : List WorkflowDefinition) (r : Registry) (key : String) (d : WorkflowDefinition)
    → Map.get key r.definitions ≡ some d
    → Map.get key (register ds r).1.definitions ≡ some d
unfolding register
register-keeps ds r key d known = ground (
  arith,
  known,
  λ (fresh : assert_unregistered [] r ds ≡ ok tt).
      kept-definition ds [] r key d fresh known r known,
)
