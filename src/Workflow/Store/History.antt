-- ===== src/Workflow/Store/History.antt =====
-- What a history of calls keeps: the composition of its steps.
use nuxt_laravelize.Common.{
  String, ◌≡◌, true, Option, none, some, List, [], ◌∷◌, arith, str_eq, eq_iff,
}
use nuxt_laravelize.Workflow.Store.Calls.{perform, run_calls, perform-Keeps, perform-IsFiled, Call}
use nuxt_laravelize.Workflow.Receipts.{same_step_identity, same_step_identities, identity_unchanged}
use nuxt_laravelize.Workflow.Json.{same_json, same_json-eq}
use nuxt_laravelize.Workflow.Types.{StepSnapshot, WorkflowSnapshot}
use nuxt_laravelize.Workflow.Store.{Store}
use nuxt_laravelize.Workflow.Store.Evolution.{Evolves-refl, Keeps, Evolves, IsFiled}
use nuxt_laravelize.Workflow.Validation.Step.{same_optional}

text_trans : (a b c : String) → str_eq a b ≡ true → str_eq b c ≡ true → str_eq a c ≡ true
text_trans a b c h k = rw ((eq_iff a b).0 h) k

key_trans :
    (a b c : Option String)
    → same_optional a b ≡ true
    → same_optional b c ≡ true
    → same_optional a c ≡ true
key_trans none none c h k = k
key_trans none (some b) c h k = absurd (cc h)
key_trans (some a) none c h k = absurd (cc h)
key_trans (some a) (some b) none h k = k
key_trans (some a) (some b) (some c) h k = text_trans a b c h k

step_trans :
    (a b c : StepSnapshot)
    → same_step_identity a b ≡ true
    → same_step_identity b c ≡ true
    → same_step_identity a c ≡ true
unfolding same_step_identity
step_trans a b c h k = ground (
  arith,
  h,
  k,
  text_trans a.name b.name c.name,
  text_trans a.idempotency_key b.idempotency_key c.idempotency_key,
  key_trans a.compensation_idempotency_key b.compensation_idempotency_key
      c.compensation_idempotency_key,
)

steps_trans :
    (as' bs cs : List StepSnapshot)
    → same_step_identities as' bs ≡ true
    → same_step_identities bs cs ≡ true
    → same_step_identities as' cs ≡ true
unfolding same_step_identities
steps_trans [] [] cs h k = k
steps_trans [] (b ∷ bs) cs h k = absurd (cc h)
steps_trans (a ∷ as') [] cs h k = absurd (cc h)
steps_trans (a ∷ as') (b ∷ bs) [] h k = absurd (cc k)
steps_trans (a ∷ as') (b ∷ bs) (c ∷ cs) h k =
    ground (arith, h, k, step_trans a b c, steps_trans as' bs cs)

identity_trans :
    (a b c : WorkflowSnapshot)
    → identity_unchanged a b ≡ true
    → identity_unchanged b c ≡ true
    → identity_unchanged a c ≡ true
unfolding identity_unchanged
identity_trans a b c h k =
    let input : same_json a.input b.input ≡ true = ground (arith, h) in
    ground (
      arith,
      h,
      k,
      text_trans a.id b.id c.id,
      text_trans a.workflow_name b.workflow_name c.workflow_name,
      text_trans a.workflow_version b.workflow_version c.workflow_version,
      text_trans a.start_key b.start_key c.start_key,
      text_trans a.canonical_input b.canonical_input c.canonical_input,
      same_json-eq a.input b.input input,
      steps_trans a.steps b.steps c.steps,
    )

Evolves-trans : {a b c : WorkflowSnapshot} → Evolves a b → Evolves b c → Evolves a c
Evolves-trans {a} {b} {c} f g = record {
  identity = identity_trans a b c f.identity g.identity;
  revision = ground (arith, f.revision, g.revision);
  updated = ground (arith, f.updated, g.updated);
  cancellation = λ h. g.cancellation (f.cancellation h);
}

pub Keeps-refl : (s : Store) → Keeps s s
Keeps-refl s id old was = (old, was, Evolves-refl old)

pub Keeps-trans : (s t u : Store) → Keeps s t → Keeps t u → Keeps s u
Keeps-trans s t u f g id old was =
    let (middle, there, first) = f id old was in
    let (after, here, second) = g id middle there in (after, here, Evolves-trans first second)

-- If every snapshot of the store stands under its own id, then any list of create, claim, renew,
-- commit and cancellation calls keeps every stored workflow: its identity is unchanged, its
-- revision and its time do not go back, and a requested cancellation stays requested.
pub run_calls-Keeps : (cs : List Call) (s : Store) → IsFiled s → Keeps s (run_calls cs s)
unfolding run_calls
run_calls-Keeps [] s filed = Keeps-refl s
run_calls-Keeps (c ∷ cs) s filed =
    Keeps-trans s (perform c s).1 (run_calls (c ∷ cs) s) (perform-Keeps c s filed)
      (run_calls-Keeps cs (perform c s).1 (perform-IsFiled c s filed))
