-- ===== src/Workflow/Store/Fencing.antt =====
-- packages/workflows/src/store.ts: leases keep workers apart, whatever the others call.
use nuxt_laravelize.Common.Map
use nuxt_laravelize.Common.{
  ℕ, ◌≤◌, ◌<◌, max, String, ◌≡◌, refl, ◌≢◌, some, List, [], ◌∷◌, arith, eq_iff, eq_refl, All, sym,
  ap, ◌∙◌, inl, inr, Bool, true, Option, none, Option-cases,
}
use nuxt_laravelize.Workflow.Store.Calls.{
  perform, run_calls, renewing, Call, creating, claiming, committing, cancelling,
}
use nuxt_laravelize.Workflow.Types.{WorkflowLease, WorkflowSnapshot}
use nuxt_laravelize.Workflow.Store.{
  save, leased_until, is_leased, is_lease_of, claim, Store, merged, commit,
}
use nuxt_laravelize.Workflow.Store.Effects.{claim-saves, commit-throws, commit-saves}
use nuxt_laravelize.Workflow.Store.Leases.{At, At-create, claim-At, renew-At, commit-At, cancel-At}
use nuxt_laravelize.Common.Map.{get-put, Map}
use nuxt_laravelize.Common.Exec.{ok, Result-cases, throw}
use nuxt_laravelize.Workflow.Identity.{WorkflowFailure}

-- A snapshot is leased under a token, up to an instant at least.
abbrev IsHeld : (token : String) (until : ℕ) → WorkflowSnapshot → Type 0
IsHeld token until current =
    (lease : WorkflowLease) × (current.lease ≡ some lease)
    × (lease.token ≡ token)
    × (until ≤ lease.expires_at)

abbrev token_in : Option WorkflowLease → Option String
token_in none = none
token_in (some lease) = some lease.token

-- A snapshot is not leased under a token.
abbrev IsLost : (token : String) → WorkflowSnapshot → Type 0
IsLost token current = token_in current.lease ≢ some token

-- A call of the others: a claim comes before an instant, and a commit has another token.
abbrev pub IsForeign : (token : String) (until : ℕ) → Call → Type 0
IsForeign token until (claiming id revision token' now expires_at) = now < until
IsForeign token until (committing snapshot revision token' now release) = token' ≢ token
IsForeign token until c = Unit

-- A call that does not claim under a token.
abbrev pub IsOther : (token : String) → Call → Type 0
IsOther token (claiming id revision token' now expires_at) = token' ≢ token
IsOther token c = Unit

perform-IsHeld :
    (id token : String) (until : ℕ) (c : Call) (s : Store)
    → IsForeign token until c
    → At (IsHeld token until) id s
    → At (IsHeld token until) id (perform c s).1
unfolding perform
perform-IsHeld id token until (creating snapshot) s foreign at =
    At-create (IsHeld token until) id s at snapshot
perform-IsHeld id token until (claiming j revision token' now expires_at) s early at =
    claim-At (IsHeld token until) id s at j revision token' now expires_at
      λ current same (lease, leased, own, lasts) free.
        absurd (unfold is_leased in ground (arith, leased, lasts, early, free))
perform-IsHeld id token until (renewing j revision token' now expires_at) s foreign at =
    renew-At (IsHeld token until) id s at j revision token' now expires_at
      λ current (lease, leased, own, lasts) held. (
        record { token = token'; expires_at = max (leased_until current.lease) expires_at },
        refl,
        unfold is_lease_of in ground (arith, leased, own, held, eq_iff lease.token token'),
        ground (arith, leased, lasts),
      )
perform-IsHeld id token until (committing snapshot revision token' now release) s foreign at =
    commit-At (IsHeld token until) id s at snapshot revision token' now release
      λ current (lease, leased, own, lasts) held. absurd (
        foreign
          (unfold is_lease_of in ground (arith, leased, own, held, eq_iff lease.token token')))
perform-IsHeld id token until (cancelling j revision now) s foreign at =
    cancel-At (IsHeld token until) id s at j revision now λ current held. held

run_calls-IsHeld :
    (id token : String) (until : ℕ) (cs : List Call) (s : Store)
    → All (IsForeign token until) cs
    → At (IsHeld token until) id s
    → At (IsHeld token until) id (run_calls cs s)
unfolding run_calls
run_calls-IsHeld id token until [] s foreign at = at
run_calls-IsHeld id token until (c ∷ cs) s (foreign, rest) at =
    run_calls-IsHeld id token until cs (perform c s).1 rest
      (perform-IsHeld id token until c s foreign at)

claim-IsHeld :
    (id : String) (revision : ℕ) (token : String) (now expires_at : ℕ) (s : Store)
    (r : WorkflowSnapshot)
    → (claim id revision token now expires_at s).0 ≡ ok r
    → At (IsHeld token expires_at) id (claim id revision token now expires_at s).1
unfolding save
claim-IsHeld id revision token now expires_at s r h =
    let (current, there, expected, free, args, made, left) =
      claim-saves id revision token now expires_at s r h in
    (
      r,
      rw (left, get-put) (ground (arith, eq_refl id)),
      (record { token = token; expires_at = expires_at }, rw made refl, refl, omega arith),
    )

-- After a claim of a workflow that was granted until an instant, and any list of calls of the store
-- whose claims come before the instant and whose commits have another token than the claim, no
-- claim of the workflow before the instant is granted.
pub claim_excludes :
    (id : String) (revision : ℕ) (token : String) (now expires_at : ℕ) (s : Store)
    (r : WorkflowSnapshot)
    → (claim id revision token now expires_at s).0 ≡ ok r
    → (cs : List Call) → All (IsForeign token expires_at) cs
    → (revision' : ℕ) (token' : String) (now' expires_at' : ℕ) → now' < expires_at
    → (x : WorkflowSnapshot)
    → (claim id revision' token' now' expires_at'
        (run_calls cs (claim id revision token now expires_at s).1)).0
      ≢ ok x
claim_excludes id revision token now expires_at s r h cs foreign revision' token' now' expires_at'
      early x again =
    let after = run_calls cs (claim id revision token now expires_at s).1 in
    let (found, there, (lease, leased, own, lasts)) =
      run_calls-IsHeld id token expires_at cs (claim id revision token now expires_at s).1 foreign
        (claim-IsHeld id revision token now expires_at s r h) in
    let (current, there', expected, free, args, made, left) =
      claim-saves id revision' token' now' expires_at' after x again in
    absurd (unfold is_leased in ground (arith, there, there', leased, lasts, early, free))

leased_token :
    (current : WorkflowSnapshot) (token : String) (now : ℕ)
    → is_lease_of current token now ≡ true
    → token_in current.lease ≡ some token
unfolding is_lease_of
leased_token current token now held = elim (Option-cases current.lease) [
  | inl none_there ↦ absurd (ground (arith, none_there, held))
  | inr (lease, there) ↦
      let same : lease.token ≡ token = (eq_iff lease.token token).0 (ground (arith, there, held)) in
      ground (arith, there, ap some same)
]

kept_token :
    (current snapshot : WorkflowSnapshot) (release : Bool) (token : String)
    → token_in (merged current snapshot release).lease ≡ some token
    → token_in current.lease ≡ some token
unfolding merged
kept_token current snapshot release token e = ground (arith, e)

perform-IsLost :
    (id token : String) (c : Call) (s : Store)
    → IsOther token c
    → At (IsLost token) id s
    → At (IsLost token) id (perform c s).1
unfolding perform
perform-IsLost id token (creating snapshot) s other at = At-create (IsLost token) id s at snapshot
perform-IsLost id token (claiming j revision token' now expires_at) s other at =
    claim-At (IsLost token) id s at j revision token' now expires_at
      λ current same lost free e. other (ground (arith, e))
perform-IsLost id token (renewing j revision token' now expires_at) s other at =
    renew-At (IsLost token) id s at j revision token' now expires_at
      λ current lost held e. lost (leased_token current token' now held ∙ e)
perform-IsLost id token (committing snapshot revision token' now release) s other at =
    commit-At (IsLost token) id s at snapshot revision token' now release
      λ current lost held e. lost (kept_token current snapshot release token e)
perform-IsLost id token (cancelling j revision now) s other at =
    cancel-At (IsLost token) id s at j revision now λ current lost. lost

run_calls-IsLost :
    (id token : String) (cs : List Call) (s : Store)
    → All (IsOther token) cs
    → At (IsLost token) id s
    → At (IsLost token) id (run_calls cs s)
unfolding run_calls
run_calls-IsLost id token [] s other at = at
run_calls-IsLost id token (c ∷ cs) s (other, rest) at =
    run_calls-IsLost id token cs (perform c s).1 rest (perform-IsLost id token c s other at)

claim-IsLost :
    (id : String) (revision : ℕ) (token other : String) (now expires_at : ℕ) (s : Store)
    (r : WorkflowSnapshot)
    → other ≢ token
    → (claim id revision other now expires_at s).0 ≡ ok r
    → At (IsLost token) id (claim id revision other now expires_at s).1
claim-IsLost id revision token other now expires_at s r differs h =
    let (current, there, (lease, leased, own, lasts)) =
      claim-IsHeld id revision other now expires_at s r h in
    (current, there, λ e. differs (sym own ∙ ground (arith, leased, e)))

-- After a claim of a workflow that was granted under another token, and any list of calls of the
-- store none of which claims under the old token, every commit of the workflow under the old token
-- throws, and leaves the store as it is.
pub commit_fenced :
    (id : String) (revision : ℕ) (token other : String) (now expires_at : ℕ) (s : Store)
    (r : WorkflowSnapshot)
    → other ≢ token
    → (claim id revision other now expires_at s).0 ≡ ok r
    → (cs : List Call) → All (IsOther token) cs
    → (snapshot : WorkflowSnapshot) (revision' now' : ℕ) (release : Bool) → snapshot.id ≡ id
    → let after = run_calls cs (claim id revision other now expires_at s).1 in
      (e : WorkflowFailure) × (commit snapshot revision' token now' release after
        ≡ (throw e, after))
commit_fenced id revision token other now expires_at s r differs h cs others snapshot revision' now'
      release own =
    let after = run_calls cs (claim id revision other now expires_at s).1 in
    let (found, there, lost) =
      run_calls-IsLost id token cs (claim id revision other now expires_at s).1 others
        (claim-IsLost id revision token other now expires_at s r differs h) in
    elim (Result-cases (commit snapshot revision' token now' release after).0) [
      | inr (e, broken) ↦ (
        e,
        ground (arith, broken, commit-throws snapshot revision' token now' release after broken),
      )
      | inl (x, done) ↦
          let (current, there', sound, valid, unchanged, held, expected, made, left) =
            commit-saves snapshot revision' token now' release after x done in
          let same : found ≡ current =
            ground (arith, there, there', ap (λ i. Map.get i after.snapshots) own) in
          absurd (
            lost (
              ap (λ (c : WorkflowSnapshot). token_in c.lease) same
              ∙ leased_token current token now' held))
    ]
