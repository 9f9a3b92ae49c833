-- ===== src/Workflow/Store/Recovery.antt =====
-- packages/workflows/src/store.ts: `discoverRecoverable`, which pages through unfinished workflows.
use mathlib.Core.Option
use nuxt_laravelize.Common.{
  ℕ, String, Bool, true, not, ◌&&◌, ◌||◌, Option, none, some, List, [], ◌∷◌, map, str_eq, ltb, leb,
  ◌==◌, if◌then◌else◌, max_safe_integer, length, take, select,
}
use nuxt_laravelize.Workflow.Identity.{WorkflowFailure, type_error}
use nuxt_laravelize.Workflow.State.{is_workflow_terminal}
use nuxt_laravelize.Workflow.Types.{WorkflowSnapshot}
use nuxt_laravelize.Common.Text.{text_lt}
use nuxt_laravelize.Common.Map.{Map}
use nuxt_laravelize.Common.Exec.{Result, ok, throw}

pub record Cursor : Type 0 where
  pub updated_at : ℕ
  pub id : String

pub record Query : Type 0 where
  pub updated_before : ℕ
  pub cursor : Option Cursor
  pub limit : Option ℕ

pub record Page : Type 0 where
  pub workflow_ids : List String
  pub next_cursor : Option Cursor

abbrev pub limit_or : Option ℕ → ℕ
limit_or none = 100
limit_or (some n) = n

abbrev cursor_valid : Option Cursor → Bool
cursor_valid none = true
cursor_valid (some c) = leb c.updated_at max_safe_integer && not (str_eq c.id "")

-- `validateRecoveryQuery`
unfoldable pub query_limit : Query → Result WorkflowFailure ℕ
query_limit q =
    if leb q.updated_before max_safe_integer
      && cursor_valid q.cursor
      && leb 1 (limit_or q.limit)
      && leb (limit_or q.limit) 1000
    then ok (limit_or q.limit)
    else throw type_error

-- The order of the page: by the time of the last change, then by the id.
unfoldable pub before : ℕ → String → WorkflowSnapshot → Bool
unfolding text_lt
before updated_at id s =
    ltb updated_at s.updated_at || s.updated_at == updated_at && text_lt id s.id

abbrev behind : Option Cursor → WorkflowSnapshot → Bool
behind none s = true
behind (some c) s = before c.updated_at c.id s

unfoldable pub is_recoverable : Query → WorkflowSnapshot → Bool
unfolding before
is_recoverable q s =
    not (is_workflow_terminal s) && leb s.updated_at q.updated_before && behind q.cursor s

unfoldable pub insert : WorkflowSnapshot → List WorkflowSnapshot → List WorkflowSnapshot
insert s [] = s ∷ []
insert s (t ∷ ts) =
    let rest = insert s ts in if before t.updated_at t.id s then t ∷ rest else s ∷ t ∷ ts

unfoldable pub sort : List WorkflowSnapshot → List WorkflowSnapshot
unfolding insert
sort [] = []
sort (s ∷ ss) = insert s (sort ss)

abbrev pub values : Map WorkflowSnapshot → List WorkflowSnapshot
values [] = []
values ((id, s) ∷ m) = s ∷ values m

abbrev pub last : List WorkflowSnapshot → Option WorkflowSnapshot
last [] = none
last (s ∷ []) = some s
last (s ∷ t ∷ ts) = last (t ∷ ts)

abbrev cursor_of : WorkflowSnapshot → Cursor
cursor_of s = record { updated_at = s.updated_at; id = s.id }

-- A page that is full says where the next one begins.
unfoldable pub page_of : ℕ → List WorkflowSnapshot → Page
page_of limit snapshots = record {
  workflow_ids = map (λ s. s.id) snapshots;
  next_cursor = if length snapshots == limit then Option.map cursor_of (last snapshots) else none;
}

unfoldable pub discover_recoverable : Query → Map WorkflowSnapshot → Result WorkflowFailure Page
unfolding query_limit is_recoverable sort page_of
discover_recoverable q snapshots = elim (query_limit q) [
  | throw e ↦ throw e
  | ok limit ↦ ok (page_of limit (take limit (sort (select (is_recoverable q) (values snapshots)))))
]
