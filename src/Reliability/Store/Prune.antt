-- ===== src/Reliability/Store/Prune.antt =====
-- packages/reliability/src/testing.ts: `prune`, with `normalizeReliabilityPruneOptions` of index.ts.
-- The order of `localeCompare` on two keys is the platform's, an argument here.
use nuxt_laravelize.Common.Map
use nuxt_laravelize.Common.{
  ℕ, min, Bool, true, false, not, ◌&&◌, ◌||◌, Option, none, some, List, [], ◌∷◌, str_eq, ltb, leb,
  ◌==◌, if◌then◌else◌, length, take, all, any, select, String,
}
use nuxt_laravelize.Reliability.Store.{
  Action, starts_with, MessageState, MessageNamespace, discard_unproven, delivered, dead, outbox,
  inbox, Row,
}
use nuxt_laravelize.Common.Map.{Map}
use nuxt_laravelize.Common.Exec.{Result, ok, throw}

pub record PruneOptions : Type 0 where
  pub namespace : MessageNamespace
  pub completed_before : ℕ
  pub delivered_rows : Bool
  pub dead_rows : Bool
  pub limit : Option ℕ
  pub types : Option (List String)
  pub allow_dead_evidence_deletion : Bool
  pub allow_active_dead_evidence_deletion : Bool

pub data PruneError : Type 0 where
  invalid_options : PruneError

abbrev prune_limit : Option ℕ → ℕ
prune_limit none = 100
prune_limit (some n) = n

abbrev types_valid : (String → Bool) → Option (List String) → Bool
types_valid is_id none = true
types_valid is_id (some []) = false
types_valid is_id (some (t ∷ ts)) = leb (length (t ∷ ts)) 100 && all is_id (t ∷ ts)

-- `normalizeReliabilityPruneOptions`: the limit that it returns. `is_id` is its test on a type.
unfoldable pub normalize_prune_options : (String → Bool) → PruneOptions → Result PruneError ℕ
normalize_prune_options is_id o =
    if (o.delivered_rows || o.dead_rows)
      && (not o.dead_rows || o.allow_dead_evidence_deletion)
      && leb 1 (prune_limit o.limit)
      && leb (prune_limit o.limit) 1000
      && types_valid is_id o.types
    then ok (prune_limit o.limit)
    else throw invalid_options

abbrev namespace_prefix : MessageNamespace → String
namespace_prefix outbox = "outbox:"
namespace_prefix inbox = "inbox:"

abbrev ended_before : Option ℕ → ℕ → Bool
ended_before none t = false
ended_before (some ended) t = ltb ended t

abbrev state_chosen : PruneOptions → MessageState → Bool
state_chosen o delivered = o.delivered_rows
state_chosen o dead = o.dead_rows
state_chosen o _ = false

abbrev type_chosen : Option (List String) → String → Bool
type_chosen none type = true
type_chosen (some types) type = any (str_eq type) types

unfoldable pub is_prunable : PruneOptions → String → Row → Bool
is_prunable o key row =
    starts_with key (namespace_prefix o.namespace)
    && ended_before row.terminal_at o.completed_before
    && state_chosen o row.state
    && type_chosen o.types row.envelope.type

abbrev ended_at : Option ℕ → ℕ
ended_at none = 0
ended_at (some t) = t

-- The order of the deletions: by the time of the end, then by the key.
unfoldable pub ends_before : (String → String → Bool) → String × Row → String × Row → Bool
ends_before key_lt (a, x) (b, y) =
    ltb (ended_at x.terminal_at) (ended_at y.terminal_at)
    || ended_at x.terminal_at == ended_at y.terminal_at && key_lt a b

unfoldable pub insert :
    (String → String → Bool) → String × Row → List (String × Row) → List (String × Row)
insert key_lt e [] = e ∷ []
insert key_lt e (d ∷ ds) =
    let rest = insert key_lt e ds in if ends_before key_lt d e then d ∷ rest else e ∷ d ∷ ds

unfoldable pub sort : (String → String → Bool) → List (String × Row) → List (String × Row)
sort key_lt [] = []
sort key_lt (e ∷ es) = insert key_lt e (sort key_lt es)

unfoldable pub remove_all : List (String × Row) → Map Row → Map Row
remove_all [] rows = rows
remove_all ((key, row) ∷ es) rows = remove_all es (Map.remove key rows)

pub record PruneResult : Type 0 where
  pub deleted : ℕ
  pub has_more : Bool

unfoldable pub candidates : (String → String → Bool) → PruneOptions → Map Row → List (String × Row)
candidates key_lt o rows = sort key_lt (select (λ (e : String × Row). is_prunable o e.0 e.1) rows)

-- `prune` behind the normalisation of its options.
unfoldable pub prune : (String → String → Bool) → PruneOptions → (limit : ℕ) → Action PruneResult
unfolding candidates remove_all
prune key_lt o limit s =
    let found = candidates key_lt o s.records in
    if o.dead_rows && not o.allow_active_dead_evidence_deletion
    then (throw discard_unproven, s)
    else (
      ok (record { deleted = min (length found) limit; has_more = ltb limit (length found) }),
      record s { records = remove_all (take limit found) s.records },
    )
