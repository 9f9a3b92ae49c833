-- ===== src/Workflow/Identity.antt =====
-- packages/workflows/src/validation.ts: names, versions, and the arguments of a store.
use nuxt_laravelize.Common.{
  ℕ, ◌+◌, String, ◌≡◌, refl, Bool, true, false, not, ◌&&◌, ◌||◌, List, [], ◌∷◌, map, str_eq, ltb,
  leb, ◌==◌, if◌then◌else◌, max_safe_integer, length,
}
use nuxt_laravelize.Common.Text.{codes, utf16_length}
use nuxt_laravelize.Common.Exec.{Result, ok, throw}

-- What the functions of packages/workflows throw.
pub data WorkflowFailure : Type 0 where
  type_error invalid_workflow_version invalid_workflow_snapshot : WorkflowFailure
  workflow_identity_conflict workflow_store_contract : WorkflowFailure
  start_key_conflict revision_conflict lease_conflict workflow_not_found : WorkflowFailure
  duplicate_workflow_definition workflow_definition_not_found : WorkflowFailure
  workflow_resolver_contract workflow_lease_lost workflow_execution_aborted : WorkflowFailure

abbrev pub Checked : Type 0
Checked = Result WorkflowFailure Unit

-- A check, with what it throws.
abbrev pub check : Bool → WorkflowFailure → Checked
check true e = ok tt
check false e = throw e

abbrev pub and_then : Checked → Checked → Checked
and_then (ok u) k = k
and_then (throw e) k = throw e

abbrev pub max_timestamp : ℕ
max_timestamp = 8640000000000000

abbrev pub max_opaque_text : ℕ
max_opaque_text = 1024

abbrev is_digit : ℕ → Bool
is_digit c = leb b'0' c && leb c b'9'

abbrev to_lower : ℕ → ℕ
to_lower c = if leb b'A' c && leb c b'Z' then c + 32 else c

abbrev is_alphanumeric : ℕ → Bool
is_alphanumeric c = is_digit c || leb b'a' (to_lower c) && leb (to_lower c) b'z'

-- `[\w.-]`
abbrev is_word : ℕ → Bool
is_word c = is_alphanumeric c || c == b'_' || c == b'.' || c == b'-'

-- The rest of a text behind its first character: it is empty, or ends in a letter or a digit.
ends_alphanumeric : List ℕ → Bool
ends_alphanumeric [] = true
ends_alphanumeric (c ∷ []) = is_alphanumeric c
ends_alphanumeric (c ∷ d ∷ cs) = is_word c && ends_alphanumeric (d ∷ cs)

stable : List ℕ → Bool
stable [] = false
stable (c ∷ cs) = is_alphanumeric c && leb (length cs) 63 && ends_alphanumeric cs

-- `stableIdentity.test(text)`
unfoldable pub stable_identity : String → Bool
unfolding stable ends_alphanumeric codes
stable_identity s = stable (codes s)

same_codes : List ℕ → List ℕ → Bool
same_codes [] [] = true
same_codes (c ∷ cs) (d ∷ ds) = c == d && same_codes cs ds
same_codes _ _ = false

-- `reservedVersions.has(version.toLowerCase())`
unfoldable pub is_reserved_version : String → Bool
unfolding same_codes codes
is_reserved_version s =
    let lower = map to_lower (codes s) in
    same_codes lower (codes "latest")
    || same_codes lower (codes "default")
    || same_codes lower (codes "current")

unfoldable pub assert_workflow_version : String → Checked
assert_workflow_version version =
    check (stable_identity version && not (is_reserved_version version)) invalid_workflow_version

unfoldable pub assert_workflow_name : String → Checked
assert_workflow_name name = check (stable_identity name) type_error

unfoldable pub assert_expected_revision : ℕ → Checked
assert_expected_revision value = check (leb value max_safe_integer) type_error

unfoldable pub assert_lease_token : String → Checked
assert_lease_token token =
    check (not (str_eq token "") && leb (utf16_length token) max_opaque_text) type_error

unfoldable pub assert_store_timestamp : ℕ → Checked
assert_store_timestamp value = check (leb value max_timestamp) type_error

unfoldable pub assert_lease_arguments : ℕ → String → ℕ → ℕ → Checked
unfolding assert_expected_revision assert_lease_token assert_store_timestamp
assert_lease_arguments expected_revision token now expires_at =
    and_then (assert_expected_revision expected_revision) (
      and_then (assert_lease_token token) (
        and_then (assert_store_timestamp now)
          (and_then (assert_store_timestamp expires_at) (check (ltb now expires_at) type_error))))

identity_tests :
    (stable_identity "order-v1.2" ≡ true)
    × (stable_identity "-x" ≡ false)
    × (stable_identity "" ≡ false)
    × (is_reserved_version "LATEST" ≡ true)
unfolding stable_identity is_reserved_version
identity_tests = (refl, refl, refl, refl)
