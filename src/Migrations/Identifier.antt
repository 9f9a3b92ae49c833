-- ===== src/Migrations/Identifier.antt =====
-- packages/migrations/src/index.ts: the names of migrations, `defineMigration` and `defineSource`.
use Prim.Native.String
use nuxt_laravelize.Common.Text.{codes}
use nuxt_laravelize.Common.Exec.{Result, ok, throw}
use nuxt_laravelize.Migrations.{
  Dialect, MigrationError, Migration, MigrationSource, invalid_part, invalid_checksum,
  invalid_dependency, invalid_dialects, Checked,
}
use nuxt_laravelize.Common.{
  String, Bool, true, false, not, ◌&&◌, ◌||◌, Option, none, some, List, [], ◌∷◌, ◌++◌, leb, ◌==◌,
  if◌then◌else◌, length, all, ℕ,
}

is_letter : ℕ → Bool
is_letter c = leb b'a' c && leb c b'z' || leb b'A' c && leb c b'Z'

is_digit : ℕ → Bool
is_digit c = leb b'0' c && leb c b'9'

-- `[\w.-]`
unfoldable pub is_part_char : ℕ → Bool
unfolding is_letter is_digit
is_part_char c = is_letter c || is_digit c || c == b'_' || c == b'.' || c == b'-'

-- `PART.test(value)`, on the code points of the value.
unfoldable pub is_part : List ℕ → Bool
unfolding is_letter is_digit is_part_char
is_part [] = false
is_part (c ∷ cs) = (is_letter c || is_digit c) && leb (length cs) 127 && all is_part_char cs

-- `CHECKSUM.test(value)`
unfoldable pub is_checksum : List ℕ → Bool
is_checksum cs =
    leb 1 (length cs) && leb (length cs) 256 && all (λ (c : ℕ). leb 0x21 c && leb c 0x7e) cs

-- `value.split(':')`
unfoldable pub split_colon : (word rest : List ℕ) → List (List ℕ)
split_colon word [] = word ∷ []
split_colon word (c ∷ cs) =
    let more = word ∷ split_colon [] cs in
    let same = split_colon (word ++ (c ∷ [])) cs in if c == b':' then more else same

two_parts : List (List ℕ) → Bool
two_parts (a ∷ b ∷ []) = is_part a && is_part b
two_parts _ = false

unfoldable pub is_migration_id : String → Bool
unfolding split_colon two_parts is_part
is_migration_id value = two_parts (split_colon [] (codes value))

unfoldable pub assert_part : String → Checked
assert_part value = if is_part (codes value) then ok tt else throw invalid_part

unfoldable pub migration_id : (namespace name : String) → Result MigrationError String
migration_id namespace name =
    if not (is_part (codes namespace))
    then throw invalid_part
    else if not (is_part (codes name))
    then throw invalid_part
    else ok (String.◌++◌ namespace (String.◌++◌ ":" name))

abbrev ids_valid : Option (List String) → Bool
ids_valid none = true
ids_valid (some ids) = all is_migration_id ids

-- A list of dialects has only the two that there are.
abbrev dialects_valid : Option (List Dialect) → Bool
dialects_valid none = true
dialects_valid (some []) = false
dialects_valid (some (d ∷ ds)) = true

-- The migration is returned as it is. The handlers are handlers by their type.
unfoldable pub define_migration : Migration → Result MigrationError Migration
define_migration migration =
    if not (is_part (codes migration.name))
    then throw invalid_part
    else if not (is_checksum (codes migration.checksum))
    then throw invalid_checksum
    else if not (ids_valid migration.depends_on)
    then throw invalid_dependency
    else if not (dialects_valid migration.dialects)
    then throw invalid_dialects
    else ok migration

unfoldable pub define_source :
    (namespace : String) → List Migration → Result MigrationError MigrationSource
define_source namespace migrations =
    if is_part (codes namespace)
    then ok (record { namespace = namespace; migrations = migrations })
    else throw invalid_part
