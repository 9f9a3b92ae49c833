-- ===== src/Migrations/Sql.antt =====
-- packages/migrations/src/index.ts: `splitSqlStatements`, over the code points of a script. A
-- letter, digit or mark of Unicode beyond ASCII is a parameter: `is_letter` answers for the code
-- points of one UTF-16 unit, since the pattern sees single units and no half of a pair is a letter.
pub mod Tokens
pub mod Scanning
pub mod Steps
pub mod Split
pub mod Roundtrip
use nuxt_laravelize.Common.Text.{is_space, codes}
use nuxt_laravelize.Common.Exec.{Result, ok, throw, and_then}
use nuxt_laravelize.Common.{
  zero, suc, ◌+◌, ◌-◌, String, Bool, true, false, not, ◌&&◌, ◌||◌, List, [], ◌∷◌, ◌++◌, map, ltb,
  leb, ◌==◌, if◌then◌else◌, length, ℕ,
}
use mathlib.Core.List.{reverse}

pub data SqlScriptState : Type 0 where
  normal single_quote double_quote backtick bracket line_comment block_comment : SqlScriptState

pub data SqlError : Type 0 where
  malformed_trigger unterminated_trigger : SqlError
  unterminated : SqlScriptState → SqlError

-- The variables of the loop. `current` is the script from `start` to the index.
pub record Scan : Type 0 where
  pub statements : List (List ℕ)
  pub state : SqlScriptState
  pub current : List ℕ
  pub has_code : Bool
  pub leading_words : List (List ℕ)
  pub create_trigger : Bool
  pub body_started : Bool
  pub body_ended : Bool
  pub case_depth : ℕ

abbrev pub first_scan : Scan
first_scan = record {
  statements = [];
  state = normal;
  current = [];
  has_code = false;
  leading_words = [];
  create_trigger = false;
  body_started = false;
  body_ended = false;
  case_depth = 0;
}

unfoldable pub drop_spaces : List ℕ → List ℕ
drop_spaces [] = []
drop_spaces (c ∷ cs) = let rest = drop_spaces cs in if is_space c then rest else c ∷ cs

-- `String.prototype.trim`
unfoldable pub trim : List ℕ → List ℕ
unfolding drop_spaces
trim cs = reverse (drop_spaces (reverse (drop_spaces cs)))

is_ascii_letter : ℕ → Bool
is_ascii_letter c = leb b'a' c && leb c b'z' || leb b'A' c && leb c b'Z'

-- `/[A-Za-z_]/u`
unfoldable pub starts_word : ℕ → Bool
unfolding is_ascii_letter
starts_word c = is_ascii_letter c || c == b'_'

-- `/[\p{L}\p{N}\p{M}_$]/u`
unfoldable pub is_word_char : (is_letter : ℕ → Bool) → ℕ → Bool
unfolding is_ascii_letter
is_word_char is_letter c =
    if ltb c 128
    then is_ascii_letter c || leb b'0' c && leb c b'9' || c == b'_' || c == b'$'
    else leb c 0xffff && is_letter c

-- The word that goes on from here.
unfoldable pub word_rest : (is_letter : ℕ → Bool) → List ℕ → List ℕ
word_rest is_letter [] = []
word_rest is_letter (c ∷ cs) =
    let rest = word_rest is_letter cs in if is_word_char is_letter c then c ∷ rest else []

-- `toUpperCase`, as far as a comparison with an ASCII word tells: beyond ASCII only the dotless i
-- and the long s become an ASCII letter alone.
unfoldable pub upper : ℕ → ℕ
upper c =
    if leb b'a' c && leb c b'z'
    then c - 32
    else if c == 0x131
    then b'I'
    else if c == 0x17f
    then b'S'
    else c

unfoldable pub same_word : List ℕ → List ℕ → Bool
same_word [] [] = true
same_word (c ∷ cs) (d ∷ ds) = c == d && same_word cs ds
same_word _ _ = false

module _ (word : List ℕ) where
  unfoldable pub is_keyword : String → Bool
  unfolding same_word codes
  is_keyword text = same_word word (codes text)

abbrev nth_word : List (List ℕ) → ℕ → List ℕ
nth_word [] i = []
nth_word (w ∷ ws) zero = w
nth_word (w ∷ ws) (suc i) = nth_word ws i

-- Whether the leading words begin a trigger.
unfoldable pub begins_trigger : List (List ℕ) → Bool
begins_trigger words =
    is_keyword (nth_word words 0) "CREATE"
    && (is_keyword (nth_word words 1) "TRIGGER"
        || (is_keyword (nth_word words 1) "TEMP" || is_keyword (nth_word words 1) "TEMPORARY")
          && is_keyword (nth_word words 2) "TRIGGER")

-- The body of a trigger at a word.
unfoldable pub in_trigger : (word : List ℕ) → Scan → Scan
in_trigger word s =
    if not s.body_started && is_keyword word "BEGIN"
    then record s { body_started = true }
    else if s.body_started && is_keyword word "CASE"
    then record s { case_depth = s.case_depth + 1 }
    else if s.body_started && is_keyword word "END"
    then (if ltb 0 s.case_depth
        then record s { case_depth = s.case_depth - 1 }
        else record s { body_ended = true })
    else s

unfoldable pub take_word : (word : List ℕ) → Scan → Scan
take_word word s =
    let words =
      if ltb (length s.leading_words) 3 then s.leading_words ++ (word ∷ []) else s.leading_words in
    let trigger = s.create_trigger || begins_trigger words in
    let noted : Scan = record s {
      leading_words = words;
      create_trigger = trigger;
      has_code = true;
    } in
    if trigger then in_trigger word noted else noted

-- The statement that a semicolon ends; the index is on it.
unfoldable pub end_statement : Scan → Result SqlError Scan
end_statement s =
    if s.create_trigger && (not s.body_started || not s.body_ended)
    then (if not s.body_started then throw malformed_trigger else ok s)
    else ok (record first_scan {
      statements = if s.has_code then s.statements ++ (trim s.current ∷ []) else s.statements;
    })

abbrev head_is : ℕ → List ℕ → Bool
head_is c [] = false
head_is c (d ∷ ds) = d == c

-- A quoted part, up to its delimiter; how many characters are skipped behind this one.
unfoldable pub quoted : (delimiter c : ℕ) → (rest : List ℕ) → Scan → Scan × ℕ
quoted delimiter c rest s =
    if c == delimiter && head_is delimiter rest
    then (s, 1)
    else if c == delimiter
    then (record s { state = normal }, 0)
    else (s, 0)

abbrev opens : SqlScriptState → Scan → Scan
opens state s = record s { state = state; has_code = true }

-- A character outside quotes and comments, which is already in `current`.
unfoldable pub normal_char :
    (is_letter : ℕ → Bool) → (c : ℕ) → (rest : List ℕ) → Scan → Result SqlError (Scan × ℕ)
normal_char is_letter c rest s =
    if starts_word c
    then (let word = c ∷ word_rest is_letter rest in
        ok (take_word (map upper word) s, length (word_rest is_letter rest)))
    else if c == b'-' && head_is b'-' rest
    then ok (record s { state = line_comment }, 1)
    else if c == b'/' && head_is b'*' rest
    then ok (record s { state = block_comment }, 1)
    else if c == 39
    then ok (opens single_quote s, 0)
    else if c == 34
    then ok (opens double_quote s, 0)
    else if c == b'`'
    then ok (opens backtick s, 0)
    else if c == b'['
    then ok (opens bracket s, 0)
    else if c == b';'
    then (and_then (end_statement s) λ s'. ok (s', 0))
    else if is_space c
    then ok (s, 0)
    else ok (record s { has_code = true }, 0)

-- The body of the loop at one character.
unfoldable pub scan_char :
    (is_letter : ℕ → Bool)
    → (c : ℕ) → (rest : List ℕ) → SqlScriptState
    → Scan
    → Result SqlError (Scan × ℕ)
scan_char is_letter c rest normal s = normal_char is_letter c rest s
scan_char is_letter c rest single_quote s = ok (quoted 39 c rest s)
scan_char is_letter c rest double_quote s = ok (quoted 34 c rest s)
scan_char is_letter c rest backtick s = ok (quoted b'`' c rest s)
scan_char is_letter c rest bracket s = ok (quoted b']' c rest s)
scan_char is_letter c rest line_comment s =
    ok (if c == 10 then record s { state = normal } else s, 0)
scan_char is_letter c rest block_comment s =
    if c == b'*' && head_is b'/' rest then ok (record s { state = normal }, 1) else ok (s, 0)

abbrev with_char : ℕ → Scan → Scan
with_char c s = record s { current = s.current ++ (c ∷ []) }

-- The loop; `skip` characters are passed over.
unfoldable pub scan_script :
    (is_letter : ℕ → Bool) → (script : List ℕ) → (skip : ℕ) → Scan → Result SqlError Scan
scan_script is_letter [] skip s = ok s
scan_script is_letter (c ∷ cs) (suc skip) s = scan_script is_letter cs skip (with_char c s)
scan_script is_letter (c ∷ cs) zero s =
    and_then (scan_char is_letter c cs s.state (with_char c s))
      λ (r : Scan × ℕ). scan_script is_letter cs r.1 r.0

-- What follows the loop.
unfoldable pub end_script : SqlScriptState → Scan → Result SqlError (List (List ℕ))
end_script normal s =
    if s.create_trigger
    then throw unterminated_trigger
    else ok (if s.has_code then s.statements ++ (trim s.current ∷ []) else s.statements)
end_script line_comment s =
    if s.create_trigger
    then throw unterminated_trigger
    else ok (if s.has_code then s.statements ++ (trim s.current ∷ []) else s.statements)
end_script state s = throw (unterminated state)

unfoldable pub split_sql_statements :
    (is_letter : ℕ → Bool) → (script : List ℕ) → Result SqlError (List (List ℕ))
split_sql_statements is_letter script =
    and_then (scan_script is_letter script 0 first_scan) λ s. end_script s.state s
