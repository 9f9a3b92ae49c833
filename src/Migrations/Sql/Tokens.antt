-- ===== src/Migrations/Sql/Tokens.antt =====
-- packages/migrations/src/index.ts: scripts for `splitSqlStatements`, made of words, symbols, quoted
-- texts and comments.
use nuxt_laravelize.Common.{
  ℕ, Bool, true, false, not, ◌&&◌, ◌||◌, List, [], ◌∷◌, ◌++◌, map, ◌==◌, if◌then◌else◌, all,
}
use nuxt_laravelize.Migrations.Sql.{
  SqlScriptState, single_quote, double_quote, backtick, bracket, starts_word, is_word_char,
  is_keyword, upper,
}
use nuxt_laravelize.Common.Text.{is_space}

pub data Quote : Type 0 where
  text name tick box : Quote

abbrev pub opening : Quote → ℕ
opening text = 39
opening name = 34
opening tick = b'`'
opening box = b'['

abbrev pub closing : Quote → ℕ
closing text = 39
closing name = 34
closing tick = b'`'
closing box = b']'

abbrev pub state_in : Quote → SqlScriptState
state_in text = single_quote
state_in name = double_quote
state_in tick = backtick
state_in box = bracket

-- A text between quotes, where the closing one is doubled.
unfoldable pub escape : Quote → List ℕ → List ℕ
escape q [] = []
escape q (c ∷ cs) = let rest = escape q cs in if c == closing q then c ∷ c ∷ rest else c ∷ rest

-- A word, a quoted text and a line comment end with a space or a line feed.
pub data Token : Type 0 where
  word : (first : ℕ) → (more : List ℕ) → Token
  symbol : ℕ → Token
  quote : Quote → List ℕ → Token
  line : List ℕ → Token
  block : List ℕ → Token

unfoldable pub print : Token → List ℕ
print (word c cs) = c ∷ cs ++ (32 ∷ [])
print (symbol c) = c ∷ []
print (quote q cs) = opening q ∷ escape q cs ++ (closing q ∷ 32 ∷ [])
print (line cs) = b'-' ∷ b'-' ∷ cs ++ (10 ∷ [])
print (block cs) = b'/' ∷ b'*' ∷ cs ++ (b'*' ∷ b'/' ∷ [])

unfoldable pub print_all : List Token → List ℕ
print_all [] = []
print_all (t ∷ ts) = print t ++ print_all ts

abbrev pub opens_other : ℕ → Bool
opens_other c = c == b'-' || c == b'/' || c == 39 || c == 34 || c == b'`' || c == b'[' || c == b';'

-- No word is CREATE, a symbol opens nothing and ends no statement, and a comment does not end within.
unfoldable pub is_token : (is_letter : ℕ → Bool) → Token → Bool
is_token is_letter (word c cs) =
    starts_word c
    && (all (is_word_char is_letter) cs && not (is_keyword (map upper (c ∷ cs)) "CREATE"))
is_token is_letter (symbol c) = not (starts_word c) && not (opens_other c)
is_token is_letter (quote q cs) = true
is_token is_letter (line cs) = all (λ c. not (c == 10)) cs
is_token is_letter (block cs) = all (λ c. not (c == b'*')) cs

-- What a statement begins with.
abbrev pub is_code : Token → Bool
is_code (word c cs) = true
is_code (symbol c) = not (is_space c)
is_code (quote q cs) = true
is_code _ = false

unfoldable pub is_statement : (is_letter : ℕ → Bool) → List Token → Bool
is_statement is_letter [] = false
is_statement is_letter (t ∷ ts) = is_code t && all (is_token is_letter) (t ∷ ts)

abbrev pub statement_text : List Token → List ℕ
statement_text ts = print_all ts ++ (b';' ∷ [])

unfoldable pub script_text : List (List Token) → List ℕ
script_text [] = []
script_text (ts ∷ sts) = statement_text ts ++ script_text sts
