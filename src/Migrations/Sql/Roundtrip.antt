-- ===== src/Migrations/Sql/Roundtrip.antt =====
-- packages/migrations/src/index.ts: `splitSqlStatements` takes a script apart into its statements.
use nuxt_laravelize.Common.{
  ◌≡◌, refl, sym, ap, ◌∙◌, Bool, true, false, ◌||◌, [], ◌∷◌, ◌++◌, map, arith, all, ℕ, List,
}
use nuxt_laravelize.Migrations.Sql.Steps.{IsOpen, after, first_word, word_parts}
use nuxt_laravelize.Common.Text.{is_space, codes}
use nuxt_laravelize.Migrations.Sql.{
  first_scan, trim, starts_word, upper, end_statement, normal_char, scan_char, scan_script, Scan,
  drop_spaces, is_keyword, end_script, split_sql_statements,
}
use nuxt_laravelize.Migrations.Sql.Tokens.{
  escape, print, print_all, is_token, is_code, Token, name, tick, box, word, symbol, quote, line,
  block, is_statement, statement_text, Quote, script_text,
}
use nuxt_laravelize.Migrations.Sql.Split.{token_lem}
use mathlib.Core.List.{append-nil, append_assoc, reverse, reverse-append, reverse-reverse}
use nuxt_laravelize.Common.Exec.{ok}

module _ (is_letter : ℕ → Bool) where
  after-IsOpen :
      (t : Token) (s : Scan) → is_token is_letter t ≡ true → IsOpen s → IsOpen (after is_letter t s)
  after-IsOpen (symbol c) s h opened = (refl, opened.1, opened.2)
  after-IsOpen (word c cs) s h opened =
      let (starts, letters, other) = word_parts is_letter c cs h in
      (refl, opened.1, first_word (map upper (c ∷ cs)) s.leading_words other opened.2)
  after-IsOpen (quote q cs) s h opened = (refl, opened.1, opened.2)
  after-IsOpen (line cs) s h opened = (refl, opened.1, opened.2)
  after-IsOpen (block cs) s h opened = (refl, opened.1, opened.2)

  after-current : (t : Token) (s : Scan) → (after is_letter t s).current ≡ s.current ++ print t
  unfolding print
  after-current (symbol c) s = refl
  after-current (word c cs) s = refl
  after-current (quote q cs) s = refl
  after-current (line cs) s = refl
  after-current (block cs) s = refl

  after-statements : (t : Token) (s : Scan) → (after is_letter t s).statements ≡ s.statements
  after-statements (symbol c) s = refl
  after-statements (word c cs) s = refl
  after-statements (quote q cs) s = refl
  after-statements (line cs) s = refl
  after-statements (block cs) s = refl

  after-has_code :
      (t : Token) (s : Scan)
      → (s.has_code || is_code t) ≡ true
      → (after is_letter t s).has_code ≡ true
  after-has_code (symbol c) s h = h
  after-has_code (word c cs) s h = refl
  after-has_code (quote q cs) s h = refl
  after-has_code (line cs) s h = ground (arith, h)
  after-has_code (block cs) s h = ground (arith, h)

  -- The scan behind some tokens: what it has collected.
  IsRead : (text : List ℕ) (s s' : Scan) → Type 0
  IsRead text s s' =
      IsOpen s'
      × (s'.statements ≡ s.statements)
      × (s'.current ≡ s.current ++ text)
      × (s.has_code ≡ true → s'.has_code ≡ true)

  tokens_lem :
      (ts : List Token) (rest : List ℕ) (s : Scan)
      → all (is_token is_letter) ts ≡ true
      → IsOpen s
      → (s' : Scan) × (scan_script is_letter (print_all ts ++ rest) 0 s
          ≡ scan_script is_letter rest 0 s')
        × IsRead (print_all ts) s s'
  unfolding print_all IsRead
  tokens_lem [] rest s h opened =
      (s, refl, (opened, refl, sym (append-nil s.current), λ code. code))
  tokens_lem (t ∷ ts) rest s h opened =
      let valid : is_token is_letter t ≡ true = ground (arith, h) in
      let (s', scanned, (opened', statements', current', code')) =
        tokens_lem ts rest (after is_letter t s) (ground (arith, h))
          (after-IsOpen t s valid opened) in
      (
        s',
        ap (λ (x : List ℕ). scan_script is_letter x 0 s)
              (append_assoc (print t) (print_all ts) rest)
            ∙ token_lem is_letter t (print_all ts ++ rest) s valid opened
            ∙ scanned,
        (
          opened',
          statements' ∙ after-statements t s,
          current'
              ∙ ap (λ (x : List ℕ). x ++ print_all ts) (after-current t s)
              ∙ append_assoc s.current (print t) (print_all ts),
          λ code. code' (after-has_code t s (ground (arith, code))),
        ),
      )

  semicolon_lem :
      (rest : List ℕ) (s : Scan)
      → IsOpen s
      → s.has_code ≡ true
      → scan_script is_letter (b';' ∷ rest) 0 s
        ≡ scan_script is_letter rest 0 (record first_scan {
          statements = s.statements ++ (trim (s.current ++ (b';' ∷ [])) ∷ []);
        })
  unfolding scan_script scan_char normal_char starts_word end_statement
  semicolon_lem rest s (at_normal, no_trigger, at_first) code =
      ground (arith, at_normal, no_trigger, code)

  code_first :
      (t : Token)
      → is_token is_letter t ≡ true
      → is_code t ≡ true
      → (c : ℕ) × (cs : List ℕ) × (is_space c ≡ false) × (print t ≡ c ∷ cs)
  unfolding print is_token starts_word is_space
  code_first (symbol c) h code = (c, [], ground (arith, code), refl)
  code_first (word c cs) h code = (c, cs ++ (32 ∷ []), ground (arith, h), refl)
  code_first (quote Quote.text cs) h code = (39, escape Quote.text cs ++ (39 ∷ 32 ∷ []), refl, refl)
  code_first (quote name cs) h code = (34, escape name cs ++ (34 ∷ 32 ∷ []), refl, refl)
  code_first (quote tick cs) h code = (b'`', escape tick cs ++ (b'`' ∷ 32 ∷ []), refl, refl)
  code_first (quote box cs) h code = (b'[', escape box cs ++ (b']' ∷ 32 ∷ []), refl, refl)
  code_first (line cs) h code = absurd (ground (arith, code))
  code_first (block cs) h code = absurd (ground (arith, code))

  drop_none : (c : ℕ) (cs : List ℕ) → is_space c ≡ false → drop_spaces (c ∷ cs) ≡ c ∷ cs
  unfolding drop_spaces
  drop_none c cs h = ground (arith, h)

  semicolon_solid : is_space b';' ≡ false
  unfolding is_space
  semicolon_solid = refl

  trim_lem :
      (c : ℕ) (cs : List ℕ)
      → is_space c ≡ false
      → trim (c ∷ cs ++ (b';' ∷ [])) ≡ c ∷ cs ++ (b';' ∷ [])
  unfolding trim
  trim_lem c cs h =
      let text : List ℕ = c ∷ cs ++ (b';' ∷ []) in
      let back : reverse text ≡ b';' ∷ reverse (c ∷ cs) = reverse-append (c ∷ cs) (b';' ∷ []) in
      ap (λ x. reverse (drop_spaces (reverse x))) (drop_none c (cs ++ (b';' ∷ [])) h)
      ∙ ap (λ x. reverse (drop_spaces x)) back
      ∙ ap reverse (drop_none b';' (reverse (c ∷ cs)) semicolon_solid)
      ∙ ap reverse (sym back)
      ∙ reverse-reverse text

  abbrev between : List (List ℕ) → Scan
  between statements = record first_scan { statements = statements }

  between-IsOpen : (statements : List (List ℕ)) → IsOpen (between statements)
  unfolding is_keyword codes
  between-IsOpen statements = (refl, refl, refl)

  statement_lem :
      (ts : List Token) (rest : List ℕ) (done : List (List ℕ))
      → is_statement is_letter ts ≡ true
      → scan_script is_letter (statement_text ts ++ rest) 0 (between done)
        ≡ scan_script is_letter rest 0 (between (done ++ (statement_text ts ∷ [])))
  unfolding is_statement IsRead print_all
  statement_lem [] rest done h = absurd (ground (arith, h))
  statement_lem (t ∷ ts) rest done h =
      let code : is_code t ≡ true = ground (arith, h) in
      let valid : is_token is_letter t ≡ true = ground (arith, h) in
      let start = between done in
      let opened = after-IsOpen t start valid (between-IsOpen done) in
      let (s', scanned, (opened', statements', current', code')) =
        tokens_lem ts (b';' ∷ rest) (after is_letter t start) (ground (arith, h)) opened in
      let (c, cs, solid, printed) = code_first t valid code in
      let text : List ℕ = print t ++ print_all ts in
      let trimmed : trim (text ++ (b';' ∷ [])) ≡ text ++ (b';' ∷ []) =
        rw printed (trim_lem c (cs ++ print_all ts) solid) in
      let read : s'.current ≡ text =
        current' ∙ ap (λ (x : List ℕ). x ++ print_all ts) (after-current t start) in
      ap (λ (x : List ℕ). scan_script is_letter x 0 start)
        (append_assoc text (b';' ∷ []) rest ∙ append_assoc (print t) (print_all ts) (b';' ∷ rest))
      ∙ token_lem is_letter t (print_all ts ++ (b';' ∷ rest)) start valid (between-IsOpen done)
      ∙ scanned
      ∙ semicolon_lem rest s' opened' (code' (after-has_code t start (ground (arith, code))))
      ∙ ap
          (λ (x : List (List ℕ)).
            scan_script is_letter rest 0 (between (x ++ (trim (s'.current ++ (b';' ∷ [])) ∷ []))))
          (statements' ∙ after-statements t start)
      ∙ ap (λ (x : List ℕ). scan_script is_letter rest 0 (between (done ++ (x ∷ []))))
          (ap (λ (x : List ℕ). trim (x ++ (b';' ∷ []))) read ∙ trimmed)

  script_lem :
      (sts : List (List Token)) (done : List (List ℕ))
      → all (is_statement is_letter) sts ≡ true
      → scan_script is_letter (script_text sts) 0 (between done)
        ≡ ok (between (done ++ map statement_text sts))
  unfolding script_text scan_script
  script_lem [] done h = ap (λ (x : List (List ℕ)). ok (between x)) (sym (append-nil done))
  script_lem (ts ∷ sts) done h =
      statement_lem ts (script_text sts) done (ground (arith, h))
      ∙ script_lem sts (done ++ (statement_text ts ∷ [])) (ground (arith, h))
      ∙ ap (λ (x : List (List ℕ)). ok (between x))
          (append_assoc done (statement_text ts ∷ []) (map statement_text sts))

  -- If a script is written from statements that each begin with a word, a symbol or a quoted text,
  -- are made of words other than CREATE, symbols, quoted texts and comments, and end with a
  -- semicolon, then splitting it returns exactly these statements.
  pub split_sql_statements-script_text :
      (statements : List (List Token))
      → all (is_statement is_letter) statements ≡ true
      → split_sql_statements is_letter (script_text statements) ≡ ok (map statement_text statements)
  unfolding split_sql_statements end_script
  split_sql_statements-script_text sts h = ground (arith, script_lem sts [] h)
