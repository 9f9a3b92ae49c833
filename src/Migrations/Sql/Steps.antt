-- ===== src/Migrations/Sql/Steps.antt =====
-- packages/migrations/src/index.ts: a round of the loop of `splitSqlStatements` per token.
-- Between two tokens, where the statement does not begin with CREATE.
use nuxt_laravelize.Common.{
  ℕ, ◌≡◌, Bool, true, false, not, ◌||◌, List, [], ◌∷◌, ◌++◌, map, arith, ltb, ◌==◌, if◌then◌else◌,
  length, all, ap, ◌∙◌, refl,
}
use nuxt_laravelize.Migrations.Sql.Tokens.{
  text, state_in, print, is_token, Quote, Token, name, tick, box, word, symbol, quote, line, block,
  opening,
}
use nuxt_laravelize.Migrations.Sql.Scanning.{advance, leave, leave-leave, skip_lem, word_rest_lem}
use nuxt_laravelize.Common.Text.{is_space}
use nuxt_laravelize.Migrations.Sql.{
  starts_word, upper, is_keyword, begins_trigger, take_word, normal_char, scan_char, scan_script,
  Scan, normal, line_comment, block_comment, nth_word, is_word_char,
}
use mathlib.Core.List.{append_assoc}

abbrev pub IsOpen : Scan → Type 0
IsOpen s =
    (s.state ≡ normal)
    × (s.create_trigger ≡ false)
    × (is_keyword (nth_word s.leading_words 0) "CREATE" ≡ false)

abbrev pub words_with : List ℕ → List (List ℕ) → List (List ℕ)
words_with w ws = if ltb (length ws) 3 then ws ++ (w ∷ []) else ws

pub first_word :
    (w : List ℕ) (ws : List (List ℕ))
    → is_keyword w "CREATE" ≡ false
    → is_keyword (nth_word ws 0) "CREATE" ≡ false
    → is_keyword (nth_word (words_with w ws) 0) "CREATE" ≡ false
first_word w [] h at_first = h
first_word w (v ∷ ws) h at_first = ground (arith, at_first)

take_word_open :
    (w : List ℕ) (s : Scan)
    → is_keyword w "CREATE" ≡ false
    → IsOpen s
    → take_word w s ≡ record s { leading_words = words_with w s.leading_words; has_code = true }
unfolding take_word begins_trigger
take_word_open w s h (at_normal, no_trigger, at_first) =
    ground (arith, no_trigger, first_word w s.leading_words h at_first)

module _ (is_letter : ℕ → Bool) where
  abbrev pub after : Token → Scan → Scan
  after (word c cs) s = record (leave is_letter (print (word c cs)) s) {
    leading_words = words_with (map upper (c ∷ cs)) s.leading_words;
    has_code = true;
  }
  after (symbol c) s = record (leave is_letter (c ∷ []) s) {
    has_code = s.has_code || not (is_space c);
  }
  after (quote q cs) s = record (leave is_letter (print (quote q cs)) s) { has_code = true }
  after (line cs) s = leave is_letter (print (line cs)) s
  after (block cs) s = leave is_letter (print (block cs)) s

  pub symbol_lem :
      (c : ℕ) (rest : List ℕ) (s : Scan)
      → is_token is_letter (symbol c) ≡ true
      → s.state ≡ normal
      → scan_script is_letter (c ∷ rest) 0 s ≡ scan_script is_letter rest 0 (after (symbol c) s)
  unfolding scan_script scan_char normal_char is_token
  symbol_lem c rest s h at_normal = ground (arith, h, at_normal)

  pub open_quote :
      (q : Quote) (rest : List ℕ) (s : Scan)
      → s.state ≡ normal
      → scan_script is_letter (opening q ∷ rest) 0 s
        ≡ scan_script is_letter rest 0
            (record (advance is_letter (opening q ∷ []) s) { state = state_in q; has_code = true })
  unfolding scan_script scan_char normal_char starts_word
  open_quote text rest s h = ground (arith, h)
  open_quote name rest s h = ground (arith, h)
  open_quote tick rest s h = ground (arith, h)
  open_quote box rest s h = ground (arith, h)

  pub line_lem :
      (cs rest : List ℕ) (s : Scan)
      → s.state ≡ line_comment
      → all (λ c. not (c == 10)) cs ≡ true
      → scan_script is_letter (cs ++ (10 ∷ rest)) 0 s
        ≡ scan_script is_letter rest 0 (leave is_letter (cs ++ (10 ∷ [])) s)
  unfolding scan_script scan_char
  line_lem [] rest s h free = ground (arith, h)
  line_lem (c ∷ cs) rest s h free =
      let moved = advance is_letter (c ∷ []) s in
      ground (
        arith,
        h,
        free,
        line_lem cs rest moved h,
        ap (scan_script is_letter rest 0) (leave-leave is_letter (c ∷ []) (cs ++ (10 ∷ [])) s),
      )

  pub block_lem :
      (cs rest : List ℕ) (s : Scan)
      → s.state ≡ block_comment
      → all (λ c. not (c == b'*')) cs ≡ true
      → scan_script is_letter (cs ++ (b'*' ∷ b'/' ∷ rest)) 0 s
        ≡ scan_script is_letter rest 0 (leave is_letter (cs ++ (b'*' ∷ b'/' ∷ [])) s)
  unfolding scan_script scan_char
  block_lem [] rest s h free =
      ground (arith, h)
      ∙ ap (scan_script is_letter rest 0) (leave-leave is_letter (b'*' ∷ []) (b'/' ∷ []) s)
  block_lem (c ∷ cs) rest s h free =
      let moved = advance is_letter (c ∷ []) s in
      ground (
        arith,
        h,
        free,
        block_lem cs rest moved h,
        ap (scan_script is_letter rest 0)
            (leave-leave is_letter (c ∷ []) (cs ++ (b'*' ∷ b'/' ∷ [])) s),
      )

  pub line_free :
      (cs : List ℕ) → is_token is_letter (line cs) ≡ true → all (λ c. not (c == 10)) cs ≡ true
  unfolding is_token
  line_free cs h = h

  pub block_free :
      (cs : List ℕ) → is_token is_letter (block cs) ≡ true → all (λ c. not (c == b'*')) cs ≡ true
  unfolding is_token
  block_free cs h = h

  pub word_parts :
      (c : ℕ) (cs : List ℕ)
      → is_token is_letter (word c cs) ≡ true
      → (starts_word c ≡ true)
        × (all (is_word_char is_letter) cs ≡ true)
        × (is_keyword (map upper (c ∷ cs)) "CREATE" ≡ false)
  unfolding is_token
  word_parts c cs h = (ground (arith, h), ground (arith, h), ground (arith, h))

  abbrev taken : ℕ → List ℕ → Scan → Scan
  taken c cs s = record (advance is_letter (c ∷ []) s) {
    leading_words = words_with (map upper (c ∷ cs)) s.leading_words;
    has_code = true;
  }

  take_lem :
      (c : ℕ) (cs rest : List ℕ) (s : Scan)
      → is_token is_letter (word c cs) ≡ true
      → IsOpen s
      → scan_script is_letter (c ∷ cs ++ (32 ∷ rest)) 0 s
        ≡ scan_script is_letter (cs ++ (32 ∷ rest)) (length cs) (taken c cs s)
  unfolding scan_script scan_char normal_char
  take_lem c cs rest s h opened =
      let (starts, letters, other) = word_parts c cs h in
      let word_taken =
        take_word_open (map upper (c ∷ cs)) (advance is_letter (c ∷ []) s) other opened in
      ground (arith, opened.0, starts, word_rest_lem is_letter cs rest letters, word_taken)

  space_IsToken : is_token is_letter (symbol 32) ≡ true
  unfolding is_token starts_word
  space_IsToken = refl

  -- A word, from its first character, with the space behind it.
  pub word_lem :
      (c : ℕ) (cs rest : List ℕ) (s : Scan)
      → is_token is_letter (word c cs) ≡ true
      → IsOpen s
      → scan_script is_letter (c ∷ cs ++ (32 ∷ rest)) 0 s
        ≡ scan_script is_letter rest 0 (after (word c cs) s)
  unfolding print
  word_lem c cs rest s h opened =
      take_lem c cs rest s h opened
      ∙ skip_lem is_letter cs (32 ∷ rest) (taken c cs s)
      ∙ symbol_lem 32 rest (advance is_letter cs (taken c cs s)) space_IsToken opened.0
      ∙ ap
          (λ (x : List ℕ).
            scan_script is_letter rest 0 (record (after (word c cs) s) { current = x }))
          (append_assoc (s.current ++ (c ∷ [])) cs (32 ∷ [])
            ∙ append_assoc s.current (c ∷ []) (cs ++ (32 ∷ [])))
