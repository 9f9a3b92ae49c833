-- ===== src/Migrations/Sql/Split.antt =====
-- packages/migrations/src/index.ts: `splitSqlStatements` on a script of statements.
use nuxt_laravelize.Common.{◌≡◌, refl, ap, ◌∙◌, Bool, true, [], ◌∷◌, ◌++◌, arith, ℕ, List}
use nuxt_laravelize.Migrations.Sql.Steps.{
  IsOpen, after, symbol_lem, line_lem, block_lem, line_free, block_free, word_lem, open_quote,
}
use nuxt_laravelize.Migrations.Sql.Scanning.{advance, quoted_lem}
use nuxt_laravelize.Migrations.Sql.{
  starts_word, normal_char, scan_char, scan_script, Scan, normal, line_comment, block_comment,
}
use nuxt_laravelize.Migrations.Sql.Tokens.{
  closing, state_in, escape, print, is_token, Token, word, symbol, quote, line, block, opening,
}
use mathlib.Core.List.{append_assoc}

module _ (is_letter : ℕ → Bool) where
  open_line :
      (rest : List ℕ) (s : Scan)
      → s.state ≡ normal
      → scan_script is_letter (b'-' ∷ b'-' ∷ rest) 0 s
        ≡ scan_script is_letter rest 0
            (record (advance is_letter (b'-' ∷ b'-' ∷ []) s) { state = line_comment })
  unfolding scan_script scan_char normal_char starts_word
  open_line rest s h =
      ground (arith, h)
      ∙ ap
          (λ (x : List ℕ).
            scan_script is_letter rest 0 (record s { state = line_comment; current = x }))
          (append_assoc s.current (b'-' ∷ []) (b'-' ∷ []))

  open_block :
      (rest : List ℕ) (s : Scan)
      → s.state ≡ normal
      → scan_script is_letter (b'/' ∷ b'*' ∷ rest) 0 s
        ≡ scan_script is_letter rest 0
            (record (advance is_letter (b'/' ∷ b'*' ∷ []) s) { state = block_comment })
  unfolding scan_script scan_char normal_char starts_word
  open_block rest s h =
      ground (arith, h)
      ∙ ap
          (λ (x : List ℕ).
            scan_script is_letter rest 0 (record s { state = block_comment; current = x }))
          (append_assoc s.current (b'/' ∷ []) (b'*' ∷ []))

  abbrev with_current : Scan → List ℕ → Scan
  with_current s x = record s { current = x }

  pub token_lem :
      (t : Token) (rest : List ℕ) (s : Scan)
      → is_token is_letter t ≡ true
      → IsOpen s
      → scan_script is_letter (print t ++ rest) 0 s
        ≡ scan_script is_letter rest 0 (after is_letter t s)
  unfolding print
  token_lem (symbol c) rest s h opened = symbol_lem is_letter c rest s h opened.0
  token_lem (word c cs) rest s h opened =
      ap (λ (x : List ℕ). scan_script is_letter (c ∷ x) 0 s) (append_assoc cs (32 ∷ []) rest)
      ∙ word_lem is_letter c cs rest s h opened
  token_lem (quote q cs) rest s h opened =
      let tail : List ℕ = escape q cs ++ (closing q ∷ 32 ∷ []) in
      let opened_quote : Scan = record (advance is_letter (opening q ∷ []) s) {
        state = state_in q;
        has_code = true;
      } in
      ap (λ (x : List ℕ). scan_script is_letter (opening q ∷ x) 0 s)
        (append_assoc (escape q cs) (closing q ∷ 32 ∷ []) rest)
      ∙ open_quote is_letter q (escape q cs ++ (closing q ∷ 32 ∷ rest)) s opened.0
      ∙ quoted_lem is_letter q cs rest opened_quote refl
      ∙ ap
          (λ (x : List ℕ).
            scan_script is_letter rest 0 (with_current (after is_letter (quote q cs) s) x))
          (append_assoc s.current (opening q ∷ []) tail)
  token_lem (line cs) rest s h opened =
      ap (λ (x : List ℕ). scan_script is_letter (b'-' ∷ b'-' ∷ x) 0 s)
        (append_assoc cs (10 ∷ []) rest)
      ∙ open_line (cs ++ (10 ∷ rest)) s opened.0
      ∙ line_lem is_letter cs rest
          (record (advance is_letter (b'-' ∷ b'-' ∷ []) s) { state = line_comment }) refl
          (line_free is_letter cs h)
      ∙ ap
          (λ (x : List ℕ).
            scan_script is_letter rest 0 (with_current (after is_letter (line cs) s) x))
          (append_assoc s.current (b'-' ∷ b'-' ∷ []) (cs ++ (10 ∷ [])))
  token_lem (block cs) rest s h opened =
      ap (λ (x : List ℕ). scan_script is_letter (b'/' ∷ b'*' ∷ x) 0 s)
        (append_assoc cs (b'*' ∷ b'/' ∷ []) rest)
      ∙ open_block (cs ++ (b'*' ∷ b'/' ∷ rest)) s opened.0
      ∙ block_lem is_letter cs rest
          (record (advance is_letter (b'/' ∷ b'*' ∷ []) s) { state = block_comment }) refl
          (block_free is_letter cs h)
      ∙ ap
          (λ (x : List ℕ).
            scan_script is_letter rest 0 (with_current (after is_letter (block cs) s) x))
          (append_assoc s.current (b'/' ∷ b'*' ∷ []) (cs ++ (b'*' ∷ b'/' ∷ [])))
