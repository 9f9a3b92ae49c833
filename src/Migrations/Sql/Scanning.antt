-- ===== src/Migrations/Sql/Scanning.antt =====
-- packages/migrations/src/index.ts: what the loop of `splitSqlStatements` does at one token.
use nuxt_laravelize.Common.{
  ◌≡◌, ap, ◌∙◌, Bool, true, [], ◌∷◌, ◌++◌, arith, length, all, sym, ℕ, List, false, ◌==◌, inl, inr,
  Bool-cases, refl,
}
use nuxt_laravelize.Migrations.Sql.{
  quoted, is_word_char, word_rest, scan_char, scan_script, Scan, normal, starts_word, normal_char,
}
use nuxt_laravelize.Migrations.Sql.Tokens.{closing, state_in, escape, Quote, text, name, tick, box}
use mathlib.Core.List.{append-nil, append_assoc}
use nuxt_laravelize.Common.Text.{is_space}

module _ (is_letter : ℕ → Bool) where
  abbrev pub advance : List ℕ → Scan → Scan
  advance cs s = record s { current = s.current ++ cs }

  advance-advance : (cs ds : List ℕ) (s : Scan) → advance ds (advance cs s) ≡ advance (cs ++ ds) s
  advance-advance cs ds s =
      ap (λ (x : List ℕ). record s { current = x }) (append_assoc s.current cs ds)

  -- Characters that are passed over.
  pub skip_lem :
      (cs rest : List ℕ) (s : Scan)
      → scan_script is_letter (cs ++ rest) (length cs) s
        ≡ scan_script is_letter rest 0 (advance cs s)
  unfolding scan_script
  skip_lem [] rest s =
      ap (λ (x : List ℕ). scan_script is_letter rest 0 (record s { current = x }))
        (sym (append-nil s.current))
  skip_lem (c ∷ cs) rest s =
      skip_lem cs rest (advance (c ∷ []) s)
      ∙ ap (scan_script is_letter rest 0) (advance-advance (c ∷ []) cs s)

  pub word_rest_lem :
      (cs rest : List ℕ)
      → all (is_word_char is_letter) cs ≡ true
      → word_rest is_letter (cs ++ (32 ∷ rest)) ≡ cs
  unfolding word_rest is_word_char
  word_rest_lem [] rest h = ground (arith)
  word_rest_lem (c ∷ cs) rest h = ground (arith, h, word_rest_lem cs rest)

  -- Back in the normal state.
  abbrev pub leave : List ℕ → Scan → Scan
  leave cs s = record s { state = normal; current = s.current ++ cs }

  pub leave-leave : (cs ds : List ℕ) (s : Scan) → leave ds (leave cs s) ≡ leave (cs ++ ds) s
  leave-leave cs ds s =
      ap (λ (x : List ℕ). record s { state = normal; current = x }) (append_assoc s.current cs ds)

  quote_char :
      (q : Quote) (c : ℕ) (rest : List ℕ) (s : Scan)
      → s.state ≡ state_in q
      → scan_script is_letter (c ∷ rest) 0 s
        ≡ scan_script is_letter rest
            (quoted (closing q) c rest (advance (c ∷ []) s)).1
            (quoted (closing q) c rest (advance (c ∷ []) s)).0
  unfolding scan_script scan_char
  quote_char text c rest s h = ground (arith, h)
  quote_char name c rest s h = ground (arith, h)
  quote_char tick c rest s h = ground (arith, h)
  quote_char box c rest s h = ground (arith, h)

  quote_end :
      (q : Quote) (rest : List ℕ) (s : Scan)
      → s.state ≡ state_in q
      → scan_script is_letter (closing q ∷ 32 ∷ rest) 0 s
        ≡ scan_script is_letter rest 0 (leave (closing q ∷ 32 ∷ []) s)
  unfolding scan_script scan_char quoted normal_char starts_word is_space
  quote_end text rest s h =
      quote_char text (closing text) (32 ∷ rest) s h
      ∙ ap (scan_script is_letter rest 0) (leave-leave (closing text ∷ []) (32 ∷ []) s)
  quote_end name rest s h =
      quote_char name (closing name) (32 ∷ rest) s h
      ∙ ap (scan_script is_letter rest 0) (leave-leave (closing name ∷ []) (32 ∷ []) s)
  quote_end tick rest s h =
      quote_char tick (closing tick) (32 ∷ rest) s h
      ∙ ap (scan_script is_letter rest 0) (leave-leave (closing tick ∷ []) (32 ∷ []) s)
  quote_end box rest s h =
      quote_char box (closing box) (32 ∷ rest) s h
      ∙ ap (scan_script is_letter rest 0) (leave-leave (closing box ∷ []) (32 ∷ []) s)

  quote_double :
      (q : Quote) (rest : List ℕ) (s : Scan)
      → s.state ≡ state_in q
      → scan_script is_letter (closing q ∷ closing q ∷ rest) 0 s
        ≡ scan_script is_letter rest 0 (advance (closing q ∷ closing q ∷ []) s)
  unfolding scan_script quoted
  quote_double text rest s h =
      quote_char text (closing text) (closing text ∷ rest) s h
      ∙ ap (scan_script is_letter rest 0)
          (advance-advance (closing text ∷ []) (closing text ∷ []) s)
  quote_double name rest s h =
      quote_char name (closing name) (closing name ∷ rest) s h
      ∙ ap (scan_script is_letter rest 0)
          (advance-advance (closing name ∷ []) (closing name ∷ []) s)
  quote_double tick rest s h =
      quote_char tick (closing tick) (closing tick ∷ rest) s h
      ∙ ap (scan_script is_letter rest 0)
          (advance-advance (closing tick ∷ []) (closing tick ∷ []) s)
  quote_double box rest s h =
      quote_char box (closing box) (closing box ∷ rest) s h
      ∙ ap (scan_script is_letter rest 0) (advance-advance (closing box ∷ []) (closing box ∷ []) s)

  quote_other :
      (q : Quote) (c : ℕ) (rest : List ℕ) (s : Scan)
      → s.state ≡ state_in q
      → (c == closing q) ≡ false
      → scan_script is_letter (c ∷ rest) 0 s ≡ scan_script is_letter rest 0 (advance (c ∷ []) s)
  unfolding quoted
  quote_other q c rest s h other = quote_char q c rest s h ∙ ground (arith, other)

  escape_nil : (q : Quote) → escape q [] ≡ []
  unfolding escape
  escape_nil q = refl

  escape_same :
      (q : Quote) (c : ℕ) (cs : List ℕ)
      → (c == closing q) ≡ true
      → escape q (c ∷ cs) ≡ closing q ∷ closing q ∷ escape q cs
  unfolding escape
  escape_same q c cs same =
      let equal : c ≡ closing q = ground (arith, same) in
      ground (arith, same, ap (λ (x : ℕ). x ∷ x ∷ escape q cs) equal)

  escape_other :
      (q : Quote) (c : ℕ) (cs : List ℕ)
      → (c == closing q) ≡ false
      → escape q (c ∷ cs) ≡ c ∷ escape q cs
  unfolding escape
  escape_other q c cs other = ground (arith, other)

  -- A quoted text, from behind its opening.
  pub quoted_lem :
      (q : Quote) (cs rest : List ℕ) (s : Scan)
      → s.state ≡ state_in q
      → scan_script is_letter (escape q cs ++ (closing q ∷ 32 ∷ rest)) 0 s
        ≡ scan_script is_letter rest 0 (leave (escape q cs ++ (closing q ∷ 32 ∷ [])) s)
  quoted_lem q [] rest s h = rw (escape_nil q) (quote_end q rest s h)
  quoted_lem q (c ∷ cs) rest s h =
      let rest_lem = quoted_lem q cs rest in
      let behind : List ℕ = escape q cs ++ (closing q ∷ 32 ∷ []) in
      elim (Bool-cases (c == closing q)) [
        | inl same ↦ rw (escape_same q c cs same) (
            quote_double q (escape q cs ++ (closing q ∷ 32 ∷ rest)) s h
            ∙ rest_lem (advance (closing q ∷ closing q ∷ []) s) h
            ∙ ap (scan_script is_letter rest 0) (leave-leave (closing q ∷ closing q ∷ []) behind s))
        | inr other ↦ rw (escape_other q c cs other) (
            quote_other q c (escape q cs ++ (closing q ∷ 32 ∷ rest)) s h other
            ∙ rest_lem (advance (c ∷ []) s) h
            ∙ ap (scan_script is_letter rest 0) (leave-leave (c ∷ []) behind s))
      ]
