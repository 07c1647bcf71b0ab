-- ===== src/Config/Token/Quoted.antt =====
-- Quoted texts in `ParseToken` of src/config_parser.cc.
use ucla_cs130_googolplex.Prelude.{
  ℕ, Bytes, ◌==◌, true, false, [], ◌∷◌, ◌++◌, All, append_assoc, ◌≡◌, ◌⊎◌, inl, inr, refl, ◌∙◌,
  arith,
}
use ucla_cs130_googolplex.Config.Token.{
  TokenType, TokenParserState, initial_whitespace, single_quote, double_quote, loop, closed,
  give_back, goto, ends_token, quote_step, step, scan, parse_token,
}
use ucla_cs130_googolplex.Config.Token.Progress.{scan_give_back, scan_goto}
use ucla_cs130_googolplex.Config.Token.Words.{IsBlank, IsWord, scan_blank, parse_token-word}

-- A byte that stands for itself between two quotes `q`.
abbrev pub IsUnescaped : ℕ → ℕ → Type 0
IsUnescaped q c = ((c == b'\\') ≡ false) × ((c == q) ≡ false)

-- A text in quotes, with the quotes, that holds neither a backslash nor its quote.
pub record IsQuotedBy (q : ℕ) (t : Bytes) : Type 0 where
  pub inner : Bytes
  pub plain : All (IsUnescaped q) inner
  pub text : t ≡ q ∷ (inner ++ q ∷ [])

abbrev pub IsQuoted : Bytes → Type 0
IsQuoted t = IsQuotedBy b'"' t ⊎ IsQuotedBy b'\'' t

-- The texts that are read back as one token as they stand.
abbrev pub IsToken : Bytes → Type 0
IsToken t = IsWord t ⊎ IsQuoted t

-- The two states that read a quoted text.
module _ (state : TokenParserState) (q : ℕ)
    (steps : (v : Bytes) (c : ℕ) → step (loop state) v c ≡ quote_step state q v c)
    (opens : (q == b'\\') ≡ false) where
  step_unescaped :
      (v : Bytes) (c : ℕ)
      → IsUnescaped q c
      → step (loop state) v c ≡ goto (loop state) (v ++ c ∷ [])
  unfolding quote_step
  step_unescaped v c (h, k) = steps v c ∙ rw (quote_step, h, k) refl

  step_closing : (v : Bytes) → step (loop state) v q ≡ goto (closed state) (v ++ q ∷ [])
  unfolding quote_step
  step_closing v =
      let same : (q == q) ≡ true = ground arith in steps v q ∙ rw (quote_step, opens, same) refl

  step_behind :
      (v : Bytes) (d : ℕ)
      → ends_token d ≡ true
      → step (closed state) v d ≡ give_back TokenType.normal v
  unfolding step
  step_behind v d e = rw e

  scan_quoted :
      (inner v rest : Bytes) (d : ℕ)
      → All (IsUnescaped q) inner
      → ends_token d ≡ true
      → scan (loop state) v ((inner ++ q ∷ []) ++ d ∷ rest)
        ≡ record { type = TokenType.normal; value = v ++ (inner ++ q ∷ []); rest = d ∷ rest }
  scan_quoted [] v rest d h e =
      scan_goto _ v q _ _ _ (step_closing v)
      ∙ scan_give_back _ (v ++ q ∷ []) d rest _ _ (step_behind (v ++ q ∷ []) d e)
  scan_quoted (c ∷ inner) v rest d (k, h) e =
      scan_goto _ v c _ _ _ (step_unescaped v c k)
      ∙ scan_quoted inner (v ++ c ∷ []) rest d h e
      ∙ rw append_assoc refl

  parse_token-quoted_by :
      (t rest : Bytes) (d : ℕ)
      → step (loop initial_whitespace) [] q ≡ goto (loop state) (q ∷ [])
      → IsQuotedBy q t
      → ends_token d ≡ true
      → parse_token (t ++ d ∷ rest) ≡ record { type = TokenType.normal; value = t; rest = d ∷ rest }
  unfolding parse_token
  parse_token-quoted_by t rest d opening v e = rw v.text (
      scan_goto (loop initial_whitespace) [] q _ _ _ opening
      ∙ scan_quoted v.inner (q ∷ []) rest d v.plain e)

token_first :
    (t rest : Bytes) (d : ℕ)
    → IsToken t
    → ends_token d ≡ true
    → parse_token (t ++ d ∷ rest) ≡ record { type = TokenType.normal; value = t; rest = d ∷ rest }
unfolding step
token_first t rest d (inl word) e = parse_token-word [] t rest d tt word e
token_first t rest d (inr (inl v)) e =
    parse_token-quoted_by double_quote b'"' (λ v c. refl) refl t rest d refl v e
token_first t rest d (inr (inr v)) e =
    parse_token-quoted_by single_quote b'\'' (λ v c. refl) refl t rest d refl v e

-- Behind any blanks, a word, or a text in quotes that holds neither a backslash nor its quote, in
-- front of a byte that ends it, is read as one normal token with its value, and that byte stays in
-- the stream.
pub parse_token-IsToken :
    (ws t rest : Bytes) (d : ℕ)
    → All IsBlank ws
    → IsToken t
    → ends_token d ≡ true
    → parse_token (ws ++ (t ++ d ∷ rest))
      ≡ record { type = TokenType.normal; value = t; rest = d ∷ rest }
unfolding parse_token
parse_token-IsToken ws t rest d blank h e = scan_blank ws [] _ blank ∙ token_first t rest d h e
