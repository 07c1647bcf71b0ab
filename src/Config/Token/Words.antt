-- ===== src/Config/Token/Words.antt =====
-- Which texts `ParseToken` reads as one token.
use ucla_cs130_googolplex.Prelude.{
  ℕ, Bytes, ◌==◌, true, false, ◌||◌, [], ◌∷◌, ◌++◌, All, append_assoc, append-nil, ◌≡◌, refl, ap,
  ◌∙◌,
}
use native.Mathlib.Omega.{arith}
use ucla_cs130_googolplex.Config.Token.{
  TokenType, comment, eof, initial_whitespace, token_type_comment, token_type_normal, loop,
  give_back, goto, ends_token, step, Token, scan, at_end, parse_token,
}
use ucla_cs130_googolplex.Config.Token.Progress.{scan_give, scan_give_back, scan_goto}

-- A byte that neither opens something, ends a token nor is blank. A backslash is one.
abbrev pub IsPlain : ℕ → Type 0
IsPlain c = (ends_token c ≡ false) × ((c == b'#' || c == b'"' || c == b'\'' || c == b'\r') ≡ false)

-- A byte that a normal token may hold behind its first.
abbrev pub IsInner : ℕ → Type 0
IsInner c = ends_token c ≡ false

abbrev pub IsBlank : ℕ → Type 0
IsBlank c = (c == b' ' || c == b'\t' || c == b'\n' || c == b'\r') ≡ true

-- The texts that are written without quotes and read back as one token.
abbrev pub IsWord : Bytes → Type 0
IsWord [] = ⊥
IsWord (c ∷ s) = IsPlain c × All IsInner s

step_inner :
    (v : Bytes) (c : ℕ)
    → IsInner c
    → step (loop token_type_normal) v c ≡ goto (loop token_type_normal) (v ++ c ∷ [])
unfolding step
step_inner v c h = rw h

step_last :
    (v : Bytes) (d : ℕ)
    → ends_token d ≡ true
    → step (loop token_type_normal) v d ≡ give_back TokenType.normal v
unfolding step
step_last v d h = rw h

step_blank :
    (v : Bytes) (c : ℕ)
    → IsBlank c
    → step (loop initial_whitespace) v c ≡ goto (loop initial_whitespace) v
unfolding step
step_blank v c h = ground arith

step_first :
    (v : Bytes) (c : ℕ)
    → IsPlain c
    → step (loop initial_whitespace) v c ≡ goto (loop token_type_normal) (v ++ c ∷ [])
unfolding step ends_token
step_first v c h = ground arith

scan_normal :
    (s v rest : Bytes) (d : ℕ)
    → All IsInner s
    → ends_token d ≡ true
    → scan (loop token_type_normal) v (s ++ d ∷ rest)
      ≡ record { type = TokenType.normal; value = v ++ s; rest = d ∷ rest }
scan_normal [] v rest d h e = rw append-nil (scan_give_back _ v d rest v _ (step_last v d e))
scan_normal (c ∷ s) v rest d (n, h) e =
    scan_goto _ v c _ _ _ (step_inner v c n)
    ∙ scan_normal s (v ++ c ∷ []) rest d h e
    ∙ rw append_assoc

pub scan_blank :
    (ws : Bytes) (v s : Bytes)
    → All IsBlank ws
    → scan (loop initial_whitespace) v (ws ++ s) ≡ scan (loop initial_whitespace) v s
scan_blank [] v s h = refl
scan_blank (c ∷ ws) v s (b, h) = scan_goto _ v c _ _ _ (step_blank v c b) ∙ scan_blank ws v s h

-- Behind any blanks, a word in front of a byte that ends it is read as one normal token with its
-- value, and that byte stays in the stream.
pub parse_token-word :
    (ws word rest : Bytes) (d : ℕ)
    → All IsBlank ws
    → IsWord word
    → ends_token d ≡ true
    → parse_token (ws ++ (word ++ d ∷ rest))
      ≡ record { type = TokenType.normal; value = word; rest = d ∷ rest }
unfolding parse_token
parse_token-word ws [] rest d hw h e = absurd h
parse_token-word ws (c ∷ s) rest d hw (p, h) e =
    scan_blank ws [] _ hw
    ∙ scan_goto (loop initial_whitespace) [] c (s ++ d ∷ rest) _ _ (step_first [] c p)
    ∙ scan_normal s (c ∷ []) rest d h e

scan_normal_eof : (s v : Bytes) → All IsInner s → (scan (loop token_type_normal) v s).type ≡ eof
scan_normal_eof [] v h = unfold scan at_end in refl
scan_normal_eof (c ∷ s) v (n, h) =
    ap (λ (t : Token). t.type) (scan_goto _ v c s _ _ (step_inner v c n))
    ∙ scan_normal_eof s (v ++ c ∷ []) h

-- A word at the end of the stream, with nothing behind it, is lost: the token is the end of the
-- file.
pub parse_token_lost_word :
    (ws word : Bytes) → All IsBlank ws → IsWord word → (parse_token (ws ++ word)).type ≡ eof
unfolding parse_token
parse_token_lost_word ws [] hw h = absurd h
parse_token_lost_word ws (c ∷ s) hw (p, h) =
    ap (λ (t : Token). t.type)
      (scan_blank ws [] (c ∷ s) hw
        ∙ scan_goto (loop initial_whitespace) [] c s _ _ (step_first [] c p))
    ∙ scan_normal_eof s (c ∷ []) h

step_comment :
    (v : Bytes) (c : ℕ)
    → (c == b'\n' || c == b'\r') ≡ false
    → step (loop token_type_comment) v c ≡ goto (loop token_type_comment) (v ++ c ∷ [])
unfolding step
step_comment v c h = rw h

scan_comment :
    (s v rest : Bytes) (d : ℕ)
    → All (λ c. (c == b'\n' || c == b'\r') ≡ false) s
    → (d == b'\n' || d == b'\r') ≡ true
    → scan (loop token_type_comment) v (s ++ d ∷ rest)
      ≡ record { type = comment; value = v ++ s; rest = rest }
scan_comment [] v rest d h e = rw append-nil (scan_give _ v d rest v comment (unfold step in rw e))
scan_comment (c ∷ s) v rest d (n, h) e =
    scan_goto _ v c _ _ _ (step_comment v c n)
    ∙ scan_comment s (v ++ c ∷ []) rest d h e
    ∙ rw append_assoc

-- Behind any blanks, a comment runs to the end of its line, whatever it holds, and takes the line's
-- end with it.
pub parse_token_comment :
    (ws body rest : Bytes) (d : ℕ)
    → All IsBlank ws
    → All (λ c. (c == b'\n' || c == b'\r') ≡ false) body
    → (d == b'\n' || d == b'\r') ≡ true
    → parse_token (ws ++ (b'#' ∷ (body ++ d ∷ rest)))
      ≡ record { type = comment; value = b'#' ∷ body; rest = rest }
unfolding parse_token
parse_token_comment ws body rest d hw h e =
    scan_blank ws [] _ hw
    ∙ scan_goto (loop initial_whitespace) [] b'#' (body ++ d ∷ rest) (b'#' ∷ [])
        (loop token_type_comment) (unfold step in refl)
    ∙ scan_comment body (b'#' ∷ []) rest d h e
