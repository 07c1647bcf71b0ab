-- ===== src/Config/Token/Progress.antt =====
-- How much of the stream `ParseToken` takes.
use ucla_cs130_googolplex.Prelude.{
  ℕ, ◌≤◌, ◌<◌, Bytes, length, [], ◌∷◌, ◌≡◌, ◌≢◌, ◌⊎◌, inl, inr, refl, arith,
}
use ucla_cs130_googolplex.Config.Token.{
  TokenType, eof, initial_whitespace, Place, loop, Step, give, give_back, goto, step, scan, at_end,
  parse_token,
}

pub Step-cases :
    (s : Step)
    → ((t : TokenType) × (v : Bytes) × (s ≡ give t v))
      ⊎ (((t : TokenType) × (v : Bytes) × (s ≡ give_back t v))
          ⊎ ((p : Place) × (v : Bytes) × (s ≡ goto p v)))
Step-cases (give t v) = inl (t, v, refl)
Step-cases (give_back t v) = inr (inl (t, v, refl))
Step-cases (goto p v) = inr (inr (p, v, refl))

module _ (p : Place) (v : Bytes) (c : ℕ) (input w : Bytes) where
  pub scan_give :
      (t : TokenType)
      → step p v c ≡ give t w
      → scan p v (c ∷ input) ≡ record { type = t; value = w; rest = input }
  unfolding scan
  scan_give t e = rw (scan, e)

  pub scan_give_back :
      (t : TokenType)
      → step p v c ≡ give_back t w
      → scan p v (c ∷ input) ≡ record { type = t; value = w; rest = c ∷ input }
  unfolding scan
  scan_give_back t e = rw (scan, e)

  pub scan_goto : (q : Place) → step p v c ≡ goto q w → scan p v (c ∷ input) ≡ scan q w input
  unfolding scan
  scan_goto q e = rw (scan, e)

scan-le : (p : Place) (v input : Bytes) → length (scan p v input).rest ≤ length input
scan-le p v [] = unfold scan in omega arith
scan-le p v (c ∷ input) = elim (Step-cases (step p v c)) [
  | inl (t, w, e) ↦ rw (scan_give p v c input w t e) (omega arith)
  | inr (inl (t, w, e)) ↦ rw (scan_give_back p v c input w t e) (omega arith)
  | inr (inr (q, w, e)) ↦ rw (scan_goto p v c input w q e) (omega (arith, scan-le q w input))
]

initial_takes :
    (v w : Bytes) (c : ℕ) (t : TokenType) → step (loop initial_whitespace) v c ≢ give_back t w
unfolding step
initial_takes v w c t = ground arith

scan_initial-lt :
    (v input : Bytes)
    → (scan (loop initial_whitespace) v input).type ≢ eof
    → length (scan (loop initial_whitespace) v input).rest < length input
scan_initial-lt v [] h = absurd (h (unfold scan at_end in refl))
scan_initial-lt v (c ∷ input) h = elim (Step-cases (step (loop initial_whitespace) v c)) [
  | inl (t, w, e) ↦ rw (scan_give _ v c input w t e) (omega arith)
  | inr (inl (t, w, e)) ↦ absurd (initial_takes v w c t e)
  | inr (inr (q, w, e)) ↦ rw (scan_goto _ v c input w q e) (omega (arith, scan-le q w input))
]

-- A token other than the end of the file takes at least one byte from the stream.
pub parse_token-lt :
    (input : Bytes)
    → (parse_token input).type ≢ eof
    → length (parse_token input).rest < length input
unfolding parse_token
parse_token-lt = scan_initial-lt []
