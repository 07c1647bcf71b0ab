-- ===== src/Config/Parse/Run.antt =====
-- The loop of `Parse` in src/config_parser.cc with the fuel that `parse` gives it, round by round.
use ucla_cs130_googolplex.Prelude.{
  ℕ, zero, suc, ◌<◌, Bytes, codes, length, length-append, Bool, true, All, [], ◌∷◌, ◌++◌, ◌≡◌, refl,
  sym, ap, ◌∙◌, inl, inr, arith,
}
use ucla_cs130_googolplex.Config.Token.{
  TokenType, eof, Token, initial_whitespace, loop, ends_token, step, scan, at_end, parse_token,
}
use ucla_cs130_googolplex.Config.Token.Progress.{parse_token-lt, scan_give}
use ucla_cs130_googolplex.Config.Token.Words.{IsBlank, scan_blank}
use ucla_cs130_googolplex.Config.Token.Quoted.{IsToken, parse_token-IsToken}
use ucla_cs130_googolplex.Config.Locals.{State, go, leave}
use ucla_cs130_googolplex.Config.Parse.{round, Result, returned, rounds}
use ucla_cs130_googolplex.Config.Parse.Rounds.{
  Flow-cases, next_round, rounds_go, rounds_leave, rounds_undefined,
}
use ucla_cs130_googolplex.Config.Parse.Fuel.{round_goes_on}

-- All fuel above the length of the stream gives the same result.
rounds_enough :
    (fuel fuel' : ℕ) (input : Bytes) (s : State)
    → length input < fuel
    → length input < fuel'
    → rounds fuel input s ≡ rounds fuel' input s
rounds_enough zero fuel' input s h k = absurd (omega arith)
rounds_enough (suc fuel) zero input s h k = absurd (omega arith)
rounds_enough (suc fuel) (suc fuel') input s h k = elim (Flow-cases (next_round input s)) [
  | inl (s', e) ↦
      let taken = parse_token-lt input (round_goes_on _ _ s s' e) in
      rounds_go fuel input s s' e
      ∙ rounds_enough fuel fuel' (parse_token input).rest s' (omega arith) (omega arith)
      ∙ sym (rounds_go fuel' input s s' e)
  | inr (inl (b, s', e)) ↦
      rounds_leave fuel input s b s' e ∙ sym (rounds_leave fuel' input s b s' e)
  | inr (inr e) ↦ rounds_undefined fuel input s e ∙ sym (rounds_undefined fuel' input s e)
]

same_round :
    (input input' : Bytes) (s : State)
    → parse_token input ≡ parse_token input'
    → next_round input s ≡ next_round input' s
same_round input input' s e = ap (λ (t : Token). round t.type t.value s) e

-- A round reads the stream by its first token alone.
rounds_same :
    (fuel : ℕ) (input input' : Bytes) (s : State)
    → parse_token input ≡ parse_token input'
    → rounds (suc fuel) input s ≡ rounds (suc fuel) input' s
rounds_same fuel input input' s e = elim (Flow-cases (next_round input' s)) [
  | inl (s', g) ↦
      rounds_go fuel input s s' (same_round input input' s e ∙ g)
      ∙ ap (λ (t : Token). rounds fuel t.rest s') e
      ∙ sym (rounds_go fuel input' s s' g)
  | inr (inl (b, s', g)) ↦
      rounds_leave fuel input s b s' (same_round input input' s e ∙ g)
      ∙ sym (rounds_leave fuel input' s b s' g)
  | inr (inr g) ↦
      rounds_undefined fuel input s (same_round input input' s e ∙ g)
      ∙ sym (rounds_undefined fuel input' s g)
]

-- The loop from a state, with enough fuel.
abbrev pub run : Bytes → State → Result
run input s = rounds (suc (length input)) input s

module _ (input : Bytes) (s : State) where
  run_go : (s' : State) → next_round input s ≡ go s' → run input s ≡ run (parse_token input).rest s'
  run_go s' e =
      let taken = parse_token-lt input (round_goes_on _ _ s s' e) in
      rounds_go (length input) input s s' e
      ∙ rounds_enough (length input) _ (parse_token input).rest s' (omega arith) (omega arith)

  -- A token that the stream begins with.
  run_token :
      (t : Token) (s' : State)
      → parse_token input ≡ t
      → round t.type t.value s ≡ go s'
      → run input s ≡ run t.rest s'
  run_token t s' e h =
      run_go s' (ap (λ (t : Token). round t.type t.value s) e ∙ h)
      ∙ ap (λ (t : Token). run t.rest s') e

  pub run_blank : (ws : Bytes) → All IsBlank ws → run (ws ++ input) s ≡ run input s
  unfolding parse_token
  run_blank ws h =
      let same : parse_token (ws ++ input) ≡ parse_token input = scan_blank ws [] input h in
      rounds_same (length (ws ++ input)) (ws ++ input) input s same
      ∙ rounds_enough (suc (length (ws ++ input))) _ input s (omega (arith, length-append ws input))
          (omega arith)

-- A word, or a text in quotes, in front of a byte that ends it.
pub run_word :
    (word rest : Bytes) (d : ℕ) (s s' : State)
    → IsToken word
    → ends_token d ≡ true
    → round TokenType.normal word s ≡ go s'
    → run (word ++ d ∷ rest) s ≡ run (d ∷ rest) s'
run_word word rest d s s' h e g =
    run_token (word ++ d ∷ rest) s _ s' (parse_token-IsToken [] word rest d tt h e) g

module _ (rest : Bytes) (s s' : State) where
  pub run_statement_end :
      round TokenType.statement_end (codes ";") s ≡ go s' → run (b';' ∷ rest) s ≡ run rest s'
  unfolding parse_token
  run_statement_end =
      run_token (b';' ∷ rest) s _ s'
        (scan_give (loop initial_whitespace) [] b';' rest _ _ (unfold step in refl))

  pub run_start_block :
      round TokenType.start_block (codes "{") s ≡ go s' → run (b'{' ∷ rest) s ≡ run rest s'
  unfolding parse_token
  run_start_block =
      run_token (b'{' ∷ rest) s _ s'
        (scan_give (loop initial_whitespace) [] b'{' rest _ _ (unfold step in refl))

  pub run_end_block :
      round TokenType.end_block (codes "}") s ≡ go s' → run (b'}' ∷ rest) s ≡ run rest s'
  unfolding parse_token
  run_end_block =
      run_token (b'}' ∷ rest) s _ s'
        (scan_give (loop initial_whitespace) [] b'}' rest _ _ (unfold step in refl))

-- The end of the stream.
pub run_eof : (b : Bool) (s s' : State) → round eof [] s ≡ leave b s' → run [] s ≡ returned b s'
unfolding parse_token scan at_end
run_eof b s s' e = rounds_leave 0 [] s b s' e
