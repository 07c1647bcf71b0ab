-- ===== src/Config/Parse/Rounds.antt =====
-- Rules for the loop of `Parse` in src/config_parser.cc.
use ucla_cs130_googolplex.Prelude.{
  ℕ, zero, suc, Bytes, Bool, true, false, if◌then◌else◌, Option, none, some, ◌≡◌, refl, ◌⊎◌, inl,
  inr,
}
use ucla_cs130_googolplex.Config.Token.{TokenType, parse_token}
use ucla_cs130_googolplex.Config.Locals.{State, Flow, go, leave, undefined, ◌>>=◌, defined}
use ucla_cs130_googolplex.Config.Parse.{
  round, Result, returned, undefined_behaviour, out_of_fuel, rounds,
}

pub Flow-cases :
    {A : Type 0} (m : Flow A)
    → ((a : A) × (m ≡ go a)) ⊎ (((b : Bool) × (s : State) × (m ≡ leave b s)) ⊎ (m ≡ undefined))
Flow-cases (go a) = inl (a, refl)
Flow-cases (leave b s) = inr (inl (b, s, refl))
Flow-cases undefined = inr (inr refl)

-- The round on the next token.
abbrev pub next_round : Bytes → State → Flow State
next_round input s = round (parse_token input).type (parse_token input).value s

module _ (fuel : ℕ) (input : Bytes) (s : State) where
  pub rounds_go :
      (s' : State)
      → next_round input s ≡ go s'
      → rounds (suc fuel) input s ≡ rounds fuel (parse_token input).rest s'
  unfolding rounds
  rounds_go s' e = rw (rounds, e)

  pub rounds_leave :
      (b : Bool) (s' : State)
      → next_round input s ≡ leave b s'
      → rounds (suc fuel) input s ≡ returned b s'
  unfolding rounds
  rounds_leave b s' e = rw (rounds, e)

  pub rounds_undefined :
      next_round input s ≡ undefined → rounds (suc fuel) input s ≡ undefined_behaviour
  unfolding rounds
  rounds_undefined e = rw (rounds, e)

-- `P` holds where the flow goes on, and `Q` of the result and the state where it leaves.
abbrev pub Outcome : {A : Type 0} → (A → Type 0) → (Bool → State → Type 0) → Flow A → Type 0
Outcome P Q (go a) = P a
Outcome P Q (leave b s) = Q b s
Outcome P Q undefined = Unit

pub record Holds {A : Type 0} (P : A → Type 0) (Q : Bool → State → Type 0) (m : Flow A)
    : Type 0 where
  pub at : Outcome P Q m

abbrev pub Ends : (Bool → State → Type 0) → Result → Type 0
Ends Q (returned b s) = Q b s
Ends Q undefined_behaviour = Unit
Ends Q out_of_fuel = Unit

module _ {A B : Type 0} {P : A → Type 0} {R : B → Type 0} {Q : Bool → State → Type 0} where
  pub Holds-bind :
      {m : Flow A} {f : A → Flow B}
      → Holds P Q m
      → ((a : A) → P a → Holds R Q (f a))
      → Holds R Q (m >>= f)
  unfolding ◌>>=◌
  Holds-bind {m = go a} h k = k a h.at
  Holds-bind {m = leave b s} h k = record { at = h.at }
  Holds-bind {m = undefined} h k = record { at = tt }

module _ {A : Type 0} {P : A → Type 0} {Q : Bool → State → Type 0} where
  pub Holds-defined : {o : Option A} → ((a : A) → o ≡ some a → P a) → Holds P Q (defined o)
  Holds-defined {o = none} h = record { at = tt }
  Holds-defined {o = some a} h = record { at = h a refl }

  pub Holds-go : {a : A} → P a → Holds P Q (go a)
  Holds-go h = record { at = h }

  pub Holds-leave : {b : Bool} {s : State} → Q b s → Holds P Q (leave b s)
  Holds-leave h = record { at = h }

  pub Holds-if :
      {b : Bool} {m n : Flow A}
      → (b ≡ true → Holds P Q m)
      → (b ≡ false → Holds P Q n)
      → Holds P Q (if b then m else n)
  Holds-if {b = true} h k = h refl
  Holds-if {b = false} h k = k refl

-- An invariant `P` of the state, with `I` of the stream and `T` of the tokens that it gives.
pub rounds_induction_on :
    (I : Bytes → Type 0) (T : TokenType → Bytes → Type 0) (P : State → Type 0)
    (Q : Bool → State → Type 0)
    → ((input : Bytes)
        → I input
        → T (parse_token input).type (parse_token input).value × I (parse_token input).rest)
    → ((type : TokenType) (token : Bytes) (s : State)
        → T type token
        → P s
        → Holds P Q (round type token s))
    → (fuel : ℕ) (input : Bytes) (s : State) → I input
    → P s
    → Ends Q (rounds fuel input s)
rounds_induction_on I T P Q gives keep zero input s i h = unfold rounds in tt
rounds_induction_on I T P Q gives keep (suc fuel) input s i h =
    let (t, j) = gives input i in
    let kept = (keep (parse_token input).type (parse_token input).value s t h).at in
    elim (Flow-cases (next_round input s)) [
      | inl (s', e) ↦
          rw (rounds_go fuel input s s' e) (
            rounds_induction_on I T P Q gives keep fuel (parse_token input).rest s' j
              (rw e at kept))
      | inr (inl (b, s', e)) ↦ rw (rounds_leave fuel input s b s' e) (rw e at kept)
      | inr (inr e) ↦ rw (rounds_undefined fuel input s e) tt
    ]

pub rounds_induction :
    (P : State → Type 0) (Q : Bool → State → Type 0)
    → ((type : TokenType) (token : Bytes) (s : State) → P s → Holds P Q (round type token s))
    → (fuel : ℕ) (input : Bytes) (s : State) → P s
    → Ends Q (rounds fuel input s)
rounds_induction P Q keep fuel input s h =
    rounds_induction_on (λ _. Unit {0}) (λ _ _. Unit {0}) P Q (λ _ _. (tt, tt))
      (λ type token s _ h. keep type token s h) fuel input s tt h
