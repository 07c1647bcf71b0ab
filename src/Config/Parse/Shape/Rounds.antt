-- ===== src/Config/Parse/Shape/Rounds.antt =====
-- The rounds of `Parse` of src/config_parser.cc and the shape of the stack.
use ucla_cs130_googolplex.Prelude.{
  Bytes, true, false, not, List, [], ◌∷◌, All, some, ◌≡◌, refl, sym, subst, ap, arith, ◌∙◌,
}
use ucla_cs130_googolplex.Prelude.Int.{negsuc, ◌+ℤ◌}
use ucla_cs130_googolplex.Std.Vector.{Vector}
use ucla_cs130_googolplex.Config.Token.{
  TokenType, error, comment, start, normal, statement_end, start_block, end_block, eof,
}
use ucla_cs130_googolplex.Config.Token.Quoted.{IsToken}
use ucla_cs130_googolplex.Config.Tree.{NginxConfig, empty, emplace, statement, block}
use ucla_cs130_googolplex.Config.Stack.{back_tokens, push_token, open_block, plug}
use ucla_cs130_googolplex.Config.Locals.{State, is_normal, may_precede_eof}
use ucla_cs130_googolplex.Config.Parse.{
  on_normal, on_start_block, pop_from, on_empty_block, on_end_block, end_of_block, on_eof, after,
  round, add_token,
}
use ucla_cs130_googolplex.Config.Parse.Meaning.{IsPlainConfig}
use ucla_cs130_googolplex.Config.Parse.Rounds.{
  Holds, Holds-bind, Holds-defined, Holds-go, Holds-leave, Holds-if,
}
use ucla_cs130_googolplex.Config.Parse.Shape.{
  IsFilled, IsShaped, Shaped, Accepted, shape_rules, IsOpen, in_statement-IsOpen,
  directive-Directed, push_token-Shaped,
}

add_token-Shaped :
    (token : Bytes) (s : State)
    → IsToken token
    → IsOpen s.last_token_type s.stack
    → Holds (λ s'. IsShaped normal s'.stack) Accepted (add_token token s)
unfolding add_token
add_token-Shaped token s k h =
    Holds-bind {P = λ ts. back_tokens s.stack ≡ some ts} (Holds-defined (λ ts e. e)) λ ts b.
      Holds-bind (directive-Directed ts token s) λ s' d.
        Holds-bind {P = λ st. IsShaped normal st}
          (Holds-defined (λ st e.
            push_token-Shaped s.last_token_type token s.stack st ts k h b d.listened
              (ap (push_token token) (sym d.stack) ∙ e)))
          λ st v. Holds-go v

on_normal-Shaped :
    (token : Bytes) (s : State)
    → IsToken token
    → Shaped s
    → Holds (λ s'. IsShaped normal s'.stack) Accepted (on_normal token s)
unfolding on_normal
on_normal-Shaped token s k h =
    let added =
      Holds-bind (in_statement-IsOpen s h)
        λ st v. add_token-Shaped token (record s { stack = st }) k v in
    let left : Accepted false s = tt in search (shape_rules, added, left)

open_block-Shaped :
    (type : TokenType) (st st' : List NginxConfig)
    → IsShaped type st
    → open_block st ≡ some st'
    → IsShaped start_block st'
unfolding open_block IsPlainConfig
open_block-Shaped type [] st' h e = absurd (ground arith)
open_block-Shaped type (empty ∷ below) st' h e = absurd (ground arith)
open_block-Shaped type (emplace c (statement ts child) ∷ below) st' h e =
    let ((plain, (words, _)), others) = h.plain in
    let same : (empty ∷ emplace c (statement ts (block empty)) ∷ below) ≡ st' = ground arith in
    subst (IsShaped start_block) same (record {
      plain = (tt, ((plain, (words, tt)), others));
      filled = (λ f. absurd (ground arith), (tt, h.filled.1));
    })

plug-Shaped :
    (top parent : NginxConfig)
    → IsPlainConfig top
    → IsPlainConfig parent
    → IsFilled parent
    → IsPlainConfig (plug top parent) × IsFilled (plug top parent)
unfolding plug IsPlainConfig
plug-Shaped top empty h k f = absurd f
plug-Shaped top (emplace c (statement ts child)) h (plain, (words, _)) f = ((plain, (words, h)), tt)

abbrev Closed : State → Type 0
Closed s = IsShaped end_block s.stack

pop_from-Shaped :
    (type : TokenType) (st : List NginxConfig) (s : State)
    → IsShaped type st
    → Holds Closed Accepted (pop_from st s)
unfolding pop_from
pop_from-Shaped type [] s h = record { at = tt }
pop_from-Shaped type (top ∷ []) s h = Holds-go (record { plain = tt; filled = tt })
pop_from-Shaped type (top ∷ parent ∷ below) s h =
    let (plain, filled) = plug-Shaped top parent h.plain.0 h.plain.1.0 h.filled.1.0 in
    Holds-go (record { plain = (plain, h.plain.1.1); filled = (λ _. filled, h.filled.1.1) })

end_of_block-Shaped : (s : State) → Closed s → Holds Closed Accepted (end_of_block s)
unfolding end_of_block on_empty_block
end_of_block-Shaped s h =
    let bound : Holds Closed Accepted (on_empty_block s) =
      Holds-bind {A = Vector Bytes} {P = λ _. Unit {0}} (Holds-defined (λ _ _. tt))
        λ ts _. Holds-go h in
    search (shape_rules, bound, h)

on_end_block-Shaped : (s : State) → Shaped s → Holds Closed Accepted (on_end_block s)
unfolding on_end_block
on_end_block-Shaped s h =
    let s' = record s { remaining_bracket = s.remaining_bracket +ℤ negsuc 0 } in
    let popped = Holds-bind (pop_from-Shaped s.last_token_type s.stack s' h) end_of_block-Shaped in
    let left : Accepted false s' = tt in search (shape_rules, popped, left)

on_start_block-Shaped :
    (s : State) → Shaped s → Holds (λ s'. IsShaped start_block s'.stack) Accepted (on_start_block s)
unfolding on_start_block
on_start_block-Shaped s h =
    Holds-bind {P = λ st. IsShaped start_block st}
      (Holds-defined (λ st e. open_block-Shaped s.last_token_type s.stack st h e))
      λ st v. Holds-go v

may_precede_eof-AllFilled :
    (type : TokenType) (st : List NginxConfig)
    → IsShaped type st
    → may_precede_eof type ≡ true
    → All IsFilled st
may_precede_eof-AllFilled type [] h e = tt
may_precede_eof-AllFilled statement_end (top ∷ below) h e = (h.filled.0 refl, h.filled.1)
may_precede_eof-AllFilled end_block (top ∷ below) h e = (h.filled.0 refl, h.filled.1)
may_precede_eof-AllFilled start (top ∷ below) h e = absurd (ground arith)
may_precede_eof-AllFilled normal (top ∷ below) h e = absurd (ground arith)
may_precede_eof-AllFilled start_block (top ∷ below) h e = absurd (ground arith)
may_precede_eof-AllFilled comment (top ∷ below) h e = absurd (ground arith)
may_precede_eof-AllFilled eof (top ∷ below) h e = absurd (ground arith)
may_precede_eof-AllFilled error (top ∷ below) h e = absurd (ground arith)

on_eof-Shaped : (s : State) → Shaped s → Holds Shaped Accepted (on_eof s)
unfolding on_eof
on_eof-Shaped s h =
    Holds-if (λ _. Holds-leave tt)
      λ (e : not (may_precede_eof s.last_token_type) ≡ false).
        let accepted : Accepted true s =
          (h.plain, may_precede_eof-AllFilled s.last_token_type s.stack h (ground arith)) in
        let left : Accepted false s = tt in search (shape_rules, accepted, left)

after-Shaped :
    (type : TokenType) (s : State) → IsShaped type s.stack → Holds Shaped Accepted (after type s)
unfolding after
after-Shaped type s h = Holds-go h

behind_normal :
    (type : TokenType) (st : List NginxConfig)
    → IsShaped type st
    → is_normal type ≡ true
    → IsShaped statement_end st
behind_normal type [] h e = record { plain = tt; filled = tt }
behind_normal type (top ∷ below) h e = record {
  plain = h.plain;
  filled = (λ _. h.filled.0 (ground arith), h.filled.1);
}

pub round-Shaped :
    (type : TokenType) (token : Bytes) (s : State)
    → (type ≡ normal → IsToken token)
    → Shaped s
    → Holds Shaped Accepted (round type token s)
unfolding round
round-Shaped error token s k h = Holds-leave tt
round-Shaped comment token s k h = Holds-go h
round-Shaped start token s k h = Holds-leave tt
round-Shaped normal token s k h =
    Holds-bind (on_normal-Shaped token s (k refl) h) (after-Shaped normal)
round-Shaped statement_end token s k h =
    Holds-if (λ e. after-Shaped statement_end s (behind_normal s.last_token_type s.stack h e))
      (λ _. Holds-leave tt)
round-Shaped start_block token s k h =
    Holds-bind (on_start_block-Shaped s h) (after-Shaped start_block)
round-Shaped end_block token s k h = Holds-bind (on_end_block-Shaped s h) (after-Shaped end_block)
round-Shaped eof token s k h = on_eof-Shaped s h
