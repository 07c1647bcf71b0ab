-- ===== src/Config/Parse/Invariant.antt =====
-- What holds of the parser's state between two tokens, and when `Parse` returns.
use ucla_cs130_googolplex.Prelude.{
  ℕ, suc, Bytes, length, Bool, true, false, not, List, [], ◌∷◌, some, ◌≡◌, refl, arith,
}
use ucla_cs130_googolplex.Prelude.Int.{ℤ, pos, negsuc, ◌+ℤ◌}
use ucla_cs130_googolplex.Std.Dict.{Dict}
use ucla_cs130_googolplex.Std.Vector.{Vector, nothing, push_back}
use ucla_cs130_googolplex.Config.Arg.{ConfigArg}
use ucla_cs130_googolplex.Config.Port.{IsPort, safeport_stoi, safeport_stoi-IsPort}
use ucla_cs130_googolplex.Config.Token.{
  TokenType, error, comment, start, normal, statement_end, start_block, end_block, eof,
}
use ucla_cs130_googolplex.Config.Tree.{NginxConfig}
use ucla_cs130_googolplex.Config.Stack.{emplace_back, push_token, open_block}
use ucla_cs130_googolplex.Config.Locals.{State, Flow, defined, is_zero}
use ucla_cs130_googolplex.Config.Bindings.{set_root, set_api_key}
use ucla_cs130_googolplex.Config.Parse.{
  bind_location, listen, directive, on_normal, on_start_block, pop_from, on_empty_block,
  on_end_block, end_of_block, on_eof, after, round, initial, parse, in_statement, add_token,
}
use ucla_cs130_googolplex.Config.Parse.Entries.{
  IsAddrmap, set_root-IsAddrmap, set_api_key-IsAddrmap, bind_empty-IsAddrmap,
}
use ucla_cs130_googolplex.Config.Parse.Rounds.{
  Holds, Holds-bind, Holds-defined, Holds-go, Holds-leave, Holds-if, Ends, rounds_induction,
}

-- One block more is open than brackets are, the port is one or -1, and the entries are in place.
pub record IsValid (s : State) : Type 0 where
  pub depth : s.remaining_bracket +ℤ pos 1 ≡ pos (length s.stack)
  pub port : IsPort s.port
  pub entries : IsAddrmap s.addrmap

-- What the caller has: a file is accepted with every bracket closed.
abbrev pub Returns : Bool → State → Type 0
Returns true s =
    (s.remaining_bracket ≡ pos 0) × (length s.stack ≡ 1) × IsPort s.port × IsAddrmap s.addrmap
Returns false s = IsPort s.port × IsAddrmap s.addrmap

-- A piece of a round keeps the invariant, or leaves as the function may return.
abbrev Keeps : Flow State → Type 0
Keeps = Holds IsValid Returns

-- What reads the stack, or changes it and keeps its height.
abbrev SameHeight : List NginxConfig → Flow (List NginxConfig) → Type 0
SameHeight st = Holds (λ st'. length st' ≡ length st) Returns

ruleset flow_rules = (Holds-if, Holds-go, Holds-leave)

IsValid-entries :
    (s : State) (m : Dict ConfigArg) → IsValid s → IsAddrmap m → IsValid (record s { addrmap = m })
IsValid-entries s m v h = record { depth = v.depth; port = v.port; entries = h }

Returns-false : (s : State) → IsValid s → Returns false s
Returns-false s v = (v.port, v.entries)

IsValid-stack :
    (s : State) (st : List NginxConfig)
    → IsValid s
    → length st ≡ length s.stack
    → IsValid (record s { stack = st })
IsValid-stack s st v e = ground arith

bind_location-IsValid :
    (update : Bytes → Bytes → Dict ConfigArg → Dict ConfigArg) (s : State)
    → ((l t : Bytes) (m : Dict ConfigArg) → IsAddrmap m → IsAddrmap (update l t m))
    → IsValid s
    → Keeps (bind_location update s)
unfolding bind_location
bind_location-IsValid update s keep v =
    Holds-bind {A = Bytes × Bytes} {P = λ _. Unit {0}} (Holds-defined (λ _ _. tt)) λ b _.
      let kept = IsValid-entries s _ v (keep b.0 b.1 s.addrmap v.entries) in
      search (flow_rules, kept)

listen-IsValid : (token : Bytes) (s : State) → IsValid s → Keeps (listen token s)
unfolding listen
listen-IsValid token s v =
    let kept : IsValid (record s { port = safeport_stoi token }) = record {
      depth = v.depth;
      port = safeport_stoi-IsPort token;
      entries = v.entries;
    } in
    search (flow_rules, kept, Returns-false s v)

directive-IsValid :
    (tokens : Vector Bytes) (token : Bytes) (s : State)
    → IsValid s
    → Keeps (directive tokens token s)
unfolding directive
directive-IsValid nothing token s v = Holds-go v
directive-IsValid (push_back _ lastoken) token s v =
    let by_root =
      bind_location-IsValid (λ l t. set_root l t token) s (λ l t. set_root-IsAddrmap l t token) v in
    let by_key =
      bind_location-IsValid (λ l t. set_api_key l t token) s
        (λ l t. set_api_key-IsAddrmap l t token) v in
    search (flow_rules, listen-IsValid token s v, by_root, by_key)

emplace_back-SameHeight : (st : List NginxConfig) → SameHeight st (defined (emplace_back st))
unfolding emplace_back
emplace_back-SameHeight st = Holds-defined (λ st' h. ground arith)

push_token-SameHeight :
    (token : Bytes) (st : List NginxConfig) → SameHeight st (defined (push_token token st))
unfolding push_token
push_token-SameHeight token st = Holds-defined (λ st' h. ground arith)

in_statement-SameHeight : (s : State) → SameHeight s.stack (in_statement s)
unfolding in_statement
in_statement-SameHeight s =
    let same : length s.stack ≡ length s.stack = refl in
    search (flow_rules, same, emplace_back-SameHeight s.stack)

add_token-IsValid : (token : Bytes) (s : State) → IsValid s → Keeps (add_token token s)
unfolding add_token
add_token-IsValid token s v = Holds-bind {P = λ _. Unit {0}} (Holds-defined (λ _ _. tt)) λ ts _.
    Holds-bind (directive-IsValid ts token s v) λ s' v'.
      Holds-bind (push_token-SameHeight token s'.stack) λ st e. Holds-go (IsValid-stack s' st v' e)

on_normal-IsValid : (token : Bytes) (s : State) → IsValid s → Keeps (on_normal token s)
unfolding on_normal
on_normal-IsValid token s v =
    let added =
      Holds-bind (in_statement-SameHeight s)
        λ st e. add_token-IsValid token (record s { stack = st }) (IsValid-stack s st v e) in
    search (flow_rules, added, Returns-false s v)

length-open_block :
    (st st' : List NginxConfig) → open_block st ≡ some st' → length st' ≡ suc (length st)
unfolding open_block
length-open_block st st' h = ground arith

opened : (n : ℤ) {h h' : ℕ} → n +ℤ pos 1 ≡ pos h → h' ≡ suc h → n +ℤ pos 1 +ℤ pos 1 ≡ pos h'
opened n d e = ground arith

closed : (n : ℤ) {h : ℕ} → n +ℤ pos 1 ≡ pos (suc h) → n +ℤ negsuc 0 +ℤ pos 1 ≡ pos h
closed n d = ground arith

balanced : (n : ℤ) {h : ℕ} → n +ℤ pos 1 ≡ pos h → is_zero n ≡ true → (n ≡ pos 0) × (h ≡ 1)
balanced n d e = ground arith

on_start_block-IsValid : (s : State) → IsValid s → Keeps (on_start_block s)
unfolding on_start_block
on_start_block-IsValid s v = Holds-bind (Holds-defined (length-open_block s.stack)) λ st e.
    Holds-go
      (record { depth = opened s.remaining_bracket v.depth e; port = v.port; entries = v.entries })

Returns-true : (s : State) → IsValid s → not (is_zero s.remaining_bracket) ≡ false → Returns true s
Returns-true s v e =
    let (z, h) = balanced s.remaining_bracket v.depth (ground arith) in (z, h, v.port, v.entries)

on_eof-IsValid : (s : State) → IsValid s → Keeps (on_eof s)
unfolding on_eof
on_eof-IsValid s v = search (flow_rules, Returns-false s v, Returns-true s v)

-- A `pop` closes the bracket that was counted already.
pop_from-IsValid :
    (st : List NginxConfig) (s : State) (n : ℤ)
    → n +ℤ pos 1 ≡ pos (length st)
    → IsPort s.port
    → IsAddrmap s.addrmap
    → Keeps (pop_from st (record s { remaining_bracket = n +ℤ negsuc 0 }))
unfolding pop_from
pop_from-IsValid [] s n d p m = record { at = tt }
pop_from-IsValid (top ∷ []) s n d p m =
    Holds-go (record { depth = closed n d; port = p; entries = m })
pop_from-IsValid (top ∷ parent ∷ below) s n d p m =
    Holds-go (record { depth = closed n d; port = p; entries = m })

on_empty_block-IsValid : (s : State) → IsValid s → Keeps (on_empty_block s)
unfolding on_empty_block
on_empty_block-IsValid s v =
    Holds-bind {A = Vector Bytes} {P = λ _. Unit {0}} (Holds-defined (λ _ _. tt)) λ ts _.
      Holds-go (record {
        depth = v.depth;
        port = v.port;
        entries = bind_empty-IsAddrmap ts s.addrmap v.entries;
      })

end_of_block-IsValid : (s : State) → IsValid s → Keeps (end_of_block s)
unfolding end_of_block
end_of_block-IsValid s v = search (flow_rules, on_empty_block-IsValid s v, v)

on_end_block-IsValid : (s : State) → IsValid s → Keeps (on_end_block s)
unfolding on_end_block
on_end_block-IsValid s v =
    let s' = record s { remaining_bracket = s.remaining_bracket +ℤ negsuc 0 } in
    let popped =
      Holds-bind (pop_from-IsValid s.stack s s.remaining_bracket v.depth v.port v.entries)
        end_of_block-IsValid in
    let left : Returns false s' = (v.port, v.entries) in search (flow_rules, popped, left)

after-IsValid : (type : TokenType) (s : State) → IsValid s → Keeps (after type s)
unfolding after
after-IsValid type s v = Holds-go (record { depth = v.depth; port = v.port; entries = v.entries })

round-IsValid :
    (type : TokenType) (token : Bytes) (s : State) → IsValid s → Keeps (round type token s)
unfolding round
round-IsValid error token s v = Holds-leave (Returns-false s v)
round-IsValid comment token s v = Holds-go v
round-IsValid start token s v = Holds-leave (Returns-false s v)
round-IsValid normal token s v = Holds-bind (on_normal-IsValid token s v) (after-IsValid normal)
round-IsValid statement_end token s v =
    search (flow_rules, after-IsValid statement_end s v, Returns-false s v)
round-IsValid start_block token s v =
    Holds-bind (on_start_block-IsValid s v) (after-IsValid start_block)
round-IsValid end_block token s v = Holds-bind (on_end_block-IsValid s v) (after-IsValid end_block)
round-IsValid eof token s v = on_eof-IsValid s v

-- Whatever the input, when Parse returns, the port is -1 or in range, every entry of the map stands
-- at its own location and the locations stand in rising order, if the map was so before; and an
-- accepted file has all its brackets closed, with the outermost block alone on the stack.
pub parse-Returns :
    (input : Bytes) (config : NginxConfig) (addrmap : Dict ConfigArg)
    → IsAddrmap addrmap
    → Ends Returns (parse input config addrmap)
unfolding parse
parse-Returns input config addrmap h =
    rounds_induction IsValid Returns round-IsValid (suc (length input)) input
      (initial config addrmap) (record { depth = refl; port = refl; entries = h })
