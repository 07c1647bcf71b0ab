-- ===== src/Config/Token/Sound.antt =====
-- Which tokens `ParseToken` of src/config_parser.cc makes of a text without a backslash.
use ucla_cs130_googolplex.Prelude.{
  ℕ, Bytes, ◌==◌, true, false, Bool, if◌then◌else◌, ◌||◌, [], ◌∷◌, ◌++◌, All, All-append, ◌≡◌, ◌≢◌,
  inl, inr, refl, sym, subst, arith,
}
use ucla_cs130_googolplex.Config.Token.{
  TokenType, TokenParserState, Place, start_block, end_block, statement_end, comment,
  initial_whitespace, single_quote, double_quote, token_type_comment, token_type_normal, loop,
  escaped, closed, Step, give, give_back, goto, ends_token, initial_step, quote_step, step, Token,
  scan, at_end, parse_token,
}
use ucla_cs130_googolplex.Config.Token.Progress.{Step-cases, scan_give, scan_give_back, scan_goto}
use ucla_cs130_googolplex.Config.Token.Words.{IsWord, IsPlain, IsInner}
use ucla_cs130_googolplex.Config.Token.Quoted.{IsUnescaped, IsQuotedBy, IsQuoted, IsToken}

abbrev pub NoBackslash : Bytes → Type 0
NoBackslash = All (λ c. (c == b'\\') ≡ false)

-- A quoted text that is not closed yet.
record IsOpenBy (q : ℕ) (v : Bytes) : Type 0 where
  inner : Bytes
  plain : All (IsUnescaped q) inner
  text : v ≡ q ∷ inner

-- What has been read where the loop stands at a place.
abbrev IsPartial : Place → Bytes → Type 0
IsPartial (loop initial_whitespace) v = v ≡ []
IsPartial (loop single_quote) v = IsOpenBy b'\'' v
IsPartial (loop double_quote) v = IsOpenBy b'"' v
IsPartial (loop token_type_comment) v = Unit
IsPartial (loop token_type_normal) v = IsWord v
IsPartial (escaped _) v = ⊥
IsPartial (closed _) v = IsQuoted v

abbrev Fits : Step → Type 0
Fits (give t w) = t ≢ TokenType.normal
Fits (give_back t w) = IsToken w
Fits (goto p w) = IsPartial p w

-- Where a byte leads to.
record IsSound (s : Step) : Type 0 where
  at : Fits s

IsSound-if :
    {b : Bool} {m n : Step}
    → (b ≡ true → IsSound m)
    → (b ≡ false → IsSound n)
    → IsSound (if b then m else n)
IsSound-if {b = true} h k = h refl
IsSound-if {b = false} h k = k refl

IsWord-append : (v : Bytes) (c : ℕ) → IsWord v → IsInner c → IsWord (v ++ c ∷ [])
IsWord-append [] c h e = absurd h
IsWord-append (b ∷ v) c (p, h) e = (p, All-append IsInner v (c ∷ []) h (e, tt))

IsOpenBy-append : (q c : ℕ) (v : Bytes) → IsOpenBy q v → IsUnescaped q c → IsOpenBy q (v ++ c ∷ [])
IsOpenBy-append q c v h u = record {
  inner = h.inner ++ c ∷ [];
  plain = All-append (IsUnescaped q) h.inner (c ∷ []) h.plain (u, tt);
  text = rw h.text refl;
}

IsOpenBy-closed :
    (q c : ℕ) (v : Bytes) → IsOpenBy q v → (c == q) ≡ true → IsQuotedBy q (v ++ c ∷ [])
IsOpenBy-closed q c v h e =
    let same : c ≡ q = ground arith in
    record { inner = h.inner; plain = h.plain; text = rw (h.text, same) refl }

opened : (q c : ℕ) → (c == q) ≡ true → IsOpenBy q (c ∷ [])
opened q c e =
    let same : c ≡ q = ground arith in record { inner = []; plain = tt; text = rw same refl }

gives : (t : TokenType) (w : Bytes) → t ≢ TokenType.normal → IsSound (give t w)
gives t w h = record { at = h }

gives_back : (w : Bytes) → IsToken w → IsSound (give_back TokenType.normal w)
gives_back w h = record { at = h }

goes : (p : Place) (w : Bytes) → IsPartial p w → IsSound (goto p w)
goes p w h = record { at = h }

module _ (v : Bytes) (c : ℕ) (no_backslash : (c == b'\\') ≡ false) where
  first_byte-IsPlain :
      (c == b'{') ≡ false
      → (c == b'}') ≡ false
      → (c == b'#') ≡ false
      → (c == b'"') ≡ false
      → (c == b'\'') ≡ false
      → (c == b';') ≡ false
      → (c == b' ' || c == b'\t' || c == b'\n' || c == b'\r') ≡ false
      → IsPlain c
  unfolding ends_token
  first_byte-IsPlain h₁ h₂ h₃ h₄ h₅ h₆ h₇ = (ground arith, ground arith)

  initial-IsSound : v ≡ [] → IsSound (initial_step v c)
  unfolding initial_step
  initial-IsSound e =
      IsSound-if (λ _. gives start_block (c ∷ []) (λ f. ground arith))
        λ h₁.
          IsSound-if (λ _. gives end_block (c ∷ []) (λ f. ground arith))
            λ h₂.
              IsSound-if (λ _. record { at = tt })
                λ h₃.
                  IsSound-if (λ q. record { at = opened b'"' c q })
                    λ h₄.
                      IsSound-if (λ q. record { at = opened b'\'' c q })
                        λ h₅.
                          IsSound-if (λ _. gives statement_end (c ∷ []) (λ f. ground arith))
                            λ h₆.
                              IsSound-if (λ _. record { at = e })
                                λ h₇. record {
                                  at =
                                      subst (λ v. IsWord (v ++ c ∷ [])) (sym e)
                                        (first_byte-IsPlain h₁ h₂ h₃ h₄ h₅ h₆ h₇, tt);
                                }

  normal-IsSound : IsWord v → IsSound (step (loop token_type_normal) v c)
  unfolding step
  normal-IsSound h =
      IsSound-if (λ _. record { at = inl h }) λ e. record { at = IsWord-append v c h e }

  comment-IsSound : IsSound (step (loop token_type_comment) v c)
  unfolding step
  comment-IsSound =
      IsSound-if {b = c == b'\n' || c == b'\r'} (λ _. gives comment v (λ f. ground arith))
        (λ _. goes (loop token_type_comment) (v ++ c ∷ []) tt)

  single-IsSound : IsOpenBy b'\'' v → IsSound (quote_step single_quote b'\'' v c)
  unfolding quote_step
  single-IsSound h =
      IsSound-if {b = c == b'\\'} (λ e. absurd (ground arith))
        λ _.
          IsSound-if {b = c == b'\''}
            (λ e. goes (closed single_quote) (v ++ c ∷ []) (inr (IsOpenBy-closed b'\'' c v h e)))
            (λ e.
              goes (loop single_quote) (v ++ c ∷ [])
                (IsOpenBy-append b'\'' c v h (no_backslash, e)))

  double-IsSound : IsOpenBy b'"' v → IsSound (quote_step double_quote b'"' v c)
  unfolding quote_step
  double-IsSound h =
      IsSound-if {b = c == b'\\'} (λ e. absurd (ground arith))
        λ _.
          IsSound-if {b = c == b'"'}
            (λ e. goes (closed double_quote) (v ++ c ∷ []) (inl (IsOpenBy-closed b'"' c v h e)))
            (λ e.
              goes (loop double_quote) (v ++ c ∷ []) (IsOpenBy-append b'"' c v h (no_backslash, e)))

  closed-IsSound : (state : TokenParserState) → IsQuoted v → IsSound (step (closed state) v c)
  unfolding step
  closed-IsSound state h =
      IsSound-if {b = ends_token c} (λ _. gives_back v (inr h))
        (λ _. gives TokenType.error v (λ f. ground arith))

  step-IsSound : (p : Place) → IsPartial p v → IsSound (step p v c)
  unfolding step
  step-IsSound (loop initial_whitespace) h = initial-IsSound h
  step-IsSound (loop single_quote) h = single-IsSound h
  step-IsSound (loop double_quote) h = double-IsSound h
  step-IsSound (loop token_type_comment) h = comment-IsSound
  step-IsSound (loop token_type_normal) h = normal-IsSound h
  step-IsSound (escaped state) h = absurd h
  step-IsSound (closed state) h = closed-IsSound state h

-- A normal token is a word or a quoted text, and no backslash is left in the stream.
abbrev pub IsSoundToken : Token → Type 0
IsSoundToken t = (t.type ≡ TokenType.normal → IsToken t.value) × NoBackslash t.rest

ends-IsSoundToken : (p : Place) (v : Bytes) → IsPartial p v → IsSoundToken (scan p v [])
unfolding scan at_end
ends-IsSoundToken (loop initial_whitespace) v h = (λ f. absurd (ground arith), tt)
ends-IsSoundToken (loop single_quote) v h = (λ f. absurd (ground arith), tt)
ends-IsSoundToken (loop double_quote) v h = (λ f. absurd (ground arith), tt)
ends-IsSoundToken (loop token_type_comment) v h = (λ f. absurd (ground arith), tt)
ends-IsSoundToken (loop token_type_normal) v h = (λ f. absurd (ground arith), tt)
ends-IsSoundToken (escaped state) v h = absurd h
ends-IsSoundToken (closed state) v h = (λ f. absurd (ground arith), tt)

scan-IsSoundToken :
    (p : Place) (v input : Bytes)
    → IsPartial p v
    → NoBackslash input
    → IsSoundToken (scan p v input)
scan-IsSoundToken p v [] h n = ends-IsSoundToken p v h
scan-IsSoundToken p v (c ∷ input) h (k, n) =
    let sound = (step-IsSound v c k p h).at in
    elim (Step-cases (step p v c)) [
      | inl (t, w, e) ↦
          let not_normal : t ≢ TokenType.normal = subst Fits e sound in
          rw (scan_give p v c input w t e) (λ f. absurd (not_normal f), n)
      | inr (inl (t, w, e)) ↦
          rw (scan_give_back p v c input w t e) (λ _. subst Fits e sound, (k, n))
      | inr (inr (q, w, e)) ↦
          rw (scan_goto p v c input w q e) (scan-IsSoundToken q w input (subst Fits e sound) n)
    ]

-- In a text without a backslash, a normal token is a word, or a text in quotes that holds neither a
-- backslash nor its quote, and what is left in the stream has no backslash either.
pub parse_token-IsSoundToken :
    (input : Bytes) → NoBackslash input → IsSoundToken (parse_token input)
unfolding parse_token
parse_token-IsSoundToken input n = scan-IsSoundToken (loop initial_whitespace) [] input refl n
