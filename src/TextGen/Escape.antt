-- ===== src/TextGen/Escape.antt =====
-- The spaces of a url, in `handle_get_request` and `handle_delete_request` of
-- src/request_handler_text_gen.cc.
use ucla_cs130_googolplex.Prelude.{
  ℕ, Bytes, ◌==◌, if◌then◌else◌, Bool-cases, All, [], ◌∷◌, ◌++◌, ◌≡◌, ◌≢◌, inl, inr, refl, ap, ◌∙◌,
  arith,
}
use ucla_cs130_googolplex.Std.Strings.{pop_back_while}
use ucla_cs130_googolplex.TextGen.Input.{replace_space}

abbrev pub NoPercent : Bytes → Type 0
NoPercent = All (λ c. c ≢ b'%')

-- A browser writes a space as "%20".
unfoldable pub escape_space : Bytes → Bytes
escape_space [] = []
escape_space (c ∷ s) = if c == b' ' then b'%' ∷ b'2' ∷ b'0' ∷ escape_space s else c ∷ escape_space s

replace_space_other : (c : ℕ) (s : Bytes) → c ≢ b'%' → replace_space (c ∷ s) ≡ c ∷ replace_space s
unfolding replace_space
replace_space_other c [] ne = refl
replace_space_other c (d ∷ []) ne = refl
replace_space_other c (d ∷ e ∷ s) ne = ground arith

replace_space_escaped :
    (s : Bytes) → replace_space (b'%' ∷ b'2' ∷ b'0' ∷ s) ≡ b' ' ∷ replace_space s
unfolding replace_space
replace_space_escaped s = refl

pub replace_space-append :
    (p s : Bytes) → NoPercent p → replace_space (p ++ s) ≡ p ++ replace_space s
replace_space-append [] s h = refl
replace_space-append (c ∷ p) s (ne, h) =
    replace_space_other c (p ++ s) ne ∙ ap (λ t. c ∷ t) (replace_space-append p s h)

pub replace_space-escape_space : (s : Bytes) → NoPercent s → replace_space (escape_space s) ≡ s
unfolding escape_space
replace_space-escape_space [] h = unfold replace_space in refl
replace_space-escape_space (c ∷ s) (ne, h) = elim (Bool-cases (c == b' ')) [
  | inl e ↦
      let same : b' ' ≡ c = ground arith in
      rw e (
        replace_space_escaped (escape_space s)
        ∙ ap (λ t. b' ' ∷ t) (replace_space-escape_space s h)
        ∙ ap (λ x. x ∷ s) same)
  | inr e ↦
      rw e (
        replace_space_other c (escape_space s) ne
        ∙ ap (λ t. c ∷ t) (replace_space-escape_space s h))
]

-- What ends in no slash keeps its end.
pub pop_back_while_other : (c : ℕ) (s : Bytes) → All (λ x. x ≢ c) s → pop_back_while c s ≡ s
unfolding pop_back_while
pop_back_while_other c [] h = refl
pop_back_while_other c (x ∷ []) (ne, h) = ground arith
pop_back_while_other c (x ∷ y ∷ s) (ne, h) = rw (pop_back_while_other c (y ∷ s) h) refl
