-- ===== src/Handler/Url.antt =====
-- The urls that `check_request_url` accepts, and the keys that it finds in them.
use mathlib.Core.List.{append_cancel_right}
use ucla_cs130_googolplex.Prelude.{
  ℕ, suc, Bytes, codes, length-append, equal_iff, equal_refl, zero, Bool, Option-cases, true, false,
  [], ◌∷◌, ◌++◌, append_assoc, append-nil, ◌≡◌, ◌≢◌, inl, inr, sym, ◌∙◌, arith,
}
use ucla_cs130_googolplex.Std.Strings.{find, pop_back_while}
use ucla_cs130_googolplex.Std.Strings.Prefix.{find-append, find_zero_sound, drop-append}
use ucla_cs130_googolplex.Handler.{Handler, at_front, check_request_url}

-- For a url that goes on behind the prefix and a slash, check_request_url gives the rest as the
-- key, without the slashes at its end.
pub check_request_url-key :
    (h : Handler) (c : ℕ) (rest : Bytes) (for_get : Bool)
    → check_request_url h (h.prefix ++ (codes "/" ++ c ∷ rest)) for_get
      ≡ (true, pop_back_while b'/' (c ∷ rest))
unfolding check_request_url
check_request_url-key h c rest for_get =
    let p = h.prefix ++ codes "/" in
    rw (← append_assoc h.prefix (codes "/") (c ∷ rest)) (
      ground
        (arith, find-append p (c ∷ rest), drop-append p (c ∷ rest), length-append p (c ∷ rest)))

-- The prefix alone is accepted, with no key; with the slash behind it, only for a `for_get`.
pub check_request_url-prefix :
    (h : Handler) (for_get : Bool) → check_request_url h h.prefix for_get ≡ (true, [])
unfolding check_request_url
check_request_url-prefix h for_get =
    ground (arith, length-append h.prefix (codes "/"), equal_refl (h.prefix ++ codes "/"))

-- With a slash behind it, the prefix is accepted for a `for_get`, with no key.
pub check_request_url-slash :
    (h : Handler) → check_request_url h (h.prefix ++ codes "/") true ≡ (true, [])
unfolding check_request_url
check_request_url-slash h =
    let p = h.prefix ++ codes "/" in
    rw (← append-nil p) (ground (arith, find-append p [], append-nil p))

-- `find` gives no place, or one behind the front.
not_at_front : (p url : Bytes) → ((rest : Bytes) → url ≢ p ++ rest) → at_front (find p url) ≡ false
not_at_front p url h = elim (Option-cases (find p url)) [
  | inl e ↦ rw e
  | inr (zero, e) ↦ let (r, e') = find_zero_sound p url e in absurd (h r e')
  | inr (suc i, e) ↦ rw e (ground arith)
]

-- A url that is not the prefix, and does not go on from it with a slash, is refused.
pub check_request_url-refused :
    (h : Handler) (url : Bytes) (for_get : Bool)
    → url ≢ h.prefix
    → ((rest : Bytes) → url ≢ h.prefix ++ (codes "/" ++ rest))
    → check_request_url h url for_get ≡ (false, [])
unfolding check_request_url
check_request_url-refused h url for_get ne other =
    let p = h.prefix ++ codes "/" in
    let front = not_at_front p url (λ r e. other r (e ∙ append_assoc h.prefix (codes "/") r)) in
    ground (
      arith,
      front,
      equal_iff p (url ++ codes "/"),
      λ (e : p ≡ url ++ codes "/"). ne (sym (append_cancel_right h.prefix url (codes "/") e)),
    )
