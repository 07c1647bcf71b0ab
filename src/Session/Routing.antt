-- ===== src/Session/Routing.antt =====
-- What the location that the session finds means for the url test of the handlers.
use ucla_cs130_googolplex.Prelude.{
  ℕ, Bytes, codes, length, length-append, Bool, true, false, [], ◌∷◌, ◌++◌, ◌≡◌, ◌≢◌, ◌⊎◌, inl, inr,
  refl, sym, subst, ap, ◌∙◌, arith,
}
use ucla_cs130_googolplex.Std.Dict.{Dict}
use ucla_cs130_googolplex.Handler.{Handler, check_request_url}
use ucla_cs130_googolplex.Handler.Url.{
  check_request_url-key, check_request_url-prefix, check_request_url-slash,
  check_request_url-refused,
}
use ucla_cs130_googolplex.Session.Search.{found, root_location, search_addr_binding}
use ucla_cs130_googolplex.Session.Search.Longest.{Answers, search_addr_binding-Answers}

-- The slash that the session appends is the one behind the location, or the url goes on behind the
-- location with a slash of its own.
split_appended :
    (c : ℕ) (url l r : Bytes)
    → url ++ c ∷ [] ≡ l ++ c ∷ r
    → (url ≡ l) ⊎ ((rest : Bytes) × (url ≡ l ++ c ∷ rest))
split_appended c [] [] r e = inl refl
split_appended c [] (y ∷ l) r e = absurd (omega (arith, ap length e, length-append l (c ∷ r)))
split_appended c (x ∷ url) [] r e = inr (url, cc)
split_appended c (x ∷ url) (y ∷ l) r e = elim (split_appended c url l r cc) [
  | inl same ↦ inl cc
  | inr (rest, more) ↦ inr (rest, cc)
]

module _ (h : Handler) (url : Bytes) (for_get : Bool) where
  accepts :
      (url ≡ h.prefix) ⊎ ((rest : Bytes) × (url ≡ h.prefix ++ b'/' ∷ rest))
      → (url ≡ h.prefix ++ codes "/" → for_get ≡ true)
      → (check_request_url h url for_get).0 ≡ true
  accepts (inl e) get = rw (e, check_request_url-prefix) refl
  accepts (inr ([], e)) get = rw (get e, e, check_request_url-slash) refl
  accepts (inr (c ∷ rest, e)) get = rw (e, check_request_url-key h c rest for_get) refl

  -- Where the session, which appends a slash to the url, finds the location of a handler and this
  -- is not "/", the url test of that handler accepts the url, unless it is the location with a
  -- slash behind it and the test is not for a GET.
  pub routed_url_accepted {ℓ} :
      {V : Type ℓ} (routes : Dict V)
      → search_addr_binding (url ++ codes "/") routes ≡ found h.prefix
      → h.prefix ≢ root_location
      → (url ≡ h.prefix ++ codes "/" → for_get ≡ true)
      → (check_request_url h url for_get).0 ≡ true
  routed_url_accepted routes e other get =
      let answers : Answers routes (url ++ codes "/") (found h.prefix) =
        subst (Answers routes (url ++ codes "/")) e
          (search_addr_binding-Answers routes (url ++ codes "/")) in
      elim answers [
        | inl (c, _) ↦
            let (r, split) = c.splits in accepts (split_appended b'/' url h.prefix r split) get
        | inr (same, _, _) ↦ absurd (other same)
      ]

  -- The url test of a handler at the location "/" refuses every url that is a slash with a byte
  -- other than a slash behind it.
  pub root_location_refused :
      (c : ℕ) (rest : Bytes)
      → h.prefix ≡ root_location
      → url ≡ b'/' ∷ c ∷ rest
      → c ≢ b'/'
      → check_request_url h url for_get ≡ (false, [])
  root_location_refused c rest root e ne =
      check_request_url-refused h url for_get
        (λ same.
          let one : (b'/' ∷ c ∷ rest) ≡ codes "/" = sym e ∙ (same ∙ root) in
          absurd (omega (arith, ap length one)))
        (λ r same.
          let two : (b'/' ∷ c ∷ rest) ≡ codes "/" ++ (codes "/" ++ r) =
            sym e ∙ (same ∙ rw root refl) in
          ne cc)
