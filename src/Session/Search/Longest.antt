-- ===== src/Session/Search/Longest.antt =====
-- Which location `search_addr_binding` of src/session.cc finds.
use ucla_cs130_googolplex.Prelude.{
  ℕ, zero, suc, ◌<◌, ◌≤◌, Bytes, length, length-append, true, false, Bool-cases, if◌then◌else◌, [],
  ◌∷◌, ◌++◌, append_assoc, ◌≡◌, ◌≢◌, ◌⊎◌, inl, inr, refl, ap, sym, ◌∙◌, arith,
}
use ucla_cs130_googolplex.Std.Dict.{Dict, contains}
use ucla_cs130_googolplex.Std.Strings.{take}
use ucla_cs130_googolplex.Std.Strings.LastOf.{
  SplitsAt, NoSplit, NoSplit-nil, LastSplit, find_last_of-cases,
}
use ucla_cs130_googolplex.Session.Search.{
  Search, found, not_found, out_of_fuel, root_location, search_from, search_addr_binding,
}

module _ {ℓ} {V : Type ℓ} (routes : Dict V) where
  -- A location of `routes` that is not empty and stands in `url` in front of a slash.
  pub record Candidate (url location : Bytes) : Type 0 where
    pub bound : contains location routes ≡ true
    pub ne_nil : location ≢ []
    pub splits : SplitsAt b'/' location url

  -- The url begins with a slash and "/" is a location.
  abbrev pub AtRoot : Bytes → Type 0
  AtRoot url = SplitsAt b'/' [] url × (contains root_location routes ≡ true)

  abbrev pub NoCandidate : Bytes → Type 0
  NoCandidate url = (l : Bytes) → ¬ Candidate url l

  -- The longest candidate; "/" if there is none; nothing if that does not fit either.
  abbrev pub Answers : Bytes → Search → Type 0
  Answers url (found l) =
      (Candidate url l × ((l' : Bytes) → Candidate url l' → length l' ≤ length l))
      ⊎ ((l ≡ root_location) × NoCandidate url × AtRoot url)
  Answers url not_found = NoCandidate url × ¬ AtRoot url
  Answers url out_of_fuel = ⊥

  length-split : (l s : Bytes) → SplitsAt b'/' l s → length l < length s
  length-split l s (r, e) = rw e (omega (arith, length-append l (b'/' ∷ r)))

  split_trans : (l s url : Bytes) → SplitsAt b'/' l s → SplitsAt b'/' s url → SplitsAt b'/' l url
  split_trans l s url (r, e) (r', e') =
      (r ++ b'/' ∷ r', e' ∙ rw e (append_assoc l (b'/' ∷ r) (b'/' ∷ r')))

  none-Answers : (url : Bytes) → NoSplit b'/' url → Answers url not_found
  none-Answers url h = (λ l c. h l c.splits, λ p. h [] p.0)

  first-Answers :
      (url : Bytes)
      → LastSplit b'/' 0 url
      → Answers url (if contains root_location routes then found root_location else not_found)
  unfolding take
  first-Answers url (here, longest, len, inside) =
      elim (Bool-cases (contains root_location routes)) [
        | inl e ↦ rw e (inr (refl, no_candidate, (here, e)))
        | inr e ↦ rw e (no_candidate, λ p. cc (p.1, e))
      ]
    where
      no_candidate : NoCandidate url
      no_candidate l c = elim (longest l c.splits) [
        | inl e ↦ c.ne_nil e
        | inr p ↦ NoSplit-nil b'/' l p
      ]

  module _ (k : ℕ) (url : Bytes) (last : LastSplit b'/' (suc k) url) where
    abbrev sub_url : Bytes
    sub_url = take (suc k) url

    Candidate-sub_url : (l : Bytes) → Candidate url l → (l ≡ sub_url) ⊎ Candidate sub_url l
    Candidate-sub_url l c = elim (last.1 l c.splits) [
      | inl e ↦ inl e
      | inr p ↦ inr (record { bound = c.bound; ne_nil = c.ne_nil; splits = p })
    ]

    sub_url-ne-nil : sub_url ≢ []
    sub_url-ne-nil e = absurd (omega (arith, ap length e, last.2))

    sub_url-Answers : contains sub_url routes ≡ true → Answers url (found sub_url)
    sub_url-Answers e = inl (
      record { bound = e; ne_nil = sub_url-ne-nil; splits = last.0 },
      λ l c. elim (Candidate-sub_url l c) [
        | inl same ↦ rw same (omega arith)
        | inr c' ↦ omega (arith, length-split l sub_url c'.splits)
      ],
    )

    module _ (unbound : contains sub_url routes ≡ false) where
      Candidate-shorter : (l : Bytes) → Candidate url l → Candidate sub_url l
      Candidate-shorter l c = elim (Candidate-sub_url l c) [
        | inl same ↦ cc (same, unbound, c.bound)
        | inr c' ↦ c'
      ]

      Candidate-longer : (l : Bytes) → Candidate sub_url l → Candidate url l
      Candidate-longer l c = record {
        bound = c.bound;
        ne_nil = c.ne_nil;
        splits = split_trans l sub_url url c.splits last.0;
      }

      AtRoot-shorter : AtRoot url → AtRoot sub_url
      AtRoot-shorter (p, e) = elim (last.1 [] p) [
        | inl same ↦ absurd (sub_url-ne-nil (sym same))
        | inr p' ↦ (p', e)
      ]

      shorter-Answers : (res : Search) → Answers sub_url res → Answers url res
      shorter-Answers (found l) (inl (c, most)) =
          inl (Candidate-longer l c, λ l' c'. most l' (Candidate-shorter l' c'))
      shorter-Answers (found l) (inr (same, none_there, (p, e))) = inr (
        same,
        λ l' c'. none_there l' (Candidate-shorter l' c'),
        (split_trans [] sub_url url p last.0, e),
      )
      shorter-Answers not_found (none_there, out) =
          (λ l' c'. none_there l' (Candidate-shorter l' c'), λ p. out (AtRoot-shorter p))
      shorter-Answers out_of_fuel h = h

  search_from-Answers :
      (fuel : ℕ) (url : Bytes) → length url < fuel → Answers url (search_from fuel url routes)
  unfolding search_from
  search_from-Answers zero url h = elim h [ ]
  search_from-Answers (suc fuel) url h = elim (find_last_of-cases b'/' url) [
    | inl (e, h') ↦ rw (search_from, e) (none-Answers url h')
    | inr (zero, e, last) ↦ rw (search_from, e) (first-Answers url last)
    | inr (suc k, e, last) ↦ elim (Bool-cases (contains (take (suc k) url) routes)) [
      | inl bound ↦ rw (search_from, e) (rw bound (sub_url-Answers k url last bound))
      | inr unbound ↦
          let shorter =
            search_from-Answers fuel (take (suc k) url) (omega (arith, last.2, last.3)) in
          rw (search_from, e) (rw unbound (shorter-Answers k url last unbound _ shorter))
    ]
  ]

-- Whatever the routes and the url, the search ends, and finds the longest location that is not
-- empty and stands in the url in front of a slash; where there is none, it finds "/" if that is a
-- location and the url begins with a slash, and nothing otherwise.
pub search_addr_binding-Answers {ℓ} :
    {V : Type ℓ} (routes : Dict V) (url : Bytes)
    → Answers routes url (search_addr_binding url routes)
unfolding search_addr_binding
search_addr_binding-Answers routes url =
    search_from-Answers routes (suc (length url)) url (omega arith)

same_length : (l l' r r' : Bytes) → l ++ r ≡ l' ++ r' → length l ≡ length l' → l ≡ l'
same_length [] [] r r' e h = refl
same_length [] (y ∷ l') r r' e h = absurd (omega arith)
same_length (x ∷ l) [] r r' e h = absurd (omega arith)
same_length (x ∷ l) (y ∷ l') r r' e h =
    let rest : l ≡ l' = same_length l l' r r' (ground arith) (omega arith) in ground arith

Candidate-same {ℓ} :
    {V : Type ℓ} (routes : Dict V) (url l l' : Bytes)
    → Candidate routes url l
    → Candidate routes url l'
    → length l ≡ length l'
    → l ≡ l'
Candidate-same routes url l l' c c' h =
    let (r, e) = c.splits in
    let (r', e') = c'.splits in same_length l l' (b'/' ∷ r) (b'/' ∷ r') (sym e ∙ e') h

Answers-longest {ℓ} :
    {V : Type ℓ} (routes : Dict V) (url l : Bytes) (res : Search)
    → Candidate routes url l
    → ((l' : Bytes) → Candidate routes url l' → length l' ≤ length l)
    → Answers routes url res
    → res ≡ found l
Answers-longest routes url l (found l') c most (inl (c', most')) =
    let h : length l' ≡ length l = omega (arith, most l' c', most' l c) in
    ap found (Candidate-same routes url l' l c' c h)
Answers-longest routes url l (found l') c most (inr (same, none_there, at)) =
    absurd (none_there l c)
Answers-longest routes url l not_found c most (none_there, out) = absurd (none_there l c)
Answers-longest routes url l out_of_fuel c most h = absurd h

-- The longest candidate is found.
pub search_addr_binding-longest {ℓ} :
    {V : Type ℓ} (routes : Dict V) (url l : Bytes)
    → Candidate routes url l
    → ((l' : Bytes) → Candidate routes url l' → length l' ≤ length l)
    → search_addr_binding url routes ≡ found l
search_addr_binding-longest routes url l c most =
    Answers-longest routes url l _ c most (search_addr_binding-Answers routes url)
