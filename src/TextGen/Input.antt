-- ===== src/TextGen/Input.antt =====
-- What `request_handler_text_gen` does with the texts that it is given.
use ucla_cs130_googolplex.Prelude.{
  ℕ, Bytes, codes, length, leb, ltb, ◌==◌, if◌then◌else◌, Bool, true, false, ◌&&◌, ◌||◌, List, [],
  ◌∷◌, Option, none, some, map,
}
use ucla_cs130_googolplex.Std.Dict.{Dict, find, insert}
use ucla_cs130_googolplex.Std.Number.{is_digit}
use ucla_cs130_googolplex.Http.{Http}

unfoldable pub dot2underscore : Bytes → Bytes
dot2underscore text = map (λ c. if c == b'.' then b'_' else c) text

-- `std::regex_replace(url, std::regex("%20"), " ")`
unfoldable pub replace_space : Bytes → Bytes
replace_space (b ∷ c ∷ d ∷ s) =
    let here = b' ' ∷ replace_space s in
    let later = b ∷ replace_space (c ∷ d ∷ s) in
    if b == b'%' && c == b'2' && d == b'0' then here else later
replace_space s = s

is_alphanumeric : ℕ → Bool
is_alphanumeric c = leb b'a' c && leb c b'z' || leb b'A' c && leb c b'Z' || is_digit c

-- The characters of the two regular expressions.
unfoldable pub in_prompt : ℕ → Bool
unfolding is_alphanumeric
in_prompt c = is_alphanumeric c || c == b'?' || c == b' ' || c == b',' || c == b'_' || c == b'-'

unfoldable pub in_title : ℕ → Bool
unfolding is_alphanumeric
in_title c = is_alphanumeric c || c == b'.' || c == b' ' || c == b'_' || c == b'-'

-- `^[...]+$` with the characters of `p`, behind the test that the text is not empty
unfoldable pub all_of : (ℕ → Bool) → Bytes → Bool
all_of p [] = true
all_of p (c ∷ s) = p c && all_of p s

abbrev pub text_prompt_max_len : ℕ
text_prompt_max_len = 50

abbrev pub title_max_len : ℕ
title_max_len = 20

unfoldable pub check_prompts_validity : Bytes → Bool
check_prompts_validity text =
    if leb (length text) 0 || ltb text_prompt_max_len (length text)
    then false
    else all_of in_prompt text

unfoldable pub check_title_validity : Bytes → Bool
check_title_validity title =
    if leb (length title) 0 || ltb title_max_len (length title)
    then false
    else all_of in_title title

pub record Post : Type 0 where
  pub title : Bytes
  pub prompt : Bytes

-- A pair goes into the map, unless its key is there; what is no pair is passed over.
add_pair : List Bytes → Dict Bytes → Dict Bytes
add_pair (key ∷ value ∷ []) token_map = insert key value token_map
add_pair _ token_map = token_map

module _ (http : Http) where
  open http use {split}

  tokens_into : List Bytes → Dict Bytes → Dict Bytes
  tokens_into [] token_map = token_map
  tokens_into (token ∷ tokens) token_map =
      tokens_into tokens (add_pair (split token (codes "=")) token_map)

  abbrev pub post_of : Dict Bytes → Option Post
  post_of token_map = elim (find (codes "title") token_map) [
    | none ↦ none
    | some title ↦ elim (find (codes "prompt") token_map) [
      | none ↦ none
      | some prompt ↦ some (record { title = title; prompt = prompt })
    ]
  ]

  -- `parse_post_body`, with the two values that the caller reads from the map; `none` for false.
  unfoldable pub parse_post_body : Bytes → Option Post
  unfolding tokens_into add_pair insert find
  parse_post_body body = elim (split body (codes "&")) [
    | [] ↦ none
    | token ∷ tokens ↦ post_of (tokens_into (token ∷ tokens) [])
  ]
