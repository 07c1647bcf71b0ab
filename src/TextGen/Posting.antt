-- ===== src/TextGen/Posting.antt =====
-- What a POST to the text generator (src/request_handler_text_gen.cc) stores, and where.
use ucla_cs130_googolplex.Prelude.{
  ℕ, ◌≤◌, Bytes, codes, length, All, true, Option-cases, [], ◌∷◌, ◌++◌, some, ◌≡◌, ◌≢◌, inl, inr,
  refl, ap, ◌∙◌, subst, arith,
}
use ucla_cs130_googolplex.Std.Strings.{c_str}
use ucla_cs130_googolplex.Std.Number.{is_digit}
use ucla_cs130_googolplex.Http.{Http, IsHttp, ok, content_type}
use ucla_cs130_googolplex.Files.{FileSystem}
use ucla_cs130_googolplex.Handler.{Handler, create_dir, write_to_file}
use ucla_cs130_googolplex.TextGen.Api.{Transfer, Service}
use ucla_cs130_googolplex.TextGen.Curl.{transfer_of, received, curl_api}
use ucla_cs130_googolplex.TextGen.Input.{
  Post, parse_post_body, check_prompts_validity, check_title_validity, all_of, in_prompt, in_title,
}
use ucla_cs130_googolplex.TextGen.{
  returned, client_folder, entry_of, failed, parse_raw_output, save_output, handle_post_request,
}

pub record IsPrompt (text : Bytes) : Type 0 where
  pub at_least : 1 ≤ length text
  pub at_most : length text ≤ 50
  pub allowed : all_of in_prompt text ≡ true

-- A title is the name of a file in the folder: it has no slash.
pub record IsTitle (title : Bytes) : Type 0 where
  pub at_least : 1 ≤ length title
  pub at_most : length title ≤ 20
  pub no_slash : All (λ c. c ≢ b'/') title
  pub allowed : all_of in_title title ≡ true

in_title-slash : (c : ℕ) → in_title c ≡ true → c ≢ b'/'
unfolding in_title is_digit
in_title-slash c h e =
    let bad : in_title 47 ≡ true = subst (λ n. in_title n ≡ true) e h in ground arith

all_of-no_slash : (s : Bytes) → all_of in_title s ≡ true → All (λ c. c ≢ b'/') s
unfolding all_of
all_of-no_slash [] h = tt
all_of-no_slash (c ∷ s) h = (in_title-slash c (ground arith), all_of-no_slash s (ground arith))

check_prompts_validity-IsPrompt : (s : Bytes) → check_prompts_validity s ≡ true → IsPrompt s
unfolding check_prompts_validity
check_prompts_validity-IsPrompt s h = record {
  at_least = ground arith;
  at_most = ground arith;
  allowed = ground arith;
}

check_title_validity-IsTitle : (s : Bytes) → check_title_validity s ≡ true → IsTitle s
unfolding check_title_validity
check_title_validity-IsTitle s h = record {
  at_least = ground arith;
  at_most = ground arith;
  no_slash = all_of-no_slash s (ground arith);
  allowed = ground arith;
}

in_prompt-zero : (c : ℕ) → in_prompt c ≡ true → c ≢ 0
unfolding in_prompt is_digit
in_prompt-zero c h e =
    let bad : in_prompt 0 ≡ true = subst (λ n. in_prompt n ≡ true) e h in ground arith

-- curl is given the whole prompt.
c_str-prompt : (s : Bytes) → all_of in_prompt s ≡ true → c_str s ≡ s
unfolding all_of c_str
c_str-prompt [] h = refl
c_str-prompt (c ∷ s) h = ground (arith, in_prompt-zero c, c_str-prompt s)

-- The form that the api is asked with, with the text of the prompt as it is.
abbrev pub asked : Bytes → Bytes → Transfer
asked api_key prompt = record (transfer_of api_key prompt) { part_data = prompt }

curl_api-asked :
    (service : Service) (api_key prompt raw : Bytes)
    → all_of in_prompt prompt ≡ true
    → curl_api service api_key prompt ≡ some raw
    → raw ≡ received (service.easy_perform (asked api_key prompt)) []
unfolding curl_api
curl_api-asked service api_key prompt raw h e =
    let sent : raw ≡ received (service.easy_perform (transfer_of api_key prompt)) [] =
      ground arith in
    sent
    ∙ ap
        (λ part.
          received (service.easy_perform (record (transfer_of api_key prompt) { part_data = part }))
            [])
        (c_str-prompt prompt h)

module _ {http : Http} (laws : IsHttp http) (files : FileSystem) (service : Service) (h : Handler)
    (api_key : Bytes) (request : http.Request) (r : http.Response) (d : files.Disk) where
  open http use {Response, body, status_of, body_of, prepare_payload, set, set_body, result}
  open files use {Disk, write}
  open service use {dump}

  abbrev text_response : Bytes → Response
  text_response output =
      prepare_payload (set content_type (codes "text/plain") (set_body output (result ok r)))

  abbrev folder : Bytes
  folder = client_folder http files service h

  -- The file of the title was written in the client's folder, and the reply is the text.
  pub record Stored (p : Post) (output : Bytes) (d' : Disk) (r' : Response) : Type 0 where
    pub entry : Bytes
    pub dumped : dump (entry_of http files service p.title p.prompt output) ≡ some entry
    pub stored : d' ≡ write (folder ++ (codes "/" ++ p.title)) entry (create_dir files folder d).1
    pub status : status_of r' ≡ ok
    pub text : body_of r' ≡ output

  save_output-Stored :
      (p : Post) (output : Bytes) (d' : Disk) (r' : Response)
      → save_output http files service h p output r d ≡ returned true d' r'
      → Stored p output d' r'
  unfolding save_output failed write_to_file
  save_output-Stored p output d' r' e =
      elim (Option-cases (dump (entry_of http files service p.title p.prompt output))) [
        | inl no_entry ↦ absurd (ground arith)
        | inr (entry, dumped) ↦
            let reply : r' ≡ text_response output = ground arith in
            record {
              entry = entry;
              dumped = dumped;
              stored = ground arith;
              status = rw reply (
                  simp (
                    laws.status_of-prepare_payload, laws.status_of-set, laws.status_of-set_body,
                    laws.status_of-result,
                  ));
              text =
                  rw reply
                    (simp (laws.body_of-prepare_payload, laws.body_of-set, laws.body_of-set_body));
            }
      ]

  -- A POST to the text generator that succeeds had a prompt of 1 to 50 allowed characters and a
  -- title of 1 to 20 characters without a slash; the api was asked with that prompt as a whole, and
  -- its output is the text of the reply, which is a 200; and the handler wrote the entry to the
  -- file of the title in the folder of the client and, but for making that folder, nothing else.
  pub accepted_post-Stored :
      (d' : Disk) (r' : Response)
      → handle_post_request http files service h api_key request r d ≡ returned true d' r'
      → (p : Post) × (output : Bytes) × (parse_post_body http (body request) ≡ some p)
        × IsPrompt p.prompt
        × IsTitle p.title
        × (parse_raw_output http files service
              (received (service.easy_perform (asked api_key p.prompt)) [])
            ≡ some output)
        × Stored p output d' r'
  unfolding handle_post_request failed
  accepted_post-Stored d' r' e = elim (Option-cases (parse_post_body http (body request))) [
    | inl no_post ↦ absurd (ground arith)
    | inr (p, parsed) ↦
        let prompt : check_prompts_validity p.prompt ≡ true = ground arith in
        let title : check_title_validity p.title ≡ true = ground arith in
        elim (Option-cases (curl_api service api_key p.prompt)) [
          | inl no_answer ↦ absurd (ground arith)
          | inr (raw, answered) ↦ elim (Option-cases (parse_raw_output http files service raw)) [
            | inl no_output ↦ absurd (ground arith)
            | inr (output, found) ↦ (
              p,
              output,
              parsed,
              check_prompts_validity-IsPrompt p.prompt prompt,
              check_title_validity-IsTitle p.title title,
              subst (λ raw. parse_raw_output http files service raw ≡ some output)
                  (curl_api-asked service api_key p.prompt raw
                    (check_prompts_validity-IsPrompt p.prompt prompt).allowed answered)
                  found,
              save_output-Stored p output d' r' (ground arith),
            )
          ]
        ]
  ]
