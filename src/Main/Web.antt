-- ===== src/Main/Web.antt =====
-- fast.c: `process_web`, what the server of web pages does with a line. `c` is the connection that
-- the line came from. `null_text` is what `printf` shows for NULL.
use fast.Prelude.{
  Bool, Bytes, List, Option, [], codes, drop, get_or, if◌then◌else◌, length, map, none, some,
  str_eq, suc, take, true, zero, ℕ, ◌++◌, ◌==◌, ◌>>=◌, ◌∷◌,
}
use fast.Prelude.Int.{pos}
use fast.Command.{command_match, command_parse, split_equals}
use fast.Command.Args.{command_args, scanned, string}
use fast.Command.Render.{command_params_as_json}
use fast.Keywords.{decimal_ℤ}
use fast.Main.{Library, Picture, State}
use fast.Main.Images.{JpegParams}
use fast.Main.Process.{Action, message, message_nozero, write_block}
use fast.Main.Commands.{Answer, Host, arguments, matches}
use fast.Main.Commands.Settings.{get_status_string}
use fast.Main.Commands.Dispatch.{process_command}

-- What the pages come from: `file` is the content of a file, none where `file_exists_and_normal`
-- is false, and `unescape` is `g_uri_unescape_string`, which gives NULL for a malformed text.
pub record Site : Type 0 where
  pub file : Bytes → Option Bytes
  pub unescape : Bytes → Option Bytes

-- Each line with its end.
lines : List Bytes → Bytes
lines [] = []
lines (l ∷ ls) = l ++ (10 ∷ lines ls)

starts_with : Bytes → Bytes → Bool
starts_with prefix s = str_eq (take (length prefix) s) prefix

-- `strstr`
contains : Bytes → Bytes → Bool
unfolding starts_with
contains part [] = starts_with part []
contains part (c ∷ s) =
    let rest = contains part s in if starts_with part (c ∷ s) then true else rest

-- what `fread` gives of a file that is not empty, 1024 bytes at a time
chunks : ℕ → Bytes → List Bytes
chunks zero s = []
chunks (suc fuel) [] = []
chunks (suc fuel) (b ∷ bs) = take 1024 (b ∷ bs) ∷ chunks fuel (drop 1024 (b ∷ bs))

-- how every page begins
ok_header : Bytes
unfolding lines
ok_header = lines (
    codes "HTTP/1.0 200 OK"
    ∷ codes "Connection: close"
    ∷ codes "Server: FAST"
    ∷ codes
        "Cache-Control: no-store, no-cache, must-revalidate, pre-check=0, post-check=0, max-age=0"
    ∷ codes "Pragma: no-cache"
    ∷ codes "Expires: Mon, 3 Jan 2000 12:34:56 GMT"
    ∷ [])

abbrev print_length : Bytes → Bytes
print_length s = decimal_ℤ (pos (length s))

content_type : Bytes → Option Bytes
unfolding contains
content_type filename =
    if contains (codes ".html") filename
    then some (codes "text/html")
    else if contains (codes ".js") filename
    then some (codes "application/javascript")
    else if contains (codes ".css") filename
    then some (codes "text/css")
    else if contains (codes ".jpg") filename
    then some (codes "image/jpeg")
    else if contains (codes ".png") filename
    then some (codes "image/png")
    else if contains (codes ".gif") filename
    then some (codes "image/gif")
    else none

module _ {A : Type 0} (c : ℕ) where
  pub serve_web_redirect : Bytes → List (Action A)
  unfolding lines
  serve_web_redirect url =
      message c (
        lines (
          codes "HTTP/1.1 301 Moved Permanently"
          ∷ (codes "Location: " ++ url)
          ∷ codes "Connection: close"
          ∷ []
          ∷ []))
      ∷ message_nozero c (10 ∷ [])
      ∷ []

  pub serve_web_file : (filename content : Bytes) → List (Action A)
  unfolding ok_header content_type chunks
  serve_web_file filename content =
      message_nozero c (
        ok_header
        ++ (codes "Content-Length: " ++ (print_length content ++ (10 ∷ codes "Content-Type: "))))
      ∷ (elim (content_type filename) [ none ↦ [] | some t ↦ message_nozero c t ∷ [] ]
          ++ (message_nozero c (10 ∷ 10 ∷ [])
              ∷ (map (write_block c) (chunks (length content) content)
                  ++ (message_nozero c (10 ∷ []) ∷ []))))

-- `strchr(url, '=') + 1`; none is NULL.
abbrev behind_equals : Bytes → Option Bytes
behind_equals url = elim (split_equals url) [ none ↦ none | some (name, value) ↦ some value ]

abbrev plus_to_space : ℕ → ℕ
plus_to_space b = if b == 43 then 32 else b

module _ (lib : Library) (host : Host lib) (site : Site) (null_text : Bytes) (c : ℕ) where
  -- "/fast/command": it is processed without a connection.
  pub web_command : State lib → JpegParams lib.numbers.Double → Bytes → Answer lib
  unfolding process_command
  web_command s p url = do
    escaped ← behind_equals url
    cmd ← site.unescape escaped
    process_command lib host none s p (map plus_to_space cmd)

  -- "/fast/status"
  pub web_status : State lib → List (Action (Picture lib))
  unfolding ok_header get_status_string command_parse command_params_as_json
  web_status s =
      let json = command_params_as_json null_text (command_parse (get_status_string lib host s)) in
      let ejson = codes "{\"fast_connected\": true, \"fast\": " ++ (json ++ codes "}") in
      message_nozero c (
        ok_header
        ++ (codes "Content-Length: "
            ++ (print_length ejson
                ++ (codes "Content-Type: text/json" ++ (10 ∷ 10 ∷ (ejson ++ (10 ∷ [])))))))
      ∷ []

  -- "/fast/image.jpg"
  pub web_image : State lib → JpegParams lib.numbers.Double → List (Action (Picture lib))
  unfolding ok_header
  web_image s p = elim s.image [
    | none ↦ message c (codes "no data" ++ (10 ∷ [])) ∷ []
    | some image ↦
        let jpeg = host.to_jpeg p image in
        message_nozero c (
          ok_header
          ++ (codes "Content-Type: image/jpeg"
              ++ (10 ∷ (codes "Content-Length: " ++ (print_length jpeg ++ (10 ∷ 10 ∷ []))))))
        ∷ write_block c jpeg
        ∷ message_nozero c (10 ∷ [])
        ∷ []
  ]

  -- a file below the directory `web`
  pub web_file : Bytes → List (Action (Picture lib))
  unfolding serve_web_file
  web_file url =
      let filename = codes "web" ++ url in
      elim (site.file filename) [ none ↦ [] | some content ↦ serve_web_file c filename content ]

  -- The second chain of tests, on the url that the first one leaves.
  pub serve : State lib → JpegParams lib.numbers.Double → Bytes → Answer lib
  unfolding starts_with web_command web_status web_image web_file
  serve s p url =
      if starts_with (codes "/fast/command") url
      then web_command s p url
      else if str_eq url (codes "/fast/status")
      then some (s, p, web_status s)
      else if str_eq url (codes "/fast/image.jpg")
      then some (s, p, web_image s p)
      else some (s, p, web_file url)

  -- A request without an url compares NULL.
  unfoldable pub process_web : State lib → JpegParams lib.numbers.Double → Bytes → Answer lib
  unfolding command_parse command_match command_args serve serve_web_redirect
  process_web s p text =
      let command = command_parse text in
      if matches command (codes "GET")
      then (elim (get_or (arguments command (codes "%s" ∷ codes "%s" ∷ [])) 0 none) [
        | none ↦ none
        | some (scanned v format) ↦ none
        | some (string url) ↦
            if str_eq url (codes "/")
            then (serve s p url >>= λ (t, q, sent).
                some (t, q, serve_web_redirect c (codes "fast.html") ++ sent))
            else serve s p
                (if str_eq url (codes "/fast.html") then codes "/webphotometer.html" else url)
      ])
      else some (s, p, [])
