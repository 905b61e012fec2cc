-- ===== src/Smtp/Mailbox.antt =====
-- The mailbox files of "Assignment 6/mysmtp_server.c": `store_email`, `get_email` and `list_emails`.
use networks_lab_cs39006_spr.Prelude.{
  ℕ, suc, ◌+◌, ◌-◌, Bool, ◌&&◌, ◌||◌, List, [], ◌∷◌, ◌++◌, map, Option, none, some, ltb, ◌==◌,
  if◌then◌else◌, codes, strcmp_eq, strncmp_eq, cstring, length, take, drop,
}
use Prim.Native.String.{String}
use networks_lab_cs39006_spr.Prelude.Decimal.{decimal_digits, decimal}
use networks_lab_cs39006_spr.Smtp.State.{scan_word}

-- The contents of the files by their names; `none` is a file that does not exist.
abbrev pub Files : Type 0
Files = List ℕ → Option (List ℕ)

-- `snprintf` of "%s/%s.txt" into 4096 bytes.
unfoldable pub filename : List ℕ → List ℕ
filename recipient = take 4095 (codes "mailbox/" ++ recipient ++ codes ".txt")

-- "From: %s\nDate: %s\n%s\n.\n".
unfoldable pub entry : (sender date message : List ℕ) → List ℕ
entry sender date message =
    codes "From: "
    ++ (sender ++ (codes "\nDate: " ++ (date ++ (codes "\n" ++ (message ++ codes "\n.\n")))))

unfoldable pub append_to : Option (List ℕ) → List ℕ → Option (List ℕ)
append_to none text = some text
append_to (some old) text = some (old ++ text)

-- `opens` says that `fopen` with "a" succeeds, and `date` is `ctime` without its end of line.
unfoldable pub store_email : (opens : Bool) (date recipient sender message : List ℕ) → Files → Files
unfolding filename entry append_to
store_email opens date recipient sender message files name =
    if opens
    then if strcmp_eq name (filename recipient)
      then append_to (files name) (entry sender date message)
      else files name
    else files name

-- `fgets(line, 4096, file)` reads up to and with an end of line, and 4095 bytes at most.
abbrev pub line_room : ℕ
line_room = 4094

abbrev pub cons_first : ℕ → List (List ℕ) → List (List ℕ)
cons_first c [] = (c ∷ []) ∷ []
cons_first c (piece ∷ pieces) = (c ∷ piece) ∷ pieces

-- The pieces that it returns one after the other; `n` more bytes fit the one begun.
unfoldable pub pieces : ℕ → List ℕ → List (List ℕ)
pieces n [] = []
pieces n (c ∷ cs) =
    let last = (c == 10) || (n == 0) in
    let rest = pieces (if last then line_room else n - 1) cs in
    if last then (c ∷ []) ∷ rest else cons_first c rest

-- The strings that `line` holds.
unfoldable pub file_lines : List ℕ → List (List ℕ)
unfolding pieces
file_lines file = map cstring (pieces line_room file)

abbrev pub starts_mail : List ℕ → Bool
starts_mail line = strncmp_eq line (codes "From:")

abbrev pub response_size : ℕ
response_size = 40960

-- The inner loop of `get_email`.
unfoldable pub collect_lines : List ℕ → List (List ℕ) → List ℕ
collect_lines content [] = content
collect_lines content (line ∷ rest) =
    let more = collect_lines (content ++ line) rest in
    if strncmp_eq line (codes ".")
    then content
    else if ltb (length content + length line) (response_size - 1)
    then more
    else content

-- The outer loop; `none` is `found == 0`. No id below 1 is found.
unfoldable pub find_email : (id current_id : ℕ) → List (List ℕ) → Option (List ℕ)
unfolding collect_lines
find_email id current_id [] = none
find_email id current_id (line ∷ rest) =
    let current_id' = if starts_mail line then suc current_id else current_id in
    let later = find_email id current_id' rest in
    if starts_mail line && (current_id' == id) then some (collect_lines line rest) else later

abbrev pub literal : String → ℕ → List ℕ
literal text n = take n (codes text ++ 10 ∷ 0 ∷ [])

unfoldable pub found_reply : Option (List ℕ) → List ℕ
found_reply none = literal "401 REQUESTED EMAIL NOT FOUND (INDEX)" 38
found_reply (some content) = content

unfoldable pub read_email : ℕ → Option (List ℕ) → List ℕ
unfolding file_lines find_email found_reply
read_email id none = literal "401 REQUESTED EMAIL NOT FOUND (EMAIL)" 39
read_email id (some file) = found_reply (find_email id 0 (file_lines file))

-- What `get_email` sends.
unfoldable pub get_email : Files → (recipient : List ℕ) → (id : ℕ) → List ℕ
unfolding read_email filename
get_email files recipient id = read_email id (files (filename recipient))

-- `email_info`. `date + 6` skips "Date: ".
unfoldable pub email_info : (email_id : ℕ) (sender date : List ℕ) → List ℕ
unfolding decimal_digits
email_info email_id sender date = take 4095 (
    decimal email_id
    ++ (codes ": Email from " ++ (take 50 sender ++ (codes " -- " ++ take 50 (drop 6 date)))))

-- What `list_emails` has: the sender of a mail whose date comes next, the number, and `response`.
pub record Listing : Type 0 where
  pub pending : Option (List ℕ)
  pub email_id : ℕ
  pub response : List ℕ

-- The end of a round, with the two lines read: `none` where the loop breaks.
unfoldable pub add_info : Listing → (sender date : List ℕ) → Option Listing
unfolding email_info
add_info l sender date =
    let info = email_info l.email_id sender date in
    if ltb (length l.response + length info) (response_size - 1)
    then some (record { pending = none; email_id = suc l.email_id; response = l.response ++ info })
    else none

-- One line; the line behind a mail's first is read as its date. `stale` is what `sender` holds
-- where the line has none.
unfoldable pub list_line : (stale : List ℕ) → List ℕ → Option (List ℕ) → Listing → Option Listing
unfolding add_info scan_word
list_line stale line (some sender) l = add_info l sender line
list_line stale line none l =
    if starts_mail line
    then some (record {
      pending = some (scan_word (drop 5 line) stale);
      email_id = l.email_id;
      response = l.response;
    })
    else some l

-- At the end of the file `date` has what it had.
unfoldable pub list_end : (stale : List ℕ) → Option (List ℕ) → Listing → Option Listing
unfolding add_info
list_end stale none l = some l
list_end stale (some sender) l = add_info l sender stale

abbrev pub response_of : List ℕ → Option Listing → List ℕ
response_of response none = response
response_of response (some l) = l.response

-- The rest of the loop behind a round.
abbrev pub and_then : List ℕ → (Listing → List ℕ) → Option Listing → List ℕ
and_then response rest none = response
and_then response rest (some l) = rest l

-- The loop of `list_emails`, with the response that it ends with.
unfoldable pub list_lines : (stale stale_date : List ℕ) → List (List ℕ) → Listing → List ℕ
unfolding list_line list_end
list_lines stale stale_date [] l = response_of l.response (list_end stale_date l.pending l)
list_lines stale stale_date (line ∷ rest) l =
    and_then l.response (list_lines stale stale_date rest) (list_line stale line l.pending l)

unfoldable pub list_file : (stale stale_date : List ℕ) → Option (List ℕ) → List ℕ
unfolding file_lines list_lines
list_file stale stale_date none = literal "401 REQUESTED EMAIL NOT FOUND (EMAILS)" 40
list_file stale stale_date (some file) =
    list_lines stale stale_date (file_lines file)
      (record { pending = none; email_id = 1; response = codes "200 OK" ++ 10 ∷ [] })

-- What `list_emails` sends.
unfoldable pub list_emails : (stale stale_date : List ℕ) → Files → (recipient : List ℕ) → List ℕ
unfolding list_file filename
list_emails stale stale_date files recipient =
    list_file stale stale_date (files (filename recipient))
