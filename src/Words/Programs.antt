-- ===== src/Words/Programs.antt =====
-- "Assignment 2/wordserver.c" and wordclient.c, where no datagram is lost. A word with more than 999
-- bytes overflows the server's buffer; the model's words have any length.
use networks_lab_cs39006_spr.Prelude.{
  ℕ, zero, suc, Bool, true, false, not, ◌||◌, List, [], ◌∷◌, ◌++◌, map, Option, none, some, leb,
  ◌==◌, if◌then◌else◌, codes, cstring, strcmp_eq, strncmp_eq, is_space, take, drop, get_elem?,
}
use networks_lab_cs39006_spr.Prelude.Decimal.{decimal, strtol}

-- The datagram as a string in the buffer of `MAX` bytes.
unfoldable pub datagram_text : List ℕ → List ℕ
datagram_text datagram = cstring (take 999 datagram)

abbrev pub finish : List ℕ
finish = codes "FINISH"

-- `fscanf` with `%s` over the whole of a file: the runs of bytes that are not spaces.
abbrev pub join_word : ℕ → List (List ℕ) → List (List ℕ)
join_word c [] = (c ∷ []) ∷ []
join_word c (word ∷ words) = (c ∷ word) ∷ words

abbrev pub begin_word : ℕ → List ℕ → List (List ℕ) → List (List ℕ)
begin_word c [] words = (c ∷ []) ∷ []
begin_word c (d ∷ ds) words = if is_space d then (c ∷ []) ∷ words else join_word c words

unfoldable pub scan_words : List ℕ → List (List ℕ)
scan_words [] = []
scan_words (c ∷ cs) =
    let later = scan_words cs in if is_space c then later else begin_word c cs later

unfoldable pub file_words : List ℕ → List (List ℕ)
unfolding scan_words
file_words contents = map cstring (scan_words contents)

-- What the server answers to the name: whether it runs on, its datagram, and the words of its file.
abbrev pub first_word : List (List ℕ) → Bool × List ℕ × List (List ℕ)
first_word [] = (false, finish, [])
first_word (word ∷ words) = (true, word, word ∷ words)

abbrev pub opened : List ℕ → Option (List ℕ) → Bool × List ℕ × List (List ℕ)
opened name none = (false, codes "NOTFOUND " ++ take 990 name, [])
opened name (some contents) = first_word (file_words contents)

-- `files` is what `fopen` finds.
unfoldable pub server_start :
    (files : List ℕ → Option (List ℕ)) → List ℕ → Bool × List ℕ × List (List ℕ)
unfolding datagram_text file_words
server_start files datagram = opened (datagram_text datagram) (files (datagram_text datagram))

-- One round of the server's loop: the datagram sent, and whether the server runs on.
abbrev pub found_word : Option (List ℕ) → Option (List ℕ) × Bool
found_word none = (none, true)
found_word (some word) = (some word, not (strcmp_eq word finish))

abbrev pub numbered : List (List ℕ) → Option (Bool × ℕ) → Option (List ℕ) × Bool
numbered words none = (some finish, false)
numbered words (some (negative, n)) =
    if negative || (n == 0) then (some finish, false) else found_word (get_elem? words n)

unfoldable pub answer_request : List (List ℕ) → List ℕ → Option (List ℕ) × Bool
unfolding datagram_text strtol
answer_request words datagram =
    if strncmp_eq (datagram_text datagram) (codes "WORD")
    then numbered words (strtol (drop 4 (datagram_text datagram)))
    else (none, true)

-- What the client sends: the name of a file, and then the requests.
abbrev pub file_name : ℕ → List ℕ
file_name nx = codes "22CS30016_File" ++ decimal nx ++ codes ".txt"

abbrev pub word_request : ℕ → List ℕ
word_request word_index = codes "WORD" ++ decimal word_index

-- A word as the client writes it.
abbrev pub line : List ℕ → List ℕ
line word = word ++ 10 ∷ []

-- The client's file behind the first reply, unless that says that there is no such file.
unfoldable pub client_start : List ℕ → Option (List ℕ)
unfolding datagram_text
client_start datagram =
    if strncmp_eq (datagram_text datagram) (codes "NOTFOUND")
    then none
    else some (line (datagram_text datagram))

-- A further reply: whether it is the last, and the file with it.
unfoldable pub client_word : List ℕ → List ℕ → Bool × List ℕ
unfolding datagram_text
client_word out datagram =
    (strcmp_eq (datagram_text datagram) finish, out ++ line (datagram_text datagram))

-- How a run of both ends, with the client's file: without a file, behind FINISH, with the client
-- waiting in `recvfrom` for what nobody sends, or where the fuel is used up.
pub data Outcome : Type 0 where
  refused : Outcome
  finished : List ℕ → Outcome
  waiting : List ℕ → Outcome
  running : List ℕ → Outcome

abbrev pub heard : Option (List ℕ) → List ℕ → (List ℕ → Outcome) → Outcome
heard none out next = waiting out
heard (some datagram) out next =
    if (client_word out datagram).0
    then finished (client_word out datagram).1
    else next (client_word out datagram).1

-- The client's loop against the server's, while that is `alive`.
unfoldable pub exchange : (fuel : ℕ) → List (List ℕ) → Bool → ℕ → List ℕ → Outcome
unfolding answer_request client_word
exchange zero words alive word_index out = running out
exchange (suc fuel) words alive word_index out =
    let answer = answer_request words (word_request word_index) in
    let next : List ℕ → Outcome = λ file. exchange fuel words answer.1 (suc word_index) file in
    if alive then heard answer.0 out next else waiting out

abbrev pub started : ℕ → Bool × List ℕ × List (List ℕ) → Option (List ℕ) → Outcome
started fuel server none = refused
started fuel server (some out) = exchange fuel server.2 server.0 1 out

-- The whole run for the file with number `nx`, which is 0 where the user types a negative number.
unfoldable pub retrieve : (fuel : ℕ) → (List ℕ → Option (List ℕ)) → (nx : ℕ) → Outcome
unfolding server_start client_start exchange
retrieve fuel files nx =
    let server = server_start files (file_name nx) in
    if (nx == 0) || not (leb nx 5) then refused else started fuel server (client_start server.1)
