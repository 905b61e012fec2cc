-- ===== src/Cipher/Programs.antt =====
-- "Assignment 3/doencfileserver.c" and retrieveencfileclient.c: what they read, write and send.
use networks_lab_cs39006_spr.Prelude.{
  ℕ, ◌+◌, ◌-◌, Bool, false, not, ◌&&◌, ◌||◌, List, [], ◌∷◌, ◌++◌, map, Option, none, some, leb,
  ◌==◌, if◌then◌else◌, length, get_or, take,
}

-- `END`.
abbrev pub end_char : ℕ
end_char = b'#'

-- `isupper`, `isalpha` and `tolower` of <ctype.h>, in the C locale.
abbrev pub is_lower : ℕ → Bool
is_lower c = leb 97 c && leb c 122

abbrev pub is_upper : ℕ → Bool
is_upper c = leb 65 c && leb c 90

abbrev pub is_alpha : ℕ → Bool
is_alpha c = is_upper c || is_lower c

abbrev pub to_lower : ℕ → ℕ
to_lower c = if is_upper c then c + 32 else c

unfoldable pub encrypt : ℕ → List ℕ → ℕ
encrypt c key =
    if not (is_alpha c)
    then c
    else if is_upper c
    then get_or key (c - 65) 0
    else to_lower (get_or key (c - 97) 0)

abbrev pub any_lower : List ℕ → Bool
any_lower [] = false
any_lower (c ∷ cs) = is_lower c || any_lower cs

-- The client's `check`.
unfoldable pub check : List ℕ → Bool
check key = if not (length key == 26) then false else not (any_lower key)

-- What `read` returns one after the other from a file, up to 49 bytes at a time for the server; `n`
-- more bytes fit the piece begun.
abbrev pub cons_first : ℕ → List (List ℕ) → List (List ℕ)
cons_first c [] = (c ∷ []) ∷ []
cons_first c (piece ∷ pieces) = (c ∷ piece) ∷ pieces

unfoldable pub read_pieces : ℕ → ℕ → List ℕ → List (List ℕ)
read_pieces room n [] = []
read_pieces room n (c ∷ cs) =
    let rest = read_pieces room (if n == 0 then room else n - 1) cs in
    if n == 0 then (c ∷ []) ∷ rest else cons_first c rest

abbrev pub keep_before : ℕ → Option (List ℕ) → Option (List ℕ)
keep_before c none = none
keep_before c (some cs) = some (c ∷ cs)

-- `strchr(buf, END)` on a buffer with a NUL behind what was received: what stands before the mark.
unfoldable pub find_end : List ℕ → Option (List ℕ)
find_end [] = none
find_end (c ∷ cs) =
    let later = keep_before c (find_end cs) in
    if c == 0 then none else if c == end_char then some [] else later

unfoldable pub write_chunk : List ℕ → Option (List ℕ) → List ℕ → List ℕ
write_chunk chunk none rest = chunk ++ rest
write_chunk chunk (some text) rest = text

-- What the server writes to the temporary file, from what `recv` returns until it returns nothing.
unfoldable pub receive_text : List (List ℕ) → List ℕ
unfolding find_end write_chunk
receive_text [] = []
receive_text (chunk ∷ chunks) = write_chunk chunk (find_end chunk) (receive_text chunks)

-- The loop that writes the encrypted file.
unfoldable pub encrypt_pieces : List ℕ → List (List ℕ) → List ℕ
unfolding encrypt
encrypt_pieces key [] = []
encrypt_pieces key (piece ∷ pieces) = map (λ c. encrypt c key) piece ++ encrypt_pieces key pieces

-- The loop that sends a file, and the mark behind it; also the client's.
unfoldable pub send_pieces : List (List ℕ) → List ℕ
send_pieces [] = end_char ∷ []
send_pieces (piece ∷ pieces) = piece ++ send_pieces pieces

-- The server's round for one file: `key` is what was received as the key.
unfoldable pub serve_file : (key : List ℕ) → List (List ℕ) → List ℕ
unfolding receive_text encrypt_pieces read_pieces send_pieces
serve_file key chunks =
    send_pieces (read_pieces 48 48 (encrypt_pieces key (read_pieces 48 48 (receive_text chunks))))

-- What the client sends of a file, 50 bytes at a time.
unfoldable pub send_file : List ℕ → List ℕ
unfolding read_pieces send_pieces
send_file file = send_pieces (read_pieces 49 49 file)

-- `buf[n - 1] == END`.
abbrev pub ends_with_mark : List ℕ → Bool
ends_with_mark [] = false
ends_with_mark (c ∷ []) = c == end_char
ends_with_mark (c ∷ d ∷ cs) = ends_with_mark (d ∷ cs)

-- What the client writes to its file, from what `recv` returns.
unfoldable pub receive_encrypted : List (List ℕ) → List ℕ
receive_encrypted [] = []
receive_encrypted (chunk ∷ chunks) =
    let rest = receive_encrypted chunks in
    if ends_with_mark chunk then take (length chunk - 1) chunk else chunk ++ rest
