-- ===== src/Cipher/Transfer.antt =====
-- The files of "Assignment 3" survive the cutting of the byte streams: however the connection splits
-- what is sent, the client ends with its file encrypted.
use networks_lab_cs39006_spr.Prelude.{
  ℕ, zero, suc, ◌-◌, ◌≤◌, ◌<◌, ◌≡◌, refl, sym, ap, ap₂, ◌∙◌, true, false, List, [], ◌∷◌, ◌++◌, map,
  none, some, ◌==◌, if◌then◌else◌, if_true, if_false, if_elim, length, length-append, get_or, take,
  All, arith, subst,
}
use mathlib.Core.List.{append_assoc}
use networks_lab_cs39006_spr.Cipher.Programs.{
  end_char, encrypt, cons_first, read_pieces, keep_before, find_end, write_chunk, receive_text,
  encrypt_pieces, send_pieces, serve_file, send_file, ends_with_mark, receive_encrypted,
}

abbrev pub concat : List (List ℕ) → List ℕ
concat [] = []
concat (piece ∷ pieces) = piece ++ concat pieces

-- Neither the mark nor a NUL.
abbrev pub Clean : List ℕ → Type 0
Clean text = All (λ c. ((c == end_char) ≡ false) × ((c == 0) ≡ false)) text

-- Reading a file piece by piece loses nothing.
concat-cons_first :
    (c : ℕ) (pieces : List (List ℕ)) → concat (cons_first c pieces) ≡ c ∷ concat pieces
concat-cons_first c [] = refl
concat-cons_first c (piece ∷ pieces) = refl

concat-read_pieces : (room n : ℕ) (file : List ℕ) → concat (read_pieces room n file) ≡ file
unfolding read_pieces
concat-read_pieces room n [] = refl
concat-read_pieces room n (c ∷ cs) =
    let m : ℕ = if n == 0 then room else n - 1 in
    let rest = concat-read_pieces room m cs in
    if_elim (λ (ps : List (List ℕ)). concat ps ≡ c ∷ cs) (n == 0) _ _ (ap (λ r. c ∷ r) rest)
      (concat-cons_first c (read_pieces room m cs) ∙ ap (λ r. c ∷ r) rest)

send_pieces-concat : (pieces : List (List ℕ)) → send_pieces pieces ≡ concat pieces ++ end_char ∷ []
unfolding send_pieces
send_pieces-concat [] = refl
send_pieces-concat (piece ∷ pieces) =
    ap (λ r. piece ++ r) (send_pieces-concat pieces)
    ∙ sym (append_assoc piece (concat pieces) (end_char ∷ []))

send_file-mark : (file : List ℕ) → send_file file ≡ file ++ end_char ∷ []
unfolding send_file
send_file-mark file =
    send_pieces-concat (read_pieces 49 49 file)
    ∙ ap (λ r. r ++ end_char ∷ []) (concat-read_pieces 49 49 file)

map-append : (f : ℕ → ℕ) (xs ys : List ℕ) → map f (xs ++ ys) ≡ map f xs ++ map f ys
map-append f [] ys = refl
map-append f (x ∷ xs) ys = ap (λ r. f x ∷ r) (map-append f xs ys)

encrypt_pieces-concat :
    (key : List ℕ) (pieces : List (List ℕ))
    → encrypt_pieces key pieces ≡ map (λ c. encrypt c key) (concat pieces)
unfolding encrypt_pieces
encrypt_pieces-concat key [] = refl
encrypt_pieces-concat key (piece ∷ pieces) =
    ap (λ r. map (λ c. encrypt c key) piece ++ r) (encrypt_pieces-concat key pieces)
    ∙ sym (map-append (λ c. encrypt c key) piece (concat pieces))

-- A chunk of a stream that ends with the mark is a part of the text, or all that is left.
pub data Cut (chunk tail text : List ℕ) : Type 0 where
  within :
      (rest : List ℕ) → text ≡ chunk ++ rest → tail ≡ rest ++ end_char ∷ [] → Cut chunk tail text
  whole : chunk ≡ text ++ end_char ∷ [] → tail ≡ [] → Cut chunk tail text

heads : {a b : ℕ} {xs ys : List ℕ} → a ∷ xs ≡ b ∷ ys → (a ≡ b) × (xs ≡ ys)
heads e = (cc, cc)

nil_parts : (xs ys : List ℕ) → xs ++ ys ≡ [] → (xs ≡ []) × (ys ≡ [])
nil_parts [] ys e = (refl, e)
nil_parts (x ∷ xs) ys e = cc

cut : (chunk tail text : List ℕ) → chunk ++ tail ≡ text ++ end_char ∷ [] → Cut chunk tail text
cut [] tail text e = within text refl e
cut (c ∷ chunk) tail [] e =
    let nothing = nil_parts chunk tail (heads e).1 in
    whole (ap₂ (λ x xs. x ∷ xs) (heads e).0 nothing.0) nothing.1
cut (c ∷ chunk) tail (t ∷ text) e = elim (cut chunk tail text (heads e).1) [
  | within rest p q ↦ within rest (ap₂ (λ x xs. x ∷ xs) (sym (heads e).0) p) q
  | whole p q ↦ whole (ap₂ (λ x xs. x ∷ xs) (heads e).0 p) q
]

-- No byte is the mark.
abbrev pub NoMark : List ℕ → Type 0
NoMark text = All (λ c. (c == end_char) ≡ false) text

find_end-Clean : (chunk : List ℕ) → Clean chunk → find_end chunk ≡ none
unfolding find_end
find_end-Clean [] v = refl
find_end-Clean (c ∷ chunk) v =
    if_false (c == 0) none _ v.0.1
    ∙ if_false (c == end_char) (some []) _ v.0.0
    ∙ ap (keep_before c) (find_end-Clean chunk v.1)

find_end-mark : (text : List ℕ) → Clean text → find_end (text ++ end_char ∷ []) ≡ some text
unfolding find_end
find_end-mark [] v = refl
find_end-mark (c ∷ text) v =
    if_false (c == 0) none _ v.0.1
    ∙ if_false (c == end_char) (some []) _ v.0.0
    ∙ ap (keep_before c) (find_end-mark text v.1)

All-parts : (P : ℕ → Type 0) (xs ys : List ℕ) → All P (xs ++ ys) → All P xs × All P ys
All-parts P [] ys v = (tt, v)
All-parts P (x ∷ xs) ys v = ((v.0, (All-parts P xs ys v.1).0), (All-parts P xs ys v.1).1)

no_mark_left : (text : List ℕ) → [] ≡ text ++ end_char ∷ [] → ⊥
no_mark_left [] e = cc
no_mark_left (c ∷ text) e = cc

receive_text-stream :
    (chunks : List (List ℕ)) (text : List ℕ)
    → Clean text
    → concat chunks ≡ text ++ end_char ∷ []
    → receive_text chunks ≡ text
unfolding receive_text write_chunk
receive_text-stream [] text v e = absurd (no_mark_left text e)
receive_text-stream (chunk ∷ chunks) text v e = elim (cut chunk (concat chunks) text e) [
  | within rest p q ↦
      (let parts =
          All-parts (λ c. ((c == end_char) ≡ false) × ((c == 0) ≡ false)) chunk rest
            (subst Clean p v) in
        ap (λ o. write_chunk chunk o (receive_text chunks)) (find_end-Clean chunk parts.0)
        ∙ ap (λ r. chunk ++ r) (receive_text-stream chunks rest parts.1 q)
        ∙ sym p)
  | whole p q ↦
      ap (λ o. write_chunk chunk o (receive_text chunks)) (ap find_end p ∙ find_end-mark text v)
]

ends_with_mark-Clean : (chunk : List ℕ) → NoMark chunk → ends_with_mark chunk ≡ false
ends_with_mark-Clean [] v = refl
ends_with_mark-Clean (c ∷ []) v = v.0
ends_with_mark-Clean (c ∷ d ∷ chunk) v = ends_with_mark-Clean (d ∷ chunk) v.1

ends_with_mark-true : (text : List ℕ) → ends_with_mark (text ++ end_char ∷ []) ≡ true
ends_with_mark-true [] = refl
ends_with_mark-true (c ∷ []) = refl
ends_with_mark-true (c ∷ d ∷ text) = ends_with_mark-true (d ∷ text)

take-text : (text rest : List ℕ) (n : ℕ) → n ≡ length text → take n (text ++ rest) ≡ text
take-text [] rest zero e = refl
take-text [] rest (suc n) e = absurd (omega arith)
take-text (c ∷ text) rest zero e = absurd (omega arith)
take-text (c ∷ text) rest (suc n) e = ap (λ r. c ∷ r) (take-text text rest n (omega arith))

receive_encrypted-stream :
    (chunks : List (List ℕ)) (text : List ℕ)
    → NoMark text
    → concat chunks ≡ text ++ end_char ∷ []
    → receive_encrypted chunks ≡ text
unfolding receive_encrypted
receive_encrypted-stream [] text v e = absurd (no_mark_left text e)
receive_encrypted-stream (chunk ∷ chunks) text v e = elim (cut chunk (concat chunks) text e) [
  | within rest p q ↦
      (let parts = All-parts (λ c. (c == end_char) ≡ false) chunk rest (subst NoMark p v) in
        if_false (ends_with_mark chunk) _ _ (ends_with_mark-Clean chunk parts.0)
        ∙ ap (λ r. chunk ++ r) (receive_encrypted-stream chunks rest parts.1 q)
        ∙ sym p)
  | whole p q ↦
      if_true (ends_with_mark chunk) _ _ (ap ends_with_mark p ∙ ends_with_mark-true text)
      ∙ ap (λ b. take (length b - 1) b) p
      ∙ take-text text (end_char ∷ []) (length (text ++ end_char ∷ []) - 1)
          (omega (arith, length-append text (end_char ∷ [])))
]

-- 26 capital letters.
abbrev pub IsKey : List ℕ → Type 0
IsKey key = (length key ≡ 26) × All (λ k. (65 ≤ k) × (k ≤ 90)) key

key_letter :
    (key : List ℕ) (i : ℕ)
    → All (λ k. (65 ≤ k) × (k ≤ 90)) key
    → i < length key
    → (65 ≤ get_or key i 0) × (get_or key i 0 ≤ 90)
key_letter [] i v h = absurd (omega arith)
key_letter (k ∷ key) zero v h = v.0
key_letter (k ∷ key) (suc i) v h = key_letter key i v.1 (omega arith)

encrypt-mark :
    (c : ℕ) (key : List ℕ)
    → IsKey key
    → (c == end_char) ≡ false
    → (encrypt c key == end_char) ≡ false
unfolding encrypt
encrypt-mark c key v e =
    ground (arith, key_letter key (c - 65) v.1, key_letter key (c - 97) v.1, v.0)

encrypt-NoMark :
    (text key : List ℕ) → IsKey key → Clean text → NoMark (map (λ c. encrypt c key) text)
encrypt-NoMark [] key k v = tt
encrypt-NoMark (c ∷ text) key k v = (encrypt-mark c key k v.0.0, encrypt-NoMark text key k v.1)

-- For a key of 26 capital letters and a file without the mark and NUL bytes, the client writes the
-- file with each byte encrypted, however the connection cuts what the client sends of the file and
-- what the server sends back into pieces.
pub receive_encrypted-serve_file :
    (key text : List ℕ) (up down : List (List ℕ))
    → IsKey key
    → Clean text
    → concat up ≡ send_file text
    → concat down ≡ serve_file key up
    → receive_encrypted down ≡ map (λ c. encrypt c key) text
unfolding serve_file
receive_encrypted-serve_file key text up down k v u d =
    let got : receive_text up ≡ text = receive_text-stream up text v (u ∙ send_file-mark text) in
    let written : encrypt_pieces key (read_pieces 48 48 (receive_text up))
        ≡ map (λ c. encrypt c key) text =
      encrypt_pieces-concat key (read_pieces 48 48 (receive_text up))
      ∙ ap (map (λ c. encrypt c key)) (concat-read_pieces 48 48 (receive_text up) ∙ got) in
    receive_encrypted-stream down (map (λ c. encrypt c key) text) (encrypt-NoMark text key k v) (
      d
      ∙ send_pieces-concat
          (read_pieces 48 48 (encrypt_pieces key (read_pieces 48 48 (receive_text up))))
      ∙ ap (λ r. r ++ end_char ∷ [])
          (concat-read_pieces 48 48 (encrypt_pieces key (read_pieces 48 48 (receive_text up)))
            ∙ written))
