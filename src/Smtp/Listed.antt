-- ===== src/Smtp/Listed.antt =====
-- What `list_emails` of "Assignment 6/mysmtp_server.c" says of a mailbox file.
use networks_lab_cs39006_spr.Prelude.{
  skip_spaces, is_space, ℕ, suc, ◌+◌, ◌<◌, ◌≡◌, ◌≢◌, refl, sym, ap, ◌∙◌, false, List, [], ◌∷◌, ◌++◌,
  map, none, some, ltb, lt→ltb, if◌then◌else◌, if_true, if_false, codes, length, length-append,
  take, All, arith,
}
use mathlib.Core.List.{append_assoc, append-nil}
use networks_lab_cs39006_spr.Smtp.Address.{is_empty}
use networks_lab_cs39006_spr.Smtp.State.{word, scan_word}
use networks_lab_cs39006_spr.Prelude.Decimal.{decimal}
use networks_lab_cs39006_spr.Smtp.Mailbox.{
  Files, filename, starts_mail, email_info, Listing, add_info, list_line, and_then, list_lines,
  list_file, list_emails,
}
use networks_lab_cs39006_spr.Smtp.Lines.{with_end, file_lines-unlines}
use networks_lab_cs39006_spr.Smtp.Stored.{
  Mail, IsMail, IsBodyLine, first_line, second_line, mailbox_lines, mailbox_file, mailbox-IsLine,
  lines_apart,
}

-- A sender that `%s` reads whole.
abbrev pub IsSender : List ℕ → Type 0
IsSender s = (s ≢ []) × All (λ c. is_space c ≡ false) s

-- What is said of one mail.
abbrev pub summary : ℕ → Mail → List ℕ
summary id m = take 4095 (
    decimal id
    ++ (codes ": Email from " ++ (take 50 m.sender ++ (codes " -- " ++ take 50 (with_end m.date)))))

-- What is said of the mails, numbered from `id` on.
abbrev pub summaries : ℕ → List Mail → List ℕ
summaries id [] = []
summaries id (m ∷ ms) = summary id m ++ summaries (suc id) ms

word-sender : (s : List ℕ) → All (λ c. is_space c ≡ false) s → word (s ++ 10 ∷ []) ≡ s
word-sender [] v = refl
word-sender (c ∷ s) v = if_false (is_space c) [] _ v.0 ∙ ap (λ r. c ∷ r) (word-sender s v.1)

-- `sscanf` reads the sender from behind "From:".
scan_word-sender : (s stale : List ℕ) → IsSender s → scan_word (32 ∷ (s ++ 10 ∷ [])) stale ≡ s
unfolding scan_word
scan_word-sender [] stale v = absurd (v.0 refl)
scan_word-sender (c ∷ s) stale v =
    ap (λ w. if is_empty w then stale else w)
      (ap word (if_false (is_space c) (skip_spaces (s ++ 10 ∷ [])) (c ∷ (s ++ 10 ∷ [])) v.1.0)
        ∙ word-sender (c ∷ s) v.1)

abbrev ready : ℕ → List ℕ → Listing
ready id response = record { pending = none; email_id = id; response = response }

-- Lines that start no mail are passed over.
list_lines-skip :
    (stale sd : List ℕ) (ls rest : List (List ℕ)) (id : ℕ) (response : List ℕ)
    → All IsBodyLine ls
    → list_lines stale sd (map with_end ls ++ rest) (ready id response)
      ≡ list_lines stale sd rest (ready id response)
unfolding list_lines list_line
list_lines-skip stale sd [] rest id response v = refl
list_lines-skip stale sd (l ∷ ls) rest id response v =
    ap (and_then response (list_lines stale sd (map with_end ls ++ rest)))
      (if_false (starts_mail (with_end l)) _ _ v.0.1)
    ∙ list_lines-skip stale sd ls rest id response v.1

-- The two lines that are read of a mail, and the others.
list_lines-mail :
    (stale sd : List ℕ) (m : Mail) (tail : List (List ℕ)) (id : ℕ) (response : List ℕ)
    → IsMail m
    → IsSender m.sender
    → length response + length (summary id m) < 40959
    → list_lines stale sd
        (with_end (first_line m)
          ∷ (map with_end (second_line m ∷ m.body) ++ (with_end (codes ".") ∷ tail)))
        (ready id response)
      ≡ list_lines stale sd tail (ready (suc id) (response ++ summary id m))
unfolding list_lines list_line add_info email_info
list_lines-mail stale sd m tail id response v w h =
    let rest = list_lines stale sd (map with_end m.body ++ (with_end (codes ".") ∷ tail)) in
    ap
      (λ sender. and_then response rest (
        add_info (record { pending = some sender; email_id = id; response = response }) sender
          (with_end (second_line m))))
      (scan_word-sender m.sender stale w)
    ∙ ap (and_then response rest) (
        if_true (ltb (length response + length (summary id m)) 40959) _ none
          (lt→ltb (length response + length (summary id m)) 40959 h))
    ∙ list_lines-skip stale sd m.body (with_end (codes ".") ∷ tail) (suc id)
        (response ++ summary id m) v.lines

list_lines-summaries :
    (stale sd : List ℕ) (ms : List Mail) (id : ℕ) (response : List ℕ)
    → All IsMail ms
    → All (λ m. IsSender (Mail.sender m)) ms
    → length response + length (summaries id ms) < 40959
    → list_lines stale sd (map with_end (mailbox_lines ms)) (ready id response)
      ≡ response ++ summaries id ms
unfolding list_lines list_line
list_lines-summaries stale sd [] id response v w h = sym (append-nil response)
list_lines-summaries stale sd (m ∷ ms) id response v w h =
    ap (λ ls. list_lines stale sd ls (ready id response)) (lines_apart m (mailbox_lines ms))
    ∙ list_lines-mail stale sd m (map with_end (mailbox_lines ms)) id response v.0 w.0
        (omega (arith, length-append (summary id m) (summaries (suc id) ms)))
    ∙ list_lines-summaries stale sd ms (suc id) (response ++ summary id m) v.1 w.1 (
        omega (
          arith,
          length-append (summary id m) (summaries (suc id) ms),
          length-append response (summary id m),
        ))
    ∙ append_assoc response (summary id m) (summaries (suc id) ms)

-- For a file of mails whose senders have no spaces and whose lines and mails fit their buffers,
-- the listing is the success line and then for each mail in order its number from 1, the first 50
-- bytes of its sender and of its date line, where all that fits the response.
pub list_emails-summaries :
    (stale sd : List ℕ) (files : Files) (recipient : List ℕ) (ms : List Mail)
    → files (filename recipient) ≡ some (mailbox_file ms)
    → All IsMail ms
    → All (λ m. IsSender (Mail.sender m)) ms
    → length (summaries 1 ms) < 40952
    → list_emails stale sd files recipient ≡ codes "200 OK\n" ++ summaries 1 ms
unfolding list_emails list_file
list_emails-summaries stale sd files recipient ms e v w h =
    ap (list_file stale sd) e
    ∙ ap (λ ls. list_lines stale sd ls (ready 1 (codes "200 OK\n")))
        (file_lines-unlines (mailbox_lines ms) (mailbox-IsLine ms v))
    ∙ list_lines-summaries stale sd ms 1 (codes "200 OK\n") v w (omega arith)
