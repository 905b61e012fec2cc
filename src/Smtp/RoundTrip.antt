-- ===== src/Smtp/RoundTrip.antt =====
-- `store_email` and `get_email` of "Assignment 6/mysmtp_server.c" together.
use networks_lab_cs39006_spr.Prelude.{
  ℕ, zero, suc, ◌+◌, ◌<◌, ◌≤◌, ◌≡◌, refl, sym, ap, ◌∙◌, true, List, [], ◌∷◌, ◌++◌, map, Option,
  none, some, ◌==◌, ==-ne, if◌then◌else◌, if_true, if_false, codes, strcmp_eq, strcmp_eq_refl,
  length, All, All-append, arith,
}
use mathlib.Core.List.{append_assoc, append-nil}
use native.Mathlib.Decide.{ℕ_discrete}
use networks_lab_cs39006_spr.Smtp.Mailbox.{
  Files, filename, entry, append_to, store_email, find_email, found_reply, read_email, get_email,
}
use networks_lab_cs39006_spr.Smtp.Lines.{unlines, with_end, file_lines-unlines}
use networks_lab_cs39006_spr.Smtp.Stored.{
  Mail, IsMail, mail_text, mail_lines, mailbox_lines, mailbox_file, mailbox-IsLine, lines_apart,
  hit, miss,
}

-- The mail with a number, from 0.
abbrev pub text_of : List Mail → ℕ → Option (List ℕ)
text_of [] k = none
text_of (m ∷ ms) zero = some (mail_text m)
text_of (m ∷ ms) (suc k) = text_of ms k

find_email-text_of :
    (ms : List Mail) (k id current : ℕ)
    → All IsMail ms
    → id ≡ suc (current + k)
    → find_email id current (map with_end (mailbox_lines ms)) ≡ text_of ms k
unfolding find_email
find_email-text_of [] k id current v e = refl
find_email-text_of (m ∷ ms) zero id current v e =
    ap (find_email id current) (lines_apart m (mailbox_lines ms))
    ∙ hit m (map with_end (mailbox_lines ms)) id current v.0 (ground arith)
find_email-text_of (m ∷ ms) (suc k) id current v e =
    ap (find_email id current) (lines_apart m (mailbox_lines ms))
    ∙ miss m (map with_end (mailbox_lines ms)) id current v.0 (ground arith)
    ∙ find_email-text_of ms k id (suc current) v.1 (omega arith)

pub read_email-text_of :
    (ms : List Mail) (k : ℕ)
    → All IsMail ms
    → read_email (suc k) (some (mailbox_file ms)) ≡ found_reply (text_of ms k)
unfolding read_email
read_email-text_of ms k v = ap found_reply (
    ap (find_email (suc k) 0) (file_lines-unlines (mailbox_lines ms) (mailbox-IsLine ms v))
    ∙ find_email-text_of ms k (suc k) 0 v (omega arith))

unlines-append : (xs ys : List (List ℕ)) → unlines (xs ++ ys) ≡ unlines xs ++ unlines ys
unlines-append [] ys = refl
unlines-append (x ∷ xs) ys =
    ap (λ r. x ++ 10 ∷ r) (unlines-append xs ys)
    ∙ sym (append_assoc x (10 ∷ unlines xs) (unlines ys))

mailbox_lines-append :
    (xs ys : List Mail) → mailbox_lines (xs ++ ys) ≡ mailbox_lines xs ++ mailbox_lines ys
mailbox_lines-append [] ys = refl
mailbox_lines-append (x ∷ xs) ys =
    ap (λ r. mail_lines x ++ r) (mailbox_lines-append xs ys)
    ∙ sym (append_assoc (mail_lines x) (mailbox_lines xs) (mailbox_lines ys))

-- What is appended to the file is the mail's lines.
entry_lines :
    (m : Mail) (message : List ℕ)
    → message ++ 10 ∷ [] ≡ unlines m.body
    → entry m.sender m.date message ≡ unlines (mail_lines m)
unfolding entry
entry_lines m message e =
    ap (λ r. codes "From: " ++ (m.sender ++ (codes "\nDate: " ++ (m.date ++ (codes "\n" ++ r)))))
      (sym (append_assoc message (10 ∷ []) (46 ∷ 10 ∷ []))
        ∙ ap (λ r. r ++ (46 ∷ 10 ∷ [])) e
        ∙ sym (unlines-append m.body (codes "." ∷ [])))

appended :
    (ms : List Mail) (m : Mail) (message : List ℕ)
    → message ++ 10 ∷ [] ≡ unlines m.body
    → mailbox_file ms ++ entry m.sender m.date message ≡ mailbox_file (ms ++ m ∷ [])
appended ms m message e =
    ap (λ r. mailbox_file ms ++ r) (entry_lines m message e)
    ∙ sym (unlines-append (mailbox_lines ms) (mail_lines m))
    ∙ ap unlines (
        ap (λ r. mailbox_lines ms ++ r) (sym (append-nil (mail_lines m)))
        ∙ sym (mailbox_lines-append ms (m ∷ [])))

-- The file holds the mails; with none it need not exist.
abbrev pub Holds : Option (List ℕ) → List Mail → Type 0
Holds none ms = ms ≡ []
Holds (some file) ms = file ≡ mailbox_file ms

stored :
    (o : Option (List ℕ)) (ms : List Mail) (m : Mail) (message : List ℕ)
    → Holds o ms
    → message ++ 10 ∷ [] ≡ unlines m.body
    → append_to o (entry m.sender m.date message) ≡ some (mailbox_file (ms ++ m ∷ []))
unfolding append_to
stored none ms m message h e =
    ap some (appended [] m message e) ∙ ap (λ xs. some (mailbox_file (xs ++ m ∷ []))) (sym h)
stored (some file) ms m message h e =
    ap (λ f. some (f ++ entry m.sender m.date message)) h ∙ ap some (appended ms m message e)

read_before :
    (o : Option (List ℕ)) (ms : List Mail) (k : ℕ)
    → All IsMail ms
    → Holds o ms
    → k < length ms
    → read_email (suc k) o ≡ found_reply (text_of ms k)
read_before none ms k v h lt = absurd (omega (arith, ap length h))
read_before (some file) ms k v h lt =
    ap (λ f. read_email (suc k) (some f)) h ∙ read_email-text_of ms k v

text_of-last : (ms : List Mail) (m : Mail) → text_of (ms ++ m ∷ []) (length ms) ≡ some (mail_text m)
text_of-last [] m = refl
text_of-last (x ∷ ms) m = text_of-last ms m

text_of-first :
    (ms : List Mail) (m : Mail) (k : ℕ) → k < length ms → text_of (ms ++ m ∷ []) k ≡ text_of ms k
text_of-first [] m k h = absurd (omega arith)
text_of-first (x ∷ ms) m zero h = refl
text_of-first (x ∷ ms) m (suc k) h = text_of-first ms m k (omega arith)

-- For a mailbox file with some mails, or none yet, a further mail that is stored is what the next
-- number then gets, byte for byte without its closing dot, and every smaller number gets what it
-- got before, where no line of a mail starts with a dot or with From:, and the lines and mails fit
-- their buffers.
pub get_email-store_email :
    (files : Files) (recipient message : List ℕ) (ms : List Mail) (m : Mail) (k : ℕ)
    → Holds (files (filename recipient)) ms
    → All IsMail ms
    → IsMail m
    → message ++ 10 ∷ [] ≡ unlines m.body
    → k ≤ length ms
    → get_email (store_email true m.date recipient m.sender message files) recipient (suc k)
      ≡ (if k == length ms then mail_text m else get_email files recipient (suc k))
unfolding get_email store_email found_reply
get_email-store_email files recipient message ms m k h vs v e le =
    let file : (if strcmp_eq (filename recipient) (filename recipient)
          then append_to (files (filename recipient)) (entry m.sender m.date message)
          else files (filename recipient))
        ≡ some (mailbox_file (ms ++ m ∷ [])) =
      if_true (strcmp_eq (filename recipient) (filename recipient)) _ _
        (strcmp_eq_refl (filename recipient))
      ∙ stored (files (filename recipient)) ms m message h e in
    let after =
      ap (read_email (suc k)) file
      ∙ read_email-text_of (ms ++ m ∷ []) k (All-append IsMail ms (m ∷ []) vs (v, tt)) in
    elim (ℕ_discrete k (length ms)) [
      | yes same ↦
          after
          ∙ ap found_reply (ap (text_of (ms ++ m ∷ [])) same ∙ text_of-last ms m)
          ∙ sym (if_true (k == length ms) (mail_text m) _ (ground arith))
      | no other ↦
          after
          ∙ ap found_reply (text_of-first ms m k (omega arith))
          ∙ sym (read_before (files (filename recipient)) ms k vs h (omega arith))
          ∙ sym (if_false (k == length ms) (mail_text m) _ (==-ne k (length ms) other))
    ]
