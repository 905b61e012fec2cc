-- ===== src/Smtp/Stored.antt =====
-- What "Assignment 6/mysmtp_server.c" stores in a mailbox file comes back from it by its number.
use networks_lab_cs39006_spr.Prelude.{
  ℕ, suc, ◌+◌, ◌<◌, ◌≡◌, refl, sym, ap, ◌∙◌, true, false, ◌&&◌, List, [], ◌∷◌, ◌++◌, map, some, ltb,
  lt→ltb, ◌==◌, if◌then◌else◌, if_true, if_false, codes, strncmp_eq, length, length-append, All,
  All-append, arith,
}
use mathlib.Core.List.{append_assoc, append-nil}
use networks_lab_cs39006_spr.Smtp.Mailbox.{collect_lines, find_email, starts_mail}
use networks_lab_cs39006_spr.Smtp.Lines.{IsLine, unlines, with_end}

-- A mail as it lies in a file, its body line by line.
pub record Mail : Type 0 where
  pub sender : List ℕ
  pub date : List ℕ
  pub body : List (List ℕ)

abbrev pub first_line : Mail → List ℕ
first_line m = codes "From: " ++ m.sender

abbrev pub second_line : Mail → List ℕ
second_line m = codes "Date: " ++ m.date

-- A line of a body that is not taken for the start or for the end of a mail.
abbrev pub IsBodyLine : List ℕ → Type 0
IsBodyLine l =
    IsLine l × (starts_mail (with_end l) ≡ false) × (strncmp_eq (with_end l) (codes ".") ≡ false)

-- The bytes that a reader is to get.
abbrev pub mail_text : Mail → List ℕ
mail_text m = unlines (first_line m ∷ second_line m ∷ m.body)

-- The lines fit their buffer, and the mail fits the reply's.
pub record IsMail (m : Mail) : Type 0 where
  pub first : IsLine (first_line m)
  pub second : IsLine (second_line m)
  pub lines : All IsBodyLine m.body
  pub size : length (mail_text m) < 40959

abbrev pub mail_lines : Mail → List (List ℕ)
mail_lines m = first_line m ∷ second_line m ∷ (m.body ++ codes "." ∷ [])

abbrev pub mailbox_lines : List Mail → List (List ℕ)
mailbox_lines [] = []
mailbox_lines (m ∷ ms) = mail_lines m ++ mailbox_lines ms

-- A file that holds the mails.
abbrev pub mailbox_file : List Mail → List ℕ
mailbox_file ms = unlines (mailbox_lines ms)

map-append : (f : List ℕ → List ℕ) (xs ys : List (List ℕ)) → map f (xs ++ ys) ≡ map f xs ++ map f ys
map-append f [] ys = refl
map-append f (x ∷ xs) ys = ap (λ r. f x ∷ r) (map-append f xs ys)

body-IsLine : (ls : List (List ℕ)) → All IsBodyLine ls → All IsLine ls
body-IsLine [] v = tt
body-IsLine (l ∷ ls) v = (v.0.0, body-IsLine ls v.1)

dot-IsLine : IsLine (codes ".")
dot-IsLine = (((refl, refl), tt), omega arith)

mail_lines-IsLine : (m : Mail) → IsMail m → All IsLine (mail_lines m)
mail_lines-IsLine m v = (
  v.first,
  (
    v.second,
    All-append IsLine m.body (codes "." ∷ []) (body-IsLine m.body v.lines) (dot-IsLine, tt),
  ),
)

pub mailbox-IsLine : (ms : List Mail) → All IsMail ms → All IsLine (mailbox_lines ms)
mailbox-IsLine [] v = tt
mailbox-IsLine (m ∷ ms) v =
    All-append IsLine (mail_lines m) (mailbox_lines ms) (mail_lines-IsLine m v.0)
      (mailbox-IsLine ms v.1)

-- Lines that start no mail are passed over.
find_email-skip :
    (ls rest : List (List ℕ)) (id current : ℕ)
    → All IsBodyLine ls
    → find_email id current (map with_end ls ++ rest) ≡ find_email id current rest
unfolding find_email
find_email-skip [] rest id current v = refl
find_email-skip (l ∷ ls) rest id current v =
    if_false
      (starts_mail (with_end l)
        && ((if starts_mail (with_end l) then suc current else current) == id))
      _ _ (ap (λ b. b && ((if starts_mail (with_end l) then suc current else current) == id)) v.0.1)
    ∙ ap (λ k. find_email id k (map with_end ls ++ rest))
        (if_false (starts_mail (with_end l)) (suc current) current v.0.1)
    ∙ find_email-skip ls rest id current v.1

-- The inner loop reads the lines up to the dot.
collect-body :
    (ls rest : List (List ℕ)) (content : List ℕ)
    → All IsBodyLine ls
    → length content + length (unlines ls) < 40959
    → collect_lines content (map with_end ls ++ (with_end (codes ".") ∷ rest))
      ≡ content ++ unlines ls
unfolding collect_lines
collect-body [] rest content v h = sym (append-nil content)
collect-body (l ∷ ls) rest content v h =
    let size : length content + length (with_end l) < 40959 =
      omega (arith, length-append l (10 ∷ []), length-append l (10 ∷ unlines ls)) in
    if_false (strncmp_eq (with_end l) (codes ".")) content _ v.0.2
    ∙ if_true (ltb (length content + length (with_end l)) 40959) _ content
        (lt→ltb (length content + length (with_end l)) 40959 size)
    ∙ collect-body ls rest (content ++ with_end l) v.1 (
        omega (
          arith,
          length-append l (10 ∷ []),
          length-append l (10 ∷ unlines ls),
          length-append content (with_end l),
        ))
    ∙ append_assoc content (with_end l) (unlines ls)
    ∙ ap (λ r. content ++ r) (append_assoc l (10 ∷ []) (unlines ls))

-- A mail's lines with those behind it.
pub lines_apart :
    (m : Mail) (rest : List (List ℕ))
    → map with_end (mail_lines m ++ rest)
      ≡ with_end (first_line m)
        ∷ (map with_end (second_line m ∷ m.body) ++ (with_end (codes ".") ∷ map with_end rest))
lines_apart m rest =
    ap (λ ls. with_end (first_line m) ∷ with_end (second_line m) ∷ ls)
      (ap (map with_end) (append_assoc m.body (codes "." ∷ []) rest)
        ∙ map-append with_end m.body (codes "." ∷ rest))

-- The second line is passed over like those of the body.
pub tail_lines : (m : Mail) → IsMail m → All IsBodyLine (second_line m ∷ m.body)
tail_lines m v = ((v.second, refl, refl), v.lines)

pub hit :
    (m : Mail) (tail : List (List ℕ)) (id current : ℕ)
    → IsMail m
    → (suc current == id) ≡ true
    → find_email id current (
        with_end (first_line m)
        ∷ (map with_end (second_line m ∷ m.body) ++ (with_end (codes ".") ∷ tail)))
      ≡ some (mail_text m)
unfolding find_email
hit m tail id current v e =
    if_true (suc current == id) _ _ e
    ∙ ap some (
        collect-body (second_line m ∷ m.body) tail (with_end (first_line m)) (tail_lines m v) (
          omega (
            arith,
            v.size,
            length-append (first_line m) (10 ∷ []),
            length-append (first_line m) (10 ∷ unlines (second_line m ∷ m.body)),
          ))
        ∙ append_assoc (first_line m) (10 ∷ []) (unlines (second_line m ∷ m.body)))

pub miss :
    (m : Mail) (tail : List (List ℕ)) (id current : ℕ)
    → IsMail m
    → (suc current == id) ≡ false
    → find_email id current (
        with_end (first_line m)
        ∷ (map with_end (second_line m ∷ m.body) ++ (with_end (codes ".") ∷ tail)))
      ≡ find_email id (suc current) tail
unfolding find_email
miss m tail id current v e =
    if_false (suc current == id) _ _ e
    ∙ find_email-skip (second_line m ∷ m.body) (with_end (codes ".") ∷ tail) id (suc current)
        (tail_lines m v)
