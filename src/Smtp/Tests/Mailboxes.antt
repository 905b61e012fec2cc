-- ===== src/Smtp/Tests/Mailboxes.antt =====
-- A mailbox file of "Assignment 6/mysmtp_server.c" with two mails, and its theorems on it.
use networks_lab_cs39006_spr.Prelude.{
  is_space, ℕ, ◌≡◌, refl, Bool, true, false, not, ◌&&◌, List, [], ◌∷◌, ◌++◌, some, ◌==◌, codes, All,
  arith,
}
use networks_lab_cs39006_spr.Prelude.Decimal.{decimal_digits}
use networks_lab_cs39006_spr.Smtp.Mailbox.{Files, filename, store_email, get_email, list_emails}
use networks_lab_cs39006_spr.Smtp.Lines.{Plain}
use networks_lab_cs39006_spr.Smtp.Stored.{Mail, IsMail, mail_text, mailbox_file}
use networks_lab_cs39006_spr.Smtp.RoundTrip.{get_email-store_email}
use networks_lab_cs39006_spr.Smtp.Listed.{IsSender, summaries, list_emails-summaries}

-- `Plain` by evaluation.
abbrev is_plain : List ℕ → Bool
is_plain [] = true
is_plain (c ∷ cs) = not (c == 10) && (not (c == 0) && is_plain cs)

is_plain-Plain : (l : List ℕ) → is_plain l ≡ true → Plain l
is_plain-Plain [] e = tt
is_plain-Plain (c ∷ cs) e =
    let parts : ((c == 10) ≡ false) × ((c == 0) ≡ false) × (is_plain cs ≡ true) = ground arith in
    ((parts.0, parts.1), is_plain-Plain cs parts.2)

abbrev no_text : List ℕ
no_text = []

abbrev date : List ℕ
date = codes "Mon Mar 10 10:00:00 2025"

abbrev hello_mail : Mail
hello_mail = record {
  sender = codes "ann@example.com";
  date = date;
  body = codes "Hi\r" ∷ no_text ∷ [];
}

abbrev bye_mail : Mail
bye_mail = record {
  sender = codes "eve@example.com";
  date = date;
  body = codes "Bye\r" ∷ no_text ∷ [];
}

hello_mail-IsMail : IsMail hello_mail
hello_mail-IsMail = record {
  first = (is_plain-Plain (codes "From: ann@example.com") refl, omega arith);
  second = (is_plain-Plain (codes "Date: Mon Mar 10 10:00:00 2025") refl, omega arith);
  lines = (
    ((is_plain-Plain (codes "Hi\r") refl, omega arith), refl, refl),
    (((tt, omega arith), refl, refl), tt),
  );
  size = omega arith;
}

bye_mail-IsMail : IsMail bye_mail
bye_mail-IsMail = record {
  first = (is_plain-Plain (codes "From: eve@example.com") refl, omega arith);
  second = (is_plain-Plain (codes "Date: Mon Mar 10 10:00:00 2025") refl, omega arith);
  lines = (
    ((is_plain-Plain (codes "Bye\r") refl, omega arith), refl, refl),
    (((tt, omega arith), refl, refl), tt),
  );
  size = omega arith;
}

abbrev bob : List ℕ
bob = codes "bob@other.org"

abbrev files : Files
files name = some (mailbox_file (hello_mail ∷ []))

get_email-store_email_example :
    get_email (store_email true date bob (codes "eve@example.com") (codes "Bye\r\n") files) bob 2
    ≡ mail_text bye_mail
get_email-store_email_example =
    get_email-store_email files bob (codes "Bye\r\n") (hello_mail ∷ []) bye_mail 1 refl
      (hello_mail-IsMail, tt) bye_mail-IsMail refl (omega arith)

abbrev no_space : List ℕ → Bool
no_space [] = true
no_space (c ∷ cs) = not (is_space c) && no_space cs

no_space-All : (l : List ℕ) → no_space l ≡ true → All (λ c. is_space c ≡ false) l
no_space-All [] e = tt
no_space-All (c ∷ cs) e =
    let parts : (is_space c ≡ false) × (no_space cs ≡ true) = ground arith in
    (parts.0, no_space-All cs parts.1)

ann-IsSender : IsSender (codes "ann@example.com")
ann-IsSender = ((λ e. cc), no_space-All (codes "ann@example.com") refl)

list_emails-summaries_example :
    list_emails no_text no_text files bob ≡ codes "200 OK\n" ++ summaries 1 (hello_mail ∷ [])
unfolding filename decimal_digits
list_emails-summaries_example =
    list_emails-summaries no_text no_text files bob (hello_mail ∷ []) refl (hello_mail-IsMail, tt)
      (ann-IsSender, tt) (omega arith)
