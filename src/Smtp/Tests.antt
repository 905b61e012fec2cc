-- ===== src/Smtp/Tests.antt =====
-- A dialogue with the server of "Assignment 6/mysmtp_server.c", and its theorems on it.
mod Mailboxes
use networks_lab_cs39006_spr.Prelude.{◌↔◌, ℕ, ◌≡◌, true, List, [], ◌∷◌, codes, All}
use networks_lab_cs39006_spr.Smtp.Address.{check_valid_email}
use networks_lab_cs39006_spr.Smtp.State.{new_session}
use networks_lab_cs39006_spr.Smtp.Session.{Received, bytes, handle_client}
use networks_lab_cs39006_spr.Smtp.Valid.{Permitted}
use networks_lab_cs39006_spr.Smtp.Permitted.{handle_client-Permitted}
use networks_lab_cs39006_spr.Smtp.Domain.{IsAddress, check_valid_email_iff}

abbrev no_bytes : List ℕ
no_bytes = []

abbrev says : List ℕ → List ℕ × Received
says text = (no_bytes, bytes text)

abbrev dialogue : List (List ℕ × Received)
dialogue =
    says (codes "HELO example.com")
    ∷ says (codes "MAIL FROM: ann@example.com")
    ∷ says (codes "RCPT TO: bob@other.org")
    ∷ says (codes "DATA")
    ∷ says (codes "Hi\r\n")
    ∷ says (codes ".\r\n")
    ∷ says (codes "LIST ann@example.com")
    ∷ says (codes "QUIT")
    ∷ []

handle_client-Permitted_example :
    (d : List ℕ) × All (Permitted d) (handle_client new_session dialogue)
handle_client-Permitted_example = handle_client-Permitted dialogue

check_valid_email_iff_example :
    (check_valid_email (codes "ann@example.com") ≡ true) ↔ IsAddress (codes "ann@example.com")
check_valid_email_iff_example = check_valid_email_iff (codes "ann@example.com")
