-- ===== src/Smtp/Lines.antt =====
-- How "Assignment 6/mysmtp_server.c" reads a file line by line: lines that fit come back as they are.
use networks_lab_cs39006_spr.Prelude.{
  ℕ, zero, suc, ◌-◌, ◌≤◌, ◌≡◌, refl, ap, ap₂, ◌∙◌, false, ◌||◌, List, [], ◌∷◌, ◌++◌, map, ◌==◌,
  if_false, cstring, length, All, arith,
}
use networks_lab_cs39006_spr.Smtp.Mailbox.{line_room, cons_first, pieces, file_lines}

-- Neither an end of line nor a NUL.
abbrev pub Plain : List ℕ → Type 0
Plain l = All (λ c. ((c == 10) ≡ false) × ((c == 0) ≡ false)) l

-- A line without its end that fits the buffer.
abbrev pub IsLine : List ℕ → Type 0
IsLine l = Plain l × (length l ≤ line_room)

abbrev pub unlines : List (List ℕ) → List ℕ
unlines [] = []
unlines (l ∷ ls) = l ++ 10 ∷ unlines ls

abbrev pub with_end : List ℕ → List ℕ
with_end l = l ++ 10 ∷ []

pieces-line :
    (l rest : List ℕ) (n : ℕ)
    → Plain l
    → length l ≤ n
    → pieces n (l ++ 10 ∷ rest) ≡ with_end l ∷ pieces line_room rest
unfolding pieces
pieces-line [] rest n v h = refl
pieces-line (c ∷ l) rest zero v h = absurd (omega arith)
pieces-line (c ∷ l) rest (suc n) v h =
    let on : ((c == 10) || (suc n == 0)) ≡ false = ground (arith, v.0.0) in
    if_false ((c == 10) || (suc n == 0)) _ _ on
    ∙ ap (λ k. cons_first c (pieces k (l ++ 10 ∷ rest)))
        (if_false ((c == 10) || (suc n == 0)) line_room (suc n - 1) on
          ∙ (let less : suc n - 1 ≡ n = omega arith in less))
    ∙ ap (cons_first c) (pieces-line l rest n v.1 (omega arith))

cstring-line : (l : List ℕ) → Plain l → cstring (with_end l) ≡ with_end l
cstring-line [] v = refl
cstring-line (c ∷ l) v = if_false (c == 0) [] _ v.0.1 ∙ ap (λ r. c ∷ r) (cstring-line l v.1)

pub file_lines-unlines :
    (ls : List (List ℕ)) → All IsLine ls → file_lines (unlines ls) ≡ map with_end ls
unfolding file_lines pieces
file_lines-unlines [] v = refl
file_lines-unlines (l ∷ ls) v =
    ap (map cstring) (pieces-line l (unlines ls) line_room v.0.0 v.0.1)
    ∙ ap₂ (λ x xs. x ∷ xs) (cstring-line l v.0.0) (file_lines-unlines ls v.1)
