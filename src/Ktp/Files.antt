-- ===== src/Ktp/Files.antt =====
-- The applications user1.c and user2.c of "Assignment 4 Final": a file in messages of 512 bytes.
use networks_lab_cs39006_spr.Prelude.{
  ℕ, zero, suc, Bool, true, false, List, [], ◌∷◌, ◌++◌, Option, none, some, ltb, ◌==◌,
  if◌then◌else◌, length,
}

-- What is in the array, how many bytes were put there, and what is left of the file.
pub record Piece : Type 0 where
  pub buff : List ℕ
  pub count : ℕ
  pub left : List ℕ

abbrev pub with_byte : ℕ → Piece → Piece
with_byte c p = record { buff = c ∷ p.buff; count = suc p.count; left = p.left }

-- The `for` loop of user1.c over the array. A byte of 0xFF in a `char` is equal to EOF too.
unfoldable pub fill_piece : List ℕ → List ℕ → Piece
fill_piece [] file = record { buff = []; count = 0; left = file }
fill_piece (b ∷ bs) [] = record { buff = 0 ∷ bs; count = 0; left = [] }
fill_piece (b ∷ bs) (c ∷ cs) =
    let rest = with_byte c (fill_piece bs cs) in
    if c == 255 then record { buff = 0 ∷ bs; count = 0; left = cs } else rest

abbrev pub before_messages : List ℕ → Option (List (List ℕ)) → Option (List (List ℕ))
before_messages m none = none
before_messages m (some ms) = some (m ∷ ms)

-- The messages that user1.c sends, each again until it is accepted; `none` means that the fuel ran out.
unfoldable pub file_messages : (fuel : ℕ) → (file buff : List ℕ) → Option (List (List ℕ))
unfolding fill_piece
file_messages zero file buff = none
file_messages (suc fuel) file buff =
    let p = fill_piece buff file in
    let rest = before_messages p.buff (file_messages fuel p.left p.buff) in
    if ltb p.count (length buff) then some (p.buff ∷ []) else rest

-- What is written to the file, and whether the end was found.
pub record Written : Type 0 where
  pub bytes : List ℕ
  pub ended : Bool

-- The `for` loop of user2.c.
unfoldable pub scan_message : List ℕ → Written
scan_message [] = record { bytes = []; ended = false }
scan_message (c ∷ cs) =
    let rest = scan_message cs in
    if c == 0
    then record { bytes = []; ended = true }
    else record { bytes = c ∷ rest.bytes; ended = rest.ended }

abbrev pub written_before : Written → Written → Written
written_before w rest =
    if w.ended then w else record { bytes = w.bytes ++ rest.bytes; ended = rest.ended }

-- The loop of user2.c over what `k_recvfrom` returns, where `none` is -1.
unfoldable pub save_messages : List (Option (List ℕ)) → Written
unfolding scan_message
save_messages [] = record { bytes = []; ended = false }
save_messages (none ∷ results) = save_messages results
save_messages (some m ∷ results) = written_before (scan_message m) (save_messages results)
