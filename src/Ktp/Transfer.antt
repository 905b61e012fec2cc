-- ===== src/Ktp/Transfer.antt =====
-- A file that user1.c of "Assignment 4 Final" cuts into messages, as user2.c writes it.
use networks_lab_cs39006_spr.Prelude.{
  ℕ, zero, suc, ◌+◌, ◌<◌, ◌≡◌, ◌⊎◌, inl, inr, refl, sym, ap, ap₂, ◌∙◌, subst, Bool, true, false,
  ◌||◌, List, [], ◌∷◌, ◌++◌, map, Option, none, some, ltb, ◌==◌, if◌then◌else◌, if_true, if_false,
  Bool-cases, length, All, arith,
}
use networks_lab_cs39006_spr.Ktp.Files.{
  Piece, with_byte, fill_piece, before_messages, file_messages, Written, scan_message,
  written_before, save_messages,
}

-- The bytes of a file before the first that is zero or 0xFF.
abbrev pub before_mark : List ℕ → List ℕ
before_mark [] = []
before_mark (c ∷ cs) = let rest = c ∷ before_mark cs in if (c == 0) || (c == 255) then [] else rest

abbrev ended_with : List ℕ → Written
ended_with bytes = record { bytes = bytes; ended = true }

abbrev open_with : List ℕ → Written
open_with bytes = record { bytes = bytes; ended = false }

-- Whether the end stands in the array, and what follows where it does not.
abbrev Filled : (buff file : List ℕ) → Piece → Type 0
Filled buff file p =
    (length p.buff ≡ length buff)
    × (((p.count < length buff) × (scan_message p.buff ≡ ended_with (before_mark file)))
        ⊎ ((p.count ≡ length buff)
            × (length p.left + length buff ≡ length file)
            × ((scan_message p.buff ≡ ended_with (before_mark file))
                ⊎ ((scan_message p.buff ≡ open_with p.buff)
                    × (before_mark file ≡ p.buff ++ before_mark p.left)))))

scan-zero : (cs : List ℕ) → scan_message (0 ∷ cs) ≡ ended_with []
unfolding scan_message
scan-zero cs = refl

scan-other :
    (c : ℕ) (cs : List ℕ)
    → (c == 0) ≡ false
    → scan_message (c ∷ cs)
      ≡ record { bytes = c ∷ (scan_message cs).bytes; ended = (scan_message cs).ended }
unfolding scan_message
scan-other c cs e = if_false (c == 0) _ _ e

Filled-with_byte :
    (b c : ℕ) (bs cs : List ℕ) (p : Piece)
    → (c == 255) ≡ false
    → Filled bs cs p
    → Filled (b ∷ bs) (c ∷ cs) (with_byte c p)
unfolding scan_message
Filled-with_byte b c bs cs p e (size, later) = (
  ap suc size,
  elim (Bool-cases (c == 0)) [
    | inl z ↦
        (let first : scan_message (c ∷ p.buff) ≡ ended_with (before_mark (c ∷ cs)) =
            scan_first z ∙ ap ended_with (sym (mark z)) in
          elim later [
            | inl (count, q) ↦ inl (omega (arith, count), first)
            | inr (count, rest, q) ↦ inr (ap suc count, omega (arith, rest), inl first)
          ])
    | inr z ↦ elim later [
      | inl (count, q) ↦ inl (omega (arith, count), next z q)
      | inr (count, rest, q) ↦ inr (
        ap suc count,
        omega (arith, rest),
        elim q [
          | inl r ↦ inl (next z r)
          | inr (r, f) ↦ inr (
            scan-other c p.buff z
                ∙ ap (λ (w : Written). record { bytes = c ∷ w.bytes; ended = w.ended }) r,
            unmarked z ∙ ap (λ xs. c ∷ xs) f,
          )
        ],
      )
    ]
  ],
)
  where
    scan_first : (c == 0) ≡ true → scan_message (c ∷ p.buff) ≡ ended_with []
    scan_first z = if_true (c == 0) _ _ z

    mark : (c == 0) ≡ true → before_mark (c ∷ cs) ≡ []
    mark z = ap (λ t. if t || (c == 255) then [] else c ∷ before_mark cs) z

    unmarked : (c == 0) ≡ false → before_mark (c ∷ cs) ≡ c ∷ before_mark cs
    unmarked z = ap₂ (λ t u. if t || u then [] else c ∷ before_mark cs) z e

    next :
        (c == 0) ≡ false
        → scan_message p.buff ≡ ended_with (before_mark cs)
        → scan_message (c ∷ p.buff) ≡ ended_with (before_mark (c ∷ cs))
    next z q =
        scan-other c p.buff z
        ∙ ap (λ (w : Written). record { bytes = c ∷ w.bytes; ended = w.ended }) q
        ∙ ap ended_with (sym (unmarked z))

fill_piece-Filled : (buff file : List ℕ) → Filled buff file (fill_piece buff file)
unfolding fill_piece scan_message
fill_piece-Filled [] file = (refl, inr (refl, omega arith, inr (refl, refl)))
fill_piece-Filled (b ∷ bs) [] = (refl, inl (omega arith, refl))
fill_piece-Filled (b ∷ bs) (c ∷ cs) = elim (Bool-cases (c == 255)) [
  | inl e ↦
      (let ended : fill_piece (b ∷ bs) (c ∷ cs) ≡ record { buff = 0 ∷ bs; count = 0; left = cs } =
          if_true (c == 255) _ _ e in
        let mark : before_mark (c ∷ cs) ≡ [] =
          if_true ((c == 0) || (c == 255)) _ _ (or_yes (c == 0) (c == 255) e) in
        subst (Filled (b ∷ bs) (c ∷ cs)) (sym ended)
          (refl, inl (omega arith, ap ended_with (sym mark))))
  | inr e ↦
      (let kept : fill_piece (b ∷ bs) (c ∷ cs) ≡ with_byte c (fill_piece bs cs) =
          if_false (c == 255) _ _ e in
        subst (Filled (b ∷ bs) (c ∷ cs)) (sym kept)
          (Filled-with_byte b c bs cs (fill_piece bs cs) e (fill_piece-Filled bs cs)))
]
  where
    or_yes : (s t : Bool) → t ≡ true → (s || t) ≡ true
    or_yes true t e = refl
    or_yes false t e = e

-- What the calls return but -1.
abbrev pub answers : List (Option (List ℕ)) → List (List ℕ)
answers [] = []
answers (none ∷ results) = answers results
answers (some m ∷ results) = m ∷ answers results

save_messages-answers :
    (results : List (Option (List ℕ)))
    → save_messages results ≡ save_messages (map some (answers results))
unfolding save_messages
save_messages-answers [] = refl
save_messages-answers (none ∷ results) = save_messages-answers results
save_messages-answers (some m ∷ results) =
    ap (written_before (scan_message m)) (save_messages-answers results)

-- What the sender's messages come to.
abbrev Saved : (fuel : ℕ) → (file buff : List ℕ) → Type 0
Saved fuel file buff =
    (ms : List (List ℕ)) × (file_messages fuel file buff ≡ some ms)
    × All (λ m. length m ≡ length buff) ms
    × (save_messages (map some ms) ≡ ended_with (before_mark file))

file_messages-Saved :
    (fuel : ℕ) (file buff : List ℕ) → length file < fuel → 0 < length buff → Saved fuel file buff
unfolding file_messages save_messages
file_messages-Saved zero file buff h l = absurd (omega arith)
file_messages-Saved (suc fuel) file buff h l =
    let p : Piece = fill_piece buff file in
    let (size, filled) = fill_piece-Filled buff file in
    elim filled [
      | inl (count, e) ↦ (
        p.buff ∷ [],
        if_true (ltb p.count (length buff)) _ _ (ground (arith, count)),
        (size, tt),
        ap (λ w. written_before w (save_messages [])) e,
      )
      | inr (count, rest, q) ↦
          (let (ms, e, sizes, saved) =
              file_messages-Saved fuel p.left p.buff (omega (arith, rest)) (omega (arith, size)) in
            (
              p.buff ∷ ms,
              if_false (ltb p.count (length buff)) _ _ (ground (arith, count))
                  ∙ ap (before_messages p.buff) e,
              (size, subst (λ n. All (λ m. length m ≡ n) ms) size sizes),
              elim q [
                | inl r ↦ ap (λ w. written_before w (save_messages (map some ms))) r
                | inr (r, f) ↦ ap₂ written_before r saved ∙ ap ended_with (sym f)
              ],
            ))
    ]

-- Whatever the file and the sending application's array of 512 bytes, one round of its loop more
-- than the file has bytes is enough; its messages have 512 bytes each, and from calls that return
-- just these messages in order, with any number of calls between them that return -1, the
-- receiving application writes exactly the bytes before the file's first that is NUL or 0xFF, all
-- of them where there is none, and sees the end.
pub save_messages-file_messages :
    (file buff : List ℕ)
    → length buff ≡ 512
    → (ms : List (List ℕ)) × (file_messages (suc (length file)) file buff ≡ some ms)
      × All (λ m. length m ≡ 512) ms
      × ((results : List (Option (List ℕ)))
          → answers results ≡ ms
          → save_messages results ≡ record { bytes = before_mark file; ended = true })
save_messages-file_messages file buff h =
    let (ms, e, sizes, saved) =
      file_messages-Saved (suc (length file)) file buff (omega arith) (omega (arith, h)) in
    (
      ms,
      e,
      subst (λ n. All (λ m. length m ≡ n) ms) h sizes,
      λ results same.
          save_messages-answers results ∙ ap (λ xs. save_messages (map some xs)) same ∙ saved,
    )
