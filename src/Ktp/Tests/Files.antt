-- ===== src/Ktp/Tests/Files.antt =====
-- A file of 513 bytes with a byte 0xFF near its end.
use networks_lab_cs39006_spr.Prelude.{
  ℕ, suc, ◌≡◌, refl, true, List, [], ◌∷◌, ◌++◌, Option, some, length, All, replicate,
}
use networks_lab_cs39006_spr.Ktp.Files.{file_messages, save_messages}
use networks_lab_cs39006_spr.Ktp.Transfer.{before_mark, answers, save_messages-file_messages}

abbrev text : List ℕ
text = replicate 512 65 ++ (66 ∷ 255 ∷ 67 ∷ [])

abbrev array : List ℕ
array = replicate 512 0

save_messages-file_messages_example :
    (ms : List (List ℕ)) × (file_messages (suc (length text)) text array ≡ some ms)
    × All (λ m. length m ≡ 512) ms
    × ((results : List (Option (List ℕ)))
        → answers results ≡ ms
        → save_messages results ≡ record { bytes = before_mark text; ended = true })
save_messages-file_messages_example = save_messages-file_messages text array refl
