-- ===== src/Cipher/Tests.antt =====
-- A short file through "Assignment 3", cut into other pieces on either way.
use networks_lab_cs39006_spr.Prelude.{
  ℕ, ◌≤◌, ◌≡◌, refl, Bool, true, ◌&&◌, leb, List, [], ◌∷◌, map, codes, All, arith,
}
use networks_lab_cs39006_spr.Cipher.Programs.{
  encrypt, send_file, serve_file, receive_encrypted, check,
}
use networks_lab_cs39006_spr.Cipher.Transfer.{Clean, IsKey, receive_encrypted-serve_file}

abbrev key : List ℕ
key = codes "QWERTYUIOPASDFGHJKLZXCVBNM"

abbrev all_letters : List ℕ → Bool
all_letters [] = true
all_letters (c ∷ cs) = leb 65 c && (leb c 90 && all_letters cs)

all_letters-All : (l : List ℕ) → all_letters l ≡ true → All (λ k. (65 ≤ k) × (k ≤ 90)) l
all_letters-All [] e = tt
all_letters-All (c ∷ cs) e =
    let parts : (65 ≤ c) × (c ≤ 90) × (all_letters cs ≡ true) = ground arith in
    ((parts.0, parts.1), all_letters-All cs parts.2)

key-IsKey : IsKey key
key-IsKey = (refl, all_letters-All key refl)

key_accepted : check key ≡ true
unfolding check
key_accepted = refl

abbrev text : List ℕ
text = codes "Hi!"

text-Clean : Clean text
text-Clean = ((refl, refl), ((refl, refl), ((refl, refl), tt)))

abbrev up : List (List ℕ)
up = codes "Hi" ∷ codes "!#" ∷ []

abbrev down : List (List ℕ)
down = codes "I" ∷ codes "o!#" ∷ []

receive_encrypted-serve_file_example : receive_encrypted down ≡ map (λ c. encrypt c key) text
unfolding send_file serve_file
receive_encrypted-serve_file_example =
    receive_encrypted-serve_file key text up down key-IsKey text-Clean refl refl
