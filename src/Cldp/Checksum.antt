-- ===== src/Cldp/Checksum.antt =====
-- What `checksum` of "Assignment 7/cldp_server.c" guarantees: a header with its checksum verifies.
use networks_lab_cs39006_spr.Prelude.{
  ℕ, zero, suc, ◌+◌, ◌-◌, ◌*◌, ◌/◌, ◌%◌, ◌^◌, ◌≤◌, ◌<◌, ◌≡◌, refl, sym, ap, ◌∙◌, List, [], ◌∷◌,
  take, length, length-set, set, get_elem?, some, some-injective, All, arith,
}
use networks_lab_cs39006_spr.Cldp.Wire.{
  sum_words, fold_carry, carry_fuel, checksum, IpHeader, ip_bytes, words, with_check,
}

abbrev pub IsWord : ℕ → Type 0
IsWord w = w < 2 ^ 16

-- The sum in natural numbers.
abbrev pub total : List ℕ → ℕ
total [] = 0
total (w ∷ ws) = w + total ws

-- x
pub fold_carry_ends : (s : ℕ) → s < 2 ^ 32 → fold_carry carry_fuel s < 2 ^ 16
unfolding fold_carry
fold_carry_ends s h = ground arith

-- The folded sum is the sum modulo 65535, and 0 only for 0.
fold_verifies :
    (s : ℕ)
    → s + 65535 < 2 ^ 32
    → fold_carry carry_fuel (s + (65535 - fold_carry carry_fuel s)) ≡ 65535
unfolding fold_carry
fold_verifies s h = ground arith

sum_words-total : (ws : List ℕ) (s : ℕ) → s + total ws < 2 ^ 32 → sum_words s ws ≡ s + total ws
unfolding sum_words
sum_words-total [] s h = omega arith
sum_words-total (w ∷ ws) s h = omega (arith, sum_words-total ws ((s + w) % 2 ^ 32) (omega arith))

total-bound : (ws : List ℕ) → All IsWord ws → total ws ≤ length ws * 65535
total-bound [] v = omega arith
total-bound (w ∷ ws) v = omega (arith, total-bound ws v.1, v.0)

take_all : (ws : List ℕ) → take (length ws) ws ≡ ws
take_all [] = refl
take_all (w ∷ ws) = ap (λ r. w ∷ r) (take_all ws)

total-set : (ws : List ℕ) (i c : ℕ) → get_elem? ws i ≡ some 0 → total (set ws i c) ≡ total ws + c
total-set [] i c e = cc
total-set (w ∷ ws) zero c e = omega (arith, some-injective w 0 e)
total-set (w ∷ ws) (suc i) c e = omega (arith, total-set ws i c e)

-- The checksum of some words, from their sum.
checksum-total :
    (ws : List ℕ) (n : ℕ)
    → n ≡ length ws
    → total ws < 2 ^ 32
    → checksum ws n ≡ 65535 - fold_carry carry_fuel (total ws)
unfolding checksum
checksum-total ws n e h =
    let same : sum_words 0 (take n ws) ≡ total ws =
      ap (λ k. sum_words 0 (take k ws)) e
      ∙ ap (sum_words 0) (take_all ws)
      ∙ sum_words-total ws 0 (omega arith)
      ∙ (let plain : 0 + total ws ≡ total ws = omega arith in plain) in
    ap (λ s. (2 ^ 32 - 1 - fold_carry carry_fuel s) % 2 ^ 16) same
    ∙ omega (arith, fold_carry_ends (total ws) h)

-- x
pub checksum-set :
    (ws : List ℕ) (i : ℕ)
    → All IsWord ws
    → length ws ≤ 65535
    → get_elem? ws i ≡ some 0
    → (checksum ws (length ws) < 2 ^ 16)
      × (checksum (set ws i (checksum ws (length ws))) (length ws) ≡ 0)
checksum-set ws i v l e =
    let bound = total-bound ws v in
    let c = checksum ws (length ws) in
    let small : total ws + 65535 < 2 ^ 32 = omega arith in
    let value : c ≡ 65535 - fold_carry carry_fuel (total ws) =
      checksum-total ws (length ws) refl (omega arith) in
    let whole : total (set ws i c) ≡ total ws + (65535 - fold_carry carry_fuel (total ws)) =
      total-set ws i c e ∙ ap (λ k. total ws + k) value in
    (
      omega arith,
      checksum-total (set ws i c) (length ws) (sym (length-set ws i c)) (omega arith)
          ∙ ap (λ s. 65535 - fold_carry carry_fuel s) whole
          ∙ ap (λ s. 65535 - s) (fold_verifies (total ws) small),
    )

words-IsWord : (h : IpHeader) → All IsWord (words (ip_bytes h))
words-IsWord h = omega arith

-- For an IP header of 20 bytes whose check field is zero, the checksum fits 16 bits, and the
-- header with it stored has checksum zero.
pub with_check-verifies :
    (h : IpHeader)
    → h.ihl ≡ 5
    → h.check ≡ 0
    → (checksum (words (ip_bytes h)) 10 < 2 ^ 16)
      × (checksum (words (ip_bytes (with_check h))) 10 ≡ 0)
unfolding with_check
with_check-verifies h five zero_check =
    let c = checksum (words (ip_bytes h)) (h.ihl * 2) in
    let good =
      checksum-set (words (ip_bytes h)) 5 (words-IsWord h) (omega arith) (simp (zero_check) refl) in
    let ten : h.ihl * 2 ≡ 10 = omega arith in
    let stored : c % 256 + c / 256 % 256 * 256 ≡ checksum (words (ip_bytes h)) 10 =
      ap
        (λ k.
          checksum (words (ip_bytes h)) k % 256 + checksum (words (ip_bytes h)) k / 256 % 256 * 256)
        ten
      ∙ omega (arith, good.0) in
    (good.0, ap (λ w. checksum (set (words (ip_bytes h)) 5 w) 10) stored ∙ good.1)
