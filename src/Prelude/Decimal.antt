-- ===== src/Prelude/Decimal.antt =====
-- How `printf` writes a number with `%d` and `strtol` reads it back.
use Prim.Native.Nat.{ℕ, zero, suc, ◌+◌, ◌-◌, ◌*◌, ◌/◌, ◌%◌, ◌^◌, ◌≤◌, ◌<◌}
use mathlib.Core.Bool.{Bool, true, false, ◌&&◌}
use mathlib.Core.List.{List, [], ◌∷◌, ◌++◌}
use mathlib.Core.Option.{Option, none, some}
use mathlib.Core.Path.{◌≡◌, refl, sym, ap, ◌∙◌}
use native.Mathlib.Omega.{arith}
use native.Mathlib.Nat.{pow-suc}
use networks_lab_cs39006_spr.Prelude.Tests.{
  ltb, leb, ◌==◌, if◌then◌else◌, if_true, if_false, if_map, if_split, ltb→lt, lt→ltb,
}
use networks_lab_cs39006_spr.Prelude.Text.{is_space, skip_spaces, cstring}
use networks_lab_cs39006_spr.Prelude.Lists.{length, All}

-- `%d` of a number with at most ten digits.
unfoldable pub decimal_digits : ℕ → ℕ → List ℕ → List ℕ
decimal_digits zero n digits = digits
decimal_digits (suc fuel) n digits =
    let rest = decimal_digits fuel (n / 10) ((48 + n % 10) ∷ digits) in
    if ltb n 10 then (48 + n) ∷ digits else rest

abbrev pub decimal : ℕ → List ℕ
decimal n = decimal_digits 10 n []

abbrev pub is_digit : ℕ → Bool
is_digit c = leb 48 c && leb c 57

-- The number that the digits at the front spell behind `acc`.
unfoldable pub digits_value : ℕ → List ℕ → ℕ
digits_value acc [] = acc
digits_value acc (c ∷ cs) =
    let more = digits_value (acc * 10 + (c - 48)) cs in if is_digit c then more else acc

abbrev pub digits : List ℕ → Option ℕ
digits [] = none
digits (c ∷ cs) = if is_digit c then some (digits_value 0 (c ∷ cs)) else none

abbrev pub with_sign : Bool → Option ℕ → Option (Bool × ℕ)
with_sign negative none = none
with_sign negative (some n) = some (negative, n)

abbrev pub signed : List ℕ → Option (Bool × ℕ)
signed [] = none
signed (c ∷ cs) =
    if c == b'-'
    then with_sign true (digits cs)
    else if c == b'+'
    then with_sign false (digits cs)
    else with_sign false (digits (c ∷ cs))

-- `strtol(text, &end, 10)`: `none` where it finds no number, else whether it is negative, and its
-- digits' value. A number past the range of `long` stays as large as it is.
unfoldable pub strtol : List ℕ → Option (Bool × ℕ)
unfolding digits_value
strtol text = signed (skip_spaces text)

digits_value-digit :
    (acc d : ℕ) (text : List ℕ)
    → d < 10
    → digits_value acc ((48 + d) ∷ text) ≡ digits_value (acc * 10 + d) text
unfolding digits_value
digits_value-digit acc d text h =
    if_true (is_digit (48 + d)) _ acc (ground arith)
    ∙ ap (λ k. digits_value k text)
        (let same : acc * 10 + (48 + d - 48) ≡ acc * 10 + d = omega arith in same)

-- Digits in front of a text are read before it.
digits_value-decimal_digits :
    (fuel n : ℕ) (text : List ℕ)
    → n < 10 ^ suc fuel
    → digits_value 0 (decimal_digits (suc fuel) n text) ≡ digits_value n text
unfolding decimal_digits
digits_value-decimal_digits zero n text h =
    ap (digits_value 0) (if_true (ltb n 10) ((48 + n) ∷ text) _ (lt→ltb n 10 (omega arith)))
    ∙ digits_value-digit 0 n text (omega arith)
    ∙ ap (λ k. digits_value k text) (let same : 0 * 10 + n ≡ n = omega arith in same)
digits_value-decimal_digits (suc fuel) n text h =
    if_split (λ ds. digits_value 0 ds ≡ digits_value n text) (ltb n 10) _ _
      (λ e.
        digits_value-digit 0 n text (ltb→lt n 10 e)
        ∙ ap (λ k. digits_value k text) (let same : 0 * 10 + n ≡ n = omega arith in same))
      (λ e.
        digits_value-decimal_digits fuel (n / 10) ((48 + n % 10) ∷ text)
          (omega (arith, pow-suc 10 (suc fuel)))
        ∙ digits_value-digit (n / 10) (n % 10) text (omega arith)
        ∙ ap (λ k. digits_value k text) (let same : n / 10 * 10 + n % 10 ≡ n = omega arith in same))

-- A text that begins with a digit.
unfoldable pub Digits : List ℕ → Type 0
Digits text = (d : ℕ) × (rest : List ℕ) × (text ≡ d ∷ rest) × (is_digit d ≡ true)

decimal_digits-Digits :
    (fuel n : ℕ) (text : List ℕ) → Digits text → Digits (decimal_digits fuel n text)
unfolding decimal_digits Digits
decimal_digits-Digits zero n text v = v
decimal_digits-Digits (suc fuel) n text v =
    if_split Digits (ltb n 10) _ _ (λ e. (48 + n, text, refl, ground arith))
      (λ e.
        decimal_digits-Digits fuel (n / 10) ((48 + n % 10) ∷ text)
          (48 + n % 10, text, refl, ground arith))

pub decimal_digits-Digits_ten : (n : ℕ) (text : List ℕ) → Digits (decimal_digits 10 n text)
unfolding decimal_digits Digits
decimal_digits-Digits_ten n text =
    if_split Digits (ltb n 10) _ _ (λ e. (48 + n, text, refl, ground arith))
      (λ e.
        decimal_digits-Digits 9 (n / 10) ((48 + n % 10) ∷ text)
          (48 + n % 10, text, refl, ground arith))

strtol-digit :
    (d : ℕ) (rest : List ℕ)
    → is_digit d ≡ true
    → strtol (d ∷ rest) ≡ some (false, digits_value 0 (d ∷ rest))
unfolding strtol
strtol-digit d rest e =
    ap signed (if_false (is_space d) (skip_spaces rest) (d ∷ rest) (ground arith))
    ∙ if_false (d == b'-') _ _ (ground arith)
    ∙ if_false (d == b'+') _ _ (ground arith)
    ∙ ap (with_sign false) (if_true (is_digit d) _ none e)

strtol-Digits : (text : List ℕ) → Digits text → strtol text ≡ some (false, digits_value 0 text)
unfolding Digits
strtol-Digits text (d, rest, e, h) =
    ap strtol e ∙ strtol-digit d rest h ∙ ap (λ t. some (false, digits_value 0 t)) (sym e)

length-decimal_digits :
    (fuel n : ℕ) (text : List ℕ) → length (decimal_digits fuel n text) ≤ fuel + length text
unfolding decimal_digits
length-decimal_digits zero n text = omega arith
length-decimal_digits (suc fuel) n text =
    let more : List ℕ = (48 + n % 10) ∷ text in
    if_split (λ ds. length ds ≤ suc fuel + length text) (ltb n 10) ((48 + n) ∷ text)
      (decimal_digits fuel (n / 10) more) (λ e. omega arith)
      (λ e. omega (arith, length-decimal_digits fuel (n / 10) more))

cstring-digit : (d : ℕ) (text : List ℕ) → cstring ((48 + d) ∷ text) ≡ (48 + d) ∷ cstring text
cstring-digit d text = if_false (48 + d == 0) [] _ (ground arith)

cstring-decimal_digits :
    (fuel n : ℕ) (text : List ℕ)
    → cstring text ≡ text
    → cstring (decimal_digits fuel n text) ≡ decimal_digits fuel n text
unfolding decimal_digits
cstring-decimal_digits zero n text v = v
cstring-decimal_digits (suc fuel) n text v =
    if_split (λ ds. cstring ds ≡ ds) (ltb n 10) _ _
      (λ e. cstring-digit n text ∙ ap (λ r. (48 + n) ∷ r) v)
      (λ e.
        cstring-decimal_digits fuel (n / 10) ((48 + n % 10) ∷ text)
          (cstring-digit (n % 10) text ∙ ap (λ r. (48 + n % 10) ∷ r) v))

-- At most ten bytes are printed, and no NUL.
pub length-decimal : (n : ℕ) → length (decimal n) ≤ 10
length-decimal n = omega (arith, length-decimal_digits 10 n [])

pub cstring-decimal : (n : ℕ) → cstring (decimal n) ≡ decimal n
cstring-decimal n = cstring-decimal_digits 10 n [] refl

-- A number of at most ten digits is read back, also where more follows.
pub strtol-decimal_digits :
    (n : ℕ) (text : List ℕ)
    → n < 10 ^ 10
    → strtol (decimal_digits 10 n text) ≡ some (false, digits_value n text)
strtol-decimal_digits n text h =
    strtol-Digits (decimal_digits 10 n text) (decimal_digits-Digits_ten n text)
    ∙ ap (λ k. some (false, k)) (digits_value-decimal_digits 9 n text h)

pub strtol-decimal : (n : ℕ) → n < 10 ^ 10 → strtol (decimal n) ≡ some (false, n)
unfolding digits_value
strtol-decimal n h = strtol-decimal_digits n [] h

pub decimal_digits-append :
    (fuel n : ℕ) (text rest : List ℕ)
    → decimal_digits fuel n text ++ rest ≡ decimal_digits fuel n (text ++ rest)
unfolding decimal_digits
decimal_digits-append zero n text rest = refl
decimal_digits-append (suc fuel) n text rest =
    if_map (λ ds. ds ++ rest) (ltb n 10) _ _
    ∙ ap (λ ds. if ltb n 10 then (48 + n) ∷ text ++ rest else ds)
        (decimal_digits-append fuel (n / 10) ((48 + n % 10) ∷ text) rest)

-- What holds of every digit holds of all that is printed.
pub decimal_digits-All :
    (P : ℕ → Type 0) (fuel n : ℕ) (text : List ℕ)
    → ((d : ℕ) → d < 10 → P (48 + d))
    → All P text
    → All P (decimal_digits fuel n text)
unfolding decimal_digits
decimal_digits-All P zero n text p v = v
decimal_digits-All P (suc fuel) n text p v =
    if_split (All P) (ltb n 10) ((48 + n) ∷ text)
      (decimal_digits fuel (n / 10) ((48 + n % 10) ∷ text)) (λ e. (p n (ltb→lt n 10 e), v))
      (λ e.
        decimal_digits-All P fuel (n / 10) ((48 + n % 10) ∷ text) p (p (n % 10) (omega arith), v))
