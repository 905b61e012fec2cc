-- ===== src/TaskQueue/Reckon.antt =====
-- The client of "Assignment 5/client.c" reckons the tasks that the server hands out.
use networks_lab_cs39006_spr.Prelude.{
  ℕ, suc, zero, ◌+◌, ◌-◌, ◌*◌, ◌/◌, ◌%◌, ◌^◌, ◌≤◌, ◌<◌, ◌≡◌, refl, sym, ap, ap₂, ◌∙◌, Bool, true,
  false, not, ◌&&◌, ◌||◌, List, [], ◌∷◌, ◌++◌, none, some, ltb, ltb→lt, leb, ◌==◌, if_true,
  if_false, if_split, cut_line, is_space, skip_spaces, length, All, arith,
}
use networks_lab_cs39006_spr.Prelude.Decimal.{
  decimal, decimal_digits, is_digit, digits_value, strtol, strtol-decimal, strtol-decimal_digits,
  decimal_digits-append, decimal_digits-All, Digits, decimal_digits-Digits_ten, length-decimal,
}
use networks_lab_cs39006_spr.TaskQueue.Worker.{
  operate, is_operator, after_digits, after_sign, with_first, with_second, eval_expr, int_text,
}

after_digits-digit :
    (d : ℕ) (text : List ℕ) → d < 10 → after_digits ((48 + d) ∷ text) ≡ after_digits text
unfolding after_digits
after_digits-digit d text h = if_true (is_digit (48 + d)) _ _ (ground arith)

after_digits-decimal_digits :
    (fuel n : ℕ) (text : List ℕ) → after_digits (decimal_digits fuel n text) ≡ after_digits text
unfolding decimal_digits
after_digits-decimal_digits zero n text = refl
after_digits-decimal_digits (suc fuel) n text =
    if_split (λ ds. after_digits ds ≡ after_digits text) (ltb n 10) _ _
      (λ e. after_digits-digit n text (ltb→lt n 10 e))
      (λ e.
        after_digits-decimal_digits fuel (n / 10) ((48 + n % 10) ∷ text)
        ∙ after_digits-digit (n % 10) text (omega arith))

after_sign-Digits :
    (text : List ℕ) → Digits text → after_sign (skip_spaces text) ≡ after_digits text
unfolding Digits
after_sign-Digits text (d, rest, e, h) =
    ap (λ t. after_sign (skip_spaces t)) e
    ∙ ap after_sign (if_false (is_space d) (skip_spaces rest) (d ∷ rest) (ground arith))
    ∙ if_false ((d == b'-') || (d == b'+')) _ _ (ground arith)
    ∙ ap after_digits (sym e)

-- A task's text: two numbers with an operator between spaces.
abbrev pub task_text : ℕ → ℕ → ℕ → List ℕ
task_text op a b = decimal a ++ 32 ∷ op ∷ 32 ∷ decimal b

pub eval_expr-task_text :
    (op a b : ℕ)
    → is_operator op ≡ true
    → a < 2 ^ 31
    → b < 2 ^ 31
    → eval_expr (task_text op a b) ≡ operate op (false, a) (false, b)
unfolding eval_expr digits_value
eval_expr-task_text op a b o h l =
    let rest : List ℕ = 32 ∷ op ∷ 32 ∷ decimal b in
    let text : List ℕ = decimal_digits 10 a rest in
    let joined : task_text op a b ≡ text = decimal_digits-append 10 a [] rest in
    let first : strtol text ≡ some (false, a) = strtol-decimal_digits a rest (omega arith) in
    let behind : after_sign (skip_spaces text) ≡ rest =
      after_sign-Digits text (decimal_digits-Digits_ten a rest)
      ∙ after_digits-decimal_digits 10 a rest in
    let second : strtol (32 ∷ decimal b) ≡ some (false, b) = strtol-decimal b (omega arith) in
    ap eval_expr joined
    ∙ ap₂ (λ v r. with_first v (skip_spaces r)) first behind
    ∙ ap (with_first (some (false, a)))
        (if_false (is_space op) (skip_spaces (32 ∷ decimal b)) (op ∷ 32 ∷ decimal b) (ground arith))
    ∙ if_true (is_operator op) _ _ o
    ∙ if_true (ltb a (2 ^ 31)) _ none (ground arith)
    ∙ ap (with_second op (false, a)) second
    ∙ if_true (ltb b (2 ^ 31)) _ none (ground arith)

-- What a task means, for a result that has a sign and a size.
pub data Means (a b : ℕ) : ℕ → Bool → ℕ → Type 0 where
  sum : Means a b b'+' false (a + b)
  difference : b ≤ a → Means a b b'-' false (a - b)
  below : a < b → Means a b b'-' true (b - a)
  product : Means a b b'*' false (a * b)
  quotient : 0 < b → Means a b b'/' false (a / b)

pub operate-Means :
    (a b op : ℕ) (negative : Bool) (n : ℕ)
    → Means a b op negative n
    → n < 2 ^ 31
    → (is_operator op ≡ true) × (operate op (false, a) (false, b) ≡ some (negative, n))
operate-Means a b op negative n sum h = (refl, if_true (ltb n (2 ^ 31)) _ none (ground arith))
operate-Means a b op negative n (difference l) h =
    (refl, if_true (leb b a) _ _ (ground arith) ∙ if_true (ltb n (2 ^ 31)) _ none (ground arith))
operate-Means a b op negative n (below l) h =
    (refl, if_false (leb b a) _ _ (ground arith) ∙ if_true (leb n (2 ^ 31)) _ none (ground arith))
operate-Means a b op negative n product h = (refl, if_true (ltb n (2 ^ 31)) _ none (ground arith))
operate-Means a b op negative n (quotient l) h =
    (refl, if_false (b == 0) none _ (ground arith) ∙ if_true (ltb n (2 ^ 31)) _ none (ground arith))

-- Bytes that end no line.
abbrev pub Inline : List ℕ → Type 0
Inline text = All (λ c. ((c == 10) || (c == 0)) ≡ false) text

pub cut_line-Inline : (text rest : List ℕ) → Inline text → cut_line (text ++ 10 ∷ rest) ≡ text
cut_line-Inline [] rest v = refl
cut_line-Inline (c ∷ text) rest v =
    if_false ((c == 10) || (c == 0)) [] _ v.0 ∙ ap (λ r. c ∷ r) (cut_line-Inline text rest v.1)

pub decimal-Inline : (n : ℕ) → Inline (decimal n)
decimal-Inline n =
    decimal_digits-All (λ c. ((c == 10) || (c == 0)) ≡ false) 10 n [] (λ d h. ground arith) tt

pub int_text-Inline : (negative : Bool) (n : ℕ) → Inline (int_text (negative, n))
int_text-Inline negative n =
    if_split Inline (negative && not (n == 0)) (b'-' ∷ decimal n) (decimal n)
      (λ e. (refl, decimal-Inline n)) (λ e. decimal-Inline n)

pub length-int_text : (negative : Bool) (n : ℕ) → length (int_text (negative, n)) ≤ 11
length-int_text negative n =
    if_split (λ t. length t ≤ 11) (negative && not (n == 0)) (b'-' ∷ decimal n) (decimal n)
      (λ e. omega (arith, length-decimal n)) (λ e. omega (arith, length-decimal n))
