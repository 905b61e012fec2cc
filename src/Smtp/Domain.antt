-- ===== src/Smtp/Domain.antt =====
-- What "Assignment 6/mysmtp_server.c" accepts as an address, and the domain that it reads from one.
use networks_lab_cs39006_spr.Prelude.{
  ℕ, ◌≡◌, ◌≢◌, ◌↔◌, refl, sym, ap, ◌∙◌, Bool, true, false, List, [], ◌∷◌, ◌++◌, none, some,
  some-injective, ◌==◌, ==_iff, ==-self, ==-ne, arith, length-append, ◌||◌, if◌then◌else◌, if_true,
  if_false, All, length, take, strchr, subst, Bool-cases, true≢false, Option-cases, inl, inr,
}
use networks_lab_cs39006_spr.Smtp.Address.{
  at_char, dot_char, behind, is_empty, check_dot, check_at, check_valid_email, domain_of,
  extract_domain, buffer_size,
}

-- None of the bytes is `c`.
abbrev pub Without : ℕ → List ℕ → Type 0
Without c xs = All (λ x. (x == c) ≡ false) xs

-- `xs` is `before`, then the first `c`, then `after`.
pub record Split (xs : List ℕ) (c : ℕ) (ys : List ℕ) : Type 0 where
  pub before : List ℕ
  pub after : List ℕ
  pub rest : ys ≡ c ∷ after
  pub whole : xs ≡ before ++ c ∷ after
  pub first : Without c before

here-Split : (x c : ℕ) (xs ys : List ℕ) → x ≡ c → x ∷ xs ≡ ys → Split (x ∷ xs) c ys
here-Split x c xs ys e f = record {
  before = [];
  after = xs;
  rest = sym f ∙ ap (λ y. y ∷ xs) e;
  whole = ap (λ y. y ∷ xs) e;
  first = tt;
}

later-Split : (x c : ℕ) (xs ys : List ℕ) → (x == c) ≡ false → Split xs c ys → Split (x ∷ xs) c ys
later-Split x c xs ys e s = record {
  before = x ∷ s.before;
  after = s.after;
  rest = s.rest;
  whole = ap (λ y. x ∷ y) s.whole;
  first = (e, s.first);
}

strchr-Split : (xs : List ℕ) (c : ℕ) (ys : List ℕ) → strchr xs c ≡ some ys → Split xs c ys
strchr-Split [] c ys e = cc
strchr-Split (x ∷ xs) c ys e = elim (Bool-cases (x == c)) [
  | inl h ↦
      here-Split x c xs ys ((==_iff x c).0 h)
        (some-injective _ _ (sym (if_true (x == c) (some (x ∷ xs)) (strchr xs c) h) ∙ e))
  | inr h ↦
      later-Split x c xs ys h
        (strchr-Split xs c ys (sym (if_false (x == c) (some (x ∷ xs)) (strchr xs c) h) ∙ e))
]

-- An address is a user, the first at sign, a host up to the first dot behind it, and more.
pub record IsAddress (email : List ℕ) : Type 0 where
  pub user : List ℕ
  pub host : List ℕ
  pub top : List ℕ
  pub parts : email ≡ user ++ at_char ∷ (host ++ dot_char ∷ top)
  pub user_some : user ≢ []
  pub top_some : top ≢ []
  pub user_without : Without at_char user
  pub host_without : Without dot_char host
  pub domain : extract_domain email buffer_size ≡ take 4095 (host ++ dot_char ∷ top)

-- The two bytes differ, so the dot is looked for behind the at sign.
behind_at : (after : List ℕ) → strchr (at_char ∷ after) dot_char ≡ strchr after dot_char
behind_at after = refl

no_user :
    (email at_sign : List ℕ) (s : Split email at_char at_sign)
    → s.before ≡ []
    → (length at_sign == length email) ≡ true
no_user email at_sign s e =
    subst (λ z. (length at_sign == length z) ≡ true)
      (s.rest ∙ sym (s.whole ∙ ap (λ b. b ++ at_char ∷ s.after) e)) (==-self (length at_sign))

first_test : (a b c : Bool) → (if a || b then false else c) ≡ true → (a ≡ false) × (c ≡ true)
first_test true b c e = cc
first_test false true c e = cc
first_test false false c e = (refl, e)

dot_test : (dot : List ℕ) → check_dot (some dot) ≡ true → behind dot ≢ []
unfolding check_dot
dot_test [] e = cc
dot_test (d ∷ []) e = cc
dot_test (d ∷ t ∷ ts) e = λ f. cc

with_dot :
    (email at_sign dot : List ℕ) (s : Split email at_char at_sign)
    → strchr email at_char ≡ some at_sign
    → (length at_sign == length email) ≡ false
    → behind dot ≢ []
    → Split s.after dot_char dot
    → IsAddress email
unfolding extract_domain domain_of
with_dot email at_sign dot s e f t d = record {
  user = s.before;
  host = d.before;
  top = d.after;
  parts = s.whole ∙ ap (λ r. s.before ++ at_char ∷ r) d.whole;
  user_some = λ g. true≢false (sym (no_user email at_sign s g) ∙ f);
  top_some = λ g. t (ap behind d.rest ∙ g);
  user_without = s.first;
  host_without = d.first;
  domain =
      ap (λ o. domain_of o email buffer_size) e
      ∙ ap (λ r. take 4095 r) (ap behind s.rest ∙ d.whole);
}

checked :
    (email at_sign : List ℕ)
    → strchr email at_char ≡ some at_sign
    → Split email at_char at_sign
    → check_at email (some at_sign) ≡ true
    → IsAddress email
unfolding check_at check_dot
checked email at_sign e s c =
    let t =
      first_test (length at_sign == length email) (is_empty (behind at_sign))
        (check_dot (strchr at_sign dot_char)) c in
    elim (Option-cases (strchr at_sign dot_char)) [
      | inl n ↦
          (let none_there : check_dot none ≡ true = subst (λ o. check_dot o ≡ true) n t.1 in
            absurd cc)
      | inr (dot, n) ↦
          with_dot email at_sign dot s e t.0 (dot_test dot (subst (λ o. check_dot o ≡ true) n t.1))
            (strchr-Split s.after dot_char dot
              (sym (ap (λ r. strchr r dot_char) s.rest ∙ behind_at s.after) ∙ n))
    ]

-- An accepted address has these parts.
check_valid_email-IsAddress : (email : List ℕ) → check_valid_email email ≡ true → IsAddress email
unfolding check_valid_email check_at
check_valid_email-IsAddress email c = elim (Option-cases (strchr email at_char)) [
  | inl n ↦
      (let nowhere : check_at email none ≡ true = subst (λ o. check_at email o ≡ true) n c in
        absurd cc)
  | inr (at_sign, n) ↦
      checked email at_sign n (strchr-Split email at_char at_sign n)
        (subst (λ o. check_at email o ≡ true) n c)
]

strchr-first :
    (before after : List ℕ) (c : ℕ)
    → Without c before
    → strchr (before ++ c ∷ after) c ≡ some (c ∷ after)
strchr-first [] after c w = if_true (c == c) (some (c ∷ after)) (strchr after c) (==-self c)
strchr-first (x ∷ before) after c w =
    if_false (x == c) (some (x ∷ (before ++ c ∷ after))) (strchr (before ++ c ∷ after) c) w.0
    ∙ strchr-first before after c w.1

not_empty : (before after : List ℕ) (c : ℕ) → is_empty (before ++ c ∷ after) ≡ false
not_empty [] after c = refl
not_empty (x ∷ before) after c = refl

passes : (a b c : Bool) → a ≡ false → b ≡ false → c ≡ true → (if a || b then false else c) ≡ true
passes true b c e f g = cc
passes false true c e f g = cc
passes false false c e f g = g

shorter : (user rest : List ℕ) → user ≢ [] → (length rest == length (user ++ rest)) ≡ false
shorter [] rest h = absurd (h refl)
shorter (x ∷ user) rest h =
    ==-ne (length rest) (length (x ∷ (user ++ rest))) (λ e. omega (arith, length-append user rest))

dot_passes : (top : List ℕ) → top ≢ [] → check_dot (some (dot_char ∷ top)) ≡ true
unfolding check_dot
dot_passes [] h = absurd (h refl)
dot_passes (x ∷ top) h = refl

parts_valid :
    (user host top : List ℕ)
    → user ≢ []
    → top ≢ []
    → Without at_char user
    → Without dot_char host
    → check_valid_email (user ++ at_char ∷ (host ++ dot_char ∷ top)) ≡ true
unfolding check_valid_email check_at
parts_valid user host top hu ht wu wh =
    let tail = host ++ dot_char ∷ top in
    ap (check_at (user ++ at_char ∷ tail)) (strchr-first user tail at_char wu)
    ∙ passes (length (at_char ∷ tail) == length (user ++ at_char ∷ tail)) (is_empty tail)
        (check_dot (strchr (at_char ∷ tail) dot_char)) (shorter user (at_char ∷ tail) hu)
        (not_empty host top dot_char)
        (ap check_dot (behind_at tail ∙ strchr-first host top dot_char wh) ∙ dot_passes top ht)

-- An address is accepted exactly when it is a non-empty user without an at sign, an at sign, a
-- host without a dot, a dot and something more, of which the domain read from it is all behind the
-- first at sign, up to 4095 bytes.
pub check_valid_email_iff : (email : List ℕ) → (check_valid_email email ≡ true) ↔ IsAddress email
check_valid_email_iff email = (
  check_valid_email-IsAddress email,
  λ a.
      ap check_valid_email a.parts
      ∙ parts_valid a.user a.host a.top a.user_some a.top_some a.user_without a.host_without,
)
