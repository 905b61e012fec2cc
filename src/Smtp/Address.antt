-- ===== src/Smtp/Address.antt =====
-- Addresses in "Assignment 6/mysmtp_server.c": `check_valid_email` and `extract_domain`.
use networks_lab_cs39006_spr.Prelude.{
  ℕ, ◌-◌, Bool, true, false, List, [], ◌∷◌, Option, none, some, ◌==◌, ◌||◌, if◌then◌else◌, strchr,
  take, length,
}

abbrev pub buffer_size : ℕ
buffer_size = 4096

abbrev pub at_char : ℕ
at_char = b'@'

abbrev pub dot_char : ℕ
dot_char = b'.'

abbrev pub space_char : ℕ
space_char = b' '

-- The string one byte on from the one that `strchr` points at.
abbrev pub behind : List ℕ → List ℕ
behind [] = []
behind (c ∷ cs) = cs

abbrev pub is_empty : List ℕ → Bool
is_empty [] = true
is_empty (c ∷ cs) = false

-- `!dot || *(dot + 1) == '\0'` decides.
unfoldable pub check_dot : Option (List ℕ) → Bool
check_dot none = false
check_dot (some dot) = if is_empty (behind dot) then false else true

-- `at_sign == email` compares pointers: nothing stands before the sign.
unfoldable pub check_at : List ℕ → Option (List ℕ) → Bool
unfolding check_dot
check_at email none = false
check_at email (some at_sign) =
    if (length at_sign == length email) || is_empty (behind at_sign)
    then false
    else check_dot (strchr at_sign dot_char)

unfoldable pub check_valid_email : List ℕ → Bool
unfolding check_at
check_valid_email email = check_at email (strchr email at_char)

-- The domain after a space, where there is no at sign.
unfoldable pub after_space : Option (List ℕ) → ℕ → List ℕ
after_space none domain_size = []
after_space (some space) domain_size = take (domain_size - 1) (behind space)

unfoldable pub domain_of : Option (List ℕ) → List ℕ → ℕ → List ℕ
unfolding after_space
domain_of none input domain_size = after_space (strchr input space_char) domain_size
domain_of (some at_sign) input domain_size = take (domain_size - 1) (behind at_sign)

-- What `domain` holds afterwards.
unfoldable pub extract_domain : List ℕ → ℕ → List ℕ
unfolding domain_of
extract_domain input domain_size = domain_of (strchr input at_char) input domain_size
