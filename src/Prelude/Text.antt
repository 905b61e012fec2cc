-- ===== src/Prelude/Text.antt =====
-- C strings as the bytes before the NUL, and the calls of <string.h> that the servers make.
use Prim.Native.Nat.{ℕ}
use Prim.Native.Char.{code}
use Prim.Native.String.{String}
use mathlib.Core.Bool.{Bool, true, false, ◌&&◌, ◌||◌}
use mathlib.Core.List.{List, [], ◌∷◌}
use mathlib.Core.Path.{◌≡◌, refl, ap₂}
use mathlib.Core.Option.{Option, none, some}
use native.Mathlib.Omega.{arith}
use networks_lab_cs39006_spr.Prelude.Tests.{leb, ◌==◌, if◌then◌else◌}

-- The bytes of a literal, which is ASCII.
abbrev pub codes : String → List ℕ
codes String.[] = []
codes (String.◌∷◌ c s) = code c ∷ codes s

-- `strcmp(a, b) == 0`.
abbrev pub strcmp_eq : List ℕ → List ℕ → Bool
strcmp_eq [] [] = true
strcmp_eq [] (y ∷ ys) = false
strcmp_eq (x ∷ xs) [] = false
strcmp_eq (x ∷ xs) (y ∷ ys) = (x == y) && strcmp_eq xs ys

-- `strncmp(s, prefix, strlen(prefix)) == 0`.
abbrev pub strncmp_eq : List ℕ → List ℕ → Bool
strncmp_eq s [] = true
strncmp_eq [] (p ∷ ps) = false
strncmp_eq (c ∷ s) (p ∷ ps) = (c == p) && strncmp_eq s ps

-- `strchr(s, c)`: the rest from the first `c` on.
abbrev pub strchr : List ℕ → ℕ → Option (List ℕ)
strchr [] c = none
strchr (x ∷ xs) c = if x == c then some (x ∷ xs) else strchr xs c

-- What a buffer holds as a string once `buffer[strcspn(buffer, "\n")]` is NUL.
abbrev pub cut_line : List ℕ → List ℕ
cut_line [] = []
cut_line (x ∷ xs) = if (x == 10) || (x == 0) then [] else x ∷ cut_line xs

-- What a buffer holds as a string.
abbrev pub cstring : List ℕ → List ℕ
cstring [] = []
cstring (x ∷ xs) = if x == 0 then [] else x ∷ cstring xs

pub strcmp_eq_refl : (xs : List ℕ) → strcmp_eq xs xs ≡ true
strcmp_eq_refl [] = refl
strcmp_eq_refl (x ∷ xs) = ground (arith, strcmp_eq_refl xs)

pub strcmp_eq→eq : (xs ys : List ℕ) → strcmp_eq xs ys ≡ true → xs ≡ ys
strcmp_eq→eq [] [] e = refl
strcmp_eq→eq [] (y ∷ ys) e = cc
strcmp_eq→eq (x ∷ xs) [] e = cc
strcmp_eq→eq (x ∷ xs) (y ∷ ys) e =
    let h : (x ≡ y) × (strcmp_eq xs ys ≡ true) = ground arith in
    ap₂ (λ z zs. z ∷ zs) h.0 (strcmp_eq→eq xs ys h.1)

-- `isspace` in the C locale, and how `scanf` passes over such bytes.
abbrev pub is_space : ℕ → Bool
is_space c = (c == 32) || (leb 9 c && leb c 13)

abbrev pub skip_spaces : List ℕ → List ℕ
skip_spaces [] = []
skip_spaces (c ∷ cs) = if is_space c then skip_spaces cs else c ∷ cs
