-- ===== src/Words/Tests.antt =====
-- A small file through "Assignment 2", with a FINISH in it and without one.
use networks_lab_cs39006_spr.Prelude.{
  ℕ, ◌≡◌, refl, List, [], ◌∷◌, ◌++◌, Option, none, some, if◌then◌else◌, codes, strcmp_eq, arith,
}
use networks_lab_cs39006_spr.Prelude.Decimal.{decimal_digits}
use networks_lab_cs39006_spr.Words.Programs.{
  file_words, retrieve, file_name, refused, finished, waiting, finish, line,
}
use networks_lab_cs39006_spr.Words.Retrieve.{lines, retrieve-finished, retrieve-waiting}

abbrev contents : List ℕ
contents = codes "HELLO  one" ++ 10 ∷ codes "two FINISH more"

abbrev unended : List ℕ
unended = codes "HELLO one two"

abbrev files : List ℕ → Option (List ℕ)
files name =
    if strcmp_eq name (file_name 2)
    then some contents
    else if strcmp_eq name (file_name 3)
    then some unended
    else none

-- A file that is not there, and an empty one, behind whose FINISH the client asks on.
missing : retrieve 3 files 4 ≡ refused
unfolding retrieve decimal_digits
missing = refl

empty : retrieve 3 (λ name. some []) 1 ≡ waiting (line finish)
unfolding retrieve decimal_digits file_words
empty = refl

-- The first word is not compared with FINISH, but taken for a refusal where it begins with NOTFOUND.
misread : retrieve 3 (λ name. some (codes "NOTFOUNDED one FINISH")) 1 ≡ refused
unfolding retrieve decimal_digits file_words
misread = refl

retrieve-finished_example :
    retrieve 3 files 2
    ≡ finished (lines (codes "HELLO" ∷ codes "one" ∷ codes "two" ∷ []) ++ line finish)
unfolding file_words decimal_digits
retrieve-finished_example =
    retrieve-finished files 2 contents (codes "HELLO") (codes "one" ∷ codes "two" ∷ [])
      (codes "more" ∷ []) 3 (omega arith) (omega arith) refl refl
      (omega arith, (omega arith, (omega arith, tt))) (omega arith) refl (refl, (refl, tt))
      (omega arith)

retrieve-waiting_example :
    retrieve 3 files 3 ≡ waiting (lines (codes "HELLO" ∷ codes "one" ∷ codes "two" ∷ []))
unfolding file_words decimal_digits
retrieve-waiting_example =
    retrieve-waiting files 3 unended (codes "HELLO") (codes "one" ∷ codes "two" ∷ []) 3
      (omega arith) (omega arith) refl refl (omega arith, (omega arith, (omega arith, tt)))
      (omega arith) refl (refl, (refl, tt)) (omega arith)
