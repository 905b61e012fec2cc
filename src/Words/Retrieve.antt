-- ===== src/Words/Retrieve.antt =====
-- What a run of wordclient.c against wordserver.c leaves in the client's file.
use networks_lab_cs39006_spr.Prelude.{
  ℕ, zero, suc, ◌+◌, ◌-◌, ◌^◌, ◌≤◌, ◌<◌, ◌≡◌, refl, sym, ap, ap₂, ◌∙◌, subst, Bool, true, false,
  not, ◌||◌, List, [], ◌∷◌, ◌++◌, map, Option, none, some, leb, ◌==◌, if◌then◌else◌, if_false,
  if_split, codes, cstring, strcmp_eq, strncmp_eq, length, take-whole, drop, get_elem?, All, arith,
}
use mathlib.Core.List.{append_assoc, append-nil}
use networks_lab_cs39006_spr.Prelude.Decimal.{
  decimal_digits, strtol, strtol-decimal, length-decimal, cstring-decimal,
}
use networks_lab_cs39006_spr.Words.Programs.{
  datagram_text, finish, scan_words, file_words, first_word, opened, server_start, found_word,
  numbered, answer_request, file_name, word_request, line, client_start, client_word, Outcome,
  finished, waiting, heard, exchange, started, retrieve,
}

abbrev pub lines : List (List ℕ) → List ℕ
lines [] = []
lines (word ∷ words) = line word ++ lines words

datagram_text-short :
    (datagram : List ℕ)
    → length datagram < 1000
    → cstring datagram ≡ datagram
    → datagram_text datagram ≡ datagram
unfolding datagram_text
datagram_text-short datagram h e = ap cstring (take-whole 999 datagram (omega arith)) ∙ e

datagram_text-word_request : (i : ℕ) → datagram_text (word_request i) ≡ word_request i
datagram_text-word_request i =
    datagram_text-short (word_request i) (omega (arith, length-decimal i))
      (ap (λ r. codes "WORD" ++ r) (cstring-decimal i))

datagram_text-file_name : (nx : ℕ) → 1 ≤ nx → nx ≤ 5 → datagram_text (file_name nx) ≡ file_name nx
unfolding datagram_text decimal_digits
datagram_text-file_name zero l h = absurd (omega arith)
datagram_text-file_name (suc zero) l h = refl
datagram_text-file_name (suc (suc zero)) l h = refl
datagram_text-file_name (suc (suc (suc zero))) l h = refl
datagram_text-file_name (suc (suc (suc (suc zero)))) l h = refl
datagram_text-file_name (suc (suc (suc (suc (suc zero))))) l h = refl
datagram_text-file_name (suc (suc (suc (suc (suc (suc n)))))) l h = absurd (omega arith)

-- The server answers the request for a number with the word that has it, counted from 0.
answer_request-word_request :
    (words : List (List ℕ)) (i : ℕ)
    → 0 < i
    → i < 10 ^ 10
    → answer_request words (word_request i) ≡ found_word (get_elem? words i)
unfolding answer_request
answer_request-word_request words i l h =
    let go : List ℕ → Option (List ℕ) × Bool = λ d.
      if strncmp_eq d (codes "WORD") then numbered words (strtol (drop 4 d)) else (none, true) in
    ap go (datagram_text-word_request i)
    ∙ ap (numbered words) (strtol-decimal i h)
    ∙ if_false (false || (i == 0)) _ _ (ground arith)

-- A word that arrives whole and does not end the transfer.
abbrev pub IsPlain : List ℕ → Type 0
IsPlain word = (datagram_text word ≡ word) × (strcmp_eq word finish ≡ false)

module _ (words : List (List ℕ)) (i : ℕ) (l : 0 < i) (h : i < 10 ^ 10) where
  exchange-answer :
      (fuel : ℕ) (out : List ℕ) {answer : Option (List ℕ)}
      → get_elem? words i ≡ answer
      → exchange (suc fuel) words true i out
        ≡ heard
            (found_word answer).0
            out
            (λ file. exchange fuel words (found_word answer).1 (suc i) file)
  unfolding exchange
  exchange-answer fuel out e =
      let round : Option (List ℕ) × Bool → Outcome =
        λ a. heard a.0 out (λ file. exchange fuel words a.1 (suc i) file) in
      ap round (answer_request-word_request words i l h ∙ ap found_word e)

  exchange-plain :
      (fuel : ℕ) (out word : List ℕ)
      → get_elem? words i ≡ some word
      → IsPlain word
      → exchange (suc fuel) words true i out ≡ exchange fuel words true (suc i) (out ++ line word)
  unfolding client_word
  exchange-plain fuel out word e v =
      let received : List ℕ → Outcome = λ got.
        if strcmp_eq got finish
        then finished (out ++ line got)
        else exchange fuel words (not (strcmp_eq word finish)) (suc i) (out ++ line got) in
      let compared : Bool → Outcome = λ b.
        if b
        then finished (out ++ line word)
        else exchange fuel words (not b) (suc i) (out ++ line word) in
      exchange-answer fuel out e ∙ ap received v.0 ∙ ap compared v.1

  exchange-last :
      (fuel : ℕ) (out : List ℕ)
      → get_elem? words i ≡ some finish
      → exchange (suc fuel) words true i out ≡ finished (out ++ line finish)
  unfolding client_word datagram_text
  exchange-last fuel out e = exchange-answer fuel out e

  exchange-nothing :
      (fuel : ℕ) (out : List ℕ)
      → get_elem? words i ≡ none
      → exchange (suc fuel) words true i out ≡ waiting out
  exchange-nothing fuel out e = exchange-answer fuel out e

get_elem?-suc :
    (w : List ℕ) (ws : List (List ℕ)) (k : ℕ) → get_elem? (w ∷ ws) (1 + k) ≡ get_elem? ws k
get_elem?-suc w ws k = ap (get_elem? (w ∷ ws)) (let same : 1 + k ≡ suc k = omega arith in same)

get_elem?-append :
    (ws : List (List ℕ)) (w : List ℕ) (rest : List (List ℕ))
    → get_elem? (ws ++ w ∷ rest) (length ws) ≡ some w
get_elem?-append [] w rest = refl
get_elem?-append (v ∷ ws) w rest = get_elem?-append ws w rest

get_elem?-length : (ws : List (List ℕ)) → get_elem? (ws ++ []) (length ws) ≡ none
get_elem?-length [] = refl
get_elem?-length (w ∷ ws) = get_elem?-length ws

-- Words that follow one another are all written.
exchange-lines :
    (words ws rest : List (List ℕ)) (fuel i : ℕ) (out : List ℕ)
    → 0 < i
    → i + length ws < 10 ^ 10
    → ((k : ℕ) → get_elem? words (i + k) ≡ get_elem? (ws ++ rest) k)
    → All IsPlain ws
    → exchange (length ws + fuel) words true i out
      ≡ exchange fuel words true (i + length ws) (out ++ lines ws)
exchange-lines words [] rest fuel i out l h e v =
    ap (λ m. exchange m words true i out) (let same : 0 + fuel ≡ fuel = omega arith in same)
    ∙ ap₂ (λ j file. exchange fuel words true j file) (let same : i ≡ i + 0 = omega arith in same)
        (sym (append-nil out))
exchange-lines words (w ∷ ws) rest fuel i out l h e v =
    ap (λ m. exchange m words true i out)
      (let same : suc (length ws) + fuel ≡ suc (length ws + fuel) = omega arith in same)
    ∙ exchange-plain words i l (omega arith) (length ws + fuel) out w
        (ap (get_elem? words) (let same : i ≡ i + 0 = omega arith in same) ∙ e 0) v.0
    ∙ exchange-lines words ws rest fuel (suc i) (out ++ line w) (omega arith) (omega arith)
        (λ k.
          ap (get_elem? words) (let same : suc i + k ≡ i + suc k = omega arith in same) ∙ e (suc k))
        v.1
    ∙ ap₂ (λ j file. exchange fuel words true j file)
        (let same : suc i + length ws ≡ i + suc (length ws) = omega arith in same)
        (append_assoc out (line w) (lines ws))

-- What `%s` reads has no NUL behind its end.
cstring-cstring : (text : List ℕ) → cstring (cstring text) ≡ cstring text
cstring-cstring [] = refl
cstring-cstring (c ∷ cs) =
    if_split (λ t. cstring t ≡ t) (c == 0) _ _ (λ e. refl)
      (λ e. if_false (c == 0) [] _ e ∙ ap (λ r. c ∷ r) (cstring-cstring cs))

All-cstring : (words : List (List ℕ)) → All (λ w. cstring w ≡ w) (map cstring words)
All-cstring [] = tt
All-cstring (w ∷ words) = (cstring-cstring w, All-cstring words)

file_words-cstring : (contents : List ℕ) → All (λ w. cstring w ≡ w) (file_words contents)
unfolding file_words
file_words-cstring contents = All-cstring (scan_words contents)

-- Words that the client's buffer holds, and that are not FINISH.
abbrev pub Fit : List (List ℕ) → Type 0
Fit words = All (λ w. length w < 1000) words

abbrev pub NoFinish : List (List ℕ) → Type 0
NoFinish words = All (λ w. strcmp_eq w finish ≡ false) words

words-IsPlain :
    (ws rest : List (List ℕ))
    → Fit ws
    → NoFinish ws
    → All (λ w. cstring w ≡ w) (ws ++ rest)
    → All IsPlain ws
words-IsPlain [] rest f n c = tt
words-IsPlain (w ∷ ws) rest f n c =
    ((datagram_text-short w f.0 c.0, n.0), words-IsPlain ws rest f.1 n.1 c.1)

-- Once the file is open, the run is that of the two loops behind the first word.
retrieve-exchange :
    (fuel : ℕ) (files : List ℕ → Option (List ℕ)) (nx : ℕ) (contents w0 : List ℕ)
    (words : List (List ℕ))
    → 1 ≤ nx
    → nx ≤ 5
    → files (file_name nx) ≡ some contents
    → file_words contents ≡ w0 ∷ words
    → length w0 < 1000
    → strncmp_eq w0 (codes "NOTFOUND") ≡ false
    → retrieve fuel files nx ≡ exchange fuel (w0 ∷ words) true 1 (line w0)
unfolding retrieve
retrieve-exchange fuel files nx contents w0 words l h f e s n =
    let got = datagram_text-file_name nx l h in
    let whole : datagram_text w0 ≡ w0 =
      datagram_text-short w0 s
        (subst (λ ws. All (λ w. cstring w ≡ w) ws) e (file_words-cstring contents)).0 in
    let server : server_start files (file_name nx) ≡ (true, w0, w0 ∷ words) =
      ap (λ name. opened name (files name)) got ∙ ap (opened (file_name nx)) f ∙ ap first_word e in
    let client : client_start w0 ≡ some (line w0) =
      ap (λ d. if strncmp_eq d (codes "NOTFOUND") then none else some (line d)) whole
      ∙ if_false (strncmp_eq w0 (codes "NOTFOUND")) none (some (line w0)) n in
    if_false ((nx == 0) || not (leb nx 5)) _ _ (ground arith)
    ∙ ap (λ (r : Bool × List ℕ × List (List ℕ)). started fuel r (client_start r.1)) server
    ∙ ap (started fuel (true, w0, w0 ∷ words)) client

-- The words up to a place in the file are written, and then the client asks for the word there.
retrieve-lines :
    (files : List ℕ → Option (List ℕ)) (nx : ℕ) (contents w0 : List ℕ) (ws rest : List (List ℕ))
    (fuel : ℕ)
    → 1 ≤ nx
    → nx ≤ 5
    → files (file_name nx) ≡ some contents
    → file_words contents ≡ w0 ∷ ws ++ rest
    → Fit (w0 ∷ ws)
    → length ws < 10 ^ 9
    → strncmp_eq w0 (codes "NOTFOUND") ≡ false
    → NoFinish ws
    → length ws < fuel
    → retrieve fuel files nx
      ≡ exchange
          (suc (fuel - length ws - 1))
          (w0 ∷ ws ++ rest)
          true
          (1 + length ws)
          (lines (w0 ∷ ws))
retrieve-lines files nx contents w0 ws rest fuel l h f e s m n v g =
    let left : ℕ = suc (fuel - length ws - 1) in
    let strings = subst (λ w. All (λ w. cstring w ≡ w) w) e (file_words-cstring contents) in
    ap (λ k. retrieve k files nx) (let same : fuel ≡ length ws + left = omega arith in same)
    ∙ retrieve-exchange (length ws + left) files nx contents w0 (ws ++ rest) l h f e s.0 n
    ∙ exchange-lines (w0 ∷ ws ++ rest) ws rest left 1 (line w0) (omega arith) (omega arith)
        (get_elem?-suc w0 (ws ++ rest)) (words-IsPlain ws rest s.1 v strings.1)

-- For a file number from 1 to 5, a file whose words before the first FINISH behind the first word
-- are of fewer than 1000 bytes and at most 10^9 in number, the first not beginning with NOTFOUND,
-- and more rounds of fuel than words between the first and FINISH, the client ends with a file of
-- just these words and FINISH, each on a line, in order.
pub retrieve-finished :
    (files : List ℕ → Option (List ℕ)) (nx : ℕ) (contents w0 : List ℕ) (ws rest : List (List ℕ))
    (fuel : ℕ)
    → 1 ≤ nx
    → nx ≤ 5
    → files (file_name nx) ≡ some contents
    → file_words contents ≡ w0 ∷ ws ++ finish ∷ rest
    → Fit (w0 ∷ ws)
    → length ws < 10 ^ 9
    → strncmp_eq w0 (codes "NOTFOUND") ≡ false
    → NoFinish ws
    → length ws < fuel
    → retrieve fuel files nx ≡ finished (lines (w0 ∷ ws) ++ line finish)
retrieve-finished files nx contents w0 ws rest fuel l h f e s m n v g =
    retrieve-lines files nx contents w0 ws (finish ∷ rest) fuel l h f e s m n v g
    ∙ exchange-last (w0 ∷ ws ++ finish ∷ rest) (1 + length ws) (omega arith) (omega arith)
        (fuel - length ws - 1) (lines (w0 ∷ ws))
        (get_elem?-suc w0 (ws ++ finish ∷ rest) (length ws) ∙ get_elem?-append ws finish rest)

-- For a file number from 1 to 5 and a file without FINISH behind its first word, whose words are
-- of fewer than 1000 bytes and at most 10^9 in number, the first not beginning with NOTFOUND, and
-- more rounds of fuel than words behind the first, the client writes every word and then waits for
-- a reply that the server does not send.
pub retrieve-waiting :
    (files : List ℕ → Option (List ℕ)) (nx : ℕ) (contents w0 : List ℕ) (ws : List (List ℕ))
    (fuel : ℕ)
    → 1 ≤ nx
    → nx ≤ 5
    → files (file_name nx) ≡ some contents
    → file_words contents ≡ w0 ∷ ws
    → Fit (w0 ∷ ws)
    → length ws < 10 ^ 9
    → strncmp_eq w0 (codes "NOTFOUND") ≡ false
    → NoFinish ws
    → length ws < fuel
    → retrieve fuel files nx ≡ waiting (lines (w0 ∷ ws))
retrieve-waiting files nx contents w0 ws fuel l h f e s m n v g =
    retrieve-lines files nx contents w0 ws [] fuel l h f
      (e ∙ ap (λ r. w0 ∷ r) (sym (append-nil ws))) s m n v g
    ∙ exchange-nothing (w0 ∷ ws ++ []) (1 + length ws) (omega arith) (omega arith)
        (fuel - length ws - 1) (lines (w0 ∷ ws))
        (get_elem?-suc w0 (ws ++ []) (length ws) ∙ get_elem?-length ws)
