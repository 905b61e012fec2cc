-- ===== src/Ktp/Window.antt =====
-- The window arithmetic of "Assignment 4 Final/initksocket.c".
use networks_lab_cs39006_spr.Prelude.{
  ℕ, ◌+◌, ◌-◌, ◌%◌, ◌<◌, ◌≡◌, ◌↔◌, Bool, true, false, ◌&&◌, ◌||◌, ltb, leb, ◌==◌, if◌then◌else◌,
  arith,
}
use networks_lab_cs39006_spr.Ktp.Types.{Window, seq_num}

-- `seq < 0` cannot hold of a number.
unfoldable pub inwndw : ℕ → ℕ → ℕ → Bool
inwndw seq head tail =
    if leb seq_num seq
    then false
    else if head == tail
    then false
    else if ltb head tail
    then leb head seq && ltb seq tail
    else leb head seq || ltb seq tail

-- `tail - head`, with 256 added where that is negative.
unfoldable pub wndwsize : Window → ℕ
wndwsize w = if ltb w.tail w.head then w.tail + seq_num - w.head else w.tail - w.head

-- `(seq + 1) % SEQNUM`
abbrev pub next_seq : ℕ → ℕ
next_seq seq = (seq + 1) % seq_num

-- `(seq - 1 + SEQNUM) % SEQNUM`
abbrev pub prev_seq : ℕ → ℕ
prev_seq seq = (seq + seq_num - 1) % seq_num

-- How many steps of `next_seq` lead from one number to another.
abbrev pub distance : ℕ → ℕ → ℕ
distance a b = (b + seq_num - a) % seq_num

-- A number is in the window exactly when it lies less than the window's size past the head modulo
-- 256, whether or not the window wraps, for numbers below 256.
pub inwndw_iff :
    (seq : ℕ) (w : Window)
    → seq < seq_num
    → w.head < seq_num
    → w.tail < seq_num
    → (inwndw seq w.head w.tail ≡ true) ↔ (distance w.head seq < wndwsize w)
unfolding inwndw wndwsize
inwndw_iff seq w hs hh ht = ground arith

pub wndwsize-distance :
    (w : Window) → w.head < seq_num → w.tail < seq_num → wndwsize w ≡ distance w.head w.tail
unfolding wndwsize
wndwsize-distance w h t = ground arith

-- One step further from the head, as long as that does not come round.
pub distance-next_seq :
    (a b : ℕ)
    → a < seq_num
    → b < seq_num
    → distance a b < 255
    → distance a (next_seq b) ≡ distance a b + 1
distance-next_seq a b ha hb h = omega arith
