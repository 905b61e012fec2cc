-- ===== src/Prelude/Pigeonhole.antt =====
-- More places than values: two places have the same value.
use Prim.Native.Nat.{ℕ, zero, suc, ◌≤◌, ◌<◌}
use mathlib.Core.Path.{◌≡◌, sym, ◌∙◌}
use mathlib.Core.Logic.{◌≢◌, ◌⊎◌, inl, inr}
use native.Mathlib.Omega.{arith}

equal_or_not : (i j : ℕ) → (i ≡ j) ⊎ (i ≢ j)
equal_or_not i j = ground arith

-- `m` with the value that the last place has.
abbrev moved : (f : ℕ → ℕ) → (m n k : ℕ) → (f k ≡ m) ⊎ (f k ≢ m) → ℕ
moved f m n k (inl e) = f n
moved f m n k (inr d) = f k

-- Values below `m` that differ in `n` places.
pub pigeonhole :
    (n m : ℕ) (f : ℕ → ℕ)
    → ((k : ℕ) → k < n → f k < m)
    → ((i j : ℕ) → i < n → j < n → f i ≡ f j → i ≡ j)
    → n ≤ m
pigeonhole zero m f below differ = omega arith
pigeonhole (suc n) zero f below differ = absurd (omega (arith, below 0 (omega arith)))
pigeonhole (suc n) (suc m) f below differ =
    let rest : n ≤ m =
      pigeonhole n m (λ k. moved f m n k (equal_or_not (f k) m))
        (λ k h. moved_below k h (equal_or_not (f k) m))
        (λ i j h l. moved_differ i j h l (equal_or_not (f i) m) (equal_or_not (f j) m)) in
    omega (arith, rest)
  where
    moved_below : (k : ℕ) → k < n → (d : (f k ≡ m) ⊎ (f k ≢ m)) → moved f m n k d < m
    moved_below k h (inl e) = elim (equal_or_not (f n) m) [
      | inl e' ↦ absurd (omega (arith, differ k n (omega arith) (omega arith) (e ∙ sym e'), h))
      | inr d ↦ omega (arith, below n (omega arith), d)
    ]
    moved_below k h (inr d) = omega (arith, below k (omega arith), d)

    moved_differ :
        (i j : ℕ)
        → i < n
        → j < n
        → (d : (f i ≡ m) ⊎ (f i ≢ m)) → (d' : (f j ≡ m) ⊎ (f j ≢ m))
        → moved f m n i d ≡ moved f m n j d'
        → i ≡ j
    moved_differ i j h l (inl e) (inl e') q = differ i j (omega arith) (omega arith) (e ∙ sym e')
    moved_differ i j h l (inl e) (inr d) q =
        absurd (omega (arith, differ n j (omega arith) (omega arith) q, l))
    moved_differ i j h l (inr d) (inl e) q =
        absurd (omega (arith, differ i n (omega arith) (omega arith) q, h))
    moved_differ i j h l (inr d) (inr d') q = differ i j (omega arith) (omega arith) q
