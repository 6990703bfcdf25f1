-- ===== src/Prelude/Count.antt =====
-- How many of the first numbers pass a test: the blocks of a pool that are in use.
use Prim.Native.Nat.{ℕ, zero, suc, ◌+◌, ◌<◌, ◌≤◌}
use mathlib.Core.Path.{◌≡◌, refl}
use mathlib.Core.Logic.{◌≢◌, inl, inr}
use mathlib.Core.Bool.{Bool, true, false}
use native.Mathlib.Omega.{arith}
use low_latency_electronic_t.Prelude.Tests.{◌==◌, if◌then◌else◌, Bool-cases}

abbrev pub count : (ℕ → Bool) → ℕ → ℕ
count f zero = 0
count f (suc n) = (if f n then 1 else 0) + count f n

pub count-le : (f : ℕ → Bool) (n : ℕ) → count f n ≤ n
count-le f zero = omega arith
count-le f (suc n) = ground (arith, count-le f n)

pub count-same : (f g : ℕ → Bool) (n : ℕ) → ((q : ℕ) → q < n → g q ≡ f q) → count g n ≡ count f n
count-same f g zero e = refl
count-same f g (suc n) e = ground (arith, e n, count-same f g n (λ q h. e q (omega arith)))

-- One number fewer passes the test.
pub count-less :
    (f g : ℕ → Bool) (p n : ℕ)
    → ((q : ℕ) → g q ≡ (if q == p then false else f q))
    → f p ≡ true
    → p < n
    → suc (count g n) ≡ count f n
count-less f g p zero e h i = absurd (omega arith)
count-less f g p (suc n) e h i = elim (Bool-cases (p == n)) [
  | inl k ↦ ground (arith, e n, count-same f g n (λ q m. ground (arith, e q)))
  | inr k ↦ ground (arith, e n, count-less f g p n e h (ground arith))
]

pub count_mono :
    (f g : ℕ → Bool) (n : ℕ) → ((q : ℕ) → g q ≡ true → f q ≡ true) → count g n ≤ count f n
count_mono f g zero e = omega arith
count_mono f g (suc n) e = ground (arith, e n, count_mono f g n e)

-- A test that fewer numbers pass.
pub count-strict :
    (f g : ℕ → Bool) (p n : ℕ)
    → ((q : ℕ) → g q ≡ true → f q ≡ true)
    → f p ≡ true
    → g p ≡ false
    → p < n
    → count g n < count f n
count-strict f g p zero e h k i = absurd (omega arith)
count-strict f g p (suc n) e h k i = elim (Bool-cases (p == n)) [
  | inl m ↦ ground (arith, e n, count_mono f g n e)
  | inr m ↦ ground (arith, e n, count-strict f g p n e h k (ground arith))
]

-- A test that one number fails.
pub count-lt : (f : ℕ → Bool) (p n : ℕ) → f p ≡ false → p < n → count f n < n
count-lt f p zero h i = absurd (omega arith)
count-lt f p (suc n) h i = elim (Bool-cases (p == n)) [
  | inl m ↦ ground (arith, count-le f n)
  | inr m ↦ ground (arith, count-lt f p n h (ground arith))
]

-- A test that no number passes.
pub count-zero : (f : ℕ → Bool) (n : ℕ) → ((q : ℕ) → f q ≡ false) → count f n ≡ 0
count-zero f zero e = refl
count-zero f (suc n) e = ground (arith, e n, count-zero f n e)

-- A test that every number passes.
count-full : (f : ℕ → Bool) (n : ℕ) → ((q : ℕ) → q < n → f q ≡ true) → count f n ≡ n
count-full f zero e = refl
count-full f (suc n) e =
    ground (arith, e n (omega arith), count-full f n (λ q h. e q (omega (arith, h))))

-- A test that every number but one passes.
pub count-all :
    (f : ℕ → Bool) (k n : ℕ) → ((q : ℕ) → q < n → q ≢ k → f q ≡ true) → n ≤ count f n + 1
count-all f k zero e = omega arith
count-all f k (suc n) e = elim (Bool-cases (n == k)) [
  | inl m ↦ ground (arith, count-full f n (λ q h. e q (omega (arith, h)) (ground arith)))
  | inr m ↦
      ground
        (arith, e n (omega arith) (ground arith), count-all f k n (λ q h. e q (omega (arith, h))))
]
