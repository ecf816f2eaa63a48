-- ===== src/Queue/Pow2.antt =====
-- The capacity arithmetic of queue.hpp: `next2pow`, `capacity2pow` and the doubling in `reserve`.
use native.Mathlib.Nat.{pow-suc, pow-le-pow_right}
use belt_pp.Base.{
  ℕ, zero, suc, ◌+◌, ◌*◌, ◌^◌, ◌≤◌, ◌<◌, ◌≡◌, refl, ◌⊎◌, inl, inr, arith, Result, ok, ltb, ◌==◌,
  Bool-cases, dec_lt, ltb→lt,
}
use belt_pp.Base.Words.{mul_size}
use belt_pp.Queue.{next2pow_from, next2pow, capacity2pow, grow}

-- A power of two up to 2 ^ 63.
abbrev pub IsPow2 : ℕ → Type 0
IsPow2 c = (e : ℕ) × (e ≤ 63) × (c ≡ 2 ^ e)

pub pow-le : (e : ℕ) → e ≤ 63 → 2 ^ e ≤ 2 ^ 63
pow-le e h = pow-le-pow_right {n = 2} (omega arith) h

pub pow-pos : (e : ℕ) → 0 < 2 ^ e
pow-pos e = pow-le-pow_right {n = 2} (omega arith) {i = 0} {j = e} (omega arith)

pow-double : (e : ℕ) → e < 63 → mul_size (2 ^ e) 2 ≡ 2 ^ suc e
pow-double e h = omega (arith, pow-suc 2 e, pow-le (suc e) h)

pow-ge : (e : ℕ) → 63 ≤ e → 2 ^ 63 ≤ 2 ^ e
pow-ge e h = pow-le-pow_right {n = 2} (omega arith) h

-- What the search for a power of two returns.
abbrev pub Found : ℕ → Result ℕ → Type 0
Found number r = (c : ℕ) × (r ≡ ok c) × IsPow2 c × (number ≤ c) × ((c ≡ 1) ⊎ (c < 2 * number))

next2pow_from-Found :
    (fuel e number : ℕ)
    → e ≤ 63
    → 63 < e + fuel
    → number ≤ 2 ^ 63
    → (2 ^ e ≡ 1) ⊎ (2 ^ e < 2 * number)
    → Found number (next2pow_from fuel number (2 ^ e))
unfolding next2pow_from
next2pow_from-Found zero e number he hf hn small = absurd (omega arith)
next2pow_from-Found (suc fuel) e number he hf hn small = elim (Bool-cases (ltb (2 ^ e) number)) [
  | inl less ↦
      let room : e < 63 = (elim (dec_lt e 63) [
        | yes p ↦ p
        | no p ↦ absurd (omega (arith, ltb→lt (2 ^ e) number less, pow-ge e (omega arith)))
      ]) in
      rw (less, pow-double e room)
        (next2pow_from-Found fuel (suc e) number room (omega arith) hn
          (inr (omega (arith, pow-suc 2 e, ltb→lt (2 ^ e) number less))))
  | inr more ↦ (2 ^ e, rw more, (e, he, refl), ground arith, small)
]

-- `next2pow` returns the least power of two that is not below its argument.
pub next2pow_lem : (number : ℕ) → number ≤ 2 ^ 63 → Found number (next2pow number)
unfolding next2pow
next2pow_lem number h = next2pow_from-Found 65 0 number (omega arith) (omega arith) h (inl refl)

-- `capacity2pow` leaves 0 alone and rounds any other capacity up to a power of two.
pub capacity2pow_pos : (n : ℕ) → 0 < n → n ≤ 2 ^ 63 → Found n (capacity2pow n)
unfolding capacity2pow
capacity2pow_pos n pos h = elim (Bool-cases (n == 0)) [
  | inl zero_size ↦ absurd (ground arith)
  | inr _ ↦
      let (c, found, pow, above, least) = next2pow_lem n h in (c, ground arith, pow, above, least)
]

-- The doubling loop returns a size above the one that it starts with, and not below `min_size`.
pub grow_lem :
    (fuel n min_size : ℕ)
    → 0 < n
    → n ≤ 2 ^ 62
    → min_size ≤ 2 ^ 62
    → min_size ≤ n * 2 ^ suc fuel
    → (m : ℕ) × (grow (suc fuel) n min_size ≡ ok m) × (n < m) × (min_size ≤ m) × (m ≤ 2 ^ 63)
unfolding grow
grow_lem zero n min_size pos hn hm reach =
    (mul_size n 2, ground arith, omega arith, omega arith, omega arith)
grow_lem (suc fuel) n min_size pos hn hm reach = elim (Bool-cases (ltb (mul_size n 2) min_size)) [
  | inl less ↦
      let small = ltb→lt (mul_size n 2) min_size less in
      let twice : mul_size n 2 ≡ n * 2 = omega arith in
      let left : min_size ≤ n * (2 ^ suc fuel * 2) = rw (← pow-suc 2 (suc fuel)) reach in
      let further : min_size ≤ mul_size n 2 * 2 ^ suc fuel = rw twice (omega arith) in
      let (m, run, above, enough, fits) =
        grow_lem fuel (mul_size n 2) min_size (omega arith) (omega arith) hm further in
      (m, rw less run, omega arith, enough, fits)
  | inr more ↦ (mul_size n 2, rw more, omega arith, ground arith, omega arith)
]
