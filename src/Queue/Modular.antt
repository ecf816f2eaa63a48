-- ===== src/Queue/Modular.antt =====
-- Indices modulo a capacity that divides the range of `size_t`.
use Prim.Native.Nat.{◌∣◌}
use native.Mathlib.Nat.{mod-mod_of_dvd, dvd_refl, dvd-mul_right_of_dvd, pow-suc, div-add-mod}
use belt_pp.Base.{ℕ, zero, suc, ◌+◌, ◌-◌, ◌*◌, ◌/◌, ◌%◌, ◌^◌, ◌<◌, ◌≡◌, refl, ◌≢◌, arith}
use belt_pp.Base.Words.{size_mod}
use belt_pp.Queue.Pow2.{IsPow2}

pow-dvd : (e d n : ℕ) → n ≡ d + e → 2 ^ e ∣ 2 ^ n
pow-dvd e zero n h = rw (let same : n ≡ e = omega arith in same) (dvd_refl (2 ^ e))
pow-dvd e (suc d) n h =
    let step : n ≡ suc (d + e) = omega arith in
    rw (step, pow-suc) (dvd-mul_right_of_dvd (2 ^ e) (pow-dvd e d (d + e) refl) 2)

-- A power of two up to 2 ^ 63 divides 2 ^ 64.
pub IsPow2-divides : (c : ℕ) → IsPow2 c → c ∣ size_mod
IsPow2-divides c (e, small, eq) = rw eq (pow-dvd e (64 - e) 64 (omega arith))

-- Wrapping at 2 ^ 64 does not change the slot of an index.
pub mod-wrap : (c x : ℕ) → IsPow2 c → x % size_mod % c ≡ x % c
mod-wrap c x pow = mod-mod_of_dvd c x (IsPow2-divides c pow)

-- Indices less than a capacity apart have different slots.
pub mod-ne : (c i k : ℕ) → i < k → k < i + c → i % c ≢ k % c
mod-ne c i k lt close e =
    let a : c * (i / c) + i % c ≡ i = div-add-mod i c in
    let b : c * (k / c) + k % c ≡ k = div-add-mod k c in grind arith
