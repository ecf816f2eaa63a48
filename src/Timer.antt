-- ===== src/Timer.antt =====
-- belt.pp/timer.hpp: `timer`. A time is counted from a moment that no period reaches back to. The
-- steady clock is an argument, by its readings one after the other; `from` is the next reading.
use belt_pp.Base.{
  ℕ, zero, suc, ◌+◌, ◌-◌, ◌*◌, ◌<◌, ◌≤◌, ◌≡◌, refl, ap, ◌∙◌, Bool, true, false, ◌&&◌, leb,
  if◌then◌else◌, Result, ok, err, no_fuel, arith, Bool-cases, inl, inr,
}

pub record Timer : Type 0 where
  pub is_set : Bool
  pub last_point_expired : ℕ
  pub timer_period : ℕ

-- `set`, at a reading of the clock.
unfoldable pub set_timer : ℕ → ℕ → Timer → Timer
set_timer now period t = record t {
  is_set = true;
  last_point_expired = now - period;
  timer_period = period;
}

unfoldable pub clean : Timer → Timer
clean t = record t { is_set = false }

-- `expired`, at a reading of the clock.
unfoldable pub expired : ℕ → Timer → Bool
expired now t = t.is_set && leb (t.last_point_expired + t.timer_period) now

abbrev pub moved_on : Timer → Timer
moved_on t = record t { last_point_expired = t.last_point_expired + t.timer_period }

-- `update`: `clock k` is the reading of the k-th call of `now`.
unfoldable pub update : ℕ → (ℕ → ℕ) → ℕ → Timer → Result Timer
update zero clock from t = err no_fuel
update (suc fuel) clock from t =
    let next = update fuel clock (suc from) (moved_on t) in
    if expired (clock from) t then next else ok t

-- The timer after so many rounds of the loop.
abbrev pub after : ℕ → Timer → Timer
after zero t = t
after (suc rounds) t = after rounds (moved_on t)

after_lem :
    (rounds : ℕ) (t : Timer)
    → (after rounds t).last_point_expired ≡ t.last_point_expired + rounds * t.timer_period
after_lem zero t = omega arith
after_lem (suc rounds) t = omega (arith, after_lem rounds (moved_on t))

pub expired-set : (now : ℕ) (t : Timer) → expired now t ≡ true → t.is_set ≡ true
unfolding expired
expired-set now t h = ground arith

expired_late :
    (now : ℕ) (t : Timer) → expired now t ≡ true → t.last_point_expired + t.timer_period ≤ now
unfolding expired
expired_late now t e = ground arith

reading :
    (clock : ℕ → ℕ) (t : Timer) {i j : ℕ} {b : Bool}
    → expired (clock j) t ≡ b
    → i ≡ j
    → expired (clock i) t ≡ b
reading clock t e same = ap (λ k. expired (clock k) t) same ∙ e

-- The readings before the last one.
earlier :
    (clock : ℕ → ℕ) (from : ℕ) (t : Timer) (rounds : ℕ)
    → expired (clock from) t ≡ true
    → ((k : ℕ) → k < rounds → expired (clock (suc from + k)) (after k (moved_on t)) ≡ true)
    → (k : ℕ) → k < suc rounds
    → expired (clock (from + k)) (after k t) ≡ true
earlier clock from t rounds first before zero lt =
    ap (λ k. expired (clock k) t) (omega arith) ∙ first
earlier clock from t rounds first before (suc k) lt =
    ap (λ i. expired (clock i) (after k (moved_on t))) (omega arith) ∙ before k (omega arith)

-- When the timer is set, its period is not zero and no reading of the clock is beyond a bound, `update`
-- ends, on any fuel that takes the last point beyond the bound. It stops at the first reading at which
-- the timer has not expired, with the last point moved on by one period for each before it.
pub update_lem :
    (fuel : ℕ) (clock : ℕ → ℕ) (from bound : ℕ) (t : Timer)
    → t.is_set ≡ true
    → 0 < t.timer_period
    → ((k : ℕ) → clock k ≤ bound)
    → 0 < fuel
    → bound < t.last_point_expired + fuel
    → (rounds : ℕ) × (update fuel clock from t ≡ ok (after rounds t))
      × ((after rounds t).last_point_expired ≡ t.last_point_expired + rounds * t.timer_period)
      × (expired (clock (from + rounds)) (after rounds t) ≡ false)
      × ((k : ℕ) → k < rounds → expired (clock (from + k)) (after k t) ≡ true)
unfolding update
update_lem zero clock from bound t set positive below some_fuel enough = absurd (omega arith)
update_lem (suc fuel) clock from bound t set positive below some_fuel enough =
    elim (Bool-cases (expired (clock from) t)) [
      | inr stop ↦
          (0, rw stop refl, omega arith, reading clock t stop here, λ k lt. absurd (omega arith))
      | inl go ↦
          let late : t.last_point_expired + t.timer_period ≤ clock from =
            expired_late (clock from) t go in
          let (rounds, e, last, stop, before) =
            update_lem fuel clock (suc from) bound (moved_on t) set positive below
              (omega (arith, below from)) (omega (arith, below from)) in
          (
            suc rounds,
            rw go e,
            omega (arith, last),
            reading clock (after rounds (moved_on t)) stop (next rounds),
            earlier clock from t rounds go before,
          )
    ]
  where
    here : from + 0 ≡ from
    here = omega arith

    next : (k : ℕ) → from + suc k ≡ suc from + k
    next k = omega arith
