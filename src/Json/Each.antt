-- ===== src/Json/Each.antt =====
-- Properties of the numbers below a bound, one by one: of the bytes that have codes of their own.
use belt_pp.Base.{ℕ, zero, suc, ◌<◌, arith, ℕ_discrete}

-- A property of the numbers below `n`, one by one.
abbrev pub Each {ℓ} : (ℕ → Type ℓ) → ℕ → Type ℓ
Each P zero = Unit
Each P (suc n) = P n × Each P n

pub Each-lt {ℓ} : (P : ℕ → Type ℓ) (n b : ℕ) → Each P n → b < n → P b
Each-lt P zero b each h = absurd (omega arith)
Each-lt P (suc n) b each h = elim (ℕ_discrete b n) [
  | yes e ↦ rw e each.0
  | no ne ↦ Each-lt P n b each.1 (omega arith)
]

-- A pair without parentheses.
infixr 3 ◌&◌
abbrev pub ◌&◌ {ℓ κ} : {A : Type ℓ} {B : Type κ} → A → B → A × B
a & b = (a, b)
