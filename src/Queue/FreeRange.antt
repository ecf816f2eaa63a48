-- ===== src/Queue/FreeRange.antt =====
-- `get_free_range`: the stretch of the vector that a caller may write into.
use native.Mathlib.Nat.{mod-eq_of_lt, mod-eq-sub-mod}
use belt_pp.Base.{
  ℕ, ◌+◌, ◌-◌, ◌%◌, ◌^◌, ◌≤◌, ◌<◌, ◌≡◌, ◌≢◌, ◌⊎◌, inl, inr, arith, Result, ok, dec_le,
}
use belt_pp.Queue.{Queue, capacity, get_free_range}
use belt_pp.Queue.Pow2.{pow-le}
use belt_pp.Queue.Contents.{IsValid}

-- A stretch of free slots: it begins right behind the last element, lies inside the vector, and
-- ends at the end of the vector or at the first element.
abbrev pub IsFreeRange {ℓ} : {A : Type ℓ} → Queue A → Result (ℕ × ℕ) → Type 0
IsFreeRange q r =
    (i : ℕ) × (n : ℕ) × (r ≡ ok (i, n))
    × (0 < n)
    × (q.size + n ≤ capacity q)
    × ((j : ℕ) → j < n → (q.start + q.size + j) % capacity q ≡ i + j)
    × ((i + n ≡ capacity q) ⊎ (q.size + n ≡ capacity q))

behind_mod : (c s j : ℕ) → c ≤ s → s + j < c + c → (s + j) % c ≡ s - c + j
behind_mod c s j above below = omega (
  arith,
  mod-eq-sub-mod {n = s + j} {m = c} (omega arith),
  mod-eq_of_lt {n = s + j - c} {m = c} (omega arith),
)

module _ {ℓ} {A : Type ℓ} where
  get_free_range_room :
      (q : Queue A)
      → q.start < capacity q
      → capacity q ≤ 2 ^ 63
      → q.size < capacity q
      → IsFreeRange q (get_free_range q)
  unfolding get_free_range
  get_free_range_room q inside small room = elim (dec_le (capacity q) (q.start + q.size)) [
    | yes around ↦ (
      q.start + q.size - capacity q,
      capacity q - q.size,
      ground arith,
      omega arith,
      omega arith,
      λ j below. behind_mod (capacity q) (q.start + q.size) j around (omega arith),
      inr (omega arith),
    )
    | no before ↦ (
      q.start + q.size,
      capacity q - (q.start + q.size),
      ground arith,
      omega arith,
      omega arith,
      λ j below. mod-eq_of_lt (omega arith),
      inl (omega arith),
    )
  ]

  -- On a valid queue that is not full `get_free_range` returns a stretch of free slots, not empty,
  -- from the slot behind the last element on, as long as the vector or the free slots go.
  pub get_free_range_lem :
      {q : Queue A} → IsValid q → q.size ≢ capacity q → IsFreeRange q (get_free_range q)
  get_free_range_lem {q} v room = elim v.shape [
    | inl (none_held, _) ↦ absurd (room (let fits = v.fits in omega arith))
    | inr ((e, small, eq), inside) ↦
        get_free_range_room q inside (let below = pow-le e small in omega arith)
          (let fits = v.fits in omega arith)
  ]
