-- ===== src/Sockets/Slots/Write.antt =====
-- Tables with another entry under one id, and their open entries.
use belt_pp.Base.{
  ℕ, ◌≡◌, ◌≢◌, refl, sym, ap, ◌∙◌, arith, Option, none, some, ◌==◌, Bool, true, false,
  if◌then◌else◌, ℕ_discrete,
}
use belt_pp.Sockets.Slots.Drain.{open_of}
use belt_pp.Sockets.Slots.Keeps.{write}

module _ {ℓ} {A : Type ℓ} (f : ℕ → Option A) (i : ℕ) where
  pub write_here : (o : Option A) → write f i o i ≡ o
  write_here o = let t : (i == i) ≡ true = ground arith in rw t refl

  pub write_there : (o : Option A) (j : ℕ) → j ≢ i → write f i o j ≡ f j
  write_there o j ne = let t : (j == i) ≡ false = ground arith in rw t refl

  pub write_again : (a b : A) (j : ℕ) → f i ≡ some a → write (write f i (some b)) i (some a) j ≡ f j
  write_again a b j there = elim (ℕ_discrete j i) [
    | yes same ↦ let t : (i == i) ≡ true = ground arith in rw (same, t, there) refl
    | no ne ↦ let t : (j == i) ≡ false = ground arith in rw t refl
  ]

pub write-ext {ℓ} :
    {A : Type ℓ} {f g : ℕ → Option A} (i : ℕ) (o : Option A)
    → ((j : ℕ) → f j ≡ g j)
    → (j : ℕ) → write f i o j ≡ write g i o j
write-ext i o same j = ap (λ x. if j == i then o else x) (same j)

-- The open entries `F` of a table `f`, behind a write.
module _ {ℓ} {A : Type ℓ} (closed : A → Bool) (f F : ℕ → Option A)
    (same : (j : ℕ) → open_of closed (f j) ≡ F j) (i : ℕ) where
  pub open_write :
      (a : A) (j : ℕ)
      → closed a ≡ false
      → open_of closed (write f i (some a) j) ≡ write F i (some a) j
  open_write a j live = elim (ℕ_discrete j i) [
    | yes here ↦ let t : (i == i) ≡ true = ground arith in rw (here, t, live) refl
    | no ne ↦ let t : (j == i) ≡ false = ground arith in rw t (same j)
  ]

  pub open_write_closed :
      (a : A) (j : ℕ) → closed a ≡ true → open_of closed (write f i (some a) j) ≡ write F i none j
  open_write_closed a j shut = elim (ℕ_discrete j i) [
    | yes here ↦ let t : (i == i) ≡ true = ground arith in rw (here, t, shut) refl
    | no ne ↦ let t : (j == i) ≡ false = ground arith in rw t (same j)
  ]

  pub open_write_gone : (j : ℕ) → open_of closed (write f i none j) ≡ write F i none j
  open_write_gone j = elim (ℕ_discrete j i) [
    | yes here ↦ let t : (i == i) ≡ true = ground arith in rw (here, t) refl
    | no ne ↦ let t : (j == i) ≡ false = ground arith in rw t (same j)
  ]

  -- Writing a free id and taking the entry away again.
  pub open_write_back :
      (a : A) (j : ℕ) → f i ≡ none → open_of closed (write (write f i (some a)) i none j) ≡ F j
  open_write_back a j free = elim (ℕ_discrete j i) [
    | yes here ↦
        let t : (i == i) ≡ true = ground arith in
        rw (here, t) (ap (open_of closed) (sym free) ∙ same i)
    | no ne ↦ let t : (j == i) ≡ false = ground arith in rw t (same j)
  ]
