-- ===== src/Queue/Contents.antt =====
-- The representation invariant of `beltpp::queue` and the sequence that a queue stands for.
use belt_pp.Base.{
  ℕ, zero, suc, ◌+◌, ◌-◌, ◌%◌, ◌≤◌, ◌<◌, ◌≡◌, refl, ◌∙◌, ap, ap₂, ◌⊎◌, arith, List, [], ◌∷◌, ◌++◌,
  length, get_or, get_elem?, some,
}
use belt_pp.Base.Words.{size_mod}
use belt_pp.Queue.{Queue, capacity}
use belt_pp.Queue.Pow2.{IsPow2}

module _ {ℓ} {A : Type ℓ} where
  -- The capacity is 0 or a power of two, and the first element's slot lies inside the vector.
  pub record IsValid (q : Queue A) : Type 0 where
    pub shape : ((capacity q ≡ 0) × (q.start ≡ 0)) ⊎ (IsPow2 (capacity q) × (q.start < capacity q))
    pub fits : q.size ≤ capacity q
    pub word : q.loops < size_mod

  -- `f b`, `f (b + 1)`, … : `n` values from position `b` on.
  abbrev pub span : (ℕ → A) → ℕ → ℕ → List A
  span f b zero = []
  span f b (suc n) = f b ∷ span f (suc b) n

  pub length-span : (f : ℕ → A) (b n : ℕ) → length (span f b n) ≡ n
  length-span f b zero = refl
  length-span f b (suc n) = ap suc (length-span f (suc b) n)

  pub get_elem?-span : (f : ℕ → A) (b n i : ℕ) → i < n → get_elem? (span f b n) i ≡ some (f (b + i))
  get_elem?-span f b zero i h = absurd (omega arith)
  get_elem?-span f b (suc n) zero h = ap (λ k. some (f k)) (omega arith)
  get_elem?-span f b (suc n) (suc i) h =
      get_elem?-span f (suc b) n i (omega arith) ∙ ap (λ k. some (f k)) (omega arith)

  -- Spans from two positions agree where their values do.
  pub span-ext :
      (f g : ℕ → A) (b c n : ℕ)
      → ((i : ℕ) → i < n → f (b + i) ≡ g (c + i))
      → span f b n ≡ span g c n
  span-ext f g b c zero h = refl
  span-ext f g b c (suc n) h =
      ap₂ ◌∷◌ (ap f (omega arith) ∙ h 0 (omega arith) ∙ ap g (omega arith)) (
        span-ext f g (suc b) (suc c) n
          (λ i lt. ap f (omega arith) ∙ h (suc i) (omega arith) ∙ ap g (omega arith)))

  pub span_pos : (f : ℕ → A) (b n : ℕ) → 0 < n → span f b n ≡ f b ∷ span f (suc b) (n - 1)
  span_pos f b zero h = absurd (omega arith)
  span_pos f b (suc n) h = ap (λ k. f b ∷ span f (suc b) k) (omega arith)

  pub span-suc : (f : ℕ → A) (b n : ℕ) → span f b (suc n) ≡ span f b n ++ (f (b + n) ∷ [])
  span-suc f b zero = ap (λ k. f k ∷ []) (omega arith)
  span-suc f b (suc n) =
      ap (◌∷◌ (f b)) (span-suc f (suc b) n ∙ ap (λ k. span f (suc b) n ++ (f k ∷ [])) (omega arith))

module _ {ℓ} {A : Type ℓ} (blank : A) where
  -- The value in the slot of position `i`.
  abbrev pub slot : List A → ℕ → A
  slot buf i = get_or buf (i % length buf) blank

  -- The elements from the oldest on.
  abbrev pub contents : Queue A → List A
  contents q = span (slot q.buf) q.start q.size
