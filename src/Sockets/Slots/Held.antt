-- ===== src/Sockets/Slots/Held.antt =====
-- What a list of queues holds: for each queue its first index and its elements, no two queues with
-- an index in common.
use mathlib.Core.Option.{or_else}
use belt_pp.Base.{
  ℕ, if◌then◌else◌, subst, ◌+◌, ◌≤◌, ◌<◌, ◌≡◌, refl, ap, ◌∙◌, arith, List, [], ◌∷◌, ◌++◌, Option,
  none, some, length, leb, true, false, dec_le, get_elem?, ◌-◌, lt-get_elem?,
}
use belt_pp.Queue.{Queue, capacity}
use belt_pp.Queue.Model.{lookup_from}
use belt_pp.Queue.Refine.{Holds, get_elem?_beyond}

pub record Segment {ℓ} (A : Type ℓ) : Type ℓ where
  pub base : ℕ
  pub items : List A

module _ {ℓ} {A : Type ℓ} where
  abbrev pub ends : Segment A → ℕ
  ends s = s.base + length s.items

  -- The element under an id.
  abbrev pub look : List (Segment A) → ℕ → Option A
  look [] i = none
  look (s ∷ ss) i = or_else (lookup_from s.base s.items i) (look ss i)

  -- The index behind the last.
  abbrev pub top : ℕ → List (Segment A) → ℕ
  top lo [] = lo
  top lo (s ∷ ss) = top (ends s) ss

module _ {ℓ} {A : Type ℓ} (blank : A) where
  abbrev pub Held : ℕ → List (Queue A) → List (Segment A) → Type ℓ
  Held lo [] [] = Unit {ℓ}
  Held lo [] (s ∷ ss) = Unit {ℓ} × ⊥
  Held lo (q ∷ qs) [] = Unit {ℓ} × ⊥
  Held lo (q ∷ qs) (s ∷ ss) =
      Holds blank q s.base s.items × (lo ≤ s.base) × (0 < capacity q) × Held (ends s) qs ss

  pub Held-le_top :
      (lo : ℕ) (qs : List (Queue A)) (ss : List (Segment A)) → Held lo qs ss → lo ≤ top lo ss
  Held-le_top lo [] [] h = omega arith
  Held-le_top lo [] (s ∷ ss) h = absurd h.1
  Held-le_top lo (q ∷ qs) [] h = absurd h.1
  Held-le_top lo (q ∷ qs) (s ∷ ss) (_, above, _, rest) =
      let later = Held-le_top (ends s) qs ss rest in omega arith

  pub Held-lower :
      (lo lo' : ℕ) (qs : List (Queue A)) (ss : List (Segment A))
      → lo' ≤ lo
      → Held lo qs ss
      → Held lo' qs ss
  Held-lower lo lo' [] [] le h = tt
  Held-lower lo lo' [] (s ∷ ss) le h = absurd h.1
  Held-lower lo lo' (q ∷ qs) [] le h = absurd h.1
  Held-lower lo lo' (q ∷ qs) (s ∷ ss) le (holds, above, room, rest) =
      (holds, omega arith, room, rest)

  pub Held-append :
      (lo : ℕ) (qs rs : List (Queue A)) (ss ts : List (Segment A))
      → Held lo qs ss
      → Held (top lo ss) rs ts
      → Held lo (qs ++ rs) (ss ++ ts)
  Held-append lo [] rs [] ts h k = k
  Held-append lo [] rs (s ∷ ss) ts h k = absurd h.1
  Held-append lo (q ∷ qs) rs [] ts h k = absurd h.1
  Held-append lo (q ∷ qs) rs (s ∷ ss) ts (holds, above, room, rest) k =
      (holds, above, room, Held-append (ends s) qs rs ss ts rest k)

module _ {ℓ} {A : Type ℓ} where
  pub top-append : (lo : ℕ) (ss ts : List (Segment A)) → top lo (ss ++ ts) ≡ top (top lo ss) ts
  top-append lo [] ts = refl
  top-append lo (s ∷ ss) ts = top-append (ends s) ss ts

  pub or_else_assoc : (o p r : Option A) → or_else o (or_else p r) ≡ or_else (or_else o p) r
  unfolding or_else
  or_else_assoc none p r = refl
  or_else_assoc (some a) p r = refl

  pub look-append :
      (ss ts : List (Segment A)) (i : ℕ) → look (ss ++ ts) i ≡ or_else (look ss i) (look ts i)
  unfolding or_else
  look-append [] ts i = refl
  look-append (s ∷ ss) ts i =
      ap (or_else (lookup_from s.base s.items i)) (look-append ss ts i)
      ∙ or_else_assoc (lookup_from s.base s.items i) (look ss i) (look ts i)

  -- An element stands under an id inside its segment.
  pub lookup_inside :
      (base : ℕ) (items : List A) (i : ℕ) (a : A)
      → lookup_from base items i ≡ some a
      → (base ≤ i) × (i < base + length items) × (get_elem? items (i - base) ≡ some a)
  unfolding lookup_from
  lookup_inside base items i a found = elim (dec_le base i) [
    | no below ↦ let test : leb base i ≡ false = ground arith in absurd (cc)
    | yes above ↦
        let test : leb base i ≡ true = ground arith in
        let here : get_elem? items (i - base) ≡ some a =
          subst (λ t. (if t then get_elem? items (i - base) else none) ≡ some a) test found in
        let inside = lt-get_elem? items (i - base) here in (above, omega arith, here)
  ]

  pub lookup_below :
      (base : ℕ) (items : List A) (i : ℕ) → i < base → lookup_from base items i ≡ none
  unfolding lookup_from
  lookup_below base items i h = let test : leb base i ≡ false = ground arith in rw test

  pub lookup_above :
      (base : ℕ) (items : List A) (i : ℕ)
      → base + length items ≤ i
      → lookup_from base items i ≡ none
  unfolding lookup_from
  lookup_above base items i h =
      let test : leb base i ≡ true = ground arith in
      rw test (get_elem?_beyond items (i - base) (omega arith))

module _ {ℓ} {A : Type ℓ} (blank : A) where
  pub look_below :
      (lo : ℕ) (qs : List (Queue A)) (ss : List (Segment A)) (i : ℕ)
      → Held blank lo qs ss
      → i < lo
      → look ss i ≡ none
  unfolding or_else
  look_below lo [] [] i h below = refl
  look_below lo [] (s ∷ ss) i h below = absurd h.1
  look_below lo (q ∷ qs) [] i h below = absurd h.1
  look_below lo (q ∷ qs) (s ∷ ss) i (_, above, _, rest) below =
      rw (lookup_below s.base s.items i (omega arith))
        (look_below (ends s) qs ss i rest (omega arith))

  pub look_above :
      (lo : ℕ) (qs : List (Queue A)) (ss : List (Segment A)) (i : ℕ)
      → Held blank lo qs ss
      → top lo ss ≤ i
      → look ss i ≡ none
  unfolding or_else
  look_above lo [] [] i h above_top = refl
  look_above lo [] (s ∷ ss) i h above_top = absurd h.1
  look_above lo (q ∷ qs) [] i h above_top = absurd h.1
  look_above lo (q ∷ qs) (s ∷ ss) i (_, above, _, rest) above_top =
      let later = Held-le_top blank (ends s) qs ss rest in
      rw (lookup_above s.base s.items i (omega arith)) (look_above (ends s) qs ss i rest above_top)
