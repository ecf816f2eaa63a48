-- ===== src/Queue/Model.antt =====
-- What `beltpp::queue` promises: a sequence, oldest element first, and the index of the oldest.
-- Nothing of the vector, its capacity or its wrap-around shows.
use belt_pp.Base.{
  ℕ, suc, ◌-◌, List, [], ◌∷◌, ◌++◌, Option, none, some, get_elem?, Fault, terminate, if◌then◌else◌,
  leb,
}

-- The calls of a client.
pub data Op {ℓ} (A : Type ℓ) : Type ℓ where
  put_back : A → Op A
  drop_front : Op A
  read : ℕ → Op A

-- What a client sees of a call. A fault ends the program.
pub data Reply {ℓ} (A : Type ℓ) : Type ℓ where
  done : Reply A
  value : A → Reply A
  failed : Fault → Reply A

module _ {ℓ} {A : Type ℓ} where
  unfoldable pub lookup_from : ℕ → List A → ℕ → Option A
  lookup_from base items i = if leb base i then get_elem? items (i - base) else none

  unfoldable pub run : ℕ → List A → List (Op A) → List (Reply A)
  run base items [] = []
  run base items (put_back a ∷ ops) = done ∷ run base (items ++ (a ∷ [])) ops
  run base [] (drop_front ∷ ops) = failed terminate ∷ []
  run base (x ∷ items) (drop_front ∷ ops) = done ∷ run (suc base) items ops
  run base items (read i ∷ ops) =
      let rest = run base items ops in
      elim (lookup_from base items i) [ some a ↦ value a ∷ rest | none ↦ failed terminate ∷ [] ]
