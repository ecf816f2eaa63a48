-- ===== src/Parser/Complete.antt =====
-- belt.pp/parser.hpp: `complete` looks at the path only; by the invariant it speaks of all nodes.
use belt_pp.Base.{
  ℕ, zero, suc, ◌<◌, ◌≤◌, ◌≡◌, refl, sym, ap, ◌∙◌, ◌⊎◌, inl, inr, Bool, true, false, none, some,
  length, get_elem?, arith, is_empty, lt-get_elem?, ℕ_discrete, ok, Bool-cases,
}
use belt_pp.Parser.{
  Node, Tree, info_complete, node_complete, tree_empty, complete_below, tree_complete,
}
use belt_pp.Parser.Valid.{IsTree}
use belt_pp.Parser.Keeps.{address_of}
use belt_pp.Parser.Search.{ItemAt, ItemAt-item2, path_item}

-- Every node is complete, whether the parser stands in it or not.
abbrev pub AllComplete : Tree → Type 0
AllComplete t = (a : ℕ) (n : Node) → get_elem? t.memory a ≡ some n → node_complete n ≡ true

of_info : (n : Node) → info_complete n.info ≡ true → node_complete n ≡ true
unfolding node_complete
of_info n e = e

-- The path below an index is complete, or has a node that is not.
abbrev Looked : Tree → ℕ → Bool → Type 0
Looked t k true = (i a : ℕ) (n : Node) → i < k → ItemAt t i a n → node_complete n ≡ true
Looked t k false = (i : ℕ) × (a : ℕ) × (n : Node) × ItemAt t i a n × (node_complete n ≡ false)

Looked-suc :
    (t : Tree) (k : ℕ) (b : Bool) (a : ℕ) (n : Node)
    → ItemAt t k a n
    → node_complete n ≡ true
    → Looked t k b
    → Looked t (suc k) b
Looked-suc t k false a n at e looked = looked
Looked-suc t k true a n (f, g) e looked = λ i c m lt (h, j). elim (ℕ_discrete i k) [
  | no ne ↦ looked i c m (omega arith) (h, j)
  | yes same ↦
      let p : some a ≡ some c = sym f ∙ ap (get_elem? t.node_address) (sym same) ∙ h in
      let q : some n ≡ some m = sym g ∙ ap (address_of t.memory) p ∙ j in
      sym (ap (λ o. elim o as (λ _. Bool) [ none ↦ true | some x ↦ node_complete x ]) q) ∙ e
]

complete_below_lem :
    (k : ℕ) (t : Tree)
    → IsTree t
    → k ≤ length t.node_address
    → (b : Bool) × (complete_below k t ≡ ok b) × Looked t k b
unfolding complete_below
complete_below_lem zero t v le = (true, refl, λ i a n lt. absurd (omega arith))
complete_below_lem (suc k) t v le =
    let (a, n, at) = path_item t k v (omega arith) in
    let read = ItemAt-item2 t k a n at in
    elim (Bool-cases (node_complete n)) [
      | inr incomplete ↦ (false, rw (read, incomplete) refl, (k, a, n, at, incomplete))
      | inl complete ↦
          let (b, e, looked) = complete_below_lem k t v (omega arith) in
          (b, rw (read, complete) e, Looked-suc t k b a n at complete looked)
    ]

-- On a well-formed tree `complete` always comes to an answer: true when there are nodes and all of
-- them are complete, in the path or out of it, and false when the tree is empty or has a node that is
-- not complete.
pub tree_complete_lem :
    (t : Tree)
    → IsTree t
    → (b : Bool) × (tree_complete t ≡ ok b)
      × (b ≡ true → (is_empty t.memory ≡ false) × AllComplete t)
      × (b ≡ false
          → (is_empty t.memory ≡ true)
            ⊎ ((a : ℕ) × (n : Node) × (get_elem? t.memory a ≡ some n) × (node_complete n ≡ false)))
unfolding tree_complete tree_empty
tree_complete_lem t v = elim (Bool-cases (is_empty t.memory)) [
  | inl blank ↦ (false, rw blank refl, λ x. cc, λ x. inl blank)
  | inr some_nodes ↦
      let path = sym v.rooted ∙ some_nodes in
      let (b, e, looked) = complete_below_lem (length t.node_address) t v (omega arith) in
      (
        b,
        rw (some_nodes, path) e,
        λ x. (some_nodes, all b x looked),
        λ x. inr (open_one b x looked),
      )
]
  where
    all : (b : Bool) → b ≡ true → Looked t (length t.node_address) b → AllComplete t
    all false x looked = absurd (cc)
    all true x looked = λ a n e. elim (v.settled a n e) [
      | inl (i, on) ↦ looked i a n (lt-get_elem? t.node_address i on) (on, e)
      | inr done ↦ of_info n done
    ]

    open_one :
        (b : Bool)
        → b ≡ false
        → Looked t (length t.node_address) b
        → (a : ℕ) × (n : Node) × (get_elem? t.memory a ≡ some n) × (node_complete n ≡ false)
    open_one true x looked = cc
    open_one false x (i, a, n, at, incomplete) = (a, n, at.1, incomplete)
