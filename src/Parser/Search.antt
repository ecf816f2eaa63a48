-- ===== src/Parser/Search.antt =====
-- The loops up the path, and what is below the node where they stop.
use belt_pp.Base.{
  ℕ, zero, suc, ◌-◌, ◌<◌, ◌≤◌, ◌≡◌, refl, sym, ap, ◌∙◌, inl, inr, Bool, true, false, ◌||◌, not,
  List, [], ◌∷◌, ◌++◌, Option, none, some, length, get_elem?, take, arith, ◌==◌, ℕ_discrete, dec_lt,
  get_elem?-lt, lt-get_elem?, take_whole, take_split, ok, Bool-cases,
}
use belt_pp.Parser.{Operator, Node, Tree, info_complete, node_complete, node_at, item2}
use belt_pp.Parser.Place.{is_weaker, seek, enclosing, point_to}
use belt_pp.Parser.Valid.{IsTree, path_in, path_increases}
use belt_pp.Parser.Grow.{standing}

abbrev pub ItemAt : Tree → ℕ → ℕ → Node → Type 0
ItemAt t i a n = (get_elem? t.node_address i ≡ some a) × (get_elem? t.memory a ≡ some n)

pub ItemAt-item2 : (t : Tree) (i a : ℕ) (n : Node) → ItemAt t i a n → item2 t i ≡ ok n
unfolding item2 node_at
ItemAt-item2 t i a n (e, f) = rw (e, f) refl

pub path_item :
    (t : Tree) (i : ℕ)
    → IsTree t
    → i < length t.node_address
    → (a : ℕ) × (n : Node) × ItemAt t i a n
path_item t i v h =
    let (a, e) = get_elem?-lt t.node_address i h in
    let (n, f) = get_elem?-lt t.memory a (path_in t.memory t.node_address i v.path e) in
    (a, n, (e, f))

-- The nodes of the path from index `k` on are complete.
abbrev pub CompleteFrom : Tree → ℕ → Type 0
CompleteFrom t k = (i : ℕ) (a : ℕ) (n : Node) → k ≤ i → ItemAt t i a n → info_complete n.info ≡ true

pub complete_past : (t : Tree) (k : ℕ) → length t.node_address ≤ k → CompleteFrom t k
complete_past t k h i a n le (e, f) = absurd (omega (arith, lt-get_elem? t.node_address i e))

complete_before :
    (t : Tree) (k a : ℕ) (n : Node)
    → ItemAt t k a n
    → info_complete n.info ≡ true
    → CompleteFrom t (suc k)
    → CompleteFrom t k
complete_before t k a n (e, f) done rest i b m le (g, h) = elim (ℕ_discrete k i) [
  | no ne ↦ rest i b m (omega arith) (g, h)
  | yes same ↦
      let p : some a ≡ some b = sym e ∙ ap (get_elem? t.node_address) same ∙ g in
      let q : some n ≡ some m =
        sym f
        ∙ ap (λ o. elim o as (λ _. Option Node) [ none ↦ none | some x ↦ get_elem? t.memory x ]) p
        ∙ h in
      sym (ap (λ o. elim o as (λ _. Bool) [ none ↦ true | some x ↦ info_complete x.info ]) q) ∙ done
]

-- Where the first loop stops.
abbrev pub Sought : Tree → Option Operator → ℕ → Option ℕ → Type 0
Sought t act k none = CompleteFrom t 0
Sought t act k (some i) =
    (i < k)
    × CompleteFrom t (suc i)
    × ((a : ℕ) × (n : Node) × ItemAt t i a n × ((not (node_complete n) || is_weaker n act) ≡ true))

complete_of : (n : Node) → node_complete n ≡ true → info_complete n.info ≡ true
unfolding node_complete
complete_of n e = e

not_stopped :
    (n : Node) (weaker : Bool)
    → (not (node_complete n) || weaker) ≡ false
    → info_complete n.info ≡ true
unfolding node_complete
not_stopped n weaker e = ground arith

Sought-suc :
    (t : Tree) (act : Option Operator) (k : ℕ) (found : Option ℕ)
    → Sought t act k found
    → Sought t act (suc k) found
Sought-suc t act k none s = s
Sought-suc t act k (some i) (lt, done, at) = (omega arith, done, at)

pub seek_lem :
    (act : Option Operator) (k : ℕ) (t : Tree)
    → IsTree t
    → k ≤ length t.node_address
    → CompleteFrom t k
    → (found : Option ℕ) × (seek act k t ≡ ok found) × Sought t act k found
unfolding seek
seek_lem act zero t v le done = (none, refl, done)
seek_lem act (suc k) t v le done =
    let (a, n, at) = path_item t k v (omega arith) in
    let read = ItemAt-item2 t k a n at in
    elim (Bool-cases (not (node_complete n) || is_weaker n act)) [
      | inl stop ↦ (some k, rw (read, stop) refl, (omega arith, done, (a, n, at, stop)))
      | inr go ↦
          let (found, e, s) =
            seek_lem act k t v (omega arith)
              (complete_before t k a n at (not_stopped n (is_weaker n act) go) done) in
          (found, rw (read, go) e, Sought-suc t act k found s)
    ]

pub enclosing_lem :
    (rtt current k : ℕ) (t : Tree)
    → IsTree t
    → current < length t.node_address
    → CompleteFrom t (suc current)
    → k ≤ suc current
    → CompleteFrom t k
    → (i : ℕ) × (enclosing rtt current k t ≡ ok i)
      × (i < length t.node_address)
      × CompleteFrom t (suc i)
unfolding enclosing
enclosing_lem rtt current zero t v lt done le all = (current, refl, lt, done)
enclosing_lem rtt current (suc k) t v lt done le all =
    let (a, n, at) = path_item t k v (omega arith) in
    let read = ItemAt-item2 t k a n at in
    elim (Bool-cases (node_complete n)) [
      | inl complete ↦
          let (i, e, b, rest) =
            enclosing_lem rtt current k t v lt done (omega arith)
              (complete_before t k a n at (complete_of n complete) all) in
          (i, rw (read, complete) e, b, rest)
      | inr open_node ↦ elim (Bool-cases (n.rtt == rtt)) [
        | inl same ↦ (k, rw (read, open_node, same) refl, omega arith, all)
        | inr other ↦ (current, rw (read, open_node, other) refl, lt, done)
      ]
    ]

-- A path that ends at the index asked for.
abbrev pub Pointed : Tree → ℕ → Type 0
Pointed t index =
    (q : List ℕ) × (a : ℕ) × (point_to t index ≡ ok (standing q a t.memory t.expression_string))
    × (length q ≡ index)
    × (get_elem? t.node_address index ≡ some a)
    × (take (suc index) t.node_address ≡ q ++ (a ∷ []))

last_address :
    (t : Tree) (index : ℕ)
    → index < length t.node_address
    → (z : ℕ) × (get_elem? t.node_address (length t.node_address - 1) ≡ some z)
last_address t index h = get_elem?-lt t.node_address (length t.node_address - 1) (omega arith)

pub point_to_lem :
    (t : Tree) (index : ℕ) → IsTree t → index < length t.node_address → Pointed t index
unfolding point_to
point_to_lem t index v h =
    let (z, e) = last_address t index h in
    let (a, f) = get_elem?-lt t.node_address index h in
    let (cut, size) = take_split t.node_address index f in
    elim (dec_lt index (length t.node_address - 1)) [
      | yes inner ↦
          let lt =
            path_increases t.memory t.node_address index (length t.node_address - 1) v.path f e
              inner in
          let t1 : (z == a) ≡ false = ground arith in
          (take index t.node_address, a, rw (e, f, t1, cut) refl, size, f, cut)
      | no last ↦
          let same : index ≡ length t.node_address - 1 = omega arith in
          let p : some z ≡ some a = sym e ∙ ap (get_elem? t.node_address) (sym same) ∙ f in
          let t1 : (z == a) ≡ true = ground arith in
          let all = sym (take_whole (suc index) t.node_address (omega arith)) ∙ cut in
          (
            take index t.node_address,
            a,
            rw (e, f, t1) (ap (λ l. ok (record t { node_address = l })) all),
            size,
            f,
            cut,
          )
    ]
