-- ===== src/Parser/Valid.antt =====
-- The invariant of the expression tree.
use belt_pp.Base.{
  ℕ, zero, suc, ◌+◌, ◌<◌, ◌≤◌, ◌≡◌, ◌≢◌, refl, sym, ap, subst, ◌∙◌, ◌⊎◌, inl, inr, true, false,
  List, [], ◌∷◌, ◌++◌, Option, none, some, length, get_elem?, set, take, arith, is_empty,
  ℕ_discrete, get_elem?-set_self, get_elem?-set_ne, get_elem?-append_left, get_elem?-append_last,
  lt-get_elem?,
}
use belt_pp.Parser.{Info, operator, value, Node, Tree, info_children, info_complete}

-- The last child of an operator.
abbrev pub link_of : Info → Option ℕ
link_of (operator o) = some o.last_child
link_of (value start size) = none

abbrev pub node_link : Option Node → Option ℕ
node_link none = none
node_link (some n) = link_of n.info

abbrev pub link : List Node → ℕ → Option ℕ
link memory a = node_link (get_elem? memory a)

-- A path goes from an operator to its last child, and its addresses grow.
abbrev pub Chain : List Node → List ℕ → Type 0
Chain memory [] = Unit {0}
Chain memory (a ∷ []) = a < length memory
Chain memory (a ∷ b ∷ rest) = (a < b) × (link memory a ≡ some b) × Chain memory (b ∷ rest)

-- How many children all nodes have.
abbrev pub total : List Node → ℕ
total [] = 0
total (n ∷ memory) = info_children n.info + total memory

abbrev pub OnPath : ℕ → List ℕ → Type 0
OnPath a path = (i : ℕ) × (get_elem? path i ≡ some a)

pub record IsTree (t : Tree) : Type 0 where
  pub path : Chain t.memory t.node_address
  pub rooted : is_empty t.memory ≡ is_empty t.node_address
  -- Each node but the root is the child of one node.
  pub counted : is_empty t.memory ≡ false → suc (total t.memory) ≡ length t.memory
  -- What the parser has left is complete.
  pub settled :
      (a : ℕ) (n : Node)
      → get_elem? t.memory a ≡ some n
      → OnPath a t.node_address ⊎ (info_complete n.info ≡ true)

pub total-append :
    (memory : List Node) (n : Node)
    → total (memory ++ (n ∷ [])) ≡ total memory + info_children n.info
total-append [] n = omega arith
total-append (m ∷ memory) n = omega (arith, total-append memory n)

pub total-set :
    (memory : List Node) (a : ℕ) (old new : Node)
    → get_elem? memory a ≡ some old
    → total (set memory a new) + info_children old.info ≡ total memory + info_children new.info
total-set [] a old new e = cc
total-set (m ∷ memory) zero old new e =
    let e' = ap (λ o. info_children (node_or o new).info) e in omega arith
  where
    node_or : Option Node → Node → Node
    node_or none n = n
    node_or (some n) other = n
total-set (m ∷ memory) (suc a) old new e = omega (arith, total-set memory a old new e)

pub link-set :
    (memory : List Node) (a : ℕ) (old new : Node)
    → get_elem? memory a ≡ some old
    → link_of new.info ≡ link_of old.info
    → (x : ℕ) → link (set memory a new) x ≡ link memory x
link-set memory a old new e same x = elim (ℕ_discrete a x) [
  | yes q ↦
      subst (λ y. link (set memory a new) y ≡ link memory y) q
        (ap node_link (get_elem?-set_self memory a new (lt-get_elem? memory a e))
          ∙ same
          ∙ sym (ap node_link e))
  | no ne ↦ ap node_link (get_elem?-set_ne memory a x new ne)
]

pub link-set_ne :
    (memory : List Node) (a x : ℕ) (new : Node) → a ≢ x → link (set memory a new) x ≡ link memory x
link-set_ne memory a x new ne = ap node_link (get_elem?-set_ne memory a x new ne)

pub link-append :
    (memory : List Node) (x : ℕ) (new : Node)
    → x < length memory
    → link (memory ++ (new ∷ [])) x ≡ link memory x
link-append memory x new h = ap node_link (get_elem?-append_left memory (new ∷ []) x h)

-- A path is kept where its links are.
pub Chain-same :
    (memory memory' : List Node) (path : List ℕ)
    → Chain memory path
    → ((x : ℕ) → link memory' x ≡ link memory x)
    → length memory' ≡ length memory
    → Chain memory' path
Chain-same memory memory' [] p same l = tt
Chain-same memory memory' (a ∷ []) p same l = omega arith
Chain-same memory memory' (a ∷ b ∷ rest) (lt, e, p) same l =
    (lt, same a ∙ e, Chain-same memory memory' (b ∷ rest) p same l)

pub path_below :
    (memory : List Node) (a : ℕ) (rest : List ℕ) → Chain memory (a ∷ rest) → a < length memory
path_below memory a [] p = p
path_below memory a (b ∷ rest) (lt, e, p) = omega (arith, path_below memory b rest p)

pub Chain-take :
    (memory : List Node) (k : ℕ) (path : List ℕ) → Chain memory path → Chain memory (take k path)
Chain-take memory zero path p = tt
Chain-take memory (suc k) [] p = tt
Chain-take memory (suc zero) (a ∷ rest) p = path_below memory a rest p
Chain-take memory (suc (suc k)) (a ∷ []) p = p
Chain-take memory (suc (suc k)) (a ∷ b ∷ rest) (lt, e, p) =
    (lt, e, Chain-take memory (suc k) (b ∷ rest) p)

-- Addresses further down a path are greater.
pub path_grows :
    (memory : List Node) (a : ℕ) (rest : List ℕ) (j : ℕ) {b : ℕ}
    → Chain memory (a ∷ rest)
    → get_elem? rest j ≡ some b
    → a < b
path_grows memory a [] j p e = cc
path_grows memory a (c ∷ rest) zero (lt, l, p) e = ground arith
path_grows memory a (c ∷ rest) (suc j) (lt, l, p) e = omega (arith, path_grows memory c rest j p e)

pub path_increases :
    (memory : List Node) (path : List ℕ) (i j : ℕ) {a b : ℕ}
    → Chain memory path
    → get_elem? path i ≡ some a
    → get_elem? path j ≡ some b
    → i < j
    → a < b
path_increases memory [] i j p e f h = cc
path_increases memory (x ∷ path) i zero p e f h = absurd (omega arith)
path_increases memory (x ∷ path) zero (suc j) {a = a} p e f h =
    let lt = path_grows memory x path j p f in ground arith
path_increases memory (x ∷ []) (suc i) (suc j) p e f h = cc
path_increases memory (x ∷ y ∷ path) (suc i) (suc j) (lt, l, p) e f h =
    path_increases memory (y ∷ path) i j p e f (omega arith)

pub path_in :
    (memory : List Node) (path : List ℕ) (i : ℕ) {a : ℕ}
    → Chain memory path
    → get_elem? path i ≡ some a
    → a < length memory
path_in memory [] i p e = cc
path_in memory (x ∷ path) zero p e = let lt = path_below memory x path p in ground arith
path_in memory (x ∷ []) (suc i) p e = cc
path_in memory (x ∷ y ∷ path) (suc i) (lt, l, p) e = path_in memory (y ∷ path) i p e

-- A path to `a` goes on to the last child of `a`, when no node but `a` has another link.
pub Chain-extend :
    (memory memory' : List Node) (q : List ℕ) (a b : ℕ)
    → Chain memory (q ++ (a ∷ []))
    → ((x : ℕ) → x < a → link memory' x ≡ link memory x)
    → link memory' a ≡ some b
    → a < b
    → b < length memory'
    → Chain memory' (q ++ (a ∷ b ∷ []))
Chain-extend memory memory' [] a b p same l lt h = (lt, l, h)
Chain-extend memory memory' (x ∷ []) a b (ax, e, p) same l lt h = (ax, same x ax ∙ e, (lt, l, h))
Chain-extend memory memory' (x ∷ y ∷ q) a b (xy, e, p) same l lt h =
    let ya = path_grows memory y (q ++ (a ∷ [])) (length q) p (get_elem?-append_last q a) in
    (xy, same x (omega arith) ∙ e, Chain-extend memory memory' (y ∷ q) a b p same l lt h)

-- The path without its last address.
pub Chain-init :
    (memory : List Node) (q : List ℕ) (a b : ℕ)
    → Chain memory (q ++ (a ∷ b ∷ []))
    → Chain memory (q ++ (a ∷ []))
Chain-init memory [] a b (lt, e, h) = omega arith
Chain-init memory (x ∷ []) a b (xa, e, p) = (xa, e, Chain-init memory [] a b p)
Chain-init memory (x ∷ y ∷ q) a b (xy, e, p) = (xy, e, Chain-init memory (y ∷ q) a b p)

pub children-le-total :
    (memory : List Node) (a : ℕ) {n : Node}
    → get_elem? memory a ≡ some n
    → info_children n.info ≤ total memory
children-le-total [] a e = cc
children-le-total (m ∷ memory) zero e = ground arith
children-le-total (m ∷ memory) (suc a) e = omega (arith, children-le-total memory a e)

pub OnPath-append : {x : ℕ} (q r : List ℕ) → OnPath x q → OnPath x (q ++ r)
OnPath-append q r (i, e) = (i, get_elem?-append_left q r i (lt-get_elem? q i e) ∙ e)

pub OnPath-here : (a : ℕ) (q r : List ℕ) → OnPath a (q ++ (a ∷ r))
OnPath-here a [] r = (0, refl)
OnPath-here a (x ∷ q) r = let (i, e) = OnPath-here a q r in (suc i, e)

pub OnPath-split : {x : ℕ} (q : List ℕ) (a : ℕ) → OnPath x (q ++ (a ∷ [])) → OnPath x q ⊎ (x ≡ a)
OnPath-split [] a (zero, e) = inr (cc)
OnPath-split [] a (suc i, e) = cc
OnPath-split (y ∷ q) a (zero, e) = inl (0, e)
OnPath-split (y ∷ q) a (suc i, e) = elim (OnPath-split q a (i, e)) [
  | inl (j, f) ↦ inl (suc j, f)
  | inr f ↦ inr f
]
