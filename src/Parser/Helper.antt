-- ===== src/Parser/Helper.antt =====
-- belt.pp/parser.hpp: `parse_helper` keeps the invariant, and leaves the tree alone without success.
use belt_pp.Base.{
  ℕ, zero, suc, ◌+◌, ◌-◌, ◌<◌, ◌≤◌, ◌^◌, ◌≡◌, refl, sym, ap, subst, ◌∙◌, ◌⊎◌, inl, inr, Bool, true,
  false, ◌||◌, not, List, [], ◌∷◌, Option, none, some, length, get_elem?, arith, is_empty, ◌==◌,
  if◌then◌else◌, Result, ok, Bool-cases, ◌>>=◌,
}
use belt_pp.Parser.{
  Operator, Info, operator, Node, Tree, info_complete, info_children, node_complete, tree_empty,
  create,
}
use belt_pp.Parser.Place.{
  PlaceAs, e_discard, e_value, e_operator, is_weaker, place_operator, place_value, to_child,
  enclosing, acting, place_in, is_value_place, parse_helper, started,
}
use belt_pp.Parser.Valid.{IsTree, OnPath}
use belt_pp.Parser.Grow.{IsFresh, started-IsFresh}
use belt_pp.Parser.Search.{CompleteFrom, complete_past, seek_lem, Sought, enclosing_lem}
use belt_pp.Parser.Placing.{open-info, place_operator_lem, place_value_lem}
use belt_pp.Parser.Keeps.{info-OperatorAt}

-- What `parse_helper` promises: a tree again, and without success the one that was.
abbrev pub Keeps : Tree → ℕ → Result (Tree × Bool) → Type 0
Keeps t more r =
    (t' : Tree) × (placed : Bool) × (r ≡ ok (t', placed))
    × IsTree t'
    × (t'.expression_string ≡ t.expression_string)
    × (length t'.memory ≤ length t.memory + more)
    × (placed ≡ false → t' ≡ t)

Keeps-same :
    (t : Tree) (more : ℕ) {r r' : Result (Tree × Bool)} → r ≡ r' → Keeps t more r' → Keeps t more r
Keeps-same t more e k = subst (Keeps t more) (sym e) k

-- The default operator has no children.
abbrev pub IsDefault : Option (ℕ × Operator) → Type 0
IsDefault none = Unit {0}
IsDefault (some (rtt, o)) = o.children_count ≡ 0

-- A token that is placed as an operator is one.
abbrev pub FitsPlace : PlaceAs → Info → Type 0
FitsPlace e_operator i = (o : Operator) × (i ≡ operator o)
FitsPlace e_value i = Unit {0}
FitsPlace e_discard i = Unit {0}

-- With an operator to act by.
abbrev act_by : Tree → Node → PlaceAs → ℕ → Operator → Option ℕ → Result (Tree × Bool)
act_by t token place rtt a found =
    (enclosing rtt (to_child (length t.node_address - 1) found)
        (suc (to_child (length t.node_address - 1) found)) t
      >>= λ index. place_operator t index rtt a >>= λ (t1, placed).
          if is_value_place place then place_value t1 index token placed else ok (t1, placed))

-- The child that the second loop starts at.
child_lem :
    (t : Tree) (act : Option Operator) (found : Option ℕ)
    → Sought t act (length t.node_address) found
    → 0 < length t.node_address
    → (to_child (length t.node_address - 1) found < length t.node_address)
      × CompleteFrom t (suc (to_child (length t.node_address - 1) found))
child_lem t act none s h = (h, λ i a n le at. s i a n (omega arith) at)
child_lem t act (some i) (lt, done, at) h = elim (Bool-cases (i == length t.node_address - 1)) [
  | inl last ↦ rw last (lt, done)
  | inr more ↦ rw more (ground arith, λ j a n le it. done j a n (omega arith) it)
]

act_by_lem :
    (t : Tree) (token : Node) (place : PlaceAs) (rtt : ℕ) (a : Operator) (found : Option ℕ)
    → IsTree t
    → 0 < length t.node_address
    → Sought t (some a) (length t.node_address) found
    → a.children_count ≡ 0
    → IsFresh token
    → length t.memory + 2 < 2 ^ 32
    → Keeps t 2 (act_by t token place rtt a found)
act_by_lem t token place rtt a found v h sought fresh token_fresh small =
    let (lt, below) = child_lem t (some a) found sought h in
    let (index, e, reach, done) = enclosing_lem rtt _ _ t v lt below (omega arith) below in
    let (t1, placed, e1, changed, same) =
      place_operator_lem t index rtt a v reach done fresh (omega arith) in
    let (b, at, op) = changed.stands in
    elim (Bool-cases (is_value_place place)) [
      | inr other ↦ (
        t1,
        placed,
        rw (e, e1, other) refl,
        changed.valid,
        changed.text,
        omega (arith, changed.grows),
        same,
      )
      | inl value_place ↦
          let (t2, placed2, e2, v2, text, l, back) =
            place_value_lem t1 index token placed changed.valid changed.reaches changed.done b at op
              token_fresh (omega (arith, changed.grows)) in
          (
            t2,
            placed2,
            rw (e, e1, value_place) e2,
            v2,
            text ∙ changed.text,
            omega (arith, changed.grows),
            λ x. (back x).0 ∙ same (back x).1,
          )
    ]

-- Without one, only a value is placed, below the node where the first loop stops.
abbrev place_below : Tree → Node → PlaceAs → Option ℕ → Result (Tree × Bool)
place_below t token place none = ok (t, false)
place_below t token place (some index) =
    if is_value_place place then place_value t index token false else ok (t, false)

weaker_none :
    (n : Node) → (not (node_complete n) || is_weaker n none) ≡ true → node_complete n ≡ false
unfolding is_weaker
weaker_none n e = ground arith

place_below_lem :
    (t : Tree) (token : Node) (place : PlaceAs) (found : Option ℕ)
    → IsTree t
    → Sought t none (length t.node_address) found
    → IsFresh token
    → length t.memory + 2 < 2 ^ 32
    → Keeps t 2 (place_below t token place found)
place_below_lem t token place none v sought fresh small =
    (t, false, refl, v, refl, omega arith, λ x. refl)
place_below_lem t token place (some i) v (lt, done, (a, n, at, stop)) fresh small =
    elim (Bool-cases (is_value_place place)) [
      | inr other ↦ (t, false, rw other refl, v, refl, omega arith, λ x. refl)
      | inl value_place ↦
          let op =
            info-OperatorAt t.memory a n n.info at.1 refl (open-info n (weaker_none n stop)) in
          let (t2, placed2, e2, v2, text, l, back) =
            place_value_lem t i token false v lt done a at.0 op fresh (omega arith) in
          (t2, placed2, rw value_place e2, v2, text, omega arith, λ x. (back x).0)
    ]

-- The operator to act by, found.
acting_lem :
    (default_operator : Option (ℕ × Operator)) (place : PlaceAs) (token : Node)
    → IsDefault default_operator
    → IsFresh token
    → FitsPlace place token.info
    → (act : Option (ℕ × Operator)) × (acting default_operator place token ≡ ok act) × IsDefault act
unfolding acting
acting_lem d e_discard token i fresh fits = (d, refl, i)
acting_lem d e_value token i fresh fits = (d, refl, i)
acting_lem d e_operator token i fresh (o, e) =
    (some (token.rtt, o), rw e refl, sym (ap info_children e) ∙ fresh)

place_in_lem :
    (default_operator : Option (ℕ × Operator)) (t : Tree) (token : Node) (place : PlaceAs)
    → IsTree t
    → 0 < length t.node_address
    → IsDefault default_operator
    → IsFresh token
    → FitsPlace place token.info
    → length t.memory + 2 < 2 ^ 32
    → Keeps t 2 (place_in default_operator t token place)
unfolding place_in
place_in_lem d t token place v h i fresh fits small =
    let (act, e, i') = acting_lem d place token i fresh fits in go act e i'
  where
    go :
        (act : Option (ℕ × Operator))
        → acting d place token ≡ ok act
        → IsDefault act
        → Keeps t 2 (place_in d t token place)
    go none e i' =
        let (found, e1, sought) =
          seek_lem none (length t.node_address) t v (omega arith)
            (complete_past t (length t.node_address) (omega arith)) in
        Keeps-same t 2 (rw (e, e1) (below found))
          (place_below_lem t token place found v sought fresh small)
      where
        below :
            (found : Option ℕ)
            → elim found as (λ _. Result (Tree × Bool)) [
              | none ↦ ok (t, false)
              | some index ↦
                  if is_value_place place then place_value t index token false else ok (t, false)
            ]
              ≡ place_below t token place found
        below none = refl
        below (some index) = refl
    go (some (rtt, a)) e no_children =
        let (found, e1, sought) =
          seek_lem (some a) (length t.node_address) t v (omega arith)
            (complete_past t (length t.node_address) (omega arith)) in
        Keeps-same t 2 (rw (e, e1) refl)
          (act_by_lem t token place rtt a found v h sought no_children fresh small)

path_not_empty : (t : Tree) → tree_empty t ≡ false → 0 < length t.node_address
unfolding tree_empty
path_not_empty t e = go t.node_address (ground arith)
  where
    go : (l : List ℕ) → is_empty l ≡ false → 0 < length l
    go [] h = cc
    go (x ∷ l) h = omega arith

-- A tree of one node.
pub one-IsTree :
    (text : List ℕ) (n : Node)
    → IsFresh n
    → IsTree (record { node_address = 0 ∷ []; memory = n ∷ []; expression_string = text })
one-IsTree text n fresh = record {
  path = omega arith;
  rooted = refl;
  counted = λ h. omega (arith, fresh);
  settled = λ a m e. first a m e;
}
  where
    first :
        (a : ℕ) (m : Node)
        → get_elem? (n ∷ []) a ≡ some m
        → OnPath a (0 ∷ []) ⊎ (info_complete m.info ≡ true)
    first zero m e = inl (0, refl)
    first (suc a) m e = cc

create-IsTree :
    (path : List ℕ) (memory : List Node) (text : List ℕ) (n : Node)
    → IsTree (record { node_address = path; memory = memory; expression_string = text })
    → tree_empty (record { node_address = path; memory = memory; expression_string = text }) ≡ true
    → IsFresh n
    → IsTree (create (record { node_address = path; memory = memory; expression_string = text }) n)
      × (length
            (create
              (record { node_address = path; memory = memory; expression_string = text })
              n).memory
          ≡ 1)
unfolding create tree_empty
create-IsTree [] [] text n v e fresh = (one-IsTree text n fresh, refl)
create-IsTree [] (m ∷ memory) text n v e fresh = let r = v.rooted in cc
create-IsTree (a ∷ path) [] text n v e fresh = let r = v.rooted in cc
create-IsTree (a ∷ path) (m ∷ memory) text n v e fresh = cc

create-text : (t : Tree) (n : Node) → (create t n).expression_string ≡ t.expression_string
unfolding create
create-text t n = refl

-- On a well-formed tree, with a default operator and a token that have no children, a token to be
-- placed as an operator being one, and room for two more addresses below 2 ^ 32, `parse_helper` never
-- reads outside the tree: it comes to a result, a well-formed tree with the same text and at most two
-- nodes more, and without success the tree that it was given.
pub parse_helper_lem :
    (default_operator : Option (ℕ × Operator)) (t : Tree) (token : Node) (place : PlaceAs)
    → IsTree t
    → IsDefault default_operator
    → IsFresh token
    → FitsPlace place token.info
    → length t.memory + 2 < 2 ^ 32
    → Keeps t 2 (parse_helper default_operator t token place)
unfolding parse_helper
parse_helper_lem d t token e_discard v i fresh fits small =
    (t, true, refl, v, refl, omega arith, λ x. refl)
parse_helper_lem d t token e_value v i fresh fits small = elim (Bool-cases (tree_empty t)) [
  | inl blank ↦
      let n = started t token token.info in
      let (v', l) =
        create-IsTree t.node_address t.memory t.expression_string n v blank
          (started-IsFresh t token token.info fresh) in
      (create t n, true, rw blank refl, v', create-text t n, omega arith, λ x. cc)
  | inr more ↦
      Keeps-same t 2 (rw more refl)
        (place_in_lem d t token e_value v (path_not_empty t more) i fresh fits small)
]
parse_helper_lem d t token e_operator v i fresh fits small = elim (Bool-cases (tree_empty t)) [
  | inl blank ↦ (t, false, rw blank refl, v, refl, omega arith, λ x. refl)
  | inr more ↦
      Keeps-same t 2 (rw more refl)
        (place_in_lem d t token e_operator v (path_not_empty t more) i fresh fits small)
]
