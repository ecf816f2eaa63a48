-- ===== src/Parser/Place.antt =====
-- belt.pp/parser.hpp: `parse_helper`, which places a token in the expression tree.
use belt_pp.Base.{
  ℕ, zero, suc, ◌+◌, ◌-◌, Bool, true, false, ◌&&◌, ◌||◌, not, [], ◌∷◌, ◌++◌, Option, none, some,
  ltb, ◌==◌, if◌then◌else◌, length, set, take, get_elem?, Result, ok, out_of_range, or_fail, ◌>>=◌,
}
use belt_pp.Parser.{
  Operator, Info, operator, value, Node, Tree, nowhere, narrow, node_complete, property_check,
  property_combine, operator_of, tree_empty, create, item2, node_at,
}

-- `e_place_as`.
pub data PlaceAs : Type 0 where
  e_discard e_value e_operator : PlaceAs

abbrev pub is_value_place : PlaceAs → Bool
is_value_place e_value = true
is_value_place _ = false

-- The priority of an operator, `none` for a value.
abbrev pub priority_of : Info → Option ℕ
priority_of (operator o) = some o.priority
priority_of (value start size) = none

-- Whether an operator binds weaker than the token.
unfoldable pub is_weaker : Node → Option Operator → Bool
is_weaker n act = elim act [
  | none ↦ false
  | some a ↦ elim (priority_of n.info) [ none ↦ false | some p ↦ ltb p a.priority ]
]

-- The first loop, down from the index below its second argument; `none` for the index -1.
unfoldable pub seek : Option Operator → ℕ → Tree → Result (Option ℕ)
seek act zero t = ok none
seek act (suc index) t =
    let next = seek act index t in
    item2 t index >>= λ n.
    if not (node_complete n) || is_weaker n act then ok (some index) else next

-- Behind the first loop, for an operator: to the child.
abbrev pub to_child : ℕ → Option ℕ → ℕ
to_child highest none = 0
to_child highest (some index) = if index == highest then index else suc index

-- The second loop: the enclosing operator that is not complete, if it has the token's type.
unfoldable pub enclosing : ℕ → ℕ → ℕ → Tree → Result ℕ
enclosing rtt current zero t = ok current
enclosing rtt current (suc index) t =
    let next = enclosing rtt current index t in
    item2 t index >>= λ n.
    if node_complete n then next else if n.rtt == rtt then ok index else ok current

-- `fix_the_same_possible`.
unfoldable pub is_same : Node → ℕ → Operator → Bool
is_same n rtt act = elim n.info [
  | value start size ↦ false
  | operator o ↦ n.rtt == rtt && property_check o.property act.property
]

abbrev pub back : Tree → Result ℕ
back t = or_fail (get_elem? t.node_address (length t.node_address - 1)) out_of_range

-- To make the expression point to the node at `index`, unless it does.
unfoldable pub point_to : Tree → ℕ → Result Tree
point_to t index = do
  last ← back t
  address ← or_fail (get_elem? t.node_address index) out_of_range
  ok (if last == address then t else record t { node_address = take (suc index) t.node_address })

abbrev pub with_operator : Node → Operator → Node
with_operator n o = record n { info = operator o }

-- The operator at `index` takes its next part.
unfoldable pub fix_same : Tree → ℕ → Operator → Result Tree
fix_same t index act = do
  address ← or_fail (get_elem? t.node_address index) out_of_range
  n ← node_at t address
  o ← operator_of n
  let o' : Operator = record o {
    right = act.right;
    property = property_combine o.property act.property;
  }
  ok (record t { memory = set t.memory address (with_operator n o') })

-- `info_operator.last_child_address` of the node one above `index`.
unfoldable pub relink : Tree → ℕ → ℕ → Result Tree
relink t zero address = ok t
relink t (suc index) address = do
  above ← or_fail (get_elem? t.node_address index) out_of_range
  n ← node_at t above
  o ← operator_of n
  ok (record t {
    memory = set t.memory above (with_operator n (record o { last_child = address }));
  })

-- The node at `index`, the last of the path, becomes the first child of a new operator.
unfoldable pub insert : Tree → ℕ → ℕ → Operator → Result Tree
insert t index rtt act = do
  address ← or_fail (get_elem? t.node_address index) out_of_range
  old ← node_at t address
  let fresh_address = length t.memory
  let act' : Operator = record act {
    last_child = address;
    children_count = narrow (act.children_count + 1);
  }
  let new : Node = record { rtt = rtt; previous_peer = old.previous_peer; info = operator act' }
  let t1 : Tree = record t {
    memory = set t.memory address (record old { previous_peer = nowhere });
    node_address = set t.node_address index (narrow fresh_address);
  }
  t2 ← relink t1 index (narrow fresh_address)
  ok (record t2 { memory = t2.memory ++ (new ∷ []) })

-- The start of a value.
abbrev pub started : Tree → Node → Info → Node
started t token (value start size) = record token {
  info = value (narrow (length t.expression_string)) size;
}
started t token (operator o) = token

-- The token becomes the next child of the operator at `index`.
unfoldable pub append_child : Tree → ℕ → Node → Result Tree
append_child t index token = do
  t1 ← point_to t index
  address ← back t1
  n ← node_at t1 address
  o ← operator_of n
  let fresh_address = narrow (length t1.memory)
  let o' : Operator = record o {
    last_child = fresh_address;
    children_count = narrow (o.children_count + 1);
    right = o.right - 1;
  }
  let token' : Node = record (started t token token.info) { previous_peer = o.last_child }
  ok (record t1 {
    memory = set t1.memory address (with_operator n o') ++ (token' ∷ []);
    node_address = t1.node_address ++ (fresh_address ∷ []);
  })

-- The branch of the first `if` that changes the tree.
unfoldable pub extend : Tree → ℕ → ℕ → Operator → Bool → Result (Tree × Bool)
extend t index rtt act same = do
  t1 ← point_to t index
  t2 ← (if same then fix_same t1 index act else insert t1 index rtt act)
  ok (t2, true)

-- The first `if`, for an operator or the default operator; whether it had success.
unfoldable pub place_operator : Tree → ℕ → ℕ → Operator → Result (Tree × Bool)
place_operator t index rtt act = do
  n ← item2 t index
  if not (is_same n rtt act || node_complete n)
      then ok (t, false)
      else extend t index rtt act (is_same n rtt act)

-- The second `if`, for a value.
unfoldable pub place_value : Tree → ℕ → Node → Bool → Result (Tree × Bool)
place_value t index token placed = do
  n ← item2 t index
  o ← operator_of n
  if o.right == 0 then ok (t, placed) else append_child t index token >>= λ t1. ok (t1, true)

-- The type and the operator that the token, or the default operator for a value, acts by.
unfoldable pub acting : Option (ℕ × Operator) → PlaceAs → Node → Result (Option (ℕ × Operator))
acting default_operator e_operator token = do o ← operator_of token; ok (some (token.rtt, o))
acting default_operator e_value token = ok default_operator
acting default_operator e_discard token = ok default_operator

-- In a tree that is not empty.
unfoldable pub place_in : Option (ℕ × Operator) → Tree → Node → PlaceAs → Result (Tree × Bool)
place_in default_operator t token place = do
  act ← acting default_operator place token
  found ← seek (elim act [ none ↦ none | some (rtt, a) ↦ some a ]) (length t.node_address) t
  elim act [
    | some (rtt, a) ↦
        let start = to_child (length t.node_address - 1) found in
        (enclosing rtt start (suc start) t >>= λ index.
        place_operator t index rtt a >>= λ (t1, placed).
        if is_value_place place then place_value t1 index token placed else ok (t1, placed))
    | none ↦ elim found [
      | none ↦ ok (t, false)
      | some index ↦ if is_value_place place then place_value t index token false else ok (t, false)
    ]
  ]

-- `parse_helper`.
unfoldable pub parse_helper : Option (ℕ × Operator) → Tree → Node → PlaceAs → Result (Tree × Bool)
parse_helper default_operator t token e_discard = ok (t, true)
parse_helper default_operator t token e_value =
    if tree_empty t
    then ok (create t (started t token token.info), true)
    else place_in default_operator t token e_value
parse_helper default_operator t token e_operator =
    if tree_empty t then ok (t, false) else place_in default_operator t token e_operator
