-- ===== src/Parser.antt =====
-- belt.pp/parser.hpp: the expression tree and its nodes, at the number types of json_parser_types.
-- Addresses and counts are uint32_t, so each is reduced modulo 2 ^ 32 where it is stored.
pub mod Place
pub mod Read
pub mod Token
pub mod Valid
pub mod Grow
pub mod Insert
pub mod Search
pub mod Keeps
pub mod Placing
pub mod Helper
pub mod Complete
pub mod Round
pub mod Stream
use belt_pp.Base.{
  ℕ, zero, suc, ◌+◌, ◌-◌, ◌*◌, ◌/◌, ◌%◌, ◌^◌, Bool, true, false, ◌&&◌, ◌||◌, not, List, [], ◌∷◌,
  ◌++◌, Option, none, some, leb, ltb, ◌==◌, if◌then◌else◌, length, get_elem?, Result, ok, err,
  out_of_range, or_fail, ◌>>=◌, is_empty,
}

-- The address of no node, `T_size_type(-1)`.
abbrev pub nowhere : ℕ
nowhere = 2 ^ 32 - 1

-- A number as it is stored in a `T_size_type`.
abbrev pub narrow : ℕ → ℕ
narrow n = n % 2 ^ 32

-- `operator_stuff`.
pub record Operator : Type 0 where
  pub priority : ℕ
  pub right : ℕ
  pub property : ℕ
  pub children_count : ℕ
  pub last_child : ℕ

-- The union and `union_is_value`; a value has its start and its size in `expression_string`.
pub data Info : Type 0 where
  operator : Operator → Info
  value : ℕ → ℕ → Info

-- `expression_data`.
pub record Node : Type 0 where
  pub rtt : ℕ
  pub previous_peer : ℕ
  pub info : Info

-- The constructor for operators.
abbrev pub operator_node : ℕ → ℕ → ℕ → ℕ → Node
operator_node rtt priority right property = record {
  rtt = rtt;
  previous_peer = nowhere;
  info = operator (record {
    priority = priority;
    right = right;
    property = property;
    children_count = 0;
    last_child = nowhere;
  });
}

-- The constructor for values.
abbrev pub value_node : ℕ → ℕ → Node
value_node rtt size = record { rtt = rtt; previous_peer = nowhere; info = value 0 size }

unfoldable pub property_check : ℕ → ℕ → Bool
property_check first second =
    if first == 0 then false else second % first == 0 && leb second (first * first)

unfoldable pub property_combine : ℕ → ℕ → ℕ
property_combine first second = second / first

unfoldable pub property_final : ℕ → Bool
property_final property = property == 0 || property == 1 || property == 2

abbrev pub info_complete : Info → Bool
info_complete (value start size) = true
info_complete (operator o) = o.right == 0 && property_final o.property

-- `expression_data::complete`.
unfoldable pub node_complete : Node → Bool
node_complete n = info_complete n.info

abbrev pub info_children : Info → ℕ
info_children (value start size) = 0
info_children (operator o) = o.children_count

-- `expression_data::child_count`.
unfoldable pub child_count : Node → ℕ
child_count n = info_children n.info

-- `expression_tree`; the last of `node_address` is where the parser stands, the first is the root.
pub record Tree : Type 0 where
  pub node_address : List ℕ
  pub memory : List Node
  pub expression_string : List ℕ

abbrev pub blank_tree : Tree
blank_tree = record { node_address = []; memory = []; expression_string = [] }

unfoldable pub tree_empty : Tree → Bool
tree_empty t = is_empty t.memory || is_empty t.node_address

-- `memory[address]`.
unfoldable pub node_at : Tree → ℕ → Result Node
node_at t address = or_fail (get_elem? t.memory address) out_of_range

-- `item2` for an index that is not -1.
unfoldable pub item2 : Tree → ℕ → Result Node
item2 t index = do
  address ← or_fail (get_elem? t.node_address index) out_of_range
  node_at t address

unfoldable pub create : Tree → Node → Tree
create t n = record t { memory = t.memory ++ (n ∷ []); node_address = t.node_address ++ (0 ∷ []) }

-- The loop of `complete`, from the index below its argument down.
unfoldable pub complete_below : ℕ → Tree → Result Bool
complete_below zero t = ok true
complete_below (suc index) t =
    let next = complete_below index t in
    item2 t index >>= λ n. if node_complete n then next else ok false

unfoldable pub tree_complete : Tree → Result Bool
tree_complete t = if tree_empty t then ok false else complete_below (length t.node_address) t

-- `info_operator` of a node; that of a value is the other member of the union.
abbrev pub operator_of : Node → Result Operator
operator_of n = elim n.info [ operator o ↦ ok o | value start size ↦ err out_of_range ]

-- The loop of `child`: `count` steps along `previous_peer_address`.
unfoldable pub peers_back : ℕ → Tree → ℕ → Result ℕ
peers_back zero t address = ok address
peers_back (suc count) t address =
    let next = λ (a : ℕ). peers_back count t a in node_at t address >>= λ n. next n.previous_peer

-- `child`, for an index below the number of children.
unfoldable pub child : Tree → ℕ → ℕ → Result ℕ
child t address index = do
  n ← node_at t address
  o ← operator_of n
  peers_back (o.children_count - (index + 1)) t o.last_child
