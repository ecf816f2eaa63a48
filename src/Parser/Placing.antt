-- ===== src/Parser/Placing.antt =====
-- belt.pp/parser.hpp: the two `if`s of `parse_helper`, at an index of the path.
use belt_pp.Base.{
  ℕ, suc, ◌+◌, ◌-◌, ◌<◌, ◌≤◌, ◌^◌, ◌≡◌, refl, sym, ap, ◌∙◌, inl, inr, Bool, true, false, List, [],
  ◌∷◌, ◌++◌, some, length, get_elem?, arith, ◌==◌, length-append, get_elem?-append_last, ok,
  Bool-cases,
}
use belt_pp.Parser.{Operator, Node, Tree, info_complete, node_complete}
use belt_pp.Parser.Place.{is_same, append_child, place_operator, place_value, point_to}
use belt_pp.Parser.Valid.{IsTree}
use belt_pp.Parser.Grow.{standing, OperatorAt, IsFresh, append_child_lem}
use belt_pp.Parser.Search.{ItemAt-item2, path_item, CompleteFrom, point_to_lem}
use belt_pp.Parser.Keeps.{
  cut-IsTree, Places, info-OperatorAt, same-OperatorAt, address_of, extend_lem,
}

-- A node that does not complete its part is an operator.
pub open-info : (n : Node) → node_complete n ≡ false → info_complete n.info ≡ false
unfolding node_complete
open-info n e = e

done-info : (n : Node) → node_complete n ≡ true → info_complete n.info ≡ true
unfolding node_complete
done-info n e = e

pub place_operator_lem :
    (t : Tree) (index rtt : ℕ) (act : Operator)
    → IsTree t
    → index < length t.node_address
    → CompleteFrom t (suc index)
    → act.children_count ≡ 0
    → length t.memory < 2 ^ 32 - 1
    → Places t index (place_operator t index rtt act)
unfolding place_operator
place_operator_lem t index rtt act v h done fresh small =
    let (a, n, at) = path_item t index v h in
    let read = ItemAt-item2 t index a n at in
    elim (Bool-cases (is_same n rtt act)) [
      | inl same ↦
          let (t', placed, e, rest, same_tree) =
            extend_lem t index rtt act a n v h done fresh small at true
              (λ x. same-OperatorAt t.memory a n rtt act n.info at.1 refl same) (λ x. cc) in
          (t', placed, rw (read, same) e, rest, same_tree)
      | inr other ↦ elim (Bool-cases (node_complete n)) [
        | inl complete ↦
            let (t', placed, e, rest, same_tree) =
              extend_lem t index rtt act a n v h done fresh small at false (λ x. cc)
                (λ x. done-info n complete) in
            (t', placed, rw (read, other, complete) e, rest, same_tree)
        | inr incomplete ↦ (
          t,
          false,
          rw (read, other, incomplete) refl,
          record {
            valid = v;
            text = refl;
            grows = omega arith;
            reaches = h;
            done = done;
            stands =
                (a, at.0, info-OperatorAt t.memory a n n.info at.1 refl (open-info n incomplete));
          },
          λ x. refl,
        )
      ]
    ]

-- The end of a path stays the end.
point_to_end :
    (q : List ℕ) (a : ℕ) (memory : List Node) (text : List ℕ)
    → point_to (standing q a memory text) (length q) ≡ ok (standing q a memory text)
unfolding point_to
point_to_end q a memory text =
    let here = get_elem?-append_last q a in
    let depth : length (q ++ (a ∷ [])) - 1 ≡ length q = omega (arith, length-append q (a ∷ [])) in
    let t1 : (a == a) ≡ true = ground arith in rw (depth, here, t1) refl

append_at :
    (t : Tree) (index : ℕ) (token : Node) (a : ℕ)
    → IsTree t
    → index < length t.node_address
    → CompleteFrom t (suc index)
    → get_elem? t.node_address index ≡ some a
    → OperatorAt t.memory a
    → IsFresh token
    → length t.memory < 2 ^ 32 - 1
    → (t' : Tree) × (append_child t index token ≡ ok t')
      × IsTree t'
      × (t'.expression_string ≡ t.expression_string)
      × (length t'.memory ≡ length t.memory + 1)
unfolding append_child
append_at t index token a v h done e (rtt, peer, o, g) fresh small =
    let (q, b, points, size, here, cut) = point_to_lem t index v h in
    let v1 = cut-IsTree t index q b v done h cut in
    let same : some b ≡ some a = sym here ∙ e in
    let at_b = ap (address_of t.memory) same ∙ g in
    let again = point_to_end q b t.memory t.expression_string in
    let (t', runs, v2, text, l) =
      append_child_lem q b t.memory t.expression_string rtt peer o token v1 at_b fresh small
        again in
    (t', rw points (rw again at runs), v2, text, l)

pub place_value_lem :
    (t : Tree) (index : ℕ) (token : Node) (placed : Bool)
    → IsTree t
    → index < length t.node_address
    → CompleteFrom t (suc index)
    → (a : ℕ) → get_elem? t.node_address index ≡ some a
    → OperatorAt t.memory a
    → IsFresh token
    → length t.memory < 2 ^ 32 - 1
    → (t' : Tree) × (placed' : Bool) × (place_value t index token placed ≡ ok (t', placed'))
      × IsTree t'
      × (t'.expression_string ≡ t.expression_string)
      × (length t'.memory ≤ length t.memory + 1)
      × (placed' ≡ false → (t' ≡ t) × (placed ≡ false))
unfolding place_value
place_value_lem t index token placed v h done a e (rtt, peer, o, g) fresh small =
    let read = ItemAt-item2 t index a _ (e, g) in
    elim (Bool-cases (o.right == 0)) [
      | inl full ↦ (t, placed, rw (read, full) refl, v, refl, omega arith, λ x. (refl, x))
      | inr wants ↦
          let (t', runs, v', text, l) =
            append_at t index token a v h done e (rtt, peer, o, g) fresh small in
          (t', true, rw (read, wants, runs) refl, v', text, omega arith, λ x. cc)
    ]
