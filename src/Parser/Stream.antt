-- ===== src/Parser/Stream.antt =====
-- belt.pp/parser.hpp: `parse_stream` and `parse_full` come to an end, and lose no byte.
use belt_pp.Base.{
  ℕ, zero, suc, ◌+◌, ◌*◌, ◌<◌, ◌≤◌, ◌^◌, ◌≡◌, refl, sym, ap, ◌∙◌, inl, inr, Bool, true, false, List,
  [], ◌∷◌, ◌++◌, append_assoc, append-nil, Option, length, take, get_elem?, ltb, arith, ◌==◌,
  if◌then◌else◌, length-append, Result, ok, Bool-cases, is_empty,
}
use belt_pp.Parser.{Operator, Tree}
use belt_pp.Parser.Read.{Lexer, stays, ParseLimits, Parsed, stream_loop, parse_stream, parse_full}
use belt_pp.Parser.Valid.{total, IsTree}
use belt_pp.Parser.Helper.{IsDefault}
use belt_pp.Parser.Complete.{AllComplete, tree_complete_lem}
use belt_pp.Parser.Round.{AllLexers, Consumed, Waits, parse_lem}

-- What `parse_stream` leaves: a well-formed tree of a bounded size; with success all that it read is
-- in the text of the tree, and without success `it_begin` is at the end.
pub record Streamed (limits : ParseLimits) (t : Tree) (input : List ℕ) (count : ℕ) (p : Parsed)
    : Type 0 where
  pub valid : IsTree p.0
  pub size : length p.0.memory ≤ limits.expression_size + 2 * count
  pub consumed : p.1.1 ≡ true → Consumed t input p.0 p.1.0
  pub waits : p.1.1 ≡ true → length p.1.0 ≤ limits.not_yet_parsed_size
  pub ended : p.1.1 ≡ false → p.1.0 ≡ []

Consumed-trans :
    (t t1 t2 : Tree) (input middle rest : List ℕ)
    → Consumed t input t1 middle
    → Consumed t1 middle t2 rest
    → Consumed t input t2 rest
Consumed-trans t t1 t2 input middle rest (r, e, f) (s, g, h) = (
  r ++ s,
  e ∙ ap (λ l. r ++ l) g ∙ sym (append_assoc r s rest),
  h ∙ ap (λ l. l ++ s) f ∙ append_assoc t.expression_string r s,
)

-- A round that has moved is nearer to the end.
moved_on :
    (t t' : Tree) (input rest : List ℕ)
    → Consumed t input t' rest
    → stays rest input ≡ false
    → length rest < length input
moved_on t t' input rest (read, e, f) s =
    let l = ap length e in omega (arith, length-append read rest, differ s)
  where
    differ : (length rest == length input) ≡ false → length rest ≡ length input → ⊥
    differ s e = ground arith

left_over :
    (limits : ParseLimits) (rest input : List ℕ)
    → stays rest input ≡ true
    → Waits limits input false
    → length rest ≤ limits.not_yet_parsed_size
left_over limits rest input stop (inl e) = absurd (cc)
left_over limits rest input stop (inr h) = ground arith

abbrev Streams : ParseLimits → Tree → List ℕ → ℕ → Result Parsed → Type 0
Streams limits t input count r = (p : Parsed) × (r ≡ ok p) × Streamed limits t input count p

stream_loop_lem :
    (fuel : ℕ) (limits : ParseLimits) (d : Option (ℕ × Operator)) (lexers : List Lexer) (t : Tree)
    (input : List ℕ)
    → AllLexers lexers
    → IsDefault d
    → limits.expression_size + 2 * length lexers < 2 ^ 32
    → length input < fuel
    → IsTree t
    → length t.memory ≤ limits.expression_size
    → Streams limits t input (length lexers) (stream_loop fuel limits d lexers t input)
unfolding stream_loop
stream_loop_lem zero limits d lexers t input all i small enough v fits_size = absurd (omega arith)
stream_loop_lem (suc fuel) limits d lexers t input all i small enough v fits_size =
    let ((t', (rest, code)), e, r) = parse_lem limits d lexers t input all i v (omega arith) in
    elim (Bool-cases code) [
      | inr failed ↦ (
        (t', ([], false)),
        rw (e, failed) refl,
        record {
          valid = r.valid;
          size = omega (arith, r.grows);
          consumed = λ x. absurd (cc);
          waits = λ x. absurd (cc);
          ended = λ x. refl;
        },
      )
      | inl good ↦ elim (Bool-cases (stays rest input)) [
        | inl stop ↦ (
          (t', (rest, true)),
          rw (e, good, stop) refl,
          record {
            valid = r.valid;
            size = omega (arith, r.grows);
            consumed = λ x. r.consumed;
            waits = λ x. left_over limits rest input stop (r.waits good stop);
            ended = λ x. absurd (cc);
          },
        )
        | inr on ↦
            let (depth, size, buffer) = r.moved good on in
            let (p, f, s) =
              stream_loop_lem fuel limits d lexers t' rest all i small
                (omega (arith, moved_on t t' input rest r.consumed on)) r.valid size in
            (
              p,
              rw (e, good, on) f,
              record {
                valid = s.valid;
                size = s.size;
                consumed = λ x. Consumed-trans t t' p.0 input rest p.1.0 r.consumed (s.consumed x);
                waits = s.waits;
                ended = s.ended;
              },
            )
      ]
    ]

-- With lexers that read from the front, a default operator without children and a limit on the nodes
-- whose sum with twice the number of lexers is below 2 ^ 32, `parse_stream` on a well-formed tree
-- within that limit always ends, inside the tree, and leaves what `Streamed` says: a well-formed tree
-- of at most as many nodes as that sum; with success, what it read from the input is what it added to
-- the text of the tree, and what is left is within the limit for bytes not yet parsed; without
-- success `it_begin` is at the end.
pub parse_stream_lem :
    (limits : ParseLimits) (d : Option (ℕ × Operator)) (lexers : List Lexer) (t : Tree)
    (input : List ℕ)
    → AllLexers lexers
    → IsDefault d
    → limits.expression_size + 2 * length lexers < 2 ^ 32
    → IsTree t
    → length t.memory ≤ limits.expression_size
    → (p : Parsed) × (parse_stream limits d lexers t input ≡ ok p)
      × Streamed limits t input (length lexers) p
unfolding parse_stream
parse_stream_lem limits d lexers t input all i small v fits_size =
    stream_loop_lem (suc (length input)) limits d lexers t input all i small (omega arith) v
      fits_size

-- A tree that `parse_full` accepts: all nodes are complete, each but the root is the child of one
-- node, the parser stands at the root, and the text of the tree has grown by all of the input.
pub record Accepted (t : Tree) (input : List ℕ) (t' : Tree) : Type 0 where
  pub text : t'.expression_string ≡ t.expression_string ++ input
  pub complete : AllComplete t'
  pub not_empty : is_empty t'.memory ≡ false
  pub counted : suc (total t'.memory) ≡ length t'.memory
  pub at_root : length t'.node_address ≡ 1

-- `guard`, which leaves the root of the path.
abbrev to_root : Tree → Tree
to_root t =
    if ltb 1 (length t.node_address) then record t { node_address = take 1 t.node_address } else t

to_root_lem :
    (t : Tree)
    → ((to_root t).memory ≡ t.memory)
      × ((to_root t).expression_string ≡ t.expression_string)
      × (is_empty t.node_address ≡ false → length (to_root t).node_address ≡ 1)
to_root_lem t = elim (Bool-cases (ltb 1 (length t.node_address))) [
  | inl long ↦ rw long (refl, refl, λ e. first t.node_address e)
  | inr short ↦ rw short (refl, refl, λ e. only t.node_address e (ground arith))
]
  where
    first : (l : List ℕ) → is_empty l ≡ false → length (take 1 l) ≡ 1
    first [] e = absurd (cc)
    first (x ∷ l) e = refl

    only : (l : List ℕ) → is_empty l ≡ false → length l ≤ 1 → length l ≡ 1
    only [] e h = absurd (cc)
    only (x ∷ l) e h = omega arith

nothing : (l : List ℕ) → length l ≤ 0 → l ≡ []
nothing [] h = refl
nothing (x ∷ l) h = absurd (omega arith)

accepts :
    (t t' : Tree) (input rest : List ℕ)
    → IsTree t'
    → Consumed t input t' rest
    → length rest ≤ 0
    → is_empty t'.memory ≡ false
    → AllComplete t'
    → Accepted t input (to_root t')
accepts t t' input rest v (read, e, f) end some_nodes all =
    let (memory, text, root) = to_root_lem t' in
    record {
      text =
          text
          ∙ f
          ∙ ap (λ r. t.expression_string ++ r)
              (sym (e ∙ ap (λ r. read ++ r) (nothing rest end) ∙ append-nil read));
      complete = λ a n g. all a n (ap (λ m. get_elem? m a) (sym memory) ∙ g);
      not_empty = ap is_empty memory ∙ some_nodes;
      counted = ap (λ m. suc (total m)) memory ∙ v.counted some_nodes ∙ ap length (sym memory);
      at_root = root (sym v.rooted ∙ some_nodes);
    }

-- `parse_full` always ends, inside the tree, and what it accepts is a whole expression.
pub parse_full_lem :
    (limits : ParseLimits) (d : Option (ℕ × Operator)) (lexers : List Lexer) (t : Tree)
    (input : List ℕ)
    → AllLexers lexers
    → IsDefault d
    → limits.expression_size + 2 * length lexers < 2 ^ 32
    → IsTree t
    → length t.memory ≤ limits.expression_size
    → (t' : Tree) × (b : Bool) × (parse_full limits d lexers t input ≡ ok (t', b))
      × (b ≡ true → Accepted t input t')
unfolding parse_full
parse_full_lem limits d lexers t input all i small v fits_size =
    let ((t', (rest, code)), e, s) =
      parse_stream_lem (record limits { not_yet_parsed_size = 0 }) d lexers t input all i small v
        fits_size in
    elim (Bool-cases code) [
      | inr failed ↦ (to_root t', false, rw (e, failed) refl, λ x. absurd (cc))
      | inl good ↦
          let (b, f, yes_complete, no_complete) = tree_complete_lem t' s.valid in
          (
            to_root t',
            b,
            rw (e, good, f) refl,
            λ x.
                let (some_nodes, complete) = yes_complete x in
                accepts t t' input rest s.valid (s.consumed good) (s.waits good) some_nodes
                  complete,
          )
    ]
