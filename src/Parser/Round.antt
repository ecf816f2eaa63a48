-- ===== src/Parser/Round.antt =====
-- belt.pp/parser.hpp: one call of `parse` keeps the tree, and loses no byte.
use belt_pp.Base.{
  ℕ, suc, ◌+◌, ◌-◌, ◌*◌, ◌<◌, ◌≤◌, ◌^◌, ◌≡◌, refl, sym, ap, ap₂, subst, ◌∙◌, ◌⊎◌, inl, inr, Bool,
  true, false, ◌&&◌, ◌||◌, List, [], ◌∷◌, ◌++◌, append-nil, Option, leb, length, take, arith,
  is_empty, length-append, take-append, Result, ok, Bool-cases,
}
use belt_pp.Parser.{Operator, Tree}
use belt_pp.Parser.Read.{
  Lexed, refused, unfinished, token, Lexer, stays, ParseLimits, fits, Parsed, taken, readers, parse,
}
use belt_pp.Parser.Valid.{IsTree}
use belt_pp.Parser.Grow.{IsFresh}
use belt_pp.Parser.Helper.{IsDefault, FitsPlace, parse_helper_lem}

-- What a lexer may return: it reads bytes from the front, and makes a node with no children.
abbrev pub Reads : List ℕ → Lexed → Type 0
Reads input refused = Unit {0}
Reads input unfinished = Unit {0}
Reads input (token rest n place) =
    ((read : List ℕ) × (input ≡ read ++ rest)) × IsFresh n × FitsPlace place n.info

abbrev pub IsLexer : Lexer → Type 0
IsLexer lexer = (input : List ℕ) → Reads input (lexer input)

abbrev pub AllLexers : List Lexer → Type 0
AllLexers [] = Unit {0}
AllLexers (lexer ∷ lexers) = IsLexer lexer × AllLexers lexers

-- The limits hold.
abbrev pub Within : ParseLimits → Tree → Type 0
Within limits t =
    (length t.node_address ≤ limits.depth)
    × (length t.memory ≤ limits.expression_size)
    × (length t.expression_string ≤ limits.buffer_size)

-- What went from the input to `expression_string`.
abbrev pub Consumed : Tree → List ℕ → Tree → List ℕ → Type 0
Consumed t input t' rest =
    (read : List ℕ) × (input ≡ read ++ rest) × (t'.expression_string ≡ t.expression_string ++ read)

-- Why a call with success may have read nothing.
abbrev pub Waits : ParseLimits → List ℕ → Bool → Type 0
Waits limits input pending = (pending ≡ true) ⊎ (length input ≤ limits.not_yet_parsed_size)

pub record Round (limits : ParseLimits) (t : Tree) (input : List ℕ) (pending : Bool) (more : ℕ)
    (p : Parsed) : Type 0 where
  pub valid : IsTree p.0
  pub consumed : Consumed t input p.0 p.1.0
  pub grows : length p.0.memory ≤ length t.memory + more
  pub moved : p.1.1 ≡ true → stays p.1.0 input ≡ false → Within limits p.0
  pub waits : p.1.1 ≡ true → stays p.1.0 input ≡ true → Waits limits input pending

retext-IsTree :
    (t : Tree) (text : List ℕ) → IsTree t → IsTree (record t { expression_string = text })
retext-IsTree t text v = record {
  path = v.path;
  rooted = v.rooted;
  counted = v.counted;
  settled = v.settled;
}

pub Consumed-same :
    (t t' : Tree) (input : List ℕ)
    → t'.expression_string ≡ t.expression_string
    → Consumed t input t' input
Consumed-same t t' input e = ([], refl, e ∙ sym (append-nil t.expression_string))

taken_lem :
    (limits : ParseLimits) (t t' : Tree) (read rest : List ℕ) (pending : Bool) (more : ℕ)
    → IsTree t'
    → t'.expression_string ≡ t.expression_string
    → length t'.memory ≤ length t.memory + more
    → fits limits t' (length (read ++ rest) - length rest) ≡ true
    → stays rest (read ++ rest) ≡ false
    → Round limits t (read ++ rest) pending more (taken t' (read ++ rest) rest)
taken_lem limits t t' read rest pending more v text grows fit on =
    let size : length (read ++ rest) - length rest ≡ length read =
      omega (arith, length-append read rest) in
    let bytes = ap (λ n. take n (read ++ rest)) size ∙ take-append read rest in
    record {
      valid = retext-IsTree t' _ v;
      consumed = (read, refl, ap₂ (λ s r. s ++ r) text bytes);
      grows = grows;
      moved = λ c s. (
        ground arith,
        ground arith,
        rw bytes (
            omega (
              arith,
              length-append t'.expression_string read,
              fits_buffer limits t' (length (read ++ rest) - length rest) fit,
            )),
      );
      waits = λ c s. absurd (ground arith);
    }
  where
    fits_buffer :
        (limits : ParseLimits) (t : Tree) (used : ℕ)
        → fits limits t used ≡ true
        → length t.expression_string + used ≤ limits.buffer_size
    fits_buffer limits t used fit = ground arith

-- With what a lexer left or changed behind it, a round goes on to the next.
Round-after :
    (limits : ParseLimits) (t t' : Tree) (input : List ℕ) (pending pending' : Bool) (more : ℕ)
    (p : Parsed)
    → (pending' ≡ true → Waits limits input pending)
    → t'.expression_string ≡ t.expression_string
    → length t'.memory ≤ length t.memory + 2
    → Round limits t' input pending' more p
    → Round limits t input pending (2 + more) p
Round-after limits t t' input pending pending' more p weak text grows r =
    let (read, e, s) = r.consumed in
    record {
      valid = r.valid;
      consumed = (read, e, s ∙ ap (λ l. l ++ read) text);
      grows = omega (arith, r.grows);
      moved = r.moved;
      waits = λ c s. elim (r.waits c s) [ inl e ↦ weak e | inr h ↦ inr h ];
    }

abbrev pub Reaches : ParseLimits → Tree → List ℕ → Bool → ℕ → Result Parsed → Type 0
Reaches limits t input pending more r =
    (p : Parsed) × (r ≡ ok p) × Round limits t input pending more p

weaker :
    (pending : Bool) (n limit : ℕ)
    → (pending || leb n limit) ≡ true
    → (pending ≡ true) ⊎ (n ≤ limit)
weaker true n limit e = inl refl
weaker false n limit e = inr (ground arith)

module _ (limits : ParseLimits) (d : Option (ℕ × Operator)) (lexer : Lexer) (more : List Lexer)
    (input : List ℕ) (i : IsDefault d)
    (next : (t' : Tree) (pending' : Bool)
      → IsTree t'
      → length t'.memory + 2 * length more < 2 ^ 32
      → Reaches limits t' input pending'
          (2 * length more)
          (readers limits d more t' input pending')) where
  -- The lexers that are left, behind one that changed the tree or did not.
  go_on :
      (t t' : Tree) (pending pending' : Bool)
      → (pending' ≡ true → Waits limits input pending)
      → IsTree t'
      → t'.expression_string ≡ t.expression_string
      → length t'.memory ≤ length t.memory + 2
      → length t.memory + 2 * suc (length more) < 2 ^ 32
      → Reaches limits t input pending
          (2 * suc (length more))
          (readers limits d more t' input pending')
  go_on t t' pending pending' weak v text grows small =
      let (p, e, r) = next t' pending' v (omega arith) in
      let twice : 2 + 2 * length more ≡ 2 * suc (length more) = omega arith in
      (
        p,
        e,
        subst (λ n. Round limits t input pending n p) twice
            (Round-after limits t t' input pending pending' _ p weak text grows r),
      )

  reader_lem :
      (t : Tree) (pending : Bool) (l : Lexed)
      → IsTree t
      → length t.memory + 2 * suc (length more) < 2 ^ 32
      → lexer input ≡ l
      → Reads input l
      → Reaches limits t input pending
          (2 * suc (length more))
          (readers limits d (lexer ∷ more) t input pending)
  unfolding readers
  reader_lem t pending refused v small e reads =
      let (p, f, r) = go_on t t pending pending (λ w. inl w) v refl (omega arith) small in
      (p, rw e f, r)
  reader_lem t pending unfinished v small e reads =
      let (p, f, r) =
        go_on t t pending (pending || leb (length input) limits.not_yet_parsed_size)
          (weaker pending (length input) limits.not_yet_parsed_size) v refl (omega arith) small in
      (p, rw e f, r)
  reader_lem t pending (token rest n place) v small e ((read, split), fresh, fits_place) =
      elim (Bool-cases (stays rest input)) [
        | inl same ↦
            let (p, f, r) = go_on t t pending pending (λ w. inl w) v refl (omega arith) small in
            (p, rw (e, same) f, r)
        | inr on ↦
            let (t', placed, runs, v', text, grows, back) =
              parse_helper_lem d t n place v i fresh fits_place (omega arith) in
            elim (Bool-cases (placed && fits limits t' (length input - length rest))) [
              | inl good ↦
                  let fit : fits limits t' (length input - length rest) ≡ true = ground arith in
                  (
                    taken t' input rest,
                    rw (e, on, runs, good) refl,
                    subst (λ l. Round limits t l pending (2 * suc (length more)) (taken t' l rest))
                        (sym split)
                        (taken_lem limits t t' read rest pending (2 * suc (length more)) v' text
                          (omega arith)
                          (subst (λ l. fits limits t' (length l - length rest) ≡ true) split fit)
                          (subst (λ l. stays rest l ≡ false) split on)),
                  )
              | inr bad ↦
                  let (p, f, r) = go_on t t' pending pending (λ w. inl w) v' text grows small in
                  (p, rw (e, on, runs, bad) f, r)
            ]
      ]

pub readers_lem :
    (limits : ParseLimits) (d : Option (ℕ × Operator)) (lexers : List Lexer) (t : Tree)
    (input : List ℕ) (pending : Bool)
    → AllLexers lexers
    → IsDefault d
    → IsTree t
    → length t.memory + 2 * length lexers < 2 ^ 32
    → Reaches limits t input pending (2 * length lexers) (readers limits d lexers t input pending)
unfolding readers
readers_lem limits d [] t input pending all i v small = (
  (t, (input, pending)),
  refl,
  record {
    valid = v;
    consumed = Consumed-same t t input refl;
    grows = omega arith;
    moved = λ c s. absurd (ground arith);
    waits = λ c s. inl c;
  },
)
readers_lem limits d (lexer ∷ more) t input pending (here, all) i v small =
    reader_lem limits d lexer more input i
      (λ t' pending' v' small'. readers_lem limits d more t' input pending' all i v' small') t
      pending (lexer input) v small refl (here input)

no_bytes : {n : ℕ} (input : List ℕ) → is_empty input ≡ true → length input ≤ n
no_bytes [] e = omega arith
no_bytes (b ∷ input) e = absurd (cc)

pub parse_lem :
    (limits : ParseLimits) (d : Option (ℕ × Operator)) (lexers : List Lexer) (t : Tree)
    (input : List ℕ)
    → AllLexers lexers
    → IsDefault d
    → IsTree t
    → length t.memory + 2 * length lexers < 2 ^ 32
    → Reaches limits t input false (2 * length lexers) (parse limits d lexers t input)
unfolding parse
parse_lem limits d lexers t input all i v small = elim (Bool-cases (is_empty input)) [
  | inl none_left ↦ (
    (t, (input, true)),
    rw none_left refl,
    record {
      valid = v;
      consumed = Consumed-same t t input refl;
      grows = omega arith;
      moved = λ c s. absurd (ground arith);
      waits = λ c s. inr (no_bytes input none_left);
    },
  )
  | inr bytes ↦
      let (p, e, r) = readers_lem limits d lexers t input false all i v small in (p, rw bytes e, r)
]
