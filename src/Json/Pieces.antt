-- ===== src/Json/Pieces.antt =====
-- JSON strings as the pieces that RFC 8259 lets them have, lone surrogates left out, and what `decode`
-- of belt.pp/json.hpp makes of them.
use belt_pp.Base.{
  ℕ, ◌+◌, ◌-◌, ◌*◌, ◌≤◌, ◌≡◌, ◌≢◌, refl, ◌∙◌, sym, ap, Bool, true, false, arith, List, [], ◌∷◌,
  ◌++◌, append_assoc, append-nil, some, ok,
}
use belt_pp.Json.Utf.{utf16_surrogate_pair_to_code_point}
use belt_pp.Json.Decoder.{
  fresh, scan, settle, flush, step, run, decode, scan_escape, is_short_escape, short_escape,
}
use belt_pp.Json.Unicode.{utf8_value, utf32_to_utf8_lem, escape, escape_start}
use belt_pp.Json.Escapes.{IsHigh, IsLow, IsBmp, pair_code, bmp-Decodes, pair-Decodes}
use belt_pp.Json.RoundTrip.{between, nonempty, run-step, step_plain, opening, closing, decode_from}

-- The characters behind a backslash, and what they stand for.
pub data Short : Type 0 where
  quotation_mark reverse_solidus solidus backspace form_feed line_feed carriage_return tab : Short

abbrev pub letter : Short → ℕ
letter quotation_mark = 34
letter reverse_solidus = 92
letter solidus = b'/'
letter backspace = b'b'
letter form_feed = b'f'
letter line_feed = b'n'
letter carriage_return = b'r'
letter tab = b't'

abbrev pub stands_for : Short → ℕ
stands_for quotation_mark = 34
stands_for reverse_solidus = 92
stands_for solidus = b'/'
stands_for backspace = 8
stands_for form_feed = 12
stands_for line_feed = 10
stands_for carriage_return = 13
stands_for tab = 9

-- A byte that stands for itself, a backslash with one of `"\/bfnrt`, and one or two \u escapes, with
-- the case of their digits.
pub data Piece : Type 0 where
  plain : ℕ → Piece
  short : Short → Piece
  unit : (ℕ → Bool) → ℕ → Piece
  pair : (upper upper' : ℕ → Bool) → ℕ → ℕ → Piece

abbrev pub spelled : Piece → List ℕ
spelled (plain b) = b ∷ []
spelled (short ch) = 92 ∷ letter ch ∷ []
spelled (unit upper n) = escape upper n
spelled (pair upper upper' h l) = escape upper h ++ escape upper' l

abbrev pub IsPiece : Piece → Type 0
IsPiece (plain b) = (32 ≤ b) × (b ≢ 92) × (b ≢ 34)
IsPiece (short ch) = Unit {0}
IsPiece (unit upper n) = IsBmp n
IsPiece (pair upper upper' h l) = IsHigh h × IsLow l

-- The bytes that a piece stands for.
abbrev pub Means : Piece → List ℕ → Type 0
Means (plain b) bytes = bytes ≡ b ∷ []
Means (short ch) bytes = bytes ≡ stands_for ch ∷ []
Means (unit upper n) bytes = utf8_value bytes ≡ some n
Means (pair upper upper' h l) bytes =
    utf8_value bytes ≡ some (0x10000 + (h - 0xD800) * 0x400 + (l - 0xDC00))

abbrev pub ArePieces : List Piece → Type 0
ArePieces [] = Unit {0}
ArePieces (p ∷ ps) = IsPiece p × ArePieces ps

abbrev pub all_spelled : List Piece → List ℕ
all_spelled [] = []
all_spelled (p ∷ ps) = spelled p ++ all_spelled ps

-- A text in which the pieces stand for their parts, one after the other.
abbrev pub AllMean : List Piece → List ℕ → Type 0
AllMean [] value = value ≡ []
AllMean (p ∷ ps) value =
    (bytes rest : List ℕ) × (value ≡ bytes ++ rest) × Means p bytes × AllMean ps rest

-- Reading a piece adds its bytes.
abbrev Reads : List ℕ → List ℕ → Type 0
Reads code bytes =
    (o : List ℕ) (c : ℕ) (rest : List ℕ)
    → run false (between o) (code ++ (c ∷ rest)) ≡ run false (between (o ++ bytes)) (c ∷ rest)

short_step :
    (o : List ℕ) (ch : Short)
    → step false false (record (between o) { remaining = 1; index = 1 }) (letter ch)
      ≡ ok (some (between (o ++ (stands_for ch ∷ []))))
unfolding step scan scan_escape is_short_escape short_escape settle flush
short_step o quotation_mark = refl
short_step o reverse_solidus = refl
short_step o solidus = refl
short_step o backspace = refl
short_step o form_feed = refl
short_step o line_feed = refl
short_step o carriage_return = refl
short_step o tab = refl

piece-Reads : (p : Piece) → IsPiece p → (bytes : List ℕ) × Means p bytes × Reads (spelled p) bytes
piece-Reads (plain b) (h, n1, n2) =
    (b ∷ [], refl, λ o c rest. run-step false _ _ b c rest (step_plain b o h n1 n2))
piece-Reads (short ch) h = (
  stands_for ch ∷ [],
  refl,
  λ o c rest.
      run-step false _ _ 92 (letter ch) (c ∷ rest) ((escape_start (between o) refl).0)
      ∙ run-step false _ _ (letter ch) c rest (short_step o ch),
)
piece-Reads (unit upper n) h =
    let (bytes, e, stands, _, _) = utf32_to_utf8_lem n (omega arith) in
    (bytes, stands, λ o c rest. bmp-Decodes upper o bytes n c rest h e)
piece-Reads (pair upper upper' h l) (hi, lo) =
    let cp = utf16_surrogate_pair_to_code_point h l in
    let e_cp : cp ≡ 0x10000 + (h - 0xD800) * 0x400 + (l - 0xDC00) = pair_code h l in
    let (bytes, e, stands, _, _) = utf32_to_utf8_lem cp (omega arith) in
    (
      bytes,
      stands ∙ ap some e_cp,
      λ o c rest.
          ap (run false (between o)) (append_assoc (escape upper h) (escape upper' l) (c ∷ rest))
          ∙ pair-Decodes upper upper' o bytes h l c rest hi lo e,
    )

pieces-Reads :
    (ps : List Piece)
    → ArePieces ps
    → (value : List ℕ) × AllMean ps value × Reads (all_spelled ps) value
pieces-Reads [] h =
    ([], refl, λ o c rest. ap (λ v. run false (between v) (c ∷ rest)) (sym (append-nil o)))
pieces-Reads (p ∷ ps) (h, hs) =
    let (bytes, means, reads) = piece-Reads p h in
    let (value, all_mean, reads_all) = pieces-Reads ps hs in
    (
      bytes ++ value,
      (bytes, value, refl, means, all_mean),
      λ o c rest.
          let (c', rest', e) = nonempty (all_spelled ps) c rest in
          ap (run false (between o)) (append_assoc (spelled p) (all_spelled ps) (c ∷ rest))
          ∙ ap (λ xs. run false (between o) (spelled p ++ xs)) e
          ∙ reads o c' rest'
          ∙ ap (run false (between (o ++ bytes))) (sym e)
          ∙ reads_all (o ++ bytes) c rest
          ∙ ap (λ v. run false (between v) (c ∷ rest)) (append_assoc o bytes value),
    )

-- On a text in quotation marks of bytes that stand for themselves, short escapes, \u escapes of codes
-- that are no surrogates and of surrogate pairs, in any order and with digits in upper or in lower
-- case, `decode` returns true and puts what these stand for, one after the other, behind what
-- `utf8_value` has; the \u escapes stand for UTF-8 in its shortest form.
pub decode_pieces :
    (o : List ℕ) (ps : List Piece)
    → ArePieces ps
    → (value : List ℕ) × AllMean ps value
      × (decode o (34 ∷ (all_spelled ps ++ (34 ∷ []))) ≡ ok (some (o ++ value)))
decode_pieces o ps h =
    let (value, means, reads) = pieces-Reads ps h in
    let (c, rest, e) = nonempty (all_spelled ps) 34 [] in
    (
      value,
      means,
      decode_from o (34 ∷ (all_spelled ps ++ (34 ∷ []))) (o ++ value) (
          ap (λ xs. run true (fresh o) (34 ∷ xs)) e
          ∙ opening o rest c
          ∙ ap (run false (between o)) (sym e)
          ∙ reads o 34 []
          ∙ closing (o ++ value)),
    )
