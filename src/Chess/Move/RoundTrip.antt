-- ===== src/Chess/Move/RoundTrip.antt =====
-- The UCI notation of a move is read back exactly: String and ParseUCIMove of pkg/chess/move.go.
use alekhines_counter_gambit.Base.{
  [], arith, false, if◌then◌else◌, length, refl, some, ℕ, ◌%◌, ◌+◌, ◌/◌, ◌<◌, ◌∷◌, ◌≡◌,
}
use alekhines_counter_gambit.Base.Result.{ok}
use alekhines_counter_gambit.Base.Text.{Bytes}
use alekhines_counter_gambit.Chess.Move.{
  Move, letter_to_promo, parse_square, parse_uci_move, promo_to_letter, promotion_of, square_name,
  uci_string,
}
use alekhines_counter_gambit.Chess.Piece.{
  PieceType, bishop, king, knight, no_piece_type, pawn, queen, rook, type_eq,
}
use mathlib.Core.Path.{subst}

-- A promotion that has a letter, or none.
abbrev pub IsPromotion : PieceType → Type 0
IsPromotion pawn = ⊥
IsPromotion king = ⊥
IsPromotion _ = Unit {0}

parse_square-name : (s : ℕ) → s < 64 → parse_square (b'a' + s % 8) (b'1' + s / 8) ≡ some s
unfolding parse_square
parse_square-name s h = ground arith

promotion-letter :
    (t : PieceType)
    → IsPromotion t
    → promotion_of (if type_eq t no_piece_type then [] else promo_to_letter t ∷ []) ≡ ok t
unfolding letter_to_promo
promotion-letter no_piece_type h = refl
promotion-letter pawn h = absurd h
promotion-letter king h = absurd h
promotion-letter _ h = refl

-- A move between squares of the board, with a promotion that has a letter or with none, is read back
-- from its UCI notation.
pub parse_uci_move-uci_string :
    (m : Move)
    → m.from < 64
    → m.to < 64
    → IsPromotion m.promotion
    → parse_uci_move (uci_string m) ≡ ok m
unfolding uci_string parse_uci_move
parse_uci_move-uci_string m hf ht hp =
    ground (
      arith,
      parse_square-name m.from hf,
      parse_square-name m.to ht,
      promotion-letter m.promotion hp,
    )

square_name-parse :
    (f r : ℕ) {s : ℕ} → parse_square f r ≡ some s → (square_name s ≡ f ∷ r ∷ []) × (s < 64)
unfolding parse_square square_name
square_name-parse f r h = (ground arith, ground arith)

letter-promotion :
    (c : ℕ) (t : PieceType)
    → letter_to_promo c ≡ some t
    → IsPromotion t × (type_eq t no_piece_type ≡ false) × (promo_to_letter t ≡ c)
unfolding letter_to_promo
letter-promotion c no_piece_type h = absurd (ground arith)
letter-promotion c pawn h = absurd (ground arith)
letter-promotion c king h = absurd (ground arith)
letter-promotion c knight h = (tt, refl, ground arith)
letter-promotion c bishop h = (tt, refl, ground arith)
letter-promotion c rook h = (tt, refl, ground arith)
letter-promotion c queen h = (tt, refl, ground arith)

-- The text of a promotion.
abbrev letters : PieceType → Bytes
letters t = if type_eq t no_piece_type then [] else promo_to_letter t ∷ []

promotion_of-letters :
    (s : Bytes) (t : PieceType)
    → length s < 2
    → promotion_of s ≡ ok t
    → IsPromotion t × (letters t ≡ s)
promotion_of-letters [] t l h =
    let e : no_piece_type ≡ t = cc in subst (λ u. IsPromotion u × (letters u ≡ [])) e (tt, refl)
promotion_of-letters (c ∷ []) t l h =
    let (p, n, e) = letter-promotion c t (ground arith) in (p, rw (n, e))
promotion_of-letters (c ∷ d ∷ s) t l h = absurd (omega arith)

-- The three parts that a text of four bytes or more is read into.
uci_parts :
    (f r g q : ℕ) (s : Bytes) {m : Move}
    → parse_uci_move (f ∷ r ∷ g ∷ q ∷ s) ≡ ok m
    → (length s < 2)
      × (parse_square f r ≡ some m.from)
      × (parse_square g q ≡ some m.to)
      × (promotion_of s ≡ ok m.promotion)
unfolding parse_uci_move
uci_parts f r g q s h = (ground arith, ground arith, ground arith, ground arith)

-- A text that is accepted is printed back byte for byte, and the move that it gives is between squares
-- of the board, with a promotion that has a letter or with none.
pub uci_string-parse_uci_move :
    (text : Bytes) {m : Move}
    → parse_uci_move text ≡ ok m
    → (uci_string m ≡ text) × (m.from < 64) × (m.to < 64) × IsPromotion m.promotion
unfolding uci_string parse_uci_move
uci_string-parse_uci_move (f ∷ r ∷ g ∷ q ∷ s) {m} h =
    let (l, pf, pt, pp) = uci_parts f r g q s h in
    let (ef, hf) = square_name-parse f r pf in
    let (et, ht) = square_name-parse g q pt in
    let (promo, es) = promotion_of-letters s m.promotion l pp in
    (unfold uci_string in cc (ef, et, es), hf, ht, promo)
uci_string-parse_uci_move [] h = absurd (ground arith)
uci_string-parse_uci_move (f ∷ []) h = absurd (ground arith)
uci_string-parse_uci_move (f ∷ r ∷ []) h = absurd (ground arith)
uci_string-parse_uci_move (f ∷ r ∷ g ∷ []) h = absurd (ground arith)
