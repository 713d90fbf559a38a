-- ===== src/Chess/Fen/Ranks.antt =====
-- A printed placement is read back: the placement loops of FEN and ParseFEN in pkg/chess/fen.go.
use alekhines_counter_gambit.Base.{
  Bool-cases, List, [], ap, arith, drop, false, inl, inr, leb, length, length-drop, length-take,
  ltb, refl, set, some, suc, sym, take, true, zero, ℕ, ◌&&◌, ◌*◌, ◌++◌, ◌+◌, ◌-◌, ◌<◌, ◌∙◌, ◌∷◌,
  ◌≡◌, ◌≢◌, ◌≤◌,
}
use alekhines_counter_gambit.Base.All.{All, cons, nil}
use alekhines_counter_gambit.Base.Result.{ok}
use alekhines_counter_gambit.Base.Text.{Bytes, split, split_from}
use alekhines_counter_gambit.Base.Text.Words.{
  Above, Above-append, Above-le, split_from-append, split_from_last,
}
use alekhines_counter_gambit.Chess.Board.{HasLetter, sq}
use alekhines_counter_gambit.Chess.Fen.Parse.{
  no_squares, parse_placement, parse_rank, parse_ranks, piece_of_letter,
}
use alekhines_counter_gambit.Chess.Fen.Place.{place, place_ranks, place_ranks-no_squares}
use alekhines_counter_gambit.Chess.Fen.Print.{
  flush_empty, letter_of, piece_letter, rank_pieces, write_rank, write_ranks,
}
use alekhines_counter_gambit.Chess.Piece.{
  Color, Piece, PieceType, black, is_empty, make_piece, no_piece_type, pawn, white,
}
use mathlib.Core.List.{append-nil}

piece_of_letter-piece_letter :
    (p : Piece) → p.piece_type ≢ no_piece_type → piece_of_letter (piece_letter p) ≡ some p
unfolding piece_of_letter
piece_of_letter-piece_letter p h = go p.color p.piece_type h
  where
    go :
        (c : Color) (t : PieceType)
        → t ≢ no_piece_type
        → piece_of_letter (letter_of c t) ≡ some (make_piece c t)
    go c no_piece_type n = absurd (n refl)
    go white _ n = refl
    go black pawn n = refl
    go black _ n = refl

piece_letter-ge : (p : Piece) → p.piece_type ≢ no_piece_type → b'A' ≤ piece_letter p
piece_letter-ge p h = go p.color p.piece_type h
  where
    go : (c : Color) (t : PieceType) → t ≢ no_piece_type → b'A' ≤ letter_of c t
    go c no_piece_type n = absurd (n refl)
    go white _ n = omega arith
    go black pawn n = omega arith
    go black _ n = omega arith

parse_rank-letter :
    (p : Piece) (t : Bytes) (rank file : ℕ) (s : List Piece)
    → p.piece_type ≢ no_piece_type
    → file < 8
    → parse_rank (piece_letter p ∷ t) rank file s
      ≡ parse_rank t rank (file + 1) (set s (sq file rank) p)
unfolding parse_rank
parse_rank-letter p t rank file s h hf =
    let above = piece_letter-ge p h in
    let letter : (leb b'1' (piece_letter p) && leb (piece_letter p) b'8') ≡ false = ground arith in
    let room : ltb 7 file ≡ false = ground arith in
    rw (letter, parse_rank)
      (rw (piece_of_letter-piece_letter p h, parse_rank) (rw (room, parse_rank)))

parse_rank-flush_empty :
    (e : ℕ) (t : Bytes) (rank file : ℕ) (s : List Piece)
    → e ≤ 8
    → parse_rank (flush_empty e ++ t) rank file s ≡ parse_rank t rank (file + e) s
unfolding parse_rank
parse_rank-flush_empty zero t rank file s h = let e : file ≡ file + 0 = omega arith in rw (← e)
parse_rank-flush_empty (suc e) t rank file s h =
    let digit : (leb b'1' (b'0' + suc e) && leb (b'0' + suc e) b'8') ≡ true = ground arith in
    let value : b'0' + suc e - b'0' ≡ suc e = omega arith in rw (digit, parse_rank) (rw value)

parse_rank_end : (rank file : ℕ) (s : List Piece) → file ≡ 8 → parse_rank [] rank file s ≡ ok s
unfolding parse_rank
parse_rank_end rank file s h = ground arith

-- Reading what the loop of FEN writes for the files from `file + e` on, `e` of them before being empty,
-- writes those pieces.
parse_rank-write_rank :
    (ps : List Piece) (rank file e k : ℕ) (s : List Piece)
    → All HasLetter ps
    → file + e + length ps ≡ 8
    → k ≡ sq (file + e) rank
    → parse_rank (write_rank ps e) rank file s ≡ ok (place ps k s)
unfolding write_rank place
parse_rank-write_rank [] rank file e k s a h hk = rw (← append-nil (flush_empty e)) (
    parse_rank-flush_empty e [] rank file s (omega arith)
    ∙ parse_rank_end rank (file + e) s (omega arith))
parse_rank-write_rank (p ∷ ps) rank file e k s (cons hp a) h hk = elim (Bool-cases (is_empty p)) [
  | inl b ↦
      rw (b, write_rank)
        (parse_rank-write_rank ps rank file (suc e) (suc k) s a (omega arith) (omega arith))
  | inr b ↦
      rw (b, write_rank)
        (parse_rank-flush_empty e (piece_letter p ∷ write_rank ps 0) rank file s (omega arith)
          ∙ (parse_rank-letter p (write_rank ps 0) rank (file + e) s (hp b) (omega arith)
              ∙ (parse_rank-write_rank ps rank (file + e + 1) 0 (suc k)
                    (set s (sq (file + e) rank) p) a (omega arith) (omega arith)
                  ∙ ap (λ i. ok (place ps (suc k) (set s i p))) (sym hk))))
]

Above-flush_empty : (e : ℕ) → Above b'0' (flush_empty e)
Above-flush_empty zero = tt
Above-flush_empty (suc e) = (omega arith, tt)

Above-write_rank : (ps : List Piece) (e : ℕ) → All HasLetter ps → Above b'0' (write_rank ps e)
unfolding write_rank
Above-write_rank [] e a = Above-flush_empty e
Above-write_rank (p ∷ ps) e (cons hp a) = elim (Bool-cases (is_empty p)) [
  | inl b ↦ rw (b, write_rank) (Above-write_rank ps (suc e) a)
  | inr b ↦
      rw (b, write_rank)
        (Above-append b'0' (flush_empty e) (piece_letter p ∷ write_rank ps 0) (Above-flush_empty e)
          (omega (arith, piece_letter-ge p (hp b)), Above-write_rank ps 0 a))
]

-- The texts of the ranks `r - 1` down to 0.
rank_texts : List Piece → ℕ → List Bytes
rank_texts s zero = []
rank_texts s (suc r) = write_rank (rank_pieces s r) 0 ∷ rank_texts s r

All-take : (n : ℕ) (s : List Piece) → All HasLetter s → All HasLetter (take n s)
All-take zero s a = nil
All-take (suc n) [] a = nil
All-take (suc n) (p ∷ s) (cons h a) = cons h (All-take n s a)

All-drop : (n : ℕ) (s : List Piece) → All HasLetter s → All HasLetter (drop n s)
All-drop zero s a = a
All-drop (suc n) [] a = nil
All-drop (suc n) (p ∷ s) (cons h a) = All-drop n s a

module _ (s : List Piece) (a : All HasLetter s) where
  rank_pieces-HasLetter : (r : ℕ) → All HasLetter (rank_pieces s r)
  rank_pieces-HasLetter r = All-take 8 (drop (r * 8) s) (All-drop (r * 8) s a)

  split_from-write_ranks : (r : ℕ) → split_from b'/' [] (write_ranks s r) ≡ rank_texts s (suc r)
  unfolding write_ranks rank_texts
  split_from-write_ranks zero =
      split_from_last b'/' [] (write_rank (rank_pieces s 0) 0)
        (Above-write_rank _ 0 (rank_pieces-HasLetter 0))
  split_from-write_ranks (suc r) =
      split_from-append b'/' [] (write_rank (rank_pieces s (suc r)) 0) (write_ranks s r)
        (Above-write_rank _ 0 (rank_pieces-HasLetter (suc r)))
      ∙ ap (λ t. write_rank (rank_pieces s (suc r)) 0 ∷ t) (split_from-write_ranks r)

  length-rank_texts : (r : ℕ) → length (rank_texts s r) ≡ r
  unfolding rank_texts
  length-rank_texts zero = refl
  length-rank_texts (suc r) = ap suc (length-rank_texts r)

  parse_ranks-rank_texts :
      (r i : ℕ) (acc : List Piece)
      → length s ≡ 64
      → r + i ≡ 8
      → parse_ranks (rank_texts s r) i acc ≡ ok (place_ranks s r acc)
  unfolding parse_ranks rank_texts place_ranks
  parse_ranks-rank_texts zero i acc h hi = refl
  parse_ranks-rank_texts (suc r) i acc h hi =
      let row = rank_pieces s r in
      let full : length row ≡ 8 =
        omega (arith, length-take 8 (drop (r * 8) s), length-drop (r * 8) s) in
      let one =
        parse_rank-write_rank row (7 - i) 0 0 (r * 8) acc (rank_pieces-HasLetter r) (omega arith)
          (omega arith) in
      rw one (parse_ranks-rank_texts r (i + 1) (place row (r * 8) acc) h (omega arith))

  -- The placement of a full board of pieces that have a letter is read back.
  pub parse_placement-write_ranks : length s ≡ 64 → parse_placement (write_ranks s 7) ≡ ok s
  unfolding parse_placement split
  parse_placement-write_ranks h =
      rw (split_from-write_ranks 7, length-rank_texts 8)
        (parse_ranks-rank_texts 8 0 no_squares h refl ∙ ap ok (place_ranks-no_squares s h))

  pub Above-write_ranks : (r : ℕ) → Above 33 (write_ranks s r)
  unfolding write_ranks
  Above-write_ranks zero =
      Above-le 33 b'0' _ (omega arith) (Above-write_rank _ 0 (rank_pieces-HasLetter 0))
  Above-write_ranks (suc r) =
      Above-append 33 (write_rank (rank_pieces s (suc r)) 0) (b'/' ∷ write_ranks s r)
        (Above-le 33 b'0' _ (omega arith) (Above-write_rank _ 0 (rank_pieces-HasLetter (suc r))))
        (omega arith, Above-write_ranks r)
