-- ===== src/Chess/Fen/Sound.antt =====
-- What ParseFEN accepts is a position that FEN can spell: pkg/chess/fen.go.
use alekhines_counter_gambit.Base.{
  Bool, Bool-cases, List, Option, Option-cases, [], arith, false, inl, inr, leb, length, length-set,
  none, refl, set, some, true, ℕ, ◌&&◌, ◌+◌, ◌-◌, ◌==◌, ◌∙◌, ◌∷◌, ◌≡◌, ◌≢◌, ◌≤◌,
}
use alekhines_counter_gambit.Base.All.{All, All-replicate, All-set}
use alekhines_counter_gambit.Base.Decimal.{atoi, in_bounds, max_int, scan_digits}
use alekhines_counter_gambit.Base.Int.{negsuc, pos, ℤ}
use alekhines_counter_gambit.Base.Result.{both_ok, ok, ok-injective}
use alekhines_counter_gambit.Base.Text.{Bytes, fields, split}
use alekhines_counter_gambit.Chess.Board.{Board, HasLetter, OnBoard, sq}
use alekhines_counter_gambit.Chess.Fen.Parse.{
  FenError, bad_full_move, bad_half_move, black_piece_of, clock_from, either_piece, no_squares,
  parse_castling, parse_clock, parse_fen, parse_fields, parse_placement, parse_rank, parse_ranks,
  parse_side, parse_target, piece_of_letter, white_piece_of,
}
use alekhines_counter_gambit.Chess.Fen.RoundTrip.{IsPrintable}
use alekhines_counter_gambit.Chess.Move.{parse_square}
use alekhines_counter_gambit.Chess.Piece.{Piece, PieceType, empty, no_piece_type}
use mathlib.Core.Path.{subst}

-- A board's squares as the parser keeps them.
record IsPlacement (s : List Piece) : Type 0 where
  size : length s ≡ 64
  letters : All HasLetter s

white_piece_of-HasLetter : (c : ℕ) {t : PieceType} → white_piece_of c ≡ some t → t ≢ no_piece_type
white_piece_of-HasLetter c h e = ground arith

black_piece_of-HasLetter : (c : ℕ) {t : PieceType} → black_piece_of c ≡ some t → t ≢ no_piece_type
black_piece_of-HasLetter c h e = ground arith

piece_of_letter-HasLetter : (c : ℕ) {p : Piece} → piece_of_letter c ≡ some p → HasLetter p
unfolding piece_of_letter
piece_of_letter-HasLetter c {p} h n e = go (white_piece_of c) (black_piece_of c) refl refl h
  where
    go :
        (w l : Option PieceType)
        → white_piece_of c ≡ w
        → black_piece_of c ≡ l
        → either_piece w l ≡ some p
        → ⊥
    go (some t) l hw hl q = white_piece_of-HasLetter c hw (ground arith)
    go none (some t) hw hl q = black_piece_of-HasLetter c hl (ground arith)
    go none none hw hl q = cc

parse_rank-IsPlacement :
    (text : Bytes) (rank file : ℕ) (s : List Piece) {s' : List Piece}
    → IsPlacement s
    → parse_rank text rank file s ≡ ok s'
    → IsPlacement s'
unfolding parse_rank
parse_rank-IsPlacement [] rank file s {s'} v h =
    let e : s ≡ s' = ground arith in subst IsPlacement e v
parse_rank-IsPlacement (ch ∷ text) rank file s {s'} v h =
    elim (Bool-cases (leb b'1' ch && leb ch b'8')) [
      | inl d ↦ parse_rank-IsPlacement text rank (file + (ch - b'0')) s v (rw (d, parse_rank) at h)
      | inr d ↦ elim (Option-cases (piece_of_letter ch)) [
        | inl n ↦ absurd (ground arith)
        | inr (p, e) ↦
            parse_rank-IsPlacement text rank (file + 1) (set s (sq file rank) p)
              (record {
                size = length-set s (sq file rank) p ∙ v.size;
                letters = All-set s (sq file rank) p v.letters (piece_of_letter-HasLetter ch e);
              })
              (ground arith)
      ]
    ]

parse_ranks-IsPlacement :
    (texts : List Bytes) (i : ℕ) (s : List Piece) {s' : List Piece}
    → IsPlacement s
    → parse_ranks texts i s ≡ ok s'
    → IsPlacement s'
unfolding parse_ranks
parse_ranks-IsPlacement [] i s {s'} v h = let e : s ≡ s' = ground arith in subst IsPlacement e v
parse_ranks-IsPlacement (t ∷ texts) i s v h =
    let (s1, e1, e2) = both_ok (parse_rank t (7 - i) 0 s) _ h in
    parse_ranks-IsPlacement texts (i + 1) s1 (parse_rank-IsPlacement t (7 - i) 0 s v e1) e2

parse_placement-IsPlacement :
    (text : Bytes) {s : List Piece} → parse_placement text ≡ ok s → IsPlacement s
unfolding parse_placement
parse_placement-IsPlacement text {s} h = elim (Bool-cases (length (split text b'/') == 8)) [
  | inl e ↦
      parse_ranks-IsPlacement (split text b'/') 0 no_squares
        (record { size = refl; letters = All-replicate 64 empty (λ n. absurd (cc)) }) (rw e at h)
  | inr e ↦ absurd (ground arith)
]

parse_target-OnBoard : (text : Bytes) (t : Option ℕ) → parse_target text ≡ ok t → OnBoard t
unfolding parse_target parse_square
parse_target-OnBoard text none h = tt
parse_target-OnBoard [] (some s) h = absurd (ground arith)
parse_target-OnBoard (f ∷ []) (some s) h = absurd (ground arith)
parse_target-OnBoard (f ∷ r ∷ []) (some s) h = ground arith
parse_target-OnBoard (f ∷ r ∷ g ∷ text) (some s) h = absurd (ground arith)

in_bounds-fits :
    (negative : Bool) (o : Option ℕ) {n : ℕ} → in_bounds negative o ≡ some (pos n) → n ≤ max_int
in_bounds-fits true none h = absurd (ground arith)
in_bounds-fits false none h = absurd (ground arith)
in_bounds-fits true (some k) h = ground arith
in_bounds-fits false (some k) h = ground arith

atoi-fits : (text : Bytes) {n : ℕ} → atoi text ≡ some (pos n) → n ≤ max_int
unfolding atoi
atoi-fits [] h = absurd (ground arith)
atoi-fits (c ∷ s) h = ground (
  arith,
  in_bounds-fits true (scan_digits s),
  in_bounds-fits false (scan_digits s),
  in_bounds-fits false (scan_digits (c ∷ s)),
)

parse_clock_bounds :
    (least : ℕ) (e : FenError) (text : Bytes) {n : ℕ}
    → parse_clock least e text ≡ ok n
    → (least ≤ n) × (n ≤ max_int)
unfolding parse_clock
parse_clock_bounds least e text {n} h = go (atoi text) refl h
  where
    go : (o : Option ℤ) → atoi text ≡ o → clock_from least e o ≡ ok n → (least ≤ n) × (n ≤ max_int)
    go none a q = absurd (ground arith)
    go (some (negsuc k)) a q = absurd (ground arith)
    go (some (pos k)) a q = ground (arith, atoi-fits text a)

parse_fields-IsPrintable : (fs : List Bytes) {b : Board} → parse_fields fs ≡ ok b → IsPrintable b
unfolding parse_fields
parse_fields-IsPrintable (f0 ∷ f1 ∷ f2 ∷ f3 ∷ f4 ∷ f5 ∷ []) {b} h0 =
    let (s, e0, h1) = both_ok (parse_placement f0) _ h0 in
    let (c, e1, h2) = both_ok (parse_side f1) _ h1 in
    let (r, e2, h3) = both_ok (parse_castling f2) _ h2 in
    let (t, e3, h4) = both_ok (parse_target f3) _ h3 in
    let (hm, e4, h5) = both_ok (parse_clock 0 bad_half_move f4) _ h4 in
    let (fm, e5, h6) = both_ok (parse_clock 1 bad_full_move f5) _ h5 in
    let v = parse_placement-IsPlacement f0 e0 in
    let (_, half_fits) = parse_clock_bounds 0 bad_half_move f4 e4 in
    let (full_pos, full_fits) = parse_clock_bounds 1 bad_full_move f5 e5 in
    subst IsPrintable (ok-injective _ _ h6) (record {
      well_formed = record { size = v.size; target = parse_target-OnBoard f3 t e3 };
      letters = v.letters;
      half_fits = half_fits;
      full_pos = full_pos;
      full_fits = full_fits;
    })
parse_fields-IsPrintable [] h = absurd (ground arith)
parse_fields-IsPrintable (f0 ∷ []) h = absurd (ground arith)
parse_fields-IsPrintable (f0 ∷ f1 ∷ []) h = absurd (ground arith)
parse_fields-IsPrintable (f0 ∷ f1 ∷ f2 ∷ []) h = absurd (ground arith)
parse_fields-IsPrintable (f0 ∷ f1 ∷ f2 ∷ f3 ∷ []) h = absurd (ground arith)
parse_fields-IsPrintable (f0 ∷ f1 ∷ f2 ∷ f3 ∷ f4 ∷ []) h = absurd (ground arith)
parse_fields-IsPrintable (f0 ∷ f1 ∷ f2 ∷ f3 ∷ f4 ∷ f5 ∷ f6 ∷ fs) h = absurd (ground arith)

-- Every position that ParseFEN returns can be spelled: 64 squares of pieces with a letter, the target
-- on the board, and clocks in the range of an int, the full-move number from 1.
pub parse_fen-IsPrintable : (text : Bytes) {b : Board} → parse_fen text ≡ ok b → IsPrintable b
unfolding parse_fen
parse_fen-IsPrintable text h = parse_fields-IsPrintable (fields text) h
