-- ===== src/Chess/Pgn.antt =====
-- PGN documents: PGN and wrapMovetext of pkg/chess/san.go.
pub mod Wrap
pub mod Replay
pub mod Examples
use alekhines_counter_gambit.Base.{
  Bool, List, Option, [], false, if◌then◌else◌, leb, length, ltb, none, some, true, ℕ, ◌%◌, ◌&&◌,
  ◌++◌, ◌+◌, ◌-◌, ◌/◌, ◌==◌, ◌||◌, ◌∷◌,
}
use alekhines_counter_gambit.Base.Decimal.{itoa}
use alekhines_counter_gambit.Base.Result.{Result, err, ok, ◌>>=◌}
use alekhines_counter_gambit.Base.Text.{
  Bytes, StringMap, bytes_eq, codes, fields, get_string, is_space,
}
use alekhines_counter_gambit.Chess.Board.{Board}
use alekhines_counter_gambit.Chess.Fen.Parse.{FenError, parse_fen}
use alekhines_counter_gambit.Chess.Legal.{ChessError, apply_move}
use alekhines_counter_gambit.Chess.Move.{MoveError, parse_uci_move}
use alekhines_counter_gambit.Chess.Piece.{color_eq, white}
use alekhines_counter_gambit.Chess.San.{san}

-- The two errors of a game that cannot be written, and that of its start.
pub data PgnError : Type 0 where
  bad_start : FenError → PgnError
  unreadable : Bytes → MoveError → PgnError
  unplayable : Bytes → ChessError → PgnError

abbrev pub wrap_error {ℓ} : {E F : Type 0} {A : Type ℓ} → (E → F) → Result E A → Result F A
wrap_error f (ok a) = ok a
wrap_error f (err e) = err (f e)

-- The number and a dot before a move of White, three dots before a first move of Black.
abbrev pub move_number : Board → Bytes → Bytes
move_number b text =
    if color_eq b.turn white
    then itoa b.full_move ++ codes ". "
    else if length text == 0
    then itoa b.full_move ++ codes "... "
    else []

-- The loop over the moves; `text` is what it has written.
unfoldable pub move_text : Board → List Bytes → Bytes → Result PgnError Bytes
unfolding san apply_move parse_uci_move
move_text b [] text = ok text
move_text b (uci ∷ ucis) text = do
  m ← wrap_error (unreadable uci) (parse_uci_move uci)
  next ← wrap_error (unplayable uci) (apply_move b m)
  move_text next ucis (text ++ (move_number b text ++ (san b m ++ 32 ∷ [])))

-- What stands between the line so far, of length `n`, and a word of length `k`, and the length of
-- the line with it.
abbrev pub separator : ℕ → Bool → ℕ → ℕ → Bytes × ℕ
separator width first n k =
    if ltb 0 n && ltb width (n + 1 + k)
    then (10 ∷ [], k)
    else if first
    then ([], n + k)
    else (32 ∷ [], n + 1 + k)

-- The loop of wrapMovetext.
unfoldable pub wrap_words : ℕ → Bool → ℕ → List Bytes → Bytes
wrap_words width first n [] = []
wrap_words width first n (w ∷ ws) =
    let (between, n') = separator width first n (length w) in
    between ++ (w ++ wrap_words width false n' ws)

unfoldable pub wrap_movetext : Bytes → ℕ → Bytes
unfolding wrap_words
wrap_movetext s width = wrap_words width true 0 (fields s)

abbrev pub quote_mark : ℕ
quote_mark = 34

abbrev pub backslash : ℕ
backslash = 92

-- `strconv.Quote` on ASCII.
abbrev pub hex_digit : ℕ → ℕ
hex_digit d = if ltb d 10 then b'0' + d else b'a' + (d - 10)

abbrev pub escape_letter : ℕ → Option ℕ
escape_letter c =
    if c == quote_mark || c == backslash
    then some c
    else if c == 7
    then some b'a'
    else if c == 8
    then some b'b'
    else if c == 9
    then some b't'
    else if c == 10
    then some b'n'
    else if c == 11
    then some b'v'
    else if c == 12
    then some b'f'
    else if c == 13
    then some b'r'
    else none

abbrev pub quote_byte : Option ℕ → ℕ → Bytes
quote_byte (some e) c = backslash ∷ e ∷ []
quote_byte none c =
    if leb 32 c && ltb c 127
    then c ∷ []
    else backslash ∷ b'x' ∷ hex_digit (c / 16) ∷ hex_digit (c % 16) ∷ []

unfoldable pub quote_bytes : Bytes → Bytes
quote_bytes [] = quote_mark ∷ []
quote_bytes (c ∷ s) = quote_byte (escape_letter c) c ++ quote_bytes s

-- A tag and its quoted value in brackets, on a line.
abbrev pub tag_line : Bytes → Bytes → Bytes
tag_line k v = b'[' ∷ (k ++ 32 ∷ quote_mark ∷ (quote_bytes v ++ b']' ∷ 10 ∷ []))

abbrev pub roster : List Bytes
roster =
    codes "Event"
    ∷ codes "Site"
    ∷ codes "Date"
    ∷ codes "Round"
    ∷ codes "White"
    ∷ codes "Black"
    ∷ codes "Result"
    ∷ []

abbrev pub or_default : Bytes → Bytes → Bytes
or_default default v = if length v == 0 then default else v

unfoldable pub roster_lines : List Bytes → StringMap → Bytes
unfolding get_string quote_bytes
roster_lines [] tags = []
roster_lines (k ∷ ks) tags =
    tag_line k (or_default (codes "?") (get_string k tags)) ++ roster_lines ks tags

unfoldable pub is_member : Bytes → List Bytes → Bool
is_member k [] = false
is_member k (j ∷ ks) = bytes_eq j k || is_member k ks

-- The other tags, in the order in which the map is iterated: that of the list.
unfoldable pub extra_lines : StringMap → Bytes
unfolding quote_bytes is_member
extra_lines [] = []
extra_lines ((k, v) ∷ tags) =
    let rest = extra_lines tags in if is_member k roster then rest else tag_line k v ++ rest

-- `strings.TrimSpace` of a move text, which starts with no space and ends in at most one.
unfoldable pub trim_right : Bytes → Bytes
trim_right [] = []
trim_right (c ∷ s) =
    let rest = trim_right s in if is_space c && length rest == 0 then [] else c ∷ rest

unfoldable pub pgn : Bytes → List Bytes → StringMap → Result PgnError Bytes
unfolding parse_fen move_text roster_lines extra_lines trim_right wrap_movetext get_string
pgn start ucis tags = do
  b ← wrap_error bad_start (parse_fen start)
  text ← move_text b ucis []
  ok (
      roster_lines roster tags
      ++ (extra_lines tags
          ++ 10
            ∷ (wrap_movetext
                  (trim_right text
                    ++ 32 ∷ or_default (codes "*") (get_string (codes "Result") tags))
                  80
                ++ 10 ∷ [])))
