-- ===== src/Base/Text.antt =====
-- Go strings as lists of bytes, and the functions of `strings` that the program calls.
-- Texts are ASCII, so white space is that of ASCII.
pub mod Words
use Prim.Native.Nat.{ℕ}
use Prim.Native.Char.{code}
use Prim.Native.String.{String}
use mathlib.Core.Bool.{Bool, true, false, ◌&&◌, ◌||◌}
use mathlib.Core.List.{List, [], ◌∷◌, ◌++◌}
use alekhines_counter_gambit.Base.{leb, ◌==◌}

abbrev pub Bytes : Type 0
Bytes = List ℕ

-- The bytes of an ASCII literal.
abbrev pub codes : String → Bytes
codes String.[] = []
codes (String.◌∷◌ c s) = code c ∷ codes s

-- `a == b` on strings.
abbrev pub bytes_eq : Bytes → Bytes → Bool
bytes_eq [] [] = true
bytes_eq [] (b ∷ t) = false
bytes_eq (a ∷ s) [] = false
bytes_eq (a ∷ s) (b ∷ t) = a == b && bytes_eq s t

-- `unicode.IsSpace` on ASCII: tab, newline, vertical tab, form feed, carriage return, space.
abbrev pub is_space : ℕ → Bool
is_space c = c == 32 || (leb 9 c && leb c 13)

-- `strings.Split(s, sep)` at a one-byte separator; `cur` is the part being read.
unfoldable pub split_from : ℕ → Bytes → Bytes → List Bytes
split_from sep cur [] = cur ∷ []
split_from sep cur (c ∷ s) = elim (c == sep) [
  | true ↦ cur ∷ split_from sep [] s
  | false ↦ split_from sep (cur ++ c ∷ []) s
]

unfoldable pub split : Bytes → ℕ → List Bytes
unfolding split_from
split s sep = split_from sep [] s

-- The word that ends here, if there is one.
abbrev pub flush_word : Bytes → List Bytes → List Bytes
flush_word [] rest = rest
flush_word (c ∷ cur) rest = (c ∷ cur) ∷ rest

-- `strings.Fields(s)`: the words between runs of white space.
unfoldable pub fields_from : Bytes → Bytes → List Bytes
fields_from cur [] = flush_word cur []
fields_from cur (c ∷ s) = elim (is_space c) [
  | true ↦ flush_word cur (fields_from [] s)
  | false ↦ fields_from (cur ++ c ∷ []) s
]

unfoldable pub fields : Bytes → List Bytes
unfolding fields_from
fields s = fields_from [] s

-- A map from strings to strings, and `m[k]`: a missing key gives the empty string.
abbrev pub StringMap : Type 0
StringMap = List (Bytes × Bytes)

unfoldable pub get_string : Bytes → StringMap → Bytes
get_string k [] = []
get_string k ((j, v) ∷ m) = elim (bytes_eq j k) [ true ↦ v | false ↦ get_string k m ]
