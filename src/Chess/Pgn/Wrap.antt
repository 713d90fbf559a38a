-- ===== src/Chess/Pgn/Wrap.antt =====
-- Wrapping at a width keeps the words and the width: wrapMovetext of pkg/chess/san.go.
use alekhines_counter_gambit.Base.{
  Bool-cases, List, [], ap, arith, false, inl, inr, length, length-append, ltb, refl, true, ℕ, ◌&&◌,
  ◌++◌, ◌+◌, ◌<◌, ◌==◌, ◌∙◌, ◌∷◌, ◌≡◌, ◌≢◌, ◌≤◌,
}
use alekhines_counter_gambit.Base.All.{All, All-append, All-one, cons, nil}
use alekhines_counter_gambit.Base.Text.{
  Bytes, fields, fields_from, flush_word, is_space, split, split_from,
}
use alekhines_counter_gambit.Chess.Pgn.{separator, wrap_movetext, wrap_words}
use mathlib.Core.List.{append-nil, append_assoc}

-- A word that strings.Fields finds.
pub record IsWord (w : Bytes) : Type 0 where
  pub solid : All (λ c. is_space c ≡ false) w
  pub not_empty : w ≢ []

fields_from-word :
    (cur w rest : Bytes)
    → All (λ c. is_space c ≡ false) w
    → fields_from cur (w ++ rest) ≡ fields_from (cur ++ w) rest
unfolding fields_from
fields_from-word cur [] rest nil = rw append-nil refl
fields_from-word cur (c ∷ w) rest (cons h hs) =
    rw (h, fields_from)
      (fields_from-word (cur ++ c ∷ []) w rest hs ∙ rw (append_assoc cur (c ∷ []) w))

fields_from-space :
    (cur : Bytes) (c : ℕ) (rest : Bytes)
    → is_space c ≡ true
    → fields_from cur (c ∷ rest) ≡ flush_word cur (fields_from [] rest)
unfolding fields_from
fields_from-space cur c rest h = rw (h, fields_from) refl

flush_word-All :
    (cur : Bytes) (ws : List Bytes)
    → All (λ c. is_space c ≡ false) cur
    → All IsWord ws
    → All IsWord (flush_word cur ws)
flush_word-All [] ws h hs = hs
flush_word-All (c ∷ cur) ws h hs = cons (record { solid = h; not_empty = λ e. cc }) hs

fields_from-IsWord :
    (cur s : Bytes) → All (λ c. is_space c ≡ false) cur → All IsWord (fields_from cur s)
unfolding fields_from
fields_from-IsWord cur [] h = flush_word-All cur [] h nil
fields_from-IsWord cur (c ∷ s) h = elim (Bool-cases (is_space c)) [
  | inl e ↦ rw (e, fields_from) (flush_word-All cur _ h (fields_from-IsWord [] s nil))
  | inr e ↦ rw (e, fields_from) (fields_from-IsWord (cur ++ c ∷ []) s (All-append h (All-one e)))
]

flush_word-IsWord : (w : Bytes) (ws : List Bytes) → IsWord w → flush_word w ws ≡ w ∷ ws
flush_word-IsWord [] ws h = absurd (h.not_empty refl)
flush_word-IsWord (c ∷ w) ws h = refl

-- Behind a word, the text between it and the next one is one byte of white space.
separator_later :
    (width n k : ℕ) → (c : ℕ) × (is_space c ≡ true) × ((separator width false n k).0 ≡ c ∷ [])
separator_later width n k = elim (Bool-cases (ltb 0 n && ltb width (n + 1 + k))) [
  | inl e ↦ rw e (10, refl, refl)
  | inr e ↦ rw e (32, refl, refl)
]

fields_from-wrap_words :
    (width n : ℕ) (cur : Bytes) (ws : List Bytes)
    → IsWord cur
    → All IsWord ws
    → fields_from cur (wrap_words width false n ws) ≡ cur ∷ ws
unfolding wrap_words fields_from
fields_from-wrap_words width n cur [] h nil = flush_word-IsWord cur [] h
fields_from-wrap_words width n cur (w ∷ ws) h (cons hw hs) =
    let (c, space, e) = separator_later width n (length w) in
    let n' = (separator width false n (length w)).1 in
    let rest = wrap_words width false n' ws in
    rw e (
      fields_from-space cur c (w ++ rest) space
      ∙ (flush_word-IsWord cur (fields_from [] (w ++ rest)) h
          ∙ ap (λ t. cur ∷ t)
              (fields_from-word [] w rest hw.solid ∙ fields_from-wrap_words width n' w ws hw hs)))

words_wrapped :
    (width : ℕ) (ws : List Bytes) → All IsWord ws → fields_from [] (wrap_words width true 0 ws) ≡ ws
unfolding wrap_words fields_from
words_wrapped width [] nil = refl
words_wrapped width (w ∷ ws) (cons hw hs) =
    let rest = wrap_words width false (0 + length w) ws in
    fields_from-word [] w rest hw.solid ∙ fields_from-wrap_words width (0 + length w) w ws hw hs

-- Wrapping splits no word and joins none: the words of the result are those of the text.
pub fields-wrap_movetext : (s : Bytes) (width : ℕ) → fields (wrap_movetext s width) ≡ fields s
unfolding fields wrap_movetext
fields-wrap_movetext s width = words_wrapped width (fields s) (fields_from-IsWord [] s nil)

-- The lines of a text.
abbrev pub lines : Bytes → List Bytes
lines s = split s 10

split_from-word :
    (cur w rest : Bytes)
    → All (λ c. is_space c ≡ false) w
    → split_from 10 cur (w ++ rest) ≡ split_from 10 (cur ++ w) rest
unfolding split_from
split_from-word cur [] rest nil = rw append-nil refl
split_from-word cur (c ∷ w) rest (cons h hs) =
    let e : (c == 10) ≡ false = ground arith in
    rw (e, split_from)
      (split_from-word (cur ++ c ∷ []) w rest hs ∙ rw (append_assoc cur (c ∷ []) w))

length-IsWord : (w : Bytes) → IsWord w → 0 < length w
length-IsWord [] h = absurd (h.not_empty refl)
length-IsWord (c ∷ w) h = omega arith

-- `cur` is the line so far.
split_from-wrap_words :
    (width n : ℕ) (cur : Bytes) (ws : List Bytes)
    → length cur ≡ n
    → 0 < n
    → n ≤ width
    → All IsWord ws
    → All (λ w. length w ≤ width) ws
    → All (λ l. length l ≤ width) (split_from 10 cur (wrap_words width false n ws))
unfolding wrap_words split_from
split_from-wrap_words width n cur [] e started h nil nil = All-one (omega (arith, e))
split_from-wrap_words width n cur (w ∷ ws) e started h (cons hw hs) (cons l ls) =
    elim (Bool-cases (ltb 0 n && ltb width (n + 1 + length w))) [
      | inl t ↦
          rw (t, wrap_words, split_from)
            (cons (omega (arith, e)) (
              rw (split_from-word [] w (wrap_words width false (length w) ws) hw.solid)
                (split_from-wrap_words width (length w) w ws refl (length-IsWord w hw) l hs ls)))
      | inr t ↦
          let fits : n + 1 + length w ≤ width = ground arith in
          rw (t, wrap_words, split_from)
            (rw
              (split_from-word (cur ++ 32 ∷ []) w (wrap_words width false (n + 1 + length w) ws)
                hw.solid)
              (split_from-wrap_words width (n + 1 + length w) ((cur ++ 32 ∷ []) ++ w) ws
                (omega (arith, e, length-append cur (32 ∷ []), length-append (cur ++ 32 ∷ []) w))
                (omega arith) fits hs ls))
    ]

lines-wrap_words :
    (width : ℕ) (ws : List Bytes)
    → All IsWord ws
    → All (λ w. length w ≤ width) ws
    → All (λ l. length l ≤ width) (lines (wrap_words width true 0 ws))
unfolding wrap_words split split_from
lines-wrap_words width [] nil nil = All-one (omega arith)
lines-wrap_words width (w ∷ ws) (cons hw hs) (cons l ls) =
    rw (split_from-word [] w (wrap_words width false (0 + length w) ws) hw.solid) (
      split_from-wrap_words width (0 + length w) w ws (omega arith)
        (omega (arith, length-IsWord w hw)) (omega arith) hs ls)

-- When no word is longer than the width, no line of the wrapped text is.
pub lines-wrap_movetext :
    (s : Bytes) (width : ℕ)
    → All (λ w. length w ≤ width) (fields s)
    → All (λ l. length l ≤ width) (lines (wrap_movetext s width))
unfolding wrap_movetext fields
lines-wrap_movetext s width h = lines-wrap_words width (fields s) (fields_from-IsWord [] s nil) h
