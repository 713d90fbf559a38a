-- ===== src/Base/Text/Words.antt =====
-- Words behind separators are found again: `strings.Split` and `strings.Fields`.
use alekhines_counter_gambit.Base.{
  List, [], ap, arith, false, refl, suc, true, ℕ, ◌++◌, ◌∙◌, ◌∷◌, ◌≡◌, ◌≢◌, ◌≤◌,
}
use alekhines_counter_gambit.Base.Text.{
  Bytes, bytes_eq, fields, fields_from, flush_word, is_space, split_from,
}
use mathlib.Core.List.{append-nil, append_assoc}

-- Every byte is at least `k`.
abbrev pub Above : ℕ → Bytes → Type 0
Above k [] = Unit {0}
Above k (c ∷ s) = (k ≤ c) × Above k s

pub Above-append : (k : ℕ) (s t : Bytes) → Above k s → Above k t → Above k (s ++ t)
Above-append k [] t hs ht = ht
Above-append k (c ∷ s) t (hc, hs) ht = (hc, Above-append k s t hs ht)

pub Above-le : (j k : ℕ) (s : Bytes) → j ≤ k → Above k s → Above j s
Above-le j k [] h hs = tt
Above-le j k (c ∷ s) h (hc, hs) = (omega arith, Above-le j k s h hs)

pub split_from-append :
    (sep : ℕ) (cur p rest : Bytes)
    → Above (suc sep) p
    → split_from sep cur (p ++ sep ∷ rest) ≡ (cur ++ p) ∷ split_from sep [] rest
unfolding split_from
split_from-append sep cur [] rest h = rw append-nil (ground arith)
split_from-append sep cur (c ∷ p) rest (hc, hp) =
    ground (arith, split_from-append sep (cur ++ c ∷ []) p rest hp, append_assoc cur (c ∷ []) p)

pub split_from_last :
    (sep : ℕ) (cur p : Bytes) → Above (suc sep) p → split_from sep cur p ≡ (cur ++ p) ∷ []
unfolding split_from
split_from_last sep cur [] h = rw append-nil
split_from_last sep cur (c ∷ p) (hc, hp) =
    ground (arith, split_from_last sep (cur ++ c ∷ []) p hp, append_assoc cur (c ∷ []) p)

-- White space is at most 32.
is_space_above : (c : ℕ) → 33 ≤ c → is_space c ≡ false
is_space_above c h = ground arith

fields_from-append :
    (cur p rest : Bytes)
    → Above 33 p
    → fields_from cur (p ++ 32 ∷ rest) ≡ flush_word (cur ++ p) (fields_from [] rest)
unfolding fields_from
fields_from-append cur [] rest h = rw append-nil
fields_from-append cur (c ∷ p) rest (hc, hp) =
    rw (is_space_above c hc, fields_from)
      (fields_from-append (cur ++ c ∷ []) p rest hp
        ∙ ap (λ w. flush_word w (fields_from [] rest)) (append_assoc cur (c ∷ []) p))

fields_from_last : (cur p : Bytes) → Above 33 p → fields_from cur p ≡ flush_word (cur ++ p) []
unfolding fields_from
fields_from_last cur [] h = rw append-nil
fields_from_last cur (c ∷ p) (hc, hp) =
    rw (is_space_above c hc, fields_from)
      (fields_from_last (cur ++ c ∷ []) p hp
        ∙ ap (λ w. flush_word w []) (append_assoc cur (c ∷ []) p))

flush_word-cons : (p : Bytes) (rest : List Bytes) → p ≢ [] → flush_word p rest ≡ p ∷ rest
flush_word-cons [] rest h = absurd (h refl)
flush_word-cons (c ∷ p) rest h = refl

-- A word with no white space before a space is the first field.
pub fields-append :
    (p rest : Bytes) → Above 33 p → p ≢ [] → fields (p ++ 32 ∷ rest) ≡ p ∷ fields rest
unfolding fields
fields-append p rest h n = fields_from-append [] p rest h ∙ flush_word-cons p _ n

pub fields_last : (p : Bytes) → Above 33 p → p ≢ [] → fields p ≡ p ∷ []
unfolding fields
fields_last p h n = fields_from_last [] p h ∙ flush_word-cons p [] n

pub bytes_eq_refl : (s : Bytes) → bytes_eq s s ≡ true
bytes_eq_refl [] = refl
bytes_eq_refl (c ∷ s) = ground (arith, bytes_eq_refl s)

pub bytes_eq-≡ : (s t : Bytes) → bytes_eq s t ≡ true → s ≡ t
bytes_eq-≡ [] [] h = refl
bytes_eq-≡ [] (d ∷ t) h = cc
bytes_eq-≡ (c ∷ s) [] h = cc
bytes_eq-≡ (c ∷ s) (d ∷ t) h = ground (arith, bytes_eq-≡ s t)
