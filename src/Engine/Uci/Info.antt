-- ===== src/Engine/Uci/Info.antt =====
-- What an info line says: parseInfo of services/engine-worker/internal/uci/uci.go.
use alekhines_counter_gambit.Base.{
  Bool-cases, List, [], ap, arith, false, if◌then◌else◌, inl, inr, ltb, refl, some, sym, true, ℕ,
  ◌*◌, ◌++◌, ◌+◌, ◌-◌, ◌/◌, ◌<◌, ◌^◌, ◌∙◌, ◌∷◌, ◌≡◌, ◌≢◌,
}
use alekhines_counter_gambit.Base.All.{All, cons, nil}
use alekhines_counter_gambit.Base.Decimal.{atoi}
use alekhines_counter_gambit.Base.Int.{
  neg_part, negsuc, pos, pos_part, to_int32, to_uint32, ℤ, ◌≤ℤ◌,
}
use alekhines_counter_gambit.Base.Text.{Bytes, bytes_eq, codes}
use alekhines_counter_gambit.Base.Text.Words.{bytes_eq-≡}
use alekhines_counter_gambit.Engine.Uci.{SearchResult, parse_fields, with_depth, with_score}
use mathlib.Core.Path.{subst}

-- A field that is none of the words that parseInfo looks for.
pub record IsPlain (f : Bytes) : Type 0 where
  pub not_pv : bytes_eq f (codes "pv") ≡ false
  pub not_depth : bytes_eq f (codes "depth") ≡ false
  pub not_score : bytes_eq f (codes "score") ≡ false

parse_fields-plain :
    (f : Bytes) (fs : List Bytes) (res : SearchResult)
    → IsPlain f
    → parse_fields (f ∷ fs) res ≡ parse_fields fs res
unfolding parse_fields
parse_fields-plain f fs res p = rw (parse_fields, p.not_pv, p.not_depth, p.not_score) refl

plain_fields :
    (ps fs : List Bytes) (res : SearchResult)
    → All IsPlain ps
    → parse_fields (ps ++ fs) res ≡ parse_fields fs res
plain_fields [] fs res nil = refl
plain_fields (p ∷ ps) fs res (cons h hs) =
    parse_fields-plain p (ps ++ fs) res h ∙ plain_fields ps fs res hs

-- A number and its conversion differ by a multiple of 2 ^ 32.
abbrev pub Congruent : ℤ → ℤ → Type 0
Congruent a b =
    (j : ℕ) × (k : ℕ) × (pos_part a + neg_part b + j * 4294967296
      ≡ pos_part b + neg_part a + k * 4294967296)

-- The conversions of Go: the only number of the type that is congruent.
pub record IsUint32 (z : ℤ) (n : ℕ) : Type 0 where
  pub bound : n < 4294967296
  pub same : Congruent z (pos n)

pub record IsInt32 (z r : ℤ) : Type 0 where
  pub least : negsuc 2147483647 ≤ℤ r
  pub most : r ≤ℤ pos 2147483647
  pub same : Congruent z r

to_uint32-IsUint32 : (z : ℤ) → IsUint32 z (to_uint32 z)
unfolding to_uint32
to_uint32-IsUint32 (pos n) = record { bound = omega arith; same = (0, n / 4294967296, omega arith) }
to_uint32-IsUint32 (negsuc n) = record {
  bound = omega arith;
  same = (n / 4294967296 + 1, 0, omega arith);
}

to_int32-IsInt32 : (z : ℤ) → IsInt32 z (to_int32 z)
unfolding to_int32
to_int32-IsInt32 z = wrapped (to_uint32 z) (to_uint32-IsUint32 z)
  where
    wrapped :
        (n : ℕ)
        → IsUint32 z n
        → IsInt32 z (if ltb n (2 ^ 31) then pos n else negsuc (2 ^ 32 - 1 - n))
    wrapped n u =
        let (j, k, e) = u.same in
        elim (Bool-cases (ltb n (2 ^ 31))) [
          | inl h ↦ rw h (record {
            least = omega arith;
            most = ground (arith, h);
            same = (j, k, omega (arith, e));
          })
          | inr h ↦ rw h (record {
            least = ground (arith, h, u.bound);
            most = omega arith;
            same = (j, k + 1, ground (arith, e, h, u.bound));
          })
        ]

-- The score that an info line leaves: moves to mate, or centipawns, each as an int32, and never both.
pub data IsScored (kind : Bytes) (v : ℤ) (res : SearchResult) : Type 0 where
  by_mate :
      kind ≡ codes "mate"
      → res.mate ≡ true
      → IsInt32 v res.mate_in
      → res.score_cp ≡ pos 0
      → IsScored kind v res
  by_centipawns :
      kind ≢ codes "mate"
      → res.mate ≡ false
      → IsInt32 v res.score_cp
      → res.mate_in ≡ pos 0
      → IsScored kind v res

with_score-IsScored :
    (kind : Bytes) (v : ℤ) (res : SearchResult) (pv : List Bytes)
    → IsScored kind v (record (with_score kind (some v) res) { pv = pv })
with_score-IsScored kind v res pv = elim (Bool-cases (bytes_eq kind (codes "mate"))) [
  | inl e ↦ rw e (by_mate (bytes_eq-≡ kind (codes "mate") e) refl (to_int32-IsInt32 v) refl)
  | inr e ↦ rw e (
      by_centipawns (λ same. absurd (let r = ap (λ t. bytes_eq t (codes "mate")) same in cc)) refl
        (to_int32-IsInt32 v) refl)
]

parse_fields-set :
    (first second third pv : List Bytes) (depth_text kind value : Bytes) (d v : ℤ)
    (res : SearchResult)
    → All IsPlain first
    → All IsPlain second
    → All IsPlain third
    → IsPlain depth_text
    → IsPlain kind
    → IsPlain value
    → atoi depth_text ≡ some d
    → atoi value ≡ some v
    → parse_fields
        (first
          ++ codes "depth"
            ∷ depth_text
            ∷ (second ++ codes "score" ∷ kind ∷ value ∷ (third ++ codes "pv" ∷ pv)))
        res
      ≡ record (with_score kind (some v) (record res { depth = to_uint32 d })) { pv = pv }
unfolding parse_fields
parse_fields-set first second third pv depth_text kind value d v res h1 h2 h3 pd pk pv' hd hv =
    let late = third ++ codes "pv" ∷ pv in
    let rest = second ++ codes "score" ∷ kind ∷ value ∷ late in
    let res1 : SearchResult = record res { depth = to_uint32 d } in
    let res2 = with_score kind (some v) res1 in
    plain_fields first (codes "depth" ∷ depth_text ∷ rest) res h1
    ∙ ap (λ o. parse_fields (depth_text ∷ rest) (with_depth o res)) hd
    ∙ parse_fields-plain depth_text rest res1 pd
    ∙ plain_fields second (codes "score" ∷ kind ∷ value ∷ late) res1 h2
    ∙ ap (λ o. parse_fields (kind ∷ value ∷ late) (with_score kind o res1)) hv
    ∙ parse_fields-plain kind (value ∷ late) res2 pk
    ∙ parse_fields-plain value late res2 pv'
    ∙ plain_fields third (codes "pv" ∷ pv) res2 h3

with_score_keeps :
    (kind : Bytes) (v : ℤ) (res : SearchResult)
    → ((with_score kind (some v) res).depth ≡ res.depth)
      × ((with_score kind (some v) res).best_move ≡ res.best_move)
with_score_keeps kind v res = elim (Bool-cases (bytes_eq kind (codes "mate"))) [
  | inl e ↦ rw e (refl, refl)
  | inr e ↦ rw e (refl, refl)
]

-- An info line with a depth, a score and a variation, in that order and with any other fields before,
-- between and behind the first two, sets exactly these, and leaves the best move: the depth is the line's
-- as a uint32; the score is the line's as an int32, of moves to mate if its kind is mate and then with
-- centipawns 0, else of centipawns and then with 0 moves to mate; the variation is all fields behind pv.
pub parse_fields_info :
    (first second third pv : List Bytes) (depth_text kind value : Bytes) (d v : ℤ)
    (res : SearchResult)
    → All IsPlain first
    → All IsPlain second
    → All IsPlain third
    → IsPlain depth_text
    → IsPlain kind
    → IsPlain value
    → atoi depth_text ≡ some d
    → atoi value ≡ some v
    → (set : SearchResult) × (parse_fields
          (first
            ++ codes "depth"
              ∷ depth_text
              ∷ (second ++ codes "score" ∷ kind ∷ value ∷ (third ++ codes "pv" ∷ pv)))
          res
        ≡ set)
      × IsUint32 d set.depth
      × IsScored kind v set
      × (set.pv ≡ pv)
      × (set.best_move ≡ res.best_move)
parse_fields_info first second third pv depth_text kind value d v res h1 h2 h3 pd pk pv' hd hv =
    let res1 : SearchResult = record res { depth = to_uint32 d } in
    let leaves = with_score_keeps kind v res1 in
    (
      record (with_score kind (some v) res1) { pv = pv },
      parse_fields-set first second third pv depth_text kind value d v res h1 h2 h3 pd pk pv' hd hv,
      subst (IsUint32 d) (sym leaves.0) (to_uint32-IsUint32 d),
      with_score-IsScored kind v res1 pv,
      refl,
      leaves.1,
    )
