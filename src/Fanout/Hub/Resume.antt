-- ===== src/Fanout/Hub/Resume.antt =====
-- Which part of the history a spectator that names a last id is sent: filterAfter of
-- services/fanout/internal/hub/hub.go compares ids as strings.
use alekhines_counter_gambit.Base.{List, [], arith, false, ltb, refl, true, ℕ, ◌++◌, ◌==◌, ◌∷◌, ◌≡◌}
use alekhines_counter_gambit.Base.Text.{Bytes, codes}
use alekhines_counter_gambit.Fanout.Hub.{Delta, bytes_gt, filter_after, is_nil, newer_than}

ltb_self : (c : ℕ) → ltb c c ≡ false
ltb_self c = ground arith

==-self : (c : ℕ) → (c == c) ≡ true
==-self c = ground arith

bytes_gt-prefix : (p s t : Bytes) → bytes_gt (p ++ s) (p ++ t) ≡ bytes_gt s t
unfolding bytes_gt
bytes_gt-prefix [] s t = refl
bytes_gt-prefix (c ∷ p) s t = rw (ltb_self c, ==-self c) (bytes_gt-prefix p s t)

is_nil-append : (p : Bytes) (c : ℕ) (s : Bytes) → is_nil (p ++ c ∷ s) ≡ false
is_nil-append [] c s = refl
is_nil-append (d ∷ p) c s = refl

newer_than-old :
    (history : List Delta) (d : Delta) (from : Bytes)
    → bytes_gt d.id from ≡ false
    → newer_than from (history ++ d ∷ []) ≡ newer_than from history
unfolding newer_than
newer_than-old [] d from e = rw e refl
newer_than-old (x ∷ history) d from e = rw (newer_than-old history d from e) refl

-- The ids of two entries of one millisecond `ms` are `ms-9` and `ms-10`, in this order. A
-- spectator that resumes from `ms-9` is not sent the delta with the id `ms-10`, whatever `ms` is.
pub filter_after-tenth :
    (ms : Bytes) (d : Delta) (history : List Delta)
    → d.id ≡ ms ++ codes "-10"
    → filter_after (history ++ d ∷ []) (ms ++ codes "-9") ≡ filter_after history (ms ++ codes "-9")
unfolding filter_after bytes_gt
filter_after-tenth ms d history e = rw (is_nil-append ms 45 (57 ∷ [])) (
    newer_than-old history d (ms ++ codes "-9")
      (rw e (bytes_gt-prefix ms (codes "-10") (codes "-9"))))
