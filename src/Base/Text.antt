-- ===== src/Base/Text.antt =====
-- The order of texts. Python compares strings by their code points, and so does `compare`.
use package.intent_engineer.Base.Tests.{leb, eqb}
use Prim.Native.Nat.{ℕ, zero, suc, Ordering, compare as compare_ℕ}
use Prim.Native.Char.{code}
use Prim.Native.String.{String, [], ◌∷◌, compare, then}
use Prim.Native.String.compare
use mathlib.Core.Path.{◌≡◌, refl, sym, ap, ap₂, ◌∙◌}
use mathlib.Core.Bool.{Bool, true, false, not, ◌&&◌, ◌||◌}
use native.Mathlib.Omega.{arith}
use text.Mathlib.Text.{is_le}
use text.Mathlib.TextEquality.{path_by_compare}

-- `s <= t`
abbrev pub text_le : String → String → Bool
text_le s t = is_le (compare s t)

swap : Ordering → Ordering
swap Ordering.lt = Ordering.gt
swap Ordering.eq = Ordering.eq
swap Ordering.gt = Ordering.lt

swap-then : (o r : Ordering) → swap (then o r) ≡ then (swap o) (swap r)
unfolding swap
swap-then Ordering.lt r = refl
swap-then Ordering.eq r = refl
swap-then Ordering.gt r = refl

swap-compare_ℕ : (m n : ℕ) → swap (compare_ℕ m n) ≡ compare_ℕ n m
unfolding swap
swap-compare_ℕ m n = ground arith

swap-compare : (s t : String) → swap (compare s t) ≡ compare t s
unfolding swap
swap-compare [] [] = simp compare.nil-nil
swap-compare [] (d ∷ t) = rw (compare.nil-cons d t, compare.cons-nil d t)
swap-compare (c ∷ s) [] = rw (compare.nil-cons c s, compare.cons-nil c s)
swap-compare (c ∷ s) (d ∷ t) =
    ap swap (compare.cons-cons c d s t)
    ∙ swap-then (compare_ℕ (code c) (code d)) (compare s t)
    ∙ ap₂ then (swap-compare_ℕ (code c) (code d)) (swap-compare s t)
    ∙ sym (compare.cons-cons d c t s)

is_le-swap : (o : Ordering) → is_le o ≡ false → is_le (swap o) ≡ true
unfolding swap
is_le-swap Ordering.lt h = cc
is_le-swap Ordering.eq h = cc
is_le-swap Ordering.gt h = refl

pub text_le_total : (s t : String) → text_le s t ≡ false → text_le t s ≡ true
text_le_total s t h = cc (is_le-swap (compare s t) h, swap-compare s t)

both_le : (o : Ordering) → is_le o ≡ true → is_le (swap o) ≡ true → o ≡ Ordering.eq
unfolding swap
both_le Ordering.lt h k = cc
both_le Ordering.eq h k = refl
both_le Ordering.gt h k = cc

pub text_le_antisymm : (s t : String) → text_le s t ≡ true → text_le t s ≡ true → s ≡ t
text_le_antisymm s t h k =
    path_by_compare s t (both_le (compare s t) h (ap is_le (swap-compare s t) ∙ k))

-- Of three comparisons in a row, the last is at most the first two together.
compare_then_trans :
    (m n k : ℕ) (a b c : Ordering)
    → (is_le a ≡ true → is_le b ≡ true → is_le c ≡ true)
    → is_le (then (compare_ℕ m n) a) ≡ true
    → is_le (then (compare_ℕ n k) b) ≡ true
    → is_le (then (compare_ℕ m k) c) ≡ true
compare_then_trans m n k a b c ih h l = ground arith

pub text_le_trans : (s t u : String) → text_le s t ≡ true → text_le t u ≡ true → text_le s u ≡ true
text_le_trans [] t [] h k = ap is_le compare.nil-nil
text_le_trans [] t (e ∷ u) h k = ap is_le (compare.nil-cons e u)
text_le_trans (c ∷ s) [] u h k = cc (ap is_le (compare.cons-nil c s))
text_le_trans (c ∷ s) (d ∷ t) [] h k = cc (ap is_le (compare.cons-nil d t))
text_le_trans (c ∷ s) (d ∷ t) (e ∷ u) h k =
    ap is_le (compare.cons-cons c e s u)
    ∙ compare_then_trans (code c) (code d) (code e) (compare s t) (compare t u) (compare s u)
        (text_le_trans s t u) (sym (ap is_le (compare.cons-cons c d s t)) ∙ h)
        (sym (ap is_le (compare.cons-cons d e t u)) ∙ k)

-- The code points of white space: what `\s` matches and `strip` removes.
unfoldable pub is_space : ℕ → Bool
is_space c =
    leb 9 c && leb c 13
    || leb 28 c && leb c 32
    || eqb c 133
    || eqb c 160
    || eqb c 5760
    || leb 8192 c && leb c 8202
    || eqb c 8232
    || eqb c 8233
    || eqb c 8239
    || eqb c 8287
    || eqb c 12288

-- What `str.splitlines` splits at, and JSON writes as it is.
unfoldable pub is_separator : ℕ → Bool
is_separator c = eqb c 133 || eqb c 8232 || eqb c 8233

-- Whether the text of a JSON value stays one line where it is written without escapes for what is not
-- ASCII and read by `str.splitlines`: the other separators are control characters, which JSON escapes.
unfoldable pub is_one_line : String → Bool
unfolding is_separator
is_one_line [] = true
is_one_line (c ∷ s) = not (is_separator (code c)) && is_one_line s

-- `not s.strip()`
unfoldable pub is_blank : String → Bool
unfolding is_space
is_blank [] = true
is_blank (c ∷ s) = is_space (code c) && is_blank s

-- `[0-9a-f]`
unfoldable pub is_hex : ℕ → Bool
is_hex c = leb b'0' c && leb c b'9' || leb b'a' c && leb c b'f'

-- `^[0-9a-f]{n}$`
unfoldable pub is_hex_text : ℕ → String → Bool
unfolding is_hex
is_hex_text zero [] = true
is_hex_text zero (c ∷ s) = false
is_hex_text (suc n) [] = false
is_hex_text (suc n) (c ∷ s) = is_hex (code c) && is_hex_text n s
