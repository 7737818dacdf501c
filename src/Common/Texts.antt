-- ===== src/Common/Texts.antt =====
-- Equality of texts, and of pairs and triples of texts: the keys of the tables.
use Prim.Native.String.{String}
use mathlib.Core.Path.{◌≡◌, refl, ap, ◌∙◌}
use mathlib.Core.Bool.{Bool, true, false, ◌&&◌}
use text.Mathlib.TextEquality.{eq_iff}
use recruiting_os.Common.Basics.{str_eq}

pub both_true : (a b : Bool) → (a && b) ≡ true → (a ≡ true) × (b ≡ true)
both_true true b e = (refl, e)
both_true false b e = cc

pub and_true : (a b : Bool) → a ≡ true → b ≡ true → (a && b) ≡ true
and_true a b e f = cc

pub and_false : (a : Bool) → (a && false) ≡ false
and_false true = refl
and_false false = refl

pub str_eq_sound : (a b : String) → str_eq a b ≡ true → a ≡ b
str_eq_sound a b e = (eq_iff a b).0 e

pub str_eq_refl : (a : String) → str_eq a a ≡ true
str_eq_refl a = (eq_iff a a).1 refl

pub same_pair :
    (a b c d : String)
    → (str_eq a c && str_eq b d) ≡ true
    → (x y : String) → (str_eq a x && str_eq b y) ≡ (str_eq c x && str_eq d y)
same_pair a b c d e x y =
    let (u, v) = both_true (str_eq a c) (str_eq b d) e in
    ap (λ k. str_eq k x && str_eq b y) (str_eq_sound a c u)
    ∙ ap (λ k. str_eq c x && str_eq k y) (str_eq_sound b d v)

pub same_triple :
    (a b f c d g : String)
    → (str_eq a c && (str_eq b d && str_eq f g)) ≡ true
    → (x y z : String)
    → (str_eq a x && (str_eq b y && str_eq f z)) ≡ (str_eq c x && (str_eq d y && str_eq g z))
same_triple a b f c d g e x y z =
    let (u, v) = both_true (str_eq a c) (str_eq b d && str_eq f g) e in
    ap (λ k. str_eq k x && (str_eq b y && str_eq f z)) (str_eq_sound a c u)
    ∙ ap (λ k. str_eq c x && k) (same_pair b f d g v y z)

pub pair_refl : (a b : String) → (str_eq a a && str_eq b b) ≡ true
pair_refl a b = and_true (str_eq a a) (str_eq b b) (str_eq_refl a) (str_eq_refl b)

pub triple_refl : (a b c : String) → (str_eq a a && (str_eq b b && str_eq c c)) ≡ true
triple_refl a b c = and_true (str_eq a a) (str_eq b b && str_eq c c) (str_eq_refl a) (pair_refl b c)
