-- ===== src/Types/Laws.antt =====
-- What `types_compatible` relates, crates/sarif_frontend/src/semantic/typecheck.rs.
use sarif.Base.{◌≡◌, refl, sym, ap, ◌↔◌, ◌==◌, ==_iff, Bool, true, false, ◌&&◌, arith}
use sarif.Text.Laws.{same_text_eq, same_text_refl, same_text_sym}
use sarif.Types.Data.{
  ConstExpr, literal, param, add, sub, mul, Ty, i32, i64, f64, bool, text, bytes, text_index,
  text_builder, file, unit, named, type_param, array, list, pair, error,
}
use sarif.Types.Compatible.{array_len_compatible, types_compatible}

len_sym : (a b : ConstExpr) → array_len_compatible a b ≡ array_len_compatible b a
unfolding array_len_compatible
len_sym (literal m) (literal n) = ground arith
len_sym (literal m) _ = refl
len_sym (param _) (literal _) = refl
len_sym (param _) _ = refl
len_sym (add _ _) (literal _) = refl
len_sym (add _ _) _ = refl
len_sym (sub _ _) (literal _) = refl
len_sym (sub _ _) _ = refl
len_sym (mul _ _) (literal _) = refl
len_sym (mul _ _) _ = refl

-- Which type is expected and which is found makes no difference to whether they are compatible.
pub types_compatible_sym : (a b : Ty) → types_compatible a b ≡ types_compatible b a
unfolding types_compatible
types_compatible_sym (named m) (named n) = same_text_sym m n
types_compatible_sym (type_param m) (type_param n) = same_text_sym m n
types_compatible_sym (list a) (list b) = types_compatible_sym a b
types_compatible_sym (pair a b) (pair c d) =
    rw (types_compatible_sym a c, types_compatible_sym b d) refl
types_compatible_sym (array a m) (array b n) = rw (types_compatible_sym a b, len_sym m n) refl
types_compatible_sym i32 i32 = refl
types_compatible_sym i32 _ = refl
types_compatible_sym i64 i64 = refl
types_compatible_sym i64 _ = refl
types_compatible_sym f64 f64 = refl
types_compatible_sym f64 _ = refl
types_compatible_sym bool bool = refl
types_compatible_sym bool _ = refl
types_compatible_sym text text = refl
types_compatible_sym text _ = refl
types_compatible_sym bytes bytes = refl
types_compatible_sym bytes _ = refl
types_compatible_sym text_index text_index = refl
types_compatible_sym text_index _ = refl
types_compatible_sym text_builder text_builder = refl
types_compatible_sym text_builder _ = refl
types_compatible_sym file file = refl
types_compatible_sym file _ = refl
types_compatible_sym unit unit = refl
types_compatible_sym unit _ = refl
types_compatible_sym error error = refl
types_compatible_sym error _ = refl
types_compatible_sym (named m) _ = refl
types_compatible_sym (type_param m) _ = refl
types_compatible_sym (list a) _ = refl
types_compatible_sym (pair a b) _ = refl
types_compatible_sym (array a m) _ = refl

-- No part is unknown, a file or of a length that is still to be computed.
unfoldable pub is_definite : Ty → Bool
is_definite error = false
is_definite file = false
is_definite (array element (literal _)) = is_definite element
is_definite (array _ _) = false
is_definite (list element) = is_definite element
is_definite (pair left right) = is_definite left && is_definite right
is_definite _ = true

and_parts : (a b : Bool) → (a && b) ≡ true → (a ≡ true) × (b ≡ true)
and_parts true b e = (refl, e)
and_parts false b e = absurd (cc)

compatible_eq :
    (a b : Ty) → is_definite a ≡ true → is_definite b ≡ true → types_compatible a b ≡ true → a ≡ b
unfolding types_compatible is_definite array_len_compatible
compatible_eq i32 i32 d e h = refl
compatible_eq i64 i64 d e h = refl
compatible_eq f64 f64 d e h = refl
compatible_eq bool bool d e h = refl
compatible_eq text text d e h = refl
compatible_eq bytes bytes d e h = refl
compatible_eq text_index text_index d e h = refl
compatible_eq text_builder text_builder d e h = refl
compatible_eq unit unit d e h = refl
compatible_eq (named m) (named n) d e h = ap named (same_text_eq m n h)
compatible_eq (type_param m) (type_param n) d e h = ap type_param (same_text_eq m n h)
compatible_eq (list a) (list b) d e h = ap list (compatible_eq a b d e h)
compatible_eq (pair a b) (pair c f) d e h =
    let (d0, d1) = and_parts (is_definite a) (is_definite b) d in
    let (e0, e1) = and_parts (is_definite c) (is_definite f) e in
    let (h0, h1) = and_parts (types_compatible a c) (types_compatible b f) h in
    rw (compatible_eq a c d0 e0 h0, compatible_eq b f d1 e1 h1) refl
compatible_eq (array a (literal m)) (array b (literal n)) d e h =
    let (h0, h1) = and_parts (types_compatible a b) (m == n) h in
    let same : m ≡ n = (==_iff m n).0 h1 in rw (compatible_eq a b d e h0, same) refl
compatible_eq _ _ d e h = absurd (cc)

compatible_refl : (a : Ty) → is_definite a ≡ true → types_compatible a a ≡ true
unfolding types_compatible is_definite array_len_compatible
compatible_refl (named n) d = same_text_refl n
compatible_refl (type_param n) d = same_text_refl n
compatible_refl (list a) d = compatible_refl a d
compatible_refl (pair a b) d =
    let (d0, d1) = and_parts (is_definite a) (is_definite b) d in
    rw (compatible_refl a d0, compatible_refl b d1) refl
compatible_refl (array a (literal n)) d =
    let own : (n == n) ≡ true = (==_iff n n).1 refl in rw (compatible_refl a d, own) refl
compatible_refl (array a (param _)) d = absurd (cc)
compatible_refl (array a (add _ _)) d = absurd (cc)
compatible_refl (array a (sub _ _)) d = absurd (cc)
compatible_refl (array a (mul _ _)) d = absurd (cc)
compatible_refl file d = absurd (cc)
compatible_refl error d = absurd (cc)
compatible_refl _ d = refl

-- Of types without an unknown part, a file or a length that is still to be computed, two are compatible
-- exactly when they are the same.
pub types_compatible_iff :
    (a b : Ty)
    → is_definite a ≡ true
    → is_definite b ≡ true
    → (types_compatible a b ≡ true) ↔ (a ≡ b)
types_compatible_iff a b d e =
    (λ h. compatible_eq a b d e h, λ same. rw (sym same) (compatible_refl a d))
