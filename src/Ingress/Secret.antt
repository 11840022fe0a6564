-- ===== src/Ingress/Secret.antt =====
-- crates/domain/src/control.rs: `constant_time_eq`, the comparison of two secrets.
use aivtuber.Common.{
  ◌≡◌, ◌↔◌, refl, sym, ◌∙◌, subst, Bool, true, false, ◌&&◌, ◌||◌, List, [], ◌∷◌, length,
  if◌then◌else◌, arith,
}

-- `u8`, by its bits.
pub record Byte : Type 0 where
  pub b7 : Bool
  pub b6 : Bool
  pub b5 : Bool
  pub b4 : Bool
  pub b3 : Bool
  pub b2 : Bool
  pub b1 : Bool
  pub b0 : Bool

abbrev pub differs : Bool → Bool → Bool
differs true true = false
differs false false = false
differs _ _ = true

-- `left ^ right`
unfoldable pub xor : Byte → Byte → Byte
xor x y = record {
  b7 = differs x.b7 y.b7;
  b6 = differs x.b6 y.b6;
  b5 = differs x.b5 y.b5;
  b4 = differs x.b4 y.b4;
  b3 = differs x.b3 y.b3;
  b2 = differs x.b2 y.b2;
  b1 = differs x.b1 y.b1;
  b0 = differs x.b0 y.b0;
}

-- `left | right`
unfoldable pub or : Byte → Byte → Byte
or x y = record {
  b7 = x.b7 || y.b7;
  b6 = x.b6 || y.b6;
  b5 = x.b5 || y.b5;
  b4 = x.b4 || y.b4;
  b3 = x.b3 || y.b3;
  b2 = x.b2 || y.b2;
  b1 = x.b1 || y.b1;
  b0 = x.b0 || y.b0;
}

unfoldable pub is_zero : Byte → Bool
is_zero x = if x.b7 || x.b6 || x.b5 || x.b4 || x.b3 || x.b2 || x.b1 || x.b0 then false else true

abbrev pub zero_byte : Byte
zero_byte = record {
  b7 = false;
  b6 = false;
  b5 = false;
  b4 = false;
  b3 = false;
  b2 = false;
  b1 = false;
  b0 = false;
}

-- The loop over `expected.iter().zip(presented.iter())`.
unfoldable pub difference : Byte → List Byte → List Byte → Byte
difference acc [] ys = acc
difference acc (x ∷ xs) [] = acc
difference acc (x ∷ xs) (y ∷ ys) = difference (or acc (xor x y)) xs ys

unfoldable pub constant_time_eq : List Byte → List Byte → Bool
unfolding difference
constant_time_eq expected presented = is_zero (difference zero_byte expected presented)

is_zero-or : (x y : Byte) → is_zero (or x y) ≡ is_zero x && is_zero y
unfolding is_zero or
is_zero-or x y = ground arith

differs_iff : (a b : Bool) → (differs a b ≡ false) ↔ (a ≡ b)
differs_iff a b = ground arith

-- A byte is zero if each of its bits is off.
is_zero-bits :
    (x : Byte)
    → is_zero x ≡ true
    → (x.b7 ≡ false)
      × (x.b6 ≡ false)
      × (x.b5 ≡ false)
      × (x.b4 ≡ false)
      × (x.b3 ≡ false)
      × (x.b2 ≡ false)
      × (x.b1 ≡ false)
      × (x.b0 ≡ false)
unfolding is_zero
is_zero-bits x h = ground arith

is_zero-xor_self : (x : Byte) → is_zero (xor x x) ≡ true
unfolding is_zero xor
is_zero-xor_self x = ground arith

xor_zero : (x y : Byte) → is_zero (xor x y) ≡ true → x ≡ y
unfolding xor
xor_zero x y h =
    let (h7, h6, h5, h4, h3, h2, h1, h0) = is_zero-bits (xor x y) h in
    λ i. record {
      b7 = (differs_iff x.b7 y.b7).0 h7 i;
      b6 = (differs_iff x.b6 y.b6).0 h6 i;
      b5 = (differs_iff x.b5 y.b5).0 h5 i;
      b4 = (differs_iff x.b4 y.b4).0 h4 i;
      b3 = (differs_iff x.b3 y.b3).0 h3 i;
      b2 = (differs_iff x.b2 y.b2).0 h2 i;
      b1 = (differs_iff x.b1 y.b1).0 h1 i;
      b0 = (differs_iff x.b0 y.b0).0 h0 i;
    }

-- What the accumulated difference tells.
difference-zero :
    (acc : Byte) (xs ys : List Byte)
    → length xs ≡ length ys
    → is_zero (difference acc xs ys) ≡ true
    → (is_zero acc ≡ true) × (xs ≡ ys)
unfolding difference
difference-zero acc [] [] e h = (h, refl)
difference-zero acc [] (y ∷ ys) e h = absurd (omega (arith, e))
difference-zero acc (x ∷ xs) [] e h = absurd (omega (arith, e))
difference-zero acc (x ∷ xs) (y ∷ ys) e h =
    let (z, same) = difference-zero (or acc (xor x y)) xs ys (omega (arith, e)) h in
    let both = sym (is_zero-or acc (xor x y)) ∙ z in
    let left : is_zero acc ≡ true = ground arith in
    let right : is_zero (xor x y) ≡ true = ground arith in
    (left, λ i. xor_zero x y right i ∷ same i)

difference_self :
    (acc : Byte) (xs : List Byte) → is_zero acc ≡ true → is_zero (difference acc xs xs) ≡ true
unfolding difference
difference_self acc [] h = h
difference_self acc (x ∷ xs) h =
    difference_self (or acc (xor x x)) xs
      (is_zero-or acc (xor x x) ∙ rw (h, is_zero-xor_self x) refl)

zero_is_zero : is_zero zero_byte ≡ true
unfolding is_zero
zero_is_zero = refl

-- On secrets of one length the constant-time comparison decides equality.
pub constant_time_eq_iff :
    (expected presented : List Byte)
    → length expected ≡ length presented
    → (constant_time_eq expected presented ≡ true) ↔ (expected ≡ presented)
unfolding constant_time_eq
constant_time_eq_iff xs ys e = (
  λ h. (difference-zero zero_byte xs ys e h).1,
  λ same.
      subst (λ zs. is_zero (difference zero_byte xs zs) ≡ true) same
        (difference_self zero_byte xs zero_is_zero),
)
