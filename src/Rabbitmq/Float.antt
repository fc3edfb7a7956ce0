-- ===== src/Rabbitmq/Float.antt =====
-- float64, which the retry policy's multiplier is: a parameter, with the laws of IEEE 754 that the
-- backoff rests on.
use samsara_components.Prelude.{
  ℕ, ◌*◌, ◌≤◌, Bool, true, false, ◌≡◌, arith, ℤ, pos, pos_part, ◌≤ℤ◌, leb, ltb, ◌==◌, refl,
}

-- `ge x y` is `x >= y`, which is false where one side is not a number; so is `lt`.
pub record Float64 : Type 1 where
  pub Carrier : Type 0
  pub of_duration : ℤ → Carrier
  pub to_duration : Carrier → ℤ
  pub mul : Carrier → Carrier → Carrier
  pub lt : Carrier → Carrier → Bool
  pub ge : Carrier → Carrier → Bool
  pub is_zero : Carrier → Bool
  pub one : Carrier
  pub two : Carrier

-- What IEEE 754 says of floats from one on, infinity among them. `to_mono` is asked below a duration only:
-- a larger float does not fit an int64. A duration of at most 2^53 ns (104 days) is exact.
pub record FloatLaws (F : Float64) : Type 0 where
  pub ge_trans : (x y z : F.Carrier) → F.ge x y ≡ true → F.ge y z ≡ true → F.ge x z ≡ true
  pub of_positive : (n : ℕ) → 1 ≤ n → F.ge (F.of_duration (pos n)) (F.of_duration (pos 1)) ≡ true
  pub exact : (n : ℕ) → n ≤ 9007199254740992 → F.to_duration (F.of_duration (pos n)) ≡ pos n
  pub to_mono :
      (x y : F.Carrier) (hi : ℤ)
      → hi ≤ℤ pos 9223372036854775807
      → F.ge x (F.of_duration (pos 1)) ≡ true
      → F.ge y x ≡ true
      → F.ge y (F.of_duration hi) ≡ false
      → F.to_duration x ≤ℤ F.to_duration y
  pub mul_grows :
      (d m : F.Carrier)
      → F.ge d (F.of_duration (pos 1)) ≡ true
      → F.ge m F.one ≡ true
      → F.ge (F.mul d m) d ≡ true
  pub two_ge_one : F.ge F.two F.one ≡ true
  pub one_ge_one : F.ge F.one F.one ≡ true
  pub ge_exact :
      (n m : ℕ)
      → n ≤ 9007199254740992
      → m ≤ 9007199254740992
      → F.ge (F.of_duration (pos n)) (F.of_duration (pos m)) ≡ leb m n
  pub mul_two :
      (n : ℕ)
      → n * 2 ≤ 9007199254740992
      → F.mul (F.of_duration (pos n)) F.two ≡ F.of_duration (pos (n * 2))

-- Whole numbers meet the laws.
abbrev pub whole : Float64
whole = record {
  Carrier = ℕ;
  of_duration = pos_part;
  to_duration = pos;
  mul = ◌*◌;
  lt = ltb;
  ge = λ x y. leb y x;
  is_zero = λ x. x == 0;
  one = 1;
  two = 2;
}

whole_trans : (x y z : ℕ) → leb y x ≡ true → leb z y ≡ true → leb z x ≡ true
whole_trans x y z h k = ground arith

whole_leb : (n m : ℕ) → n ≤ m → leb n m ≡ true
whole_leb n m h = ground arith

whole_mono : (x y : ℕ) (hi : ℤ) → leb x y ≡ true → leb (pos_part hi) y ≡ false → x ≤ y
whole_mono x y hi h k = ground arith

whole_le : (n m : ℕ) → leb n m ≡ true → n ≤ m
whole_le n m h = ground arith

whole_grows : (d m : ℕ) → leb 1 d ≡ true → leb 1 m ≡ true → leb d (d * m) ≡ true
whole_grows d m h k = let p : 1 ≤ m = whole_le 1 m k in whole_leb d (d * m) (grind arith)

pub whole_laws : FloatLaws whole
whole_laws = record {
  ge_trans = whole_trans;
  of_positive = λ n h. whole_leb 1 n h;
  exact = λ n h. refl;
  to_mono = λ x y hi small low h k. omega (arith, whole_mono x y hi h k);
  mul_grows = whole_grows;
  two_ge_one = refl;
  one_ge_one = refl;
  ge_exact = λ n m h k. refl;
  mul_two = λ n h. refl;
}
