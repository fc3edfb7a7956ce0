-- ===== src/Rabbitmq/Retry/Backoff.antt =====
-- The backoff schedule of `RetryPolicy.backoff`: its bounds, its growth, and its closed form.
use native.Mathlib.Nat.{pow-suc}
use samsara_components.Prelude.{
  ◌∙◌, ℕ, zero, suc, ◌*◌, ◌^◌, ◌≤◌, ◌<◌, true, false, ◌≡◌, refl, ◌⊎◌, inl, inr, arith, ℤ, pos,
  negsuc, ◌≤ℤ◌, min_ℤ, is_pos, leb, if◌then◌else◌, Bool-cases, ◌-◌,
}
use samsara_components.Rabbitmq.Float.{Float64, FloatLaws}
use samsara_components.Rabbitmq.Retry.{
  RetryPolicy, base_of, multiplier_of, cap_of, backoff_loop, backoff, rounds_of,
}

module _ {F : Float64} (p : RetryPolicy F) where
  loop-le-cap : (n : ℕ) (d : F.Carrier) → backoff_loop p n d ≤ℤ cap_of p
  unfolding backoff_loop
  loop-le-cap zero d = ground arith
  loop-le-cap (suc n) d = ground (arith, loop-le-cap n (F.mul d (multiplier_of p)))

  -- No delay exceeds the cap, MaxBackoff or its default.
  pub backoff-le-cap : (attempt : ℤ) → backoff p attempt ≤ℤ cap_of p
  unfolding backoff
  backoff-le-cap attempt = loop-le-cap (rounds_of attempt) (F.of_duration (base_of p))

leb_refl : (n : ℕ) → leb n n ≡ true
leb_refl n = ground arith

base_nat : (z : ℤ) → (n : ℕ) × (0 < n) × ((if is_pos z then z else pos 1_000_000_000) ≡ pos n)
base_nat (pos zero) = (1_000_000_000, omega arith, refl)
base_nat (pos (suc n)) = (suc n, omega arith, ground arith)
base_nat (negsuc n) = (1_000_000_000, omega arith, refl)

base_of-pos : {F : Float64} (p : RetryPolicy F) → (n : ℕ) × (0 < n) × (base_of p ≡ pos n)
unfolding base_of
base_of-pos p = base_nat p.backoff

min-le : (a c : ℤ) → min_ℤ a c ≤ℤ c
min-le a c = ground arith

min_mono : (a b c : ℤ) → a ≤ℤ b → min_ℤ a c ≤ℤ min_ℤ b c
min_mono a b c h = ground arith

-- The multiplier is a number: where it is not below one, it is at least one.
abbrev pub IsNumber : (F : Float64) → F.Carrier → Type 0
IsNumber F m = F.lt m F.one ≡ false → F.ge m F.one ≡ true

module _ {F : Float64} (laws : FloatLaws F) (p : RetryPolicy F)
    (number : IsNumber F p.backoff_multiplier) (fits : cap_of p ≤ℤ pos 9223372036854775807) where
  open laws use {ge_trans, of_positive, exact, to_mono, mul_grows, two_ge_one, one_ge_one}

  multiplier-ge-one : F.ge (multiplier_of p) F.one ≡ true
  unfolding multiplier_of
  multiplier-ge-one = ground (arith, two_ge_one, one_ge_one)

  -- One more round of the loop.
  next : F.Carrier → F.Carrier
  next d = F.mul d (multiplier_of p)

  grows :
      (d : F.Carrier)
      → F.ge d (F.of_duration (pos 1)) ≡ true
      → (F.ge (next d) d ≡ true) × (F.ge (next d) (F.of_duration (pos 1)) ≡ true)
  unfolding next
  grows d h = (up, ge_trans _ d _ up h)
    where
      up : F.ge (F.mul d (multiplier_of p)) d ≡ true
      up = mul_grows d (multiplier_of p) h multiplier-ge-one

  loop_mono :
      (n : ℕ) (d : F.Carrier)
      → F.ge d (F.of_duration (pos 1)) ≡ true
      → backoff_loop p n d ≤ℤ backoff_loop p (suc n) d
  unfolding backoff_loop next
  loop_mono zero d h = elim (Bool-cases (F.ge (next d) (F.of_duration (cap_of p)))) [
    | inl t ↦ rw t (min-le (F.to_duration d) (cap_of p))
    | inr t ↦ rw t (
        min_mono (F.to_duration d) (F.to_duration (next d)) (cap_of p)
          (to_mono d (next d) (cap_of p) fits h (grows d h).0 t))
  ]
  loop_mono (suc n) d h = elim (Bool-cases (F.ge (next d) (F.of_duration (cap_of p)))) [
    | inl t ↦ rw t (omega arith)
    | inr t ↦ rw t (loop_mono n (next d) (grows d h).1)
  ]

  -- The base is reached exactly, or the loop has not yet passed the cap.
  abbrev IsInside : ℕ → F.Carrier → Type 0
  IsInside b d = (d ≡ F.of_duration (pos b)) ⊎ (F.ge d (F.of_duration (cap_of p)) ≡ false)

  base-le :
      (b : ℕ) (d : F.Carrier)
      → 1 ≤ b
      → b ≤ 9007199254740992
      → F.ge d (F.of_duration (pos b)) ≡ true
      → IsInside b d
      → pos b ≤ℤ F.to_duration d
  base-le b d one small h (inl e) = rw (e, exact b small) (omega arith)
  base-le b d one small h (inr e) =
      rw (exact b small) at
        (to_mono (F.of_duration (pos b)) d (cap_of p) fits (of_positive b one) h e)

  loop_lower :
      (b n : ℕ) (d : F.Carrier)
      → 1 ≤ b
      → b ≤ 9007199254740992
      → F.ge d (F.of_duration (pos b)) ≡ true
      → IsInside b d
      → min_ℤ (pos b) (cap_of p) ≤ℤ backoff_loop p n d
  unfolding backoff_loop next
  loop_lower b zero d one small h i =
      min_mono (pos b) (F.to_duration d) (cap_of p) (base-le b d one small h i)
  loop_lower b (suc n) d one small h i =
      elim (Bool-cases (F.ge (next d) (F.of_duration (cap_of p)))) [
        | inl t ↦ rw t (min-le (pos b) (cap_of p))
        | inr t ↦ rw t (loop_lower b n (next d) one small up (inr t))
      ]
    where
      up : F.ge (next d) (F.of_duration (pos b)) ≡ true
      up = ge_trans _ d _ (grows d (ge_trans d _ _ h (of_positive b one))).0 h

  start_positive : F.ge (F.of_duration (base_of p)) (F.of_duration (pos 1)) ≡ true
  start_positive = let (n, b, e) = base_of-pos p in rw e (of_positive n (omega (arith, b)))

  -- If the multiplier is a number and the cap a Duration, no retry waits less than the one before it.
  pub backoff_mono : (k : ℕ) → backoff p (pos k) ≤ℤ backoff p (pos (suc k))
  unfolding backoff
  backoff_mono zero = omega arith
  backoff_mono (suc k) =
      let e : suc k - 1 ≡ k = omega arith in
      let e' : suc (suc k) - 1 ≡ suc k = omega arith in rw (e, e') (loop_mono k _ start_positive)

  -- If the multiplier is a number, the base delay at most 2^53 ns, and the cap a Duration, every delay lies between the base
  -- delay (or the cap, where that is less) and the cap.
  pub backoff_bounds :
      (attempt : ℤ)
      → base_of p ≤ℤ pos 9007199254740992
      → (min_ℤ (base_of p) (cap_of p) ≤ℤ backoff p attempt) × (backoff p attempt ≤ℤ cap_of p)
  unfolding backoff
  backoff_bounds attempt small = (low (base_of-pos p), loop-le-cap p (rounds_of attempt) _)
    where
      low :
          ((n : ℕ) × (0 < n) × (base_of p ≡ pos n))
          → min_ℤ (base_of p) (cap_of p)
            ≤ℤ backoff_loop p (rounds_of attempt) (F.of_duration (base_of p))
      low (n, positive, e) =
          let s : pos n ≤ℤ pos 9007199254740992 = rw e at small in
          let below : n ≤ 9007199254740992 = omega arith in
          rw e (
            loop_lower n (rounds_of attempt) _ (omega (arith, positive)) below
              (laws.ge_exact n n below below ∙ leb_refl n) (inl refl))

pow_two-pos : (k : ℕ) → 1 ≤ 2 ^ k
pow_two-pos zero = omega arith
pow_two-pos (suc k) = omega (arith, pow-suc 2 k, pow_two-pos k)

times_pow : (n k : ℕ) → n * 2 ^ suc k ≡ n * 2 * 2 ^ k
times_pow n k = grind (arith, pow-suc 2 k)

scaled-le : (n k : ℕ) → n ≤ n * 2 ^ k
scaled-le n k = let h : 1 ≤ 2 ^ k = pow_two-pos k in grind arith

min_of_le : (c a b : ℕ) → leb c a ≡ true → a ≤ b → min_ℤ (pos b) (pos c) ≡ pos c
min_of_le c a b h k = ground arith

-- Doubling, for the default multiplier.
module _ {F : Float64} (laws : FloatLaws F) (p : RetryPolicy F) (base cap : ℕ)
    (double : multiplier_of p ≡ F.two) (start : base_of p ≡ pos base) (capped : cap_of p ≡ pos cap)
    (small_base : base ≤ 4503599627370496) (small_cap : cap ≤ 4503599627370496) where
  open laws use {ge_exact, exact, mul_two}

  loop_doubles :
      (k n : ℕ)
      → n ≤ 4503599627370496
      → backoff_loop p k (F.of_duration (pos n)) ≡ min_ℤ (pos (n * 2 ^ k)) (pos cap)
  unfolding backoff_loop
  loop_doubles zero n h =
      let e : n * 2 ^ 0 ≡ n = omega arith in rw (exact n (omega arith), capped, e) refl
  loop_doubles (suc k) n h =
      rw
        (
          double,
          capped,
          mul_two n (omega arith),
          ge_exact (n * 2) cap (omega arith) (omega arith),
          times_pow n k,
        )
        (elim (Bool-cases (leb cap (n * 2))) [
          | inl t ↦ rw (t, min_of_le cap (n * 2) (n * 2 * 2 ^ k) t (scaled-le (n * 2) k)) refl
          | inr t ↦ rw t (loop_doubles k (n * 2) (small_of t))
        ])
    where
      small_of : leb cap (n * 2) ≡ false → n * 2 ≤ 4503599627370496
      small_of t = ground arith

  -- With the doubling multiplier, and a base and a cap of at most 2^52 ns, retry number k + 1 waits the
  -- base delay times 2^k, or the cap where that is less.
  pub backoff_doubles : (k : ℕ) → backoff p (pos (suc k)) ≡ min_ℤ (pos (base * 2 ^ k)) (pos cap)
  unfolding backoff
  backoff_doubles k =
      let e : suc k - 1 ≡ k = omega arith in rw (e, start) (loop_doubles k base small_base)
