-- ===== src/Base/Float.antt =====
-- Python's floats as an interface: the operations that the program uses on clock readings and
-- durations, and the laws of IEEE 754 arithmetic and of `int()` that it relies on.
use mathlib.Core.Path.{◌≡◌, refl}
use mathlib.Core.Bool.{Bool, true}
use Prim.Native.Nat.{ℕ, ◌/◌}
use native.Mathlib.Omega.{arith}
use vllm_observer.Base.Tests.{if◌then◌else◌}
use vllm_observer.Base.Int.{ℤ, pos, negsuc, ◌+ℤ◌, ◌-ℤ◌, ltb_ℤ, leb_ℤ, +ℤ_parts}

-- Comparisons are false at NaN, as `<` and `<=` are. `to_ns x` is `int(x * 1e9)` at the finite
-- differences of clock readings at which the program calls it.
pub record Float (F : Type 0) : Type 0 where
  pub zero : F
  pub add : F → F → F
  pub sub : F → F → F
  pub mean : F → ℕ → F
  pub lt : F → F → Bool
  pub le : F → F → Bool
  pub finite : F → Bool
  pub to_ns : F → ℤ
  pub le_zero : le zero zero ≡ true
  pub le_of_lt : (a b : F) → lt a b ≡ true → le a b ≡ true
  pub add_nonneg : (a b : F) → le zero a ≡ true → le zero b ≡ true → le zero (add a b) ≡ true

-- `max(0.0, x)`.
abbrev pub max_zero : {F : Type 0} ⦃f : Float F⦄ → F → F
max_zero ⦃f⦄ x = if f.lt f.zero x then x else f.zero

pub max_zero_nonneg : {F : Type 0} ⦃f : Float F⦄ (x : F) → f.le f.zero (max_zero x) ≡ true
max_zero_nonneg ⦃f⦄ x = ground (arith, f.le_zero, f.le_of_lt f.zero x)

-- Whole nanoseconds satisfy the laws, so tests and witnesses run on them.
abbrev pub mean_ℤ : ℤ → ℕ → ℤ
mean_ℤ (pos a) n = pos (a / n)
mean_ℤ (negsuc a) n = negsuc (a / n)

pub add_nonneg_ℤ :
    (a b : ℤ) → leb_ℤ (pos 0) a ≡ true → leb_ℤ (pos 0) b ≡ true → leb_ℤ (pos 0) (a +ℤ b) ≡ true
add_nonneg_ℤ a b h k = ground (arith, +ℤ_parts a b)

pub le_of_lt_ℤ : (a b : ℤ) → ltb_ℤ a b ≡ true → leb_ℤ a b ≡ true
le_of_lt_ℤ a b h = ground arith

instance abbrev pub nanoseconds : Float ℤ
nanoseconds = record {
  zero = pos 0;
  add = ◌+ℤ◌;
  sub = ◌-ℤ◌;
  mean = mean_ℤ;
  lt = ltb_ℤ;
  le = leb_ℤ;
  finite = λ _. true;
  to_ns = λ x. x;
  le_zero = refl;
  le_of_lt = le_of_lt_ℤ;
  add_nonneg = add_nonneg_ℤ;
}
