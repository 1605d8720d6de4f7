-- ===== src/Prelude/Bits.antt =====
-- Facts about the bit operations, and a check of a test at every value under a bound.
use Prim.Native.Nat.{
  ℕ, zero, suc, ◌+◌, ◌*◌, ◌/◌, ◌%◌, ◌^◌, ◌<◌, ◌≤◌, bit_xor, ◌-◌, digits, differ, bit_xor-bitwise,
  bit_or, bit_or-bitwise, max,
}
use mathlib.Core.Path.{◌≡◌, refl, ◌∙◌, sym, ap}
use mathlib.Core.Bool.{Bool, true, false}
use native.Mathlib.Nat.{zero-add, suc-add, pow-suc, mul_assoc}
use native.Mathlib.Omega.{arith}
use esphome.Prelude.Tests.{if◌then◌else◌}

unfoldable pub holds_below : (ℕ → Bool) → ℕ → Bool
holds_below test zero = true
holds_below test (suc n) = if test n then holds_below test n else false

pub holds_below-lt :
    (test : ℕ → Bool) (bound x : ℕ) → holds_below test bound ≡ true → x < bound → test x ≡ true
unfolding holds_below
holds_below-lt test (suc bound) x all under = ground (arith, holds_below-lt test bound x)
holds_below-lt test zero x all under = elim under [ ]

-- `bit_xor` on enough binary digits.
abbrev xor_digits : ℕ → ℕ → ℕ → ℕ
xor_digits fuel a b = digits (λ y. y) differ fuel a b

-- One digit more than needed changes nothing.
xor_digits_more : (fuel a b : ℕ) → a ≤ fuel → xor_digits (suc fuel) a b ≡ xor_digits fuel a b
xor_digits_more fuel zero b enough = zero_case fuel
  where
    zero_case : (k : ℕ) → xor_digits (suc k) zero b ≡ xor_digits k zero b
    zero_case zero = refl
    zero_case (suc k) = refl
xor_digits_more zero (suc a) b enough = elim enough [ ]
xor_digits_more (suc fuel) (suc a) b enough =
    rw (xor_digits_more fuel (suc a / 2) (b / 2) (omega arith))

xor_digits_enough : (extra a b : ℕ) → xor_digits (extra + a) a b ≡ bit_xor a b
xor_digits_enough zero a b = rw zero-add (sym (bit_xor-bitwise a b))
xor_digits_enough (suc extra) a b =
    rw suc-add (xor_digits_more (extra + a) a b (omega arith) ∙ xor_digits_enough extra a b)

bit_xor_step : (a b : ℕ) → bit_xor a b ≡ bit_xor (a / 2) (b / 2) * 2 + differ (a % 2) (b % 2)
bit_xor_step zero b = omega (arith, bit_xor-bitwise 0 b, bit_xor-bitwise 0 (b / 2))
bit_xor_step (suc a) b =
    let half : ℕ = suc a / 2 in
    let e : a - half + half ≡ a = omega arith in
    omega (
      arith,
      bit_xor-bitwise (suc a) b,
      ap (λ k. xor_digits k half (b / 2)) e,
      xor_digits_enough (a - half) half (b / 2),
    )

differ_cancel : (x y : ℕ) → x < 2 → y < 2 → differ x (differ x y) ≡ y
differ_cancel zero y hx hy = refl
differ_cancel (suc zero) zero hx hy = refl
differ_cancel (suc zero) (suc zero) hx hy = refl
differ_cancel (suc zero) (suc (suc y)) hx hy = absurd (omega arith)
differ_cancel (suc (suc x)) y hx hy = absurd (omega arith)

differ-lt : (x y : ℕ) → x < 2 → y < 2 → differ x y < 2
differ-lt zero y hx hy = hy
differ-lt (suc zero) zero hx hy = omega arith
differ-lt (suc zero) (suc zero) hx hy = omega arith
differ-lt (suc zero) (suc (suc y)) hx hy = absurd (omega arith)
differ-lt (suc (suc x)) y hx hy = absurd (omega arith)

cancel_on : (fuel a b : ℕ) → a ≤ fuel → bit_xor a (bit_xor a b) ≡ b
cancel_on fuel zero b h = bit_xor-bitwise 0 (bit_xor 0 b) ∙ bit_xor-bitwise 0 b
cancel_on zero (suc a) b h = elim h [ ]
cancel_on (suc fuel) (suc a) b h = omega (
  arith,
  bit_xor_step (suc a) (bit_xor (suc a) b),
  bit_xor_step (suc a) b,
  differ-lt (suc a % 2) (b % 2) (omega arith) (omega arith),
  ap (bit_xor (suc a / 2)) half,
  ap (differ (suc a % 2)) low,
  differ_cancel (suc a % 2) (b % 2) (omega arith) (omega arith),
  cancel_on fuel (suc a / 2) (b / 2) (omega arith),
)
  where
    half : bit_xor (suc a) b / 2 ≡ bit_xor (suc a / 2) (b / 2)
    half =
        omega
          (arith, bit_xor_step (suc a) b, differ-lt (suc a % 2) (b % 2) (omega arith) (omega arith))

    low : bit_xor (suc a) b % 2 ≡ differ (suc a % 2) (b % 2)
    low =
        omega
          (arith, bit_xor_step (suc a) b, differ-lt (suc a % 2) (b % 2) (omega arith) (omega arith))

-- Exclusive or with one number undoes itself.
pub bit_xor_cancel : (a b : ℕ) → bit_xor a (bit_xor a b) ≡ b
bit_xor_cancel a b = cancel_on a a b (omega arith)

pub bit_xor-lt_pow : (k a b : ℕ) → a < 2 ^ k → b < 2 ^ k → bit_xor a b < 2 ^ k
bit_xor-lt_pow zero zero b ha hb = omega (arith, bit_xor-bitwise 0 b)
bit_xor-lt_pow zero (suc a) b ha hb = absurd (omega arith)
bit_xor-lt_pow (suc k) a b ha hb = omega (
  arith,
  pow-suc 2 k,
  bit_xor_step a b,
  differ-lt (a % 2) (b % 2) (omega arith) (omega arith),
  bit_xor-lt_pow k (a / 2) (b / 2) (omega (arith, pow-suc 2 k)) (omega (arith, pow-suc 2 k)),
)

differ_comm : (x y : ℕ) → differ x y ≡ differ y x
differ_comm zero zero = refl
differ_comm zero (suc y) = refl
differ_comm (suc x) zero = refl
differ_comm (suc x) (suc y) = differ_comm x y

comm_on : (fuel a b : ℕ) → a ≤ fuel → b ≤ fuel → bit_xor a b ≡ bit_xor b a
comm_on zero zero zero ha hb = refl
comm_on zero (suc a) b ha hb = elim ha [ ]
comm_on zero zero (suc b) ha hb = elim hb [ ]
comm_on (suc fuel) a b ha hb = omega (
  arith,
  bit_xor_step a b,
  bit_xor_step b a,
  differ_comm (a % 2) (b % 2),
  comm_on fuel (a / 2) (b / 2) (omega arith) (omega arith),
)

pub bit_xor_comm : (a b : ℕ) → bit_xor a b ≡ bit_xor b a
bit_xor_comm a b = comm_on (a + b) a b (omega arith) (omega arith)

-- `or` on enough binary digits, where the second number has none at the places of the first.
or_digits-add :
    (fuel a k c : ℕ) → a ≤ fuel → a < 2 ^ k → digits (λ y. y) max fuel a (c * 2 ^ k) ≡ a + c * 2 ^ k
or_digits-add zero zero k c enough small = omega arith
or_digits-add zero (suc a) k c enough small = elim enough [ ]
or_digits-add (suc fuel) zero k c enough small = omega arith
or_digits-add (suc fuel) (suc a) zero c enough small = absurd (omega arith)
or_digits-add (suc fuel) (suc a) (suc k) c enough small =
    rw (halved, even)
      (omega (
        arith,
        shifted,
        or_digits-add fuel (suc a / 2) k c (omega arith) (omega (arith, pow-suc 2 k)),
      ))
  where
    shifted : c * 2 ^ suc k ≡ c * 2 ^ k * 2
    shifted = rw (pow-suc 2 k) (sym (mul_assoc c (2 ^ k) 2))

    halved : c * 2 ^ suc k / 2 ≡ c * 2 ^ k
    halved = omega (arith, shifted)

    even : c * 2 ^ suc k % 2 ≡ 0
    even = omega (arith, shifted)

-- A number joined by `or` to a smaller one, above its digits, is added to it.
pub bit_or-add : (a k c : ℕ) → a < 2 ^ k → bit_or a (c * 2 ^ k) ≡ a + c * 2 ^ k
bit_or-add a k c small = bit_or-bitwise a (c * 2 ^ k) ∙ or_digits-add a a k c (omega arith) small
