-- ===== src/Base/Bytes.antt =====
-- Bytes are numbers. A shift is a quotient or a product, a mask of low bits a remainder, and the
-- `|` of disjoint fields a sum: the forms that `omega` reads.
use Prim.Native.Nat.{ℕ, zero, suc, bit_or, ◌+◌, ◌*◌, ◌/◌, ◌%◌, ◌^◌, ◌<◌}
use Prim.Native.Char.{code}
use Prim.Native.String.{String}
use mathlib.Core.Path.{◌≡◌, refl, ap₂}
use mathlib.Core.Bool.{Bool}
use mathlib.Core.List.{List, [], ◌∷◌, ◌++◌}
use mathlib.Core.Bool.{true, false, false≢true, ◌&&◌}
use native.Mathlib.Decide.{ℕ_discrete}
use native.Mathlib.Omega.{arith}
use jacktrip.Base.Tests.{◌==◌}

-- The byte value of `static_cast<uint8_t>`.
abbrev pub u8 : ℕ → ℕ
u8 n = n % 2 ^ 8

abbrev pub u16 : ℕ → ℕ
u16 n = n % 2 ^ 16

abbrev pub u32 : ℕ → ℕ
u32 n = n % 2 ^ 32

-- x >> k
abbrev pub shr : ℕ → ℕ → ℕ
shr x k = x / 2 ^ k

-- x << k, before any cast
abbrev pub shl : ℕ → ℕ → ℕ
shl x k = x * 2 ^ k

-- x & (2^k - 1)
abbrev pub low_bits : ℕ → ℕ → ℕ
low_bits x k = x % 2 ^ k

-- (x & (1 << k)) != 0
abbrev pub test_bit : ℕ → ℕ → Bool
test_bit x k = x / 2 ^ k % 2 == 1

-- A predicate on every element.
abbrev pub All {ℓ κ} : {A : Type ℓ} → (A → Type κ) → List A → Type κ
All P [] = Unit
All P (x ∷ xs) = P x × All P xs

abbrev pub IsByte : ℕ → Type 0
IsByte b = b < 256

-- The code points of a text literal: its bytes, as all literals of the model are ASCII.
abbrev pub codes : String → List ℕ
codes String.[] = []
codes (String.◌∷◌ c s) = code c ∷ codes s

pub All-append {ℓ κ} :
    {A : Type ℓ} (P : A → Type κ) (xs ys : List A) → All P xs → All P ys → All P (xs ++ ys)
All-append P [] ys hx hy = hy
All-append P (x ∷ xs) ys hx hy = (hx.0, All-append P xs ys hx.1 hy)

-- Over a small range a test is checked at every value.
unfoldable pub every_below : (bound : ℕ) (test : ℕ → Bool) → Bool
every_below zero test = true
every_below (suc bound) test = every_below bound test && test bound

pub every_below_at :
    (bound : ℕ) (test : ℕ → Bool) (n : ℕ)
    → every_below bound test ≡ true
    → n < bound
    → test n ≡ true
unfolding every_below
every_below_at zero test n e low = elim low [ ]
every_below_at (suc bound) test n e low = ground (arith, every_below_at bound test n)

high_bit_table : every_below 128 (λ x. bit_or 0x80 x == 128 + x) ≡ true
unfolding every_below
high_bit_table = refl

-- `0x80 | x` for a field of seven bits.
pub bit_or_0x80 : (x : ℕ) → x < 128 → bit_or 0x80 x ≡ 128 + x
bit_or_0x80 x h = ground (arith, every_below_at 128 _ x high_bit_table h)

-- `==` of two strings.
unfoldable pub same_string : List ℕ → List ℕ → Bool
same_string [] [] = true
same_string [] (y ∷ ys) = false
same_string (x ∷ xs) [] = false
same_string (x ∷ xs) (y ∷ ys) = x == y && same_string xs ys

pub same_string_refl : (xs : List ℕ) → same_string xs xs ≡ true
unfolding same_string
same_string_refl [] = refl
same_string_refl (x ∷ xs) = ground (arith, same_string_refl xs)

pub same_string_eq : (xs ys : List ℕ) → same_string xs ys ≡ true → xs ≡ ys
unfolding same_string
same_string_eq [] [] e = refl
same_string_eq [] (y ∷ ys) e = absurd (false≢true e)
same_string_eq (x ∷ xs) [] e = absurd (false≢true e)
same_string_eq (x ∷ xs) (y ∷ ys) e = elim (ℕ_discrete x y) [
  | yes p ↦ ap₂ (λ a rest. a ∷ rest) p (same_string_eq xs ys (ground (arith, e)))
  | no p ↦ absurd (ground (arith, e))
]
