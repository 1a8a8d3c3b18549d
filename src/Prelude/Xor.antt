-- ===== src/Prelude/Xor.antt =====
-- Exclusive or, on numbers of any width and pointwise on byte slices.
use Prim.Native.Nat.{
  ℕ, zero, suc, ◌+◌, ◌*◌, ◌/◌, ◌%◌, ◌≤◌, ◌<◌, bit_xor, digits, differ, bit_xor-bitwise,
}
use mathlib.Core.Path.{◌≡◌, refl, ap, ap₂}
use mathlib.Core.List.{List, [], ◌∷◌, ◌++◌}
use native.Mathlib.Omega.{arith}
use katzenpost_wt.Prelude.Lists.{length, replicate}

abbrev xor_digits : ℕ → ℕ → ℕ → ℕ
xor_digits n a b = digits (λ b. b) differ n a b

xor_digits_fuel : (n m a b : ℕ) → a ≤ n → a ≤ m → xor_digits n a b ≡ xor_digits m a b
xor_digits_fuel zero zero a b p q = refl
xor_digits_fuel zero (suc m) zero b p q = refl
xor_digits_fuel zero (suc m) (suc a) b p q = absurd (omega arith)
xor_digits_fuel (suc n) zero zero b p q = refl
xor_digits_fuel (suc n) zero (suc a) b p q = absurd (omega arith)
xor_digits_fuel (suc n) (suc m) zero b p q = refl
xor_digits_fuel (suc n) (suc m) (suc a) b p q =
    omega (arith, xor_digits_fuel n m (suc a / 2) (b / 2) (omega arith) (omega arith))

pub zero-bit_xor : (b : ℕ) → bit_xor 0 b ≡ b
zero-bit_xor b = bit_xor-bitwise 0 b

differ_zero : (y : ℕ) → differ 0 y ≡ y
differ_zero y = refl

split_half : (b : ℕ) → b / 2 * 2 + b % 2 ≡ b
split_half b = omega arith

pub bit_xor_step : (a b : ℕ) → bit_xor a b ≡ bit_xor (a / 2) (b / 2) * 2 + differ (a % 2) (b % 2)
bit_xor_step zero b = rw (zero-bit_xor b, zero-bit_xor (b / 2)) (omega arith)
bit_xor_step (suc a) b = omega (
  arith,
  bit_xor-bitwise (suc a) b,
  bit_xor-bitwise (suc a / 2) (b / 2),
  xor_digits_fuel a (suc a / 2) (suc a / 2) (b / 2) (omega arith) (omega arith),
)

-- On single digits.
differ_digits :
    (x y : ℕ)
    → x < 2
    → y < 2
    → (differ x y < 2) × (differ x y ≡ differ y x) × (differ (differ x y) y ≡ x)
differ_digits zero zero p q = omega arith
differ_digits zero (suc zero) p q = omega arith
differ_digits (suc zero) zero p q = omega arith
differ_digits (suc zero) (suc zero) p q = omega arith
differ_digits (suc (suc x)) y p q = absurd (omega arith)
differ_digits x (suc (suc y)) p q = absurd (omega arith)

bit_xor_halves :
    (a b : ℕ)
    → (bit_xor a b / 2 ≡ bit_xor (a / 2) (b / 2)) × (bit_xor a b % 2 ≡ differ (a % 2) (b % 2))
bit_xor_halves a b =
    omega (arith, bit_xor_step a b, differ_digits (a % 2) (b % 2) (omega arith) (omega arith))

xor_comm_fuel : (n a b : ℕ) → a + b ≤ n → bit_xor a b ≡ bit_xor b a
xor_comm_fuel n zero zero h = refl
xor_comm_fuel zero a b h = absurd (omega arith)
xor_comm_fuel (suc n) a b h = omega (
  arith,
  bit_xor_step a b,
  bit_xor_step b a,
  differ_digits (a % 2) (b % 2) (omega arith) (omega arith),
  xor_comm_fuel n (a / 2) (b / 2) (omega arith),
)

pub bit_xor_comm : (a b : ℕ) → bit_xor a b ≡ bit_xor b a
bit_xor_comm a b = xor_comm_fuel (a + b) a b (omega arith)

xor_cancel_fuel : (n a b : ℕ) → a + b ≤ n → bit_xor (bit_xor a b) b ≡ a
xor_cancel_fuel n zero zero h = refl
xor_cancel_fuel zero a b h = absurd (omega arith)
xor_cancel_fuel (suc n) a b h =
    rw
      (
        bit_xor_step (bit_xor a b) b,
        (bit_xor_halves a b).0,
        (bit_xor_halves a b).1,
        xor_cancel_fuel n (a / 2) (b / 2) (omega arith),
        (differ_digits (a % 2) (b % 2) (omega arith) (omega arith)).2,
      )
      (split_half a)

-- Applying the same mask twice changes nothing.
pub bit_xor_cancel : (a b : ℕ) → bit_xor (bit_xor a b) b ≡ a
bit_xor_cancel a b = xor_cancel_fuel (a + b) a b (omega arith)

-- The bytewise xor of two slices, as long as the shorter.
abbrev pub xor_list : List ℕ → List ℕ → List ℕ
xor_list [] k = []
xor_list (x ∷ xs) [] = []
xor_list (x ∷ xs) (k ∷ ks) = bit_xor x k ∷ xor_list xs ks

pub length-xor_list : (a k : List ℕ) → length a ≡ length k → length (xor_list a k) ≡ length a
length-xor_list [] k h = refl
length-xor_list (x ∷ xs) [] h = absurd (omega arith)
length-xor_list (x ∷ xs) (k ∷ ks) h = ap suc (length-xor_list xs ks (omega arith))

pub xor_list_comm : (a k : List ℕ) → xor_list a k ≡ xor_list k a
xor_list_comm [] [] = refl
xor_list_comm [] (k ∷ ks) = refl
xor_list_comm (x ∷ xs) [] = refl
xor_list_comm (x ∷ xs) (k ∷ ks) = ap₂ ◌∷◌ (bit_xor_comm x k) (xor_list_comm xs ks)

pub xor_list_cancel : (a k : List ℕ) → length a ≡ length k → xor_list (xor_list a k) k ≡ a
xor_list_cancel [] k h = refl
xor_list_cancel (x ∷ xs) [] h = absurd (omega arith)
xor_list_cancel (x ∷ xs) (k ∷ ks) h =
    ap₂ ◌∷◌ (bit_xor_cancel x k) (xor_list_cancel xs ks (omega arith))

pub xor_list-append :
    (a k b l : List ℕ)
    → length a ≡ length k
    → xor_list (a ++ b) (k ++ l) ≡ xor_list a k ++ xor_list b l
xor_list-append [] [] b l h = refl
xor_list-append [] (k ∷ ks) b l h = absurd (omega arith)
xor_list-append (x ∷ xs) [] b l h = absurd (omega arith)
xor_list-append (x ∷ xs) (k ∷ ks) b l h =
    ap (◌∷◌ (bit_xor x k)) (xor_list-append xs ks b l (omega arith))

pub xor_list-zeros : (n : ℕ) (k : List ℕ) → length k ≡ n → xor_list (replicate n 0) k ≡ k
xor_list-zeros zero [] h = refl
xor_list-zeros zero (k ∷ ks) h = absurd (omega arith)
xor_list-zeros (suc n) [] h = absurd (omega arith)
xor_list-zeros (suc n) (k ∷ ks) h = ap₂ ◌∷◌ (zero-bit_xor k) (xor_list-zeros n ks (omega arith))
