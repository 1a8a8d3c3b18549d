-- ===== src/Prelude/Bytes.antt =====
-- Byte slices as lists of numbers: big-endian words, xor, fixed-size arrays and `utils.CtIsZero`.
use Prim.Native.Nat.{ℕ, zero, suc, ◌+◌, ◌-◌, ◌*◌, ◌/◌, ◌%◌, ◌^◌, ◌<◌, bit_or}
use mathlib.Core.Path.{◌≡◌, refl, sym}
use mathlib.Core.Bool.{Bool, true, false, ◌&&◌}
use mathlib.Core.List.{List, [], ◌∷◌, ◌++◌, append-nil}
use native.Mathlib.Omega.{arith}
use katzenpost_wt.Prelude.Tests.{◌==◌}
use katzenpost_wt.Prelude.Lists.{
  length, take, replicate, length-append, length-take, length-replicate, take-append, take-length,
  drop-length, drop,
}

-- `binary.BigEndian.PutUint32` and `binary.BigEndian.Uint32` (a shorter slice panics there).
unfoldable pub put_u32 : ℕ → List ℕ
put_u32 n = (n / 2 ^ 24 % 256) ∷ (n / 2 ^ 16 % 256) ∷ (n / 2 ^ 8 % 256) ∷ (n % 256) ∷ []

unfoldable pub get_u32 : List ℕ → ℕ
get_u32 (a ∷ b ∷ c ∷ d ∷ _) = a * 2 ^ 24 + b * 2 ^ 16 + c * 2 ^ 8 + d
get_u32 _ = 0

pub length-put_u32 : (n : ℕ) → length (put_u32 n) ≡ 4
unfolding put_u32
length-put_u32 n = refl

pub get_u32-put_u32 : (n : ℕ) (rest : List ℕ) → n < 2 ^ 32 → get_u32 (put_u32 n ++ rest) ≡ n
unfolding put_u32 get_u32
get_u32-put_u32 n rest h = omega arith

-- What a fresh `[n]byte` holds after `copy(array[:], src)`.
unfoldable pub copy_array : ℕ → List ℕ → List ℕ
copy_array n src = take n src ++ replicate (n - length src) 0

pub copy_array-append :
    (n : ℕ) (src rest : List ℕ) → length src ≡ n → copy_array n (src ++ rest) ≡ src
unfolding copy_array
copy_array-append n src rest h =
    let full : n - length (src ++ rest) ≡ 0 = omega (arith, length-append src rest) in
    rw (take-append n src rest h, full) (append-nil src)

pub copy_array_self : (n : ℕ) (src : List ℕ) → length src ≡ n → copy_array n src ≡ src
copy_array_self n src h = rw (append-nil src) at (copy_array-append n src [] h)

-- The loop of `CtIsZero`.
or_all : ℕ → List ℕ → ℕ
or_all sum [] = sum
or_all sum (v ∷ b) = or_all (bit_or sum v) b

unfoldable pub ct_is_zero : List ℕ → Bool
unfolding or_all
ct_is_zero b = or_all 0 b == 0

or_all-replicate : (n : ℕ) → or_all 0 (replicate n 0) ≡ 0
unfolding or_all
or_all-replicate zero = refl
or_all-replicate (suc n) = or_all-replicate n

pub ct_is_zero-replicate : (n : ℕ) → ct_is_zero (replicate n 0) ≡ true
unfolding ct_is_zero
ct_is_zero-replicate n = ground (arith, or_all-replicate n)

-- What `dst` holds after `copy(dst, src)`.
unfoldable pub overwrite : List ℕ → List ℕ → List ℕ
overwrite dst src = take (length dst) src ++ drop (length src) dst

pub overwrite_all : (dst src : List ℕ) → length src ≡ length dst → overwrite dst src ≡ src
unfolding overwrite
overwrite_all dst src h = rw (sym h, take-length src, h, drop-length dst) (append-nil src)

-- `subtle.ConstantTimeCompare`, as a test.
unfoldable pub bytes_eq : List ℕ → List ℕ → Bool
bytes_eq [] [] = true
bytes_eq [] (y ∷ ys) = false
bytes_eq (x ∷ xs) [] = false
bytes_eq (x ∷ xs) (y ∷ ys) = x == y && bytes_eq xs ys

pub bytes_eq_refl : (xs : List ℕ) → bytes_eq xs xs ≡ true
unfolding bytes_eq
bytes_eq_refl [] = refl
bytes_eq_refl (x ∷ xs) = ground (arith, bytes_eq_refl xs)

pub length-copy_array : (n : ℕ) (src : List ℕ) → length (copy_array n src) ≡ n
unfolding copy_array
length-copy_array n src = omega (
  arith,
  length-append (take n src) (replicate (n - length src) 0),
  length-take n src,
  length-replicate {A = ℕ} (n - length src) 0,
)
