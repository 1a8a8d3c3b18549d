-- ===== src/Pigeonhole/Wire.antt =====
-- The readers of pigeonhole/trunnel_messages.go: each returns what it read and the bytes after it,
-- or `none` for "data too short".
use katzenpost_wt.Prelude.{
  inl, inr, Bool-cases, length-drop, ◌≤◌, ◌*◌, ◌/◌, ◌%◌, ◌+◌, ◌∙◌, ap, ℕ, zero, suc, ◌^◌, ◌<◌, ◌≡◌,
  refl, List, [], ◌∷◌, ◌++◌, Option, none, some, arith, length, length-append, ltb, if◌then◌else◌,
  drop, drop-append, false,
}
use mathlib.Core.List.{append_assoc}
use katzenpost_wt.Prelude.Bytes.{put_u32, get_u32, length-put_u32, get_u32-put_u32}

-- The next field, and the error of the one before it.
abbrev pub then_read {ℓ κ} :
    {A : Type ℓ} {B : Type κ} → Option (A × List ℕ) → (A → List ℕ → Option B) → Option B
then_read none f = none
then_read (some (a, cur)) f = f a cur

pub then_read-eq-some {ℓ κ} :
    {A : Type ℓ} {B : Type κ} (m : Option (A × List ℕ)) (f : A → List ℕ → Option B) {b : B}
    → then_read m f ≡ some b
    → (a : A) × (cur : List ℕ) × (m ≡ some (a, cur)) × (f a cur ≡ some b)
then_read-eq-some none f h = cc
then_read-eq-some (some (a, cur)) f h = (a, cur, refl, h)

-- The loop that fills an array of `n` bytes.
unfoldable pub read_bytes : ℕ → List ℕ → Option (List ℕ × List ℕ)
read_bytes zero cur = some ([], cur)
read_bytes (suc n) [] = none
read_bytes (suc n) (x ∷ cur) = then_read (read_bytes n cur) (λ xs rest. some (x ∷ xs, rest))

unfoldable pub read_u8 : List ℕ → Option (ℕ × List ℕ)
read_u8 [] = none
read_u8 (x ∷ cur) = some (x, cur)

unfoldable pub read_u32 : List ℕ → Option (ℕ × List ℕ)
read_u32 cur = if ltb (length cur) 4 then none else some (get_u32 cur, drop 4 cur)

pub read_bytes-append :
    (n : ℕ) (xs rest : List ℕ) → length xs ≡ n → read_bytes n (xs ++ rest) ≡ some (xs, rest)
unfolding read_bytes
read_bytes-append zero [] rest h = refl
read_bytes-append zero (x ∷ xs) rest h = absurd (omega arith)
read_bytes-append (suc n) [] rest h = absurd (omega arith)
read_bytes-append (suc n) (x ∷ xs) rest h = rw (read_bytes-append n xs rest (omega arith))

pub read_u32-put_u32 :
    (n : ℕ) (rest : List ℕ) → n < 2 ^ 32 → read_u32 (put_u32 n ++ rest) ≡ some (n, rest)
unfolding read_u32
read_u32-put_u32 n rest h =
    let size = length-put_u32 n in
    let enough : ltb (length (put_u32 n ++ rest)) 4 ≡ false =
      ground (arith, length-append (put_u32 n) rest) in
    rw (enough, get_u32-put_u32 n rest h, drop-append 4 (put_u32 n) rest size)

unfoldable pub put_u16 : ℕ → List ℕ
put_u16 n = (n / 2 ^ 8 % 256) ∷ (n % 256) ∷ []

get_u16 : List ℕ → ℕ
get_u16 (a ∷ b ∷ _) = a * 2 ^ 8 + b
get_u16 _ = 0

unfoldable pub read_u16 : List ℕ → Option (ℕ × List ℕ)
unfolding get_u16
read_u16 cur = if ltb (length cur) 2 then none else some (get_u16 cur, drop 2 cur)

-- A 64-bit word is two of 32 bits, the higher one first.
unfoldable pub put_u64 : ℕ → List ℕ
put_u64 n = put_u32 (n / 2 ^ 32) ++ put_u32 (n % 2 ^ 32)

pub length-put_u16 : (n : ℕ) → length (put_u16 n) ≡ 2
unfolding put_u16
length-put_u16 n = refl

pub length-put_u64 : (n : ℕ) → length (put_u64 n) ≡ 8
unfolding put_u64
length-put_u64 n = omega (
  arith,
  length-append (put_u32 (n / 2 ^ 32)) (put_u32 (n % 2 ^ 32)),
  length-put_u32 (n / 2 ^ 32),
  length-put_u32 (n % 2 ^ 32),
)

unfoldable pub read_u64 : List ℕ → Option (ℕ × List ℕ)
read_u64 cur =
    if ltb (length cur) 8
    then none
    else some (get_u32 cur * 2 ^ 32 + get_u32 (drop 4 cur), drop 8 cur)

pub read_u16-put_u16 :
    (n : ℕ) (rest : List ℕ) → n < 2 ^ 16 → read_u16 (put_u16 n ++ rest) ≡ some (n, rest)
unfolding read_u16 put_u16
read_u16-put_u16 n rest h =
    let whole : n / 2 ^ 8 % 256 * 2 ^ 8 + n % 256 ≡ n = omega arith in
    let enough : ltb (suc (suc (length rest))) 2 ≡ false = ground arith in rw (enough, whole)

pub read_u64-put_u64 :
    (n : ℕ) (rest : List ℕ) → n < 2 ^ 64 → read_u64 (put_u64 n ++ rest) ≡ some (n, rest)
unfolding read_u64 put_u64
read_u64-put_u64 n rest h =
    let high = put_u32 (n / 2 ^ 32) in
    let low = put_u32 (n % 2 ^ 32) in
    let high_length = length-put_u32 (n / 2 ^ 32) in
    let both : length (high ++ low) ≡ 8 =
      omega (arith, length-append high low, high_length, length-put_u32 (n % 2 ^ 32)) in
    let enough : ltb (length ((high ++ low) ++ rest)) 8 ≡ false =
      ground (arith, length-append (high ++ low) rest) in
    let whole : n / 2 ^ 32 * 2 ^ 32 + n % 2 ^ 32 ≡ n = omega arith in
    let front : get_u32 ((high ++ low) ++ rest) ≡ n / 2 ^ 32 =
      ap get_u32 (append_assoc high low rest)
      ∙ get_u32-put_u32 (n / 2 ^ 32) (low ++ rest) (omega arith) in
    let back : get_u32 (drop 4 ((high ++ low) ++ rest)) ≡ n % 2 ^ 32 =
      ap (λ t. get_u32 (drop 4 t)) (append_assoc high low rest)
      ∙ ap get_u32 (drop-append 4 high (low ++ rest) high_length)
      ∙ get_u32-put_u32 (n % 2 ^ 32) rest (omega arith) in
    rw (enough, front, back, whole, drop-append 8 (high ++ low) rest both)

pub read_bytes-rest :
    (n : ℕ) (cur xs rest : List ℕ) → read_bytes n cur ≡ some (xs, rest) → length rest ≤ length cur
unfolding read_bytes
read_bytes-rest zero cur xs rest h = let same : cur ≡ rest = cc in omega (arith, ap length same)
read_bytes-rest (suc n) [] xs rest h = cc
read_bytes-rest (suc n) (x ∷ cur) xs rest h =
    let (ys, left, reads, made) =
      then_read-eq-some (read_bytes n cur) (λ xs rest. some (x ∷ xs, rest)) h in
    let same : left ≡ rest = cc in
    omega (arith, ap length same, read_bytes-rest n cur ys left reads)

pub read_u32-rest :
    (cur : List ℕ) (n : ℕ) (rest : List ℕ)
    → read_u32 cur ≡ some (n, rest)
    → length rest ≤ length cur
unfolding read_u32
read_u32-rest cur n rest h = elim (Bool-cases (ltb (length cur) 4)) [
  | inl short ↦ let e : none ≡ some (n, rest) = rw short at h in absurd (cc)
  | inr long ↦
      let e : some (get_u32 cur, drop 4 cur) ≡ some (n, rest) = rw long at h in
      let same : drop 4 cur ≡ rest = cc in omega (arith, ap length same, length-drop 4 cur)
]
