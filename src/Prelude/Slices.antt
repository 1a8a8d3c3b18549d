-- ===== src/Prelude/Slices.antt =====
-- Cutting a list that is known as a concatenation.
use Prim.Native.Nat.{ℕ, ◌+◌, ◌-◌}
use mathlib.Core.Path.{◌≡◌, sym, ap, ◌∙◌}
use mathlib.Core.List.{List, ◌++◌, append_assoc}
use native.Mathlib.Omega.{arith}
use katzenpost_wt.Prelude.Lists.{length, take, drop, length-append, take-append, drop-append}

module _ {ℓ} {A : Type ℓ} where
  -- The middle of three parts.
  pub middle :
      (lo hi : ℕ) (a m c : List A)
      → length a ≡ lo
      → lo + length m ≡ hi
      → take (hi - lo) (drop lo (a ++ (m ++ c))) ≡ m
  middle lo hi a m c ha hm =
      let size : length m ≡ hi - lo = omega arith in
      ap (take (hi - lo)) (drop-append lo a (m ++ c) ha) ∙ take-append (hi - lo) m c size

  pub length_three : (a m c : List A) → length (a ++ (m ++ c)) ≡ length a + length m + length c
  length_three a m c = omega (arith, length-append a (m ++ c), length-append m c)

  -- What follows the first two parts.
  pub drop_two : (hi : ℕ) (a m c : List A) → length a + length m ≡ hi → drop hi (a ++ (m ++ c)) ≡ c
  drop_two hi a m c h =
      ap (drop hi) (sym (append_assoc a m c))
      ∙ drop-append hi (a ++ m) c (omega (arith, length-append a m))
