-- ===== src/Sphinx/Packet/Slicing.antt =====
-- The slice expressions of core/sphinx/sphinx.go on a packet that is known by its parts.
use katzenpost_wt.Prelude.{
  ℕ, ◌+◌, ◌≤◌, ◌≡◌, true, ◌&&◌, List, ◌++◌, ok, arith, leb, length, take-append,
}
use katzenpost_wt.Prelude.Bytes.{overwrite_all}
use katzenpost_wt.Prelude.Slices.{middle, length_three, drop_two}
use katzenpost_wt.Sphinx.Packet.{sub_slice, copy_at}

in_range : (lo hi n : ℕ) → lo ≤ hi → hi ≤ n → (leb lo hi && leb hi n) ≡ true
in_range lo hi n p q = ground arith

module _ (lo hi : ℕ) (a m c : List ℕ) (ha : length a ≡ lo) (hm : lo + length m ≡ hi) where
  range_ok : (leb lo hi && leb hi (length (a ++ (m ++ c)))) ≡ true
  range_ok = in_range lo hi _ (omega arith) (omega (arith, length_three a m c))

  pub sub_slice-ok : sub_slice lo hi (a ++ (m ++ c)) ≡ ok m
  unfolding sub_slice
  sub_slice-ok = rw (range_ok, middle lo hi a m c ha hm)

  pub copy_at-ok :
      (src : List ℕ)
      → length src ≡ length m
      → copy_at lo hi src (a ++ (m ++ c)) ≡ ok (a ++ (src ++ c))
  unfolding copy_at
  copy_at-ok src h = rw (
    range_ok,
    middle lo hi a m c ha hm,
    overwrite_all m src h,
    take-append lo a (m ++ c) ha,
    drop_two hi a m c (omega arith),
  )
