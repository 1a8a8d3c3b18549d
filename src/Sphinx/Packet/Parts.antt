-- ===== src/Sphinx/Packet/Parts.antt =====
-- The parts of a NIKE Sphinx packet: the version, the group element, the routing information, the
-- MAC and the body, and what the slice expressions of core/sphinx/sphinx.go make of them.
use katzenpost_wt.Prelude.{
  ℕ, ◌+◌, ◌≡◌, refl, sym, ap, ◌∙◌, List, [], ◌++◌, ok, arith, length, length-append,
}
use mathlib.Core.List.{append_assoc, append-nil}
use katzenpost_wt.Sphinx.Header.{v0_ad}
use katzenpost_wt.Sphinx.Packet.{sub_slice, copy_at}
use katzenpost_wt.Sphinx.Packet.Slicing.{sub_slice-ok, copy_at-ok}

abbrev pub assemble : (element info mac body : List ℕ) → List ℕ
assemble element info mac body = v0_ad ++ (element ++ (info ++ (mac ++ body)))

pub length-assemble :
    (element info mac body : List ℕ)
    → length (assemble element info mac body)
      ≡ 2 + length element + length info + length mac + length body
length-assemble element info mac body = omega (
  arith,
  length-append element (info ++ (mac ++ body)),
  length-append info (mac ++ body),
  length-append mac body,
)

-- The element is `n` bytes long, and the routing information `r`.
module _ (n r : ℕ) (element info mac body : List ℕ) (hn : length element ≡ n) (hr : length info ≡ r)
    (hm : length mac ≡ 32) where
  abbrev packet : List ℕ
  packet = assemble element info mac body

  abbrev header : List ℕ
  header = v0_ad ++ (element ++ info)

  abbrev before_body : List ℕ
  before_body = v0_ad ++ (element ++ (info ++ mac))

  length-header : length header ≡ 2 + n + r
  length-header = omega (arith, length-append element info)

  length-before_body : length before_body ≡ 2 + n + r + 32
  length-before_body = omega (arith, length-append element (info ++ mac), length-append info mac)

  by_header : packet ≡ header ++ (mac ++ body)
  by_header = ap (λ t. v0_ad ++ t) (sym (append_assoc element info (mac ++ body)))

  by_body : packet ≡ before_body ++ (body ++ [])
  by_body = simp (append_assoc, append-nil)

  length-by_body : 2 + n + r + 32 + length body ≡ length (before_body ++ (body ++ []))
  length-by_body =
      omega
        (arith, length-before_body, length-append before_body (body ++ []), length-append body [])

  pub version_slice : sub_slice 0 2 packet ≡ ok v0_ad
  version_slice = sub_slice-ok 0 2 [] v0_ad _ refl refl

  pub element_slice : sub_slice 2 (2 + n) packet ≡ ok element
  element_slice = sub_slice-ok 2 (2 + n) v0_ad element _ refl (ap (λ k. 2 + k) hn)

  pub info_slice : sub_slice (2 + n) (2 + n + r) packet ≡ ok info
  info_slice =
      sub_slice-ok (2 + n) (2 + n + r) (v0_ad ++ element) info (mac ++ body) (omega arith)
        (omega arith)

  pub covered_slice : sub_slice 0 (2 + n + r) packet ≡ ok header
  covered_slice =
      ap (sub_slice 0 (2 + n + r)) by_header
      ∙ sub_slice-ok 0 (2 + n + r) [] header (mac ++ body) refl (omega (arith, length-header))

  pub mac_slice : sub_slice (2 + n + r) (2 + n + r + 32) packet ≡ ok mac
  mac_slice =
      ap (sub_slice (2 + n + r) (2 + n + r + 32)) by_header
      ∙ sub_slice-ok (2 + n + r) (2 + n + r + 32) header mac body length-header (omega arith)

  pub body_slice : sub_slice (2 + n + r + 32) (length packet) packet ≡ ok body
  body_slice =
      ap (λ t. sub_slice (2 + n + r + 32) (length t) t) by_body
      ∙ sub_slice-ok (2 + n + r + 32) _ before_body body [] length-before_body length-by_body

  pub element_copy :
      (new : List ℕ)
      → length new ≡ n
      → copy_at 2 (2 + n) new packet ≡ ok (assemble new info mac body)
  element_copy new h =
      copy_at-ok 2 (2 + n) v0_ad element (info ++ (mac ++ body)) refl (ap (λ k. 2 + k) hn) new
        (h ∙ sym hn)

  pub info_copy :
      (new : List ℕ)
      → length new ≡ r
      → copy_at (2 + n) (2 + n + r) new packet ≡ ok (assemble element new mac body)
  info_copy new h =
      copy_at-ok (2 + n) (2 + n + r) (v0_ad ++ element) info (mac ++ body) (omega arith)
        (omega arith) new (h ∙ sym hr)

  pub mac_copy :
      (new : List ℕ)
      → length new ≡ 32
      → copy_at (2 + n + r) (2 + n + r + 32) new packet ≡ ok (assemble element info new body)
  mac_copy new h =
      ap (copy_at (2 + n + r) (2 + n + r + 32) new) by_header
      ∙ copy_at-ok (2 + n + r) (2 + n + r + 32) header mac body length-header (omega arith) new
          (h ∙ sym hm)
      ∙ ap (λ t. ok (v0_ad ++ t)) (append_assoc element info (new ++ body))

  pub body_copy :
      (new : List ℕ)
      → length new ≡ length body
      → copy_at (2 + n + r + 32) (length packet) new packet ≡ ok (assemble element info mac new)
  body_copy new h =
      ap (λ t. copy_at (2 + n + r + 32) (length t) new t) by_body
      ∙ copy_at-ok (2 + n + r + 32) _ before_body body [] length-before_body length-by_body new h
      ∙ ap ok (simp (append_assoc, append-nil))
