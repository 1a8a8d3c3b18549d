-- ===== src/Pigeonhole/Element.antt =====
-- `CopyStreamElement`: its encoding in pigeonhole/trunnel_messages.go, and its flags in
-- pigeonhole/copy_stream.go.
use Prim.Native.Nat.{bit_and}
use katzenpost_wt.Prelude.{
  ℕ, ◌+◌, ◌^◌, ◌<◌, ◌≡◌, Bool, not, List, [], ◌∷◌, ◌++◌, Option, none, some, arith, length,
  length-append, ◌==◌, if◌then◌else◌, take, take_all, drop, take-append, ap, sym, ◌∙◌,
}
use mathlib.Core.List.{append_assoc, append-nil}
use katzenpost_wt.Prelude.Bytes.{put_u32, length-put_u32, get_u32, get_u32-put_u32}
use katzenpost_wt.Pigeonhole.Wire.{
  then_read, then_read-eq-some, read_u32-rest, read_bytes-rest, read_u8, read_u32, read_bytes,
  read_bytes-append, read_u32-put_u32,
}

abbrev pub start_flag : ℕ
start_flag = 0x01

abbrev pub final_flag : ℕ
final_flag = 0x02

abbrev pub element_overhead : ℕ
element_overhead = 5

pub record CopyStreamElement : Type 0 where
  pub flags : ℕ
  pub envelope_len : ℕ
  pub envelope_data : List ℕ

-- `IsStart` and `IsFinal`.
unfoldable pub is_start : CopyStreamElement → Bool
is_start elem = not (bit_and elem.flags start_flag == 0)

unfoldable pub is_final : CopyStreamElement → Bool
is_final elem = not (bit_and elem.flags final_flag == 0)

unfoldable pub parse_element : List ℕ → Option (CopyStreamElement × List ℕ)
parse_element bs = then_read (read_u8 bs) (λ f cur. then_read (read_u32 cur) (λ n cur.
    then_read (read_bytes n cur)
      (λ bytes rest. some (record { flags = f; envelope_len = n; envelope_data = bytes }, rest))))

unfoldable pub encode_element : CopyStreamElement → List ℕ
encode_element elem =
    (elem.flags ∷ put_u32 elem.envelope_len) ++ take elem.envelope_len elem.envelope_data

-- `MarshalBinary`, with `none` for the violated length constraint of `validate`.
unfoldable pub marshal_element : CopyStreamElement → Option (List ℕ)
unfolding encode_element
marshal_element elem =
    if length elem.envelope_data == elem.envelope_len then some (encode_element elem) else none

pub marshal_element-fits :
    (elem : CopyStreamElement)
    → length elem.envelope_data ≡ elem.envelope_len
    → marshal_element elem ≡ some (encode_element elem)
unfolding marshal_element
marshal_element-fits elem size = ground (arith, size)

parse_fields :
    (f n : ℕ) (bytes rest cur : List ℕ) {cur' : List ℕ}
    → read_u32 cur ≡ some (n, cur')
    → read_bytes n cur' ≡ some (bytes, rest)
    → parse_element (f ∷ cur)
      ≡ some (record { flags = f; envelope_len = n; envelope_data = bytes }, rest)
unfolding parse_element read_u8
parse_fields f n bytes rest cur h1 h2 = rw (h1, parse_element, h2)

-- An element takes at least the byte of its flags.
pub parse_element-rest :
    (b rest : List ℕ) (elem : CopyStreamElement)
    → parse_element b ≡ some (elem, rest)
    → length rest < length b
unfolding parse_element read_u8
parse_element-rest [] rest elem h = cc
parse_element-rest (x ∷ b) rest elem h =
    let (n, cur, reads, then_bytes) = then_read-eq-some (read_u32 b) _ h in
    let (bytes, left, reads', made) = then_read-eq-some (read_bytes n cur) _ then_bytes in
    let same : left ≡ rest = cc in
    omega
      (arith, ap length same, read_u32-rest b n cur reads, read_bytes-rest n cur bytes left reads')

module _ (elem : CopyStreamElement) (size : length elem.envelope_data ≡ elem.envelope_len) where
  pub length-encode_element : length (encode_element elem) ≡ element_overhead + elem.envelope_len
  unfolding encode_element
  length-encode_element =
      let n = elem.envelope_len in
      rw (take_all n elem.envelope_data size)
        (omega (arith, length-append (put_u32 n) elem.envelope_data, length-put_u32 n, size))

  -- The bytes that `DecodeAvailable` reads ahead.
  pub length_field :
      elem.envelope_len < 2 ^ 32
      → get_u32 (take 4 (drop 1 (encode_element elem))) ≡ elem.envelope_len
  unfolding encode_element
  length_field small =
      let n = elem.envelope_len in
      let body = take n elem.envelope_data in
      ap get_u32 (take-append 4 (put_u32 n) body (length-put_u32 n) ∙ sym (append-nil (put_u32 n)))
      ∙ get_u32-put_u32 n [] small

  pub parse_element-encode_element :
      (rest : List ℕ)
      → elem.envelope_len < 2 ^ 32
      → parse_element (encode_element elem ++ rest) ≡ some (elem, rest)
  unfolding encode_element
  parse_element-encode_element rest small =
      let n = elem.envelope_len in
      let bytes = elem.envelope_data in
      rw (take_all n bytes size, append_assoc (put_u32 n) bytes rest)
        (parse_fields elem.flags n bytes rest (put_u32 n ++ (bytes ++ rest))
          (read_u32-put_u32 n (bytes ++ rest) small) (read_bytes-append n bytes rest size))

-- An element whose length field is right is encoded, in five bytes more than its data, and parsing
-- the encoding, whatever follows it, gives the element and what follows.
pub parse_element-marshal_element :
    (elem : CopyStreamElement) (rest : List ℕ)
    → length elem.envelope_data ≡ elem.envelope_len
    → elem.envelope_len < 2 ^ 32
    → (bytes : List ℕ) × (marshal_element elem ≡ some bytes)
      × (length bytes ≡ element_overhead + elem.envelope_len)
      × (parse_element (bytes ++ rest) ≡ some (elem, rest))
parse_element-marshal_element elem rest size small = (
  encode_element elem,
  marshal_element-fits elem size,
  length-encode_element elem size,
  parse_element-encode_element elem size rest small,
)
