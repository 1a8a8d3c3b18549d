-- ===== src/Server/MixKey.antt =====
-- The replay filter of server/internal/mixkey/mixkey.go. The Bloom filter belongs to another
-- library: `Bloom` is what the key calls, and `IsBloom` what a Bloom filter promises.
use katzenpost_wt.Prelude.{
  ℕ, ◌≡◌, Bool, true, not, List, Run, ok, panic, length, leb, ◌==◌, if◌then◌else◌,
}
use katzenpost_wt.Prelude.Bytes.{copy_array}
use katzenpost_wt.Sphinx.Crypto.{Primitives}

pub record Bloom : Type 1 where
  pub Filter : Type 0
  pub entries : Filter → ℕ
  pub max_entries : Filter → ℕ
  -- `TestAndSet`: whether the tag was there, and the filter with it.
  pub test_and_set : Filter → List ℕ → Bool × Filter

-- A Bloom filter has no false negatives: a tag that was set is found, after any other calls.
pub record IsBloom (B : Bloom) : Type 0 where
  pub found : (f : B.Filter) (tag : List ℕ) → (B.test_and_set (B.test_and_set f tag).1 tag).0 ≡ true
  pub kept :
      (f : B.Filter) (tag other : List ℕ)
      → (B.test_and_set f tag).0 ≡ true
      → (B.test_and_set (B.test_and_set f other).1 tag).0 ≡ true

abbrev pub tag_length : ℕ
tag_length = 32

-- A key with its filter; the references to it are not counted here.
pub record MixKey (P : Primitives) (B : Bloom) : Type 0 where
  pub private_key : P.PrivateKey
  pub epoch : ℕ
  pub filter : B.Filter

-- `IsReplay`, with the key that it leaves.
unfoldable pub is_replay :
    {E : Type 0} {P : Primitives} {B : Bloom} → MixKey P B → List ℕ → Run E (Bool × MixKey P B)
is_replay {B = B} k raw_tag =
    if not (length raw_tag == tag_length)
    then ok (true, k)
    else (if leb (B.max_entries k.filter) (B.entries k.filter)
        then panic
        else (let (seen, filter) = B.test_and_set k.filter (copy_array tag_length raw_tag) in
            ok (seen, record k { filter = filter })))
