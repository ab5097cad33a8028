-- ===== src/Checksum.antt =====
-- core/checksum.go: the hash of a list of checksums.
pub mod Uvarint
pub mod Hash
use laforge.Base.{
  ℕ, zero, suc, ◌+◌, ◌*◌, ◌/◌, ◌%◌, List, [], ◌∷◌, length, replicate, ltb, if◌then◌else◌,
}
use laforge.Base.Sort.{sort}

-- The bytes of `binary.PutUvarint`, at most `fuel` of them.
uvarint_bytes : ℕ → ℕ → List ℕ
uvarint_bytes zero x = []
uvarint_bytes (suc fuel) x =
    let rest = uvarint_bytes fuel (x / 128) in if ltb x 128 then x ∷ [] else (x % 128 + 128) ∷ rest

-- A uint64 has 64 bits, so ten groups of seven hold it.
abbrev pub max_varint_len : ℕ
max_varint_len = 10

pub uvarint : ℕ → List ℕ
unfolding uvarint_bytes
uvarint x = uvarint_bytes max_varint_len x

-- A write of some bytes from the start of the buffer. Past its end Go panics; here the rest is lost.
pub overwrite : List ℕ → List ℕ → List ℕ
overwrite [] buf = buf
overwrite (b ∷ bs) [] = []
overwrite (b ∷ bs) (c ∷ buf) = b ∷ overwrite bs buf

-- for _, x := range c { binary.PutUvarint(buf, x) }
fill : List ℕ → List ℕ → List ℕ
fill [] buf = buf
fill (x ∷ xs) buf = fill xs (overwrite (uvarint x) buf)

-- make([]byte, binary.Size(c)*64), where a uint64 has size 8
pub buffer : List ℕ → List ℕ
buffer c = replicate (length c * 8 * 64) 0

module _ (sum64 : List ℕ → ℕ) where
  -- The list is sorted by the order of `Less`. `sum64` is xxhash.Sum64.
  unfoldable pub hash : List ℕ → ℕ
  unfolding fill buffer overwrite uvarint
  hash c = sum64 (fill (sort c) (buffer c))
