-- ===== src/Checksum/Uvarint.antt =====
-- The variable-length encoding that core/checksum.go writes: its length grows with the number.
use laforge.Base.{ℕ, zero, suc, ◌/◌, ◌≤◌, ◌≡◌, refl, List, [], ◌∷◌, length, arith}
use laforge.Checksum.{uvarint_bytes, uvarint, overwrite}

length-uvarint_bytes_mono :
    (fuel x y : ℕ) → x ≤ y → length (uvarint_bytes fuel x) ≤ length (uvarint_bytes fuel y)
unfolding uvarint_bytes
length-uvarint_bytes_mono zero x y h = omega arith
length-uvarint_bytes_mono (suc fuel) x y h =
    ground (arith, length-uvarint_bytes_mono fuel (x / 128) (y / 128))

pub length-uvarint_mono : (x y : ℕ) → x ≤ y → length (uvarint x) ≤ length (uvarint y)
unfolding uvarint
length-uvarint_mono x y h = length-uvarint_bytes_mono 10 x y h

-- A longer write covers an earlier shorter one.
pub overwrite-overwrite :
    (ys bs buf : List ℕ)
    → length ys ≤ length bs
    → overwrite bs (overwrite ys buf) ≡ overwrite bs buf
unfolding overwrite
overwrite-overwrite [] bs buf h = refl
overwrite-overwrite (a ∷ ys) [] buf h = absurd (omega arith)
overwrite-overwrite (a ∷ ys) (b ∷ bs) [] h = refl
overwrite-overwrite (a ∷ ys) (b ∷ bs) (c ∷ buf) h = rw (overwrite-overwrite ys bs buf (omega arith))

pub length-overwrite :
    (bs buf : List ℕ) → length bs ≤ length buf → length (overwrite bs buf) ≡ length buf
unfolding overwrite
length-overwrite [] buf h = refl
length-overwrite (b ∷ bs) [] h = refl
length-overwrite (b ∷ bs) (c ∷ buf) h = omega (arith, length-overwrite bs buf)
