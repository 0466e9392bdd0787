-- ===== src/Base/Bytes.antt =====
-- Little-endian numbers over lists of bytes, and the CRC-32C (Castagnoli) of hash/crc32.
use Prim.Native.Nat.{ℕ, zero, suc, ◌+◌, ◌-◌, ◌*◌, ◌/◌, ◌%◌, ◌^◌, ◌<◌, bit_xor}
use mathlib.Core.Path.{◌≡◌, refl, ap}
use mathlib.Core.List.{List, [], ◌∷◌}
use native.Mathlib.Omega.{arith}
use native.Mathlib.Numerals.{unary_clauses}
use veltrix_db.Base.Tests.{if◌then◌else◌, ◌==◌}
use veltrix_db.Base.Lists.{length}

-- `w` bytes of a number, the lowest first.
abbrev pub put_le : ℕ → ℕ → List ℕ
put_le zero n = []
put_le (suc w) n = n % 256 ∷ put_le w (n / 256)

abbrev pub get_le : List ℕ → ℕ
get_le [] = 0
get_le (b ∷ bs) = b + 256 * get_le bs

pub length-put_le : (w n : ℕ) → length (put_le w n) ≡ w
length-put_le zero n = refl
length-put_le (suc w) n = ap suc (length-put_le w (n / 256))

pub get_le-put_le : (w n : ℕ) → n < 256 ^ w → get_le (put_le w n) ≡ n
get_le-put_le zero n h = omega arith
get_le-put_le (suc w) n h =
    omega (arith, get_le-put_le w (n / 256) (smaller n (256 ^ w) (simp unary_clauses at h)))
  where
    smaller : (a p : ℕ) → a < p * 256 → a / 256 < p
    smaller a p h' = omega arith

crc_bits : ℕ → ℕ → ℕ
crc_bits zero c = c
crc_bits (suc k) c = crc_bits k (if c % 2 == 1 then bit_xor (c / 2) 2_197_175_160 else c / 2)

crc_bytes : ℕ → List ℕ → ℕ
crc_bytes c [] = c
crc_bytes c (b ∷ bs) = crc_bytes (crc_bits 8 (bit_xor c b)) bs

-- crc32.Checksum with the Castagnoli table, a uint32
unfoldable pub crc32c : List ℕ → ℕ
unfolding crc_bits crc_bytes
crc32c bs = bit_xor (crc_bytes (2 ^ 32 - 1) bs) (2 ^ 32 - 1) % 2 ^ 32

pub crc32c-lt : (bs : List ℕ) → crc32c bs < 2 ^ 32
unfolding crc32c
crc32c-lt bs = omega arith

-- The check value of CRC-32C, of the bytes "123456789".
crc32c_check : crc32c (49 ∷ 50 ∷ 51 ∷ 52 ∷ 53 ∷ 54 ∷ 55 ∷ 56 ∷ 57 ∷ []) ≡ 3_808_858_755
unfolding crc32c
crc32c_check = refl
