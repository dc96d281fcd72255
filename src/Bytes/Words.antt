-- ===== src/Bytes/Words.antt =====
-- Writing a word and reading it back, and the other way round.
use wal_distributed_rs.Common.{
  ℕ, zero, suc, ◌+◌, ◌*◌, ◌/◌, ◌%◌, ◌^◌, ◌<◌, ◌≡◌, refl, ap, List, [], ◌∷◌, length, All, arith,
}
use wal_distributed_rs.Bytes.{IsByte, le_bytes, from_le}

pub length-le_bytes : (w v : ℕ) → length (le_bytes w v) ≡ w
unfolding le_bytes
length-le_bytes zero v = refl
length-le_bytes (suc w) v = ap suc (length-le_bytes w (v / 256))

pub le_bytes-IsByte : (w v : ℕ) → All IsByte (le_bytes w v)
unfolding le_bytes
le_bytes-IsByte zero v = tt
le_bytes-IsByte (suc w) v = (omega arith, le_bytes-IsByte w (v / 256))

pub from_le-le_bytes : (w v : ℕ) → v < 256 ^ w → from_le (le_bytes w v) ≡ v
unfolding from_le le_bytes
from_le-le_bytes zero v h = omega arith
from_le-le_bytes (suc w) v h = omega (arith, from_le-le_bytes w (v / 256) (omega arith))

pub from_le-lt : (w : ℕ) (bs : List ℕ) → All IsByte bs → length bs ≡ w → from_le bs < 256 ^ w
unfolding from_le
from_le-lt zero [] h e = omega arith
from_le-lt zero (b ∷ bs) h e = absurd (omega arith)
from_le-lt (suc w) [] h e = absurd (omega arith)
from_le-lt (suc w) (b ∷ bs) h e = omega (arith, from_le-lt w bs h.1 (omega arith))

pub le_bytes-from_le :
    (w : ℕ) (bs : List ℕ) → All IsByte bs → length bs ≡ w → le_bytes w (from_le bs) ≡ bs
unfolding from_le le_bytes
le_bytes-from_le zero [] h e = refl
le_bytes-from_le zero (b ∷ bs) h e = absurd (omega arith)
le_bytes-from_le (suc w) [] h e = absurd (omega arith)
le_bytes-from_le (suc w) (b ∷ bs) (hb, hbs) e =
    let low : (b + 256 * from_le bs) % 256 ≡ b = omega arith in
    let high : (b + 256 * from_le bs) / 256 ≡ from_le bs = omega arith in
    rw (low, high, le_bytes-from_le w bs hbs (omega arith))

-- The words of the file formats.
pub u64_round_trip : (v : ℕ) → v < 2 ^ 64 → from_le (le_bytes 8 v) ≡ v
u64_round_trip v h = from_le-le_bytes 8 v (omega arith)

pub u32_round_trip : (v : ℕ) → v < 2 ^ 32 → from_le (le_bytes 4 v) ≡ v
u32_round_trip v h = from_le-le_bytes 4 v (omega arith)
