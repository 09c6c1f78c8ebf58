-- ===== src/Fsm/Endian.antt =====
-- encoding/binary's little-endian numbers: `put_le w` is PutUint16, PutUint32 or PutUint64 at the
-- width `w` in bytes, and keeps the low `8 * w` bits; `get_le` reads as many bytes as it is given.
use raft_example.Prelude.{
  ℕ, zero, suc, ◌+◌, ◌*◌, ◌/◌, ◌%◌, ◌^◌, ◌<◌, ◌≡◌, refl, ap, arith, [], ◌∷◌, length, Bytes,
}
use native.Mathlib.Nat.{pow-suc}

unfoldable pub put_le : ℕ → ℕ → Bytes
put_le zero v = []
put_le (suc w) v = (v % 256) ∷ put_le w (v / 256)

unfoldable pub get_le : Bytes → ℕ
get_le [] = 0
get_le (b ∷ bs) = b + 256 * get_le bs

pub length-put_le : (w v : ℕ) → length (put_le w v) ≡ w
unfolding put_le
length-put_le zero v = refl
length-put_le (suc w) v = ap suc (length-put_le w (v / 256))

-- A number that fits the width is read back.
pub get_le-put_le : (w v : ℕ) → v < 256 ^ w → get_le (put_le w v) ≡ v
unfolding put_le get_le
get_le-put_le zero v h = omega arith
get_le-put_le (suc w) v h = omega (arith, get_le-put_le w (v / 256) (fits w v h))
  where
    fits : (w v : ℕ) → v < 256 ^ suc w → v / 256 < 256 ^ w
    fits w v h = omega (arith, pow-suc 256 w)
