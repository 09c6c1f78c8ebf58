-- ===== src/Client.antt =====
-- cmd/cmd.go: the random ids of the client.
pub mod Random
pub mod Taken
pub mod Drawing
pub mod Demo
pub mod Following
use raft_example.Prelude.{
  ℕ, zero, suc, ◌≡◌, Bool, true, false, Option, none, some, List, [], ◌∷◌, ◌++◌, Bytes, bytes_of,
  Result, ok, err, if◌then◌else◌, ltb, ◌==◌, length, ◌+◌, ◌-◌, ◌/◌, ◌%◌,
}

abbrev pub id_chars : Bytes
id_chars = bytes_of "ABCDEFGHIJKLMNOPQRSTUVWXYZabcdefghijklmnopqrstuvwxyz0123456789"

-- The largest byte that is taken, in eight bits.
unfoldable pub maxrb : ℕ → ℕ
maxrb modulus = 255 - (256 % modulus) % 256

-- The result with its first bytes filled, which are those of `b` up to `i`.
pub data Filled : Type 0 where
  full : Bytes → Filled
  part : Bytes → Filled

module _ (len modulus : ℕ) where
  -- The loop's body: one random byte.
  unfoldable pub take_byte : ℕ → Bytes → Filled
  unfolding maxrb
  take_byte c b =
      if ltb (maxrb modulus) c
      then part b
      else if length b + 1 == len
      then full (b ++ (c % modulus) ∷ [])
      else part (b ++ (c % modulus) ∷ [])

  unfoldable pub take_bytes : Bytes → Bytes → Filled
  unfolding take_byte
  take_bytes [] b = part b
  take_bytes (c ∷ cs) b = elim (take_byte c b) [ full b' ↦ full b' | part b' ↦ take_bytes cs b' ]

  -- The outer loop, over the draws of `randomBytes`, at most as many as the fuel.
  unfoldable pub draw_rounds : (ℕ → ℕ → Bytes) → ℕ → ℕ → Bytes → Option Bytes
  unfolding take_bytes
  draw_rounds random zero round b = none
  draw_rounds random (suc fuel) round b = elim (take_bytes (random round (len + len / 4)) b) [
    | full b' ↦ some b'
    | part b' ↦ draw_rounds random fuel (round + 1) b'
  ]

  -- `random round n` are the `n` bytes that `rand.Reader` gives in that round.
  unfoldable pub random_bytes_mod : (ℕ → ℕ → Bytes) → ℕ → Option Bytes
  unfolding draw_rounds
  random_bytes_mod random fuel = draw_rounds random fuel 0 []

-- `none` is an index out of range, which panics.
unfoldable pub char_at : Bytes → ℕ → Option ℕ
char_at [] n = none
char_at (c ∷ cs) zero = some c
char_at (c ∷ cs) (suc n) = char_at cs n

put_char : Option ℕ → Option Bytes → Option Bytes
put_char none cs = none
put_char (some c) none = none
put_char (some c) (some cs) = some (c ∷ cs)

unfoldable pub chars_of : Bytes → Option Bytes
unfolding char_at put_char
chars_of [] = some []
chars_of (n ∷ ns) = put_char (char_at id_chars n) (chars_of ns)

-- The outer `none` is a loop that has not ended, the inner one a panic.
unfoldable pub random_id : (ℕ → ℕ → Bytes) → ℕ → ℕ → Option (Option Bytes)
unfolding random_bytes_mod chars_of
random_id random fuel id_len = elim (random_bytes_mod id_len (length id_chars) random fuel) [
  | none ↦ none
  | some b ↦ some (chars_of b)
]
