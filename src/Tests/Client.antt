-- ===== src/Tests/Client.antt =====
-- The client's random ids and the order of the nodes, at concrete inputs.
use raft_example.Prelude.{
  ℕ, ◌⊎◌, ◌≤◌, ◌++◌, ◌==◌, if◌then◌else◌, ◌≡◌, ◌<◌, ◌+◌, ◌*◌, ◌/◌, refl, true, Option, some, [],
  ◌∷◌, Bytes, bytes_of, length, All, arith,
}
use raft_example.Gossip.Address.{has}
use raft_example.Client.{id_chars, take_byte, full, part, take_bytes, random_id, chars_of}
use raft_example.Client.Random.{random_id_lem}
use raft_example.Client.Taken.{take_byte_cases}

-- A source that gives bytes of which one in two is too large.
abbrev draw : ℕ → ℕ → Bytes
draw round n = 255 ∷ 63 ∷ []

abbrev drawn : Option (Option Bytes)
drawn = random_id draw 5 3

random_id_lem_example :
    (s : Bytes) × (some (bytes_of "BBB") ≡ some s)
    × (length s ≡ 3)
    × All (λ c. has c id_chars ≡ true) s
unfolding random_id take_bytes chars_of
random_id_lem_example = random_id_lem draw 5 3 (some (bytes_of "BBB")) refl

abbrev one_taken : Bytes
one_taken = 7 ∷ []

take_byte_cases_example :
    ((3 < 256 / 62)
      × (take_byte 2 62 (5 + 3 * 62) one_taken ≡ (
          if length one_taken + 1 == 2
          then full (one_taken ++ 5 ∷ [])
          else part (one_taken ++ 5 ∷ []))))
    ⊎ ((256 / 62 ≤ 3) × (take_byte 2 62 (5 + 3 * 62) one_taken ≡ part one_taken))
take_byte_cases_example =
    take_byte_cases 2 62 5 3 one_taken (omega arith) (omega arith) (omega arith)
