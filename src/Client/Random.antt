-- ===== src/Client/Random.antt =====
-- The random ids of the client: their length and characters, which bytes are taken, and that the
-- loop ends.
use raft_example.Prelude.{
  ℕ, zero, suc, ◌≡◌, ◌<◌, refl, sym, ap, ◌∙◌, subst, Bool, true, false, Option, none, some, [], ◌∷◌,
  ◌++◌, Bytes, length, length-append, All, arith, if◌then◌else◌, ltb, ◌==◌, ==_refl, ◌+◌, ◌/◌, ◌%◌,
}
use native.Mathlib.Nat.{mod-lt}
use raft_example.Gossip.Address.{has}
use raft_example.Client.{
  id_chars, maxrb, Filled, full, part, take_byte, take_bytes, draw_rounds, random_bytes_mod,
  char_at, put_char, chars_of, random_id,
}

All-snoc : (P : ℕ → Type 0) (xs : Bytes) (x : ℕ) → All P xs → P x → All P (xs ++ x ∷ [])
All-snoc P [] x h hx = (hx, tt)
All-snoc P (y ∷ xs) x (hy, h) hx = (hy, All-snoc P xs x h hx)

module _ (len modulus : ℕ) (positive : 0 < modulus) where
  -- A full result, and a part of one.
  IsFilled : Filled → Type 0
  IsFilled (full b) = (length b ≡ len) × All (λ c. c < modulus) b
  IsFilled (part b) = All (λ c. c < modulus) b

  take_byte-IsFilled :
      (c : ℕ) (b : Bytes) → All (λ x. x < modulus) b → IsFilled (take_byte len modulus c b)
  unfolding take_byte IsFilled
  take_byte-IsFilled c b h = by_tests (ltb (maxrb modulus) c) (length b + 1 == len) refl
    where
      grown : All (λ x. x < modulus) (b ++ (c % modulus) ∷ [])
      grown = All-snoc (λ x. x < modulus) b (c % modulus) h (mod-lt c positive)

      by_tests :
          (refused last : Bool)
          → (length b + 1 == len) ≡ last
          → IsFilled (
              if refused
              then part b
              else if last
              then full (b ++ (c % modulus) ∷ [])
              else part (b ++ (c % modulus) ∷ []))
      by_tests true last e = h
      by_tests false true e = (ground (arith, length-append b ((c % modulus) ∷ []), e), grown)
      by_tests false false e = grown

  take_bytes-IsFilled :
      (cs b : Bytes) → All (λ x. x < modulus) b → IsFilled (take_bytes len modulus cs b)
  unfolding take_bytes IsFilled
  take_bytes-IsFilled [] b h = h
  take_bytes-IsFilled (c ∷ cs) b h =
      by_filled (take_byte len modulus c b) (take_byte-IsFilled c b h) (take_bytes-IsFilled cs)
    where
      by_filled :
          (f : Filled)
          → IsFilled f
          → ((b' : Bytes) → All (λ x. x < modulus) b' → IsFilled (take_bytes len modulus cs b'))
          → IsFilled (elim f [ full b' ↦ full b' | part b' ↦ take_bytes len modulus cs b' ])
      by_filled (full b') k rest = k
      by_filled (part b') k rest = rest b' k

  draw_rounds_lem :
      (random : ℕ → ℕ → Bytes) (fuel round : ℕ) (b b' : Bytes)
      → All (λ x. x < modulus) b
      → draw_rounds len modulus random fuel round b ≡ some b'
      → (length b' ≡ len) × All (λ x. x < modulus) b'
  unfolding draw_rounds IsFilled
  draw_rounds_lem random zero round b b' h e = absurd (cc)
  draw_rounds_lem random (suc fuel) round b b' h e =
      by_filled (take_bytes len modulus (random round (len + len / 4)) b)
        (take_bytes-IsFilled (random round (len + len / 4)) b h)
        (λ c. draw_rounds_lem random fuel (round + 1) c b') e
    where
      by_filled :
          (f : Filled)
          → IsFilled f
          → ((c : Bytes)
              → All (λ x. x < modulus) c
              → draw_rounds len modulus random fuel (round + 1) c ≡ some b'
              → (length b' ≡ len) × All (λ x. x < modulus) b')
          → elim f [ full c ↦ some c | part c ↦ draw_rounds len modulus random fuel (round + 1) c ]
            ≡ some b'
          → (length b' ≡ len) × All (λ x. x < modulus) b'
      by_filled (full c) k rest same_result =
          let e' : c ≡ b' = ground arith in
          subst (λ x. (length x ≡ len) × All (λ y. y < modulus) x) e' k
      by_filled (part c) k rest same_result = rest c k same_result

-- The characters of a table, for indices in it.
char_at-has :
    (cs : Bytes) (n : ℕ) → n < length cs → (c : ℕ) × (char_at cs n ≡ some c) × (has c cs ≡ true)
unfolding char_at has
char_at-has [] n h = absurd (omega (arith, h))
char_at-has (c ∷ cs) zero h = (c, refl, rw (==_refl c) refl)
char_at-has (c ∷ cs) (suc n) h =
    let (d, e, there) = char_at-has cs n (omega (arith, h)) in (d, e, ground (arith, there))

chars_of_lem :
    (ns : Bytes)
    → All (λ n. n < length id_chars) ns
    → (s : Bytes) × (chars_of ns ≡ some s)
      × (length s ≡ length ns)
      × All (λ c. has c id_chars ≡ true) s
unfolding chars_of put_char
chars_of_lem [] h = ([], refl, refl, tt)
chars_of_lem (n ∷ ns) (hn, h) =
    let (c, e, there) = char_at-has id_chars n hn in
    let (s, e', sized, all) = chars_of_lem ns h in
    (c ∷ s, rw (e, e') refl, ap suc sized, (there, all))

-- When randomId returns, it does not index the table out of range, and the id has the length that
-- was asked for and only characters of the table.
pub random_id_lem :
    (random : ℕ → ℕ → Bytes) (fuel id_len : ℕ) (r : Option Bytes)
    → random_id random fuel id_len ≡ some r
    → (s : Bytes) × (r ≡ some s) × (length s ≡ id_len) × All (λ c. has c id_chars ≡ true) s
unfolding random_id random_bytes_mod
random_id_lem random fuel id_len r e =
    by_bytes (random_bytes_mod id_len (length id_chars) random fuel) refl e
  where
    by_bytes :
        (o : Option Bytes)
        → random_bytes_mod id_len (length id_chars) random fuel ≡ o
        → elim o [ none ↦ none | some b ↦ some (chars_of b) ] ≡ some r
        → (s : Bytes) × (r ≡ some s) × (length s ≡ id_len) × All (λ c. has c id_chars ≡ true) s
    by_bytes none drawn k = absurd (cc)
    by_bytes (some b) drawn k =
        let (sized, below) =
          draw_rounds_lem id_len (length id_chars) (omega arith) random fuel 0 [] b tt drawn in
        let (s, chars, same_length, all) = chars_of_lem b below in
        let same_result : chars_of b ≡ r = ground arith in
        (s, sym same_result ∙ chars, same_length ∙ sized, all)
