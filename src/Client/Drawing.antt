-- ===== src/Client/Drawing.antt =====
-- The end of the loop over the random bytes.
use raft_example.Prelude.{
  ℕ, zero, suc, ◌≡◌, ◌<◌, ◌≤◌, refl, sym, ap, subst, inl, inr, Bool, true, false, Bool-cases,
  Option, none, some, [], ◌∷◌, ◌++◌, Bytes, length, length-append, arith, if◌then◌else◌, ltb, ◌==◌,
  ◌||◌, not, ==_iff, ◌+◌, ◌/◌, ◌%◌,
}
use raft_example.Client.{
  maxrb, Filled, full, part, take_byte, take_bytes, draw_rounds, random_bytes_mod,
}

-- A draw that has a byte to take.
abbrev pub has_taken : ℕ → Bytes → Bool
has_taken modulus [] = false
has_taken modulus (c ∷ cs) = not (ltb (maxrb modulus) c) || has_taken modulus cs

module _ (len modulus : ℕ) where
  -- The result is full, or has grown.
  IsGrown : ℕ → Filled → Type 0
  IsGrown n (full b) = Unit
  IsGrown n (part b) = (n < length b) × (length b < len)

  IsKept : ℕ → Filled → Type 0
  IsKept n (full b) = Unit
  IsKept n (part b) = (n ≤ length b) × (length b < len)

  grown_lem :
      (x : ℕ) (b : Bytes)
      → length b < len
      → (length b + 1 == len) ≡ false
      → (length b < length (b ++ x ∷ [])) × (length (b ++ x ∷ []) < len)
  grown_lem x b h e =
      let sized = length-append b (x ∷ []) in
      (omega (arith, sized), ground (arith, sized, ==_iff (length b + 1) len, h, e))

  take_byte-IsKept :
      (c : ℕ) (b : Bytes) → length b < len → IsKept (length b) (take_byte len modulus c b)
  unfolding take_byte IsKept
  take_byte-IsKept c b h = by_tests (ltb (maxrb modulus) c) (length b + 1 == len) refl
    where
      by_tests :
          (refused last : Bool)
          → (length b + 1 == len) ≡ last
          → IsKept (length b) (
              if refused
              then part b
              else if last
              then full (b ++ (c % modulus) ∷ [])
              else part (b ++ (c % modulus) ∷ []))
      by_tests true last e = (omega arith, h)
      by_tests false true e = tt
      by_tests false false e =
          let (more, less) = grown_lem (c % modulus) b h e in (omega (arith, more), less)

  take_byte-IsGrown :
      (c : ℕ) (b : Bytes)
      → length b < len
      → ltb (maxrb modulus) c ≡ false
      → IsGrown (length b) (take_byte len modulus c b)
  unfolding take_byte IsGrown
  take_byte-IsGrown c b h taken = by_test (length b + 1 == len) refl
    where
      by_test :
          (last : Bool)
          → (length b + 1 == len) ≡ last
          → IsGrown (length b) (
              if ltb (maxrb modulus) c
              then part b
              else if last
              then full (b ++ (c % modulus) ∷ [])
              else part (b ++ (c % modulus) ∷ []))
      by_test true e = rw taken tt
      by_test false e = rw taken (grown_lem (c % modulus) b h e)

  take_bytes-IsKept :
      (cs b : Bytes) → length b < len → IsKept (length b) (take_bytes len modulus cs b)
  unfolding take_bytes IsKept
  take_bytes-IsKept [] b h = (omega arith, h)
  take_bytes-IsKept (c ∷ cs) b h =
      by_filled (take_byte len modulus c b) (take_byte-IsKept c b h) (take_bytes-IsKept cs)
    where
      by_filled :
          (f : Filled)
          → IsKept (length b) f
          → ((d : Bytes) → length d < len → IsKept (length d) (take_bytes len modulus cs d))
          → IsKept (length b) (elim f [ full d ↦ full d | part d ↦ take_bytes len modulus cs d ])
      by_filled (full d) k rest = tt
      by_filled (part d) (more, less) rest = further (take_bytes len modulus cs d) (rest d less)
        where
          further : (g : Filled) → IsKept (length d) g → IsKept (length b) g
          further (full x) k = tt
          further (part x) (more', less') = (omega (arith, more, more'), less')

  refused_lem :
      (c : ℕ) (cs b : Bytes)
      → ltb (maxrb modulus) c ≡ true
      → take_bytes len modulus (c ∷ cs) b ≡ take_bytes len modulus cs b
  unfolding take_bytes take_byte
  refused_lem c cs b e =
      ap
        (λ t.
          elim (if t
              then part b
              else if length b + 1 == len
              then full (b ++ (c % modulus) ∷ [])
              else part (b ++ (c % modulus) ∷ []))
            as (λ x. Filled) [ full d ↦ full d | part d ↦ take_bytes len modulus cs d ])
        e

  take_bytes-IsGrown :
      (cs b : Bytes)
      → length b < len
      → has_taken modulus cs ≡ true
      → IsGrown (length b) (take_bytes len modulus cs b)
  unfolding take_bytes take_byte IsGrown IsKept
  take_bytes-IsGrown [] b h taken = absurd (cc)
  take_bytes-IsGrown (c ∷ cs) b h taken = elim (Bool-cases (ltb (maxrb modulus) c)) [
    | inl e ↦
        subst (IsGrown (length b)) (sym (refused_lem c cs b e))
          (take_bytes-IsGrown cs b h (ground (arith, taken, e)))
    | inr e ↦ by_filled (take_byte len modulus c b) (take_byte-IsGrown c b h e)
  ]
    where
      by_filled :
          (f : Filled)
          → IsGrown (length b) f
          → IsGrown (length b) (elim f [ full d ↦ full d | part d ↦ take_bytes len modulus cs d ])
      by_filled (full d) k = tt
      by_filled (part d) (more, less) =
          further (take_bytes len modulus cs d) (take_bytes-IsKept cs d less)
        where
          further : (g : Filled) → IsKept (length d) g → IsGrown (length b) g
          further (full x) k = tt
          further (part x) (more', less') = (omega (arith, more, more'), less')

  module _ (random : ℕ → ℕ → Bytes)
      (taken : (round : ℕ) → has_taken modulus (random round (len + len / 4)) ≡ true) where
    draw_rounds_ends :
        (fuel round : ℕ) (b : Bytes)
        → length b < len
        → len ≤ length b + fuel
        → (b' : Bytes) × (draw_rounds len modulus random fuel round b ≡ some b')
    unfolding draw_rounds IsGrown
    draw_rounds_ends zero round b h enough = absurd (omega (arith, h, enough))
    draw_rounds_ends (suc fuel) round b h enough =
        by_filled (take_bytes len modulus (random round (len + len / 4)) b)
          (take_bytes-IsGrown (random round (len + len / 4)) b h (taken round))
          (draw_rounds_ends fuel (round + 1))
      where
        by_filled :
            (f : Filled)
            → IsGrown (length b) f
            → ((d : Bytes)
                → length d < len
                → len ≤ length d + fuel
                → (b' : Bytes) × (draw_rounds len modulus random fuel (round + 1) d ≡ some b'))
            → (b' : Bytes) × (elim f [
              | full d ↦ some d
              | part d ↦ draw_rounds len modulus random fuel (round + 1) d
            ]
                ≡ some b')
        by_filled (full d) k rest = (d, refl)
        by_filled (part d) (more, less) rest = rest d less (omega (arith, more, enough))

    -- Let at least one byte be asked for, and every draw have a byte to take. Then randomBytesMod
    -- ends within as many draws as bytes are asked for.
    pub random_bytes_mod_ends :
        (fuel : ℕ)
        → 0 < len
        → len ≤ fuel
        → (b : Bytes) × (random_bytes_mod len modulus random fuel ≡ some b)
    unfolding random_bytes_mod
    random_bytes_mod_ends fuel positive enough =
        draw_rounds_ends fuel 0 [] positive (omega (arith, enough))

-- With no byte asked for, no draw ends the loop.
pub random_bytes_mod_zero :
    (modulus : ℕ) (random : ℕ → ℕ → Bytes) (fuel : ℕ)
    → ((round : ℕ) → random round 0 ≡ [])
    → random_bytes_mod 0 modulus random fuel ≡ none
unfolding random_bytes_mod draw_rounds take_bytes
random_bytes_mod_zero modulus random fuel empty = by_fuel fuel 0
  where
    by_fuel : (n round : ℕ) → draw_rounds 0 modulus random n round [] ≡ none
    by_fuel zero round = refl
    by_fuel (suc n) round =
        subst
          (λ r.
            ◌≡◌ {A = Option Bytes}
              (elim (take_bytes 0 modulus r []) [
                | full b ↦ some b
                | part b ↦ draw_rounds 0 modulus random n (round + 1) b
              ])
              none)
          (sym (empty round)) (by_fuel n (round + 1))
