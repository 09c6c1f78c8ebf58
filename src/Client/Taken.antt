-- ===== src/Client/Taken.antt =====
-- Which random bytes the client takes, and what it makes of them.
use raft_example.Prelude.{
  ℕ, Bool, true, refl, ◌⊎◌, inl, inr, ◌≤◌, [], ◌∷◌, ◌++◌, Bytes, length, ◌==◌, if◌then◌else◌, ◌≡◌,
  ◌<◌, sym, subst, ◌↔◌, false, arith, ltb, ◌+◌, ◌-◌, ◌/◌, ◌%◌, ◌*◌,
}
use native.Mathlib.Nat.{
  mod-lt, mod-eq_of_lt, div-lt_iff_lt-mul, div-add-mod', add-mul-div_right, div-eq_of_lt,
  add-mul-mod_self_right,
}
use raft_example.Client.{maxrb, full, part, take_byte}

quotient : (r q m : ℕ) → r < m → (r + q * m) / m ≡ q
quotient r q m h =
    let positive : 0 < m = omega (arith, h) in
    omega (arith, add-mul-div_right r q positive, div-eq_of_lt h)

bound_iff :
    (c rest whole : ℕ)
    → whole + rest ≡ 256
    → rest < 256
    → (ltb (255 - rest) c ≡ false) ↔ (c < whole)
bound_iff c rest whole e h = (λ t. ground (arith, t, e, h), λ t. ground (arith, t, e, h))

-- A byte is no larger than maxrb exactly if its quotient is small enough.
is_taken_iff :
    (modulus r q : ℕ)
    → modulus < 256
    → r < modulus
    → r + q * modulus < 256
    → (ltb (maxrb modulus) (r + q * modulus) ≡ false) ↔ (q < 256 / modulus)
unfolding maxrb
is_taken_iff modulus r q small below byte =
    let positive : 0 < modulus = omega (arith, below) in
    let rest_lt = mod-lt 256 positive in
    let rest_small : 256 % modulus < 256 = omega (arith, rest_lt, small) in
    let (to, from) =
      bound_iff (r + q * modulus) (256 % modulus) (256 / modulus * modulus)
        (div-add-mod' 256 modulus) rest_small in
    let both : ((r + q * modulus) / modulus < 256 / modulus)
        ↔ (r + q * modulus < 256 / modulus * modulus) =
      div-lt_iff_lt-mul positive in
    let quot = quotient r q modulus below in
    rw (mod-eq_of_lt rest_small) (
      λ t. subst (λ x. x < 256 / modulus) quot (both.1 (to t)),
      λ t. from (both.0 (subst (λ x. x < 256 / modulus) (sym quot) t)),
    )

remainder : (r q m : ℕ) → r < m → (r + q * m) % m ≡ r
remainder r q m h = omega (arith, add-mul-mod_self_right r q m, mod-eq_of_lt h)

-- For any number of characters from 1 to 255, let a random byte be `q` times that number and `r`
-- more, for a character `r`. If `q` is less than 256 by that number, the character is put behind
-- the result, which is then full if that was its last place; otherwise `q` is at least that, and
-- the byte is skipped. So which bytes are taken depends on the quotient alone, not on the
-- character.
pub take_byte_cases :
    (len modulus r q : ℕ) (b : Bytes)
    → modulus < 256
    → r < modulus
    → r + q * modulus < 256
    → ((q < 256 / modulus)
        × (take_byte len modulus (r + q * modulus) b
            ≡ (if length b + 1 == len then full (b ++ r ∷ []) else part (b ++ r ∷ []))))
      ⊎ ((256 / modulus ≤ q) × (take_byte len modulus (r + q * modulus) b ≡ part b))
unfolding take_byte
take_byte_cases len modulus r q b small below byte =
    by_test (ltb (maxrb modulus) (r + q * modulus)) refl
  where
    taken : (ltb (maxrb modulus) (r + q * modulus) ≡ false) ↔ (q < 256 / modulus)
    taken = is_taken_iff modulus r q small below byte

    Cases : Bool → Type 0
    Cases refused =
        ((q < 256 / modulus)
          × ((if refused
                then part b
                else if length b + 1 == len
                then full (b ++ ((r + q * modulus) % modulus) ∷ [])
                else part (b ++ ((r + q * modulus) % modulus) ∷ []))
              ≡ (if length b + 1 == len then full (b ++ r ∷ []) else part (b ++ r ∷ []))))
        ⊎ ((256 / modulus ≤ q)
            × ((if refused
                  then part b
                  else if length b + 1 == len
                  then full (b ++ ((r + q * modulus) % modulus) ∷ [])
                  else part (b ++ ((r + q * modulus) % modulus) ∷ []))
                ≡ part b))

    by_test : (refused : Bool) → ltb (maxrb modulus) (r + q * modulus) ≡ refused → Cases refused
    by_test true e = inr (ground (arith, e, taken.1), refl)
    by_test false e = inl (taken.0 e, rw (remainder r q modulus below) refl)
