-- ===== src/Gossip/Address.antt =====
-- ParseHostPort of gossip/gossip.go, with the functions of net and strconv that it calls.
use raft_example.Prelude.{
  ℕ, zero, suc, ◌≡◌, refl, inl, inr, Bool, false, Option, none, some, [], ◌∷◌, ◌++◌, Bytes, Result,
  ok, err, if◌then◌else◌, ◌==◌, leb, ◌&&◌, ◌||◌, not, ◌*◌, ◌^◌, ==_refl, arith, Bool-cases, ◌-◌,
  ◌+◌,
}

pub data AddressError : Type 0 where
  no_address : AddressError
  no_number : AddressError

abbrev pub colon : ℕ
colon = 58

abbrev pub opening : ℕ
opening = 91

abbrev pub closing : ℕ
closing = 93

-- `strings.IndexByte` of at least 0.
unfoldable pub has : ℕ → Bytes → Bool
has c [] = false
has c (x ∷ xs) = x == c || has c xs

put_before : ℕ → Option (Bytes × Bytes) → Option (Bytes × Bytes)
put_before x none = none
put_before x (some (before, behind)) = some (x ∷ before, behind)

-- What stands before and behind the first `c`.
unfoldable pub cut_first : ℕ → Bytes → Option (Bytes × Bytes)
unfolding put_before
cut_first c [] = none
cut_first c (x ∷ xs) =
    let rest = put_before x (cut_first c xs) in if x == c then some ([], xs) else rest

-- An address without brackets has one colon, behind the host.
unfoldable pub split_plain : Option (Bytes × Bytes) → Result AddressError (Bytes × Bytes)
unfolding has
split_plain none = err no_address
split_plain (some (host, port)) =
    if has colon port
      || has opening host
      || has opening port
      || has closing host
      || has closing port
    then err no_address
    else ok (host, port)

behind_brackets : Bytes → Bytes → Result AddressError (Bytes × Bytes)
unfolding has
behind_brackets host [] = err no_address
behind_brackets host (c ∷ port) =
    if not (c == colon)
      || has colon port
      || has opening host
      || has opening port
      || has closing port
    then err no_address
    else ok (host, port)

-- What stands in brackets is the host, and the last colon stands right behind them.
unfoldable pub split_bracketed : Option (Bytes × Bytes) → Result AddressError (Bytes × Bytes)
unfolding behind_brackets
split_bracketed none = err no_address
split_bracketed (some (host, rest)) = behind_brackets host rest

-- `net.SplitHostPort`
unfoldable pub split_host_port : Bytes → Result AddressError (Bytes × Bytes)
unfolding split_plain split_bracketed cut_first
split_host_port [] = err no_address
split_host_port (c ∷ rest) =
    if c == opening
    then split_bracketed (cut_first closing rest)
    else split_plain (cut_first colon (c ∷ rest))

pub data ℤ : Type 0 where
  pos : ℕ → ℤ
  negsuc : ℕ → ℤ

pub is_digit : ℕ → Bool
is_digit c = leb 48 c && leb c 57

-- The number that the digits spell, behind those read before.
unfoldable pub digits_value : ℕ → Bytes → Option ℕ
unfolding is_digit
digits_value n [] = some n
digits_value n (c ∷ cs) =
    let rest = digits_value (n * 10 + (c - 48)) cs in if is_digit c then rest else none

up_to : ℕ → (ℕ → ℤ) → Option ℕ → Result AddressError ℤ
up_to bound sign none = err no_number
up_to bound sign (some n) = if leb n bound then ok (sign n) else err no_number

negative : ℕ → ℤ
negative zero = pos 0
negative (suc n) = negsuc n

-- A number of at least one digit.
number : ℕ → (ℕ → ℤ) → Bytes → Result AddressError ℤ
unfolding up_to digits_value
number bound sign [] = err no_number
number bound sign (c ∷ cs) = up_to bound sign (digits_value 0 (c ∷ cs))

-- `strconv.Atoi`, for an int of 64 bits.
unfoldable pub atoi : Bytes → Result AddressError ℤ
unfolding number negative
atoi [] = err no_number
atoi (c ∷ cs) =
    if c == 43
    then number (2 ^ 63 - 1) pos cs
    else if c == 45
    then number (2 ^ 63) negative cs
    else number (2 ^ 63 - 1) pos (c ∷ cs)

with_port : Bytes → Result AddressError ℤ → Result AddressError (Bytes × ℤ)
with_port host (err e) = err e
with_port host (ok port) = ok (host, port)

on_split : Result AddressError (Bytes × Bytes) → Result AddressError (Bytes × ℤ)
unfolding with_port atoi
on_split (err e) = err e
on_split (ok (host, port)) = with_port host (atoi port)

unfoldable pub parse_host_port : Bytes → Result AddressError (Bytes × ℤ)
unfolding on_split split_host_port
parse_host_port addr = on_split (split_host_port addr)

-- `net.JoinHostPort`: a host with a colon stands in brackets.
abbrev pub join_host_port : Bytes → Bytes → Bytes
join_host_port host port =
    if has colon host then opening ∷ host ++ closing ∷ colon ∷ port else host ++ colon ∷ port

cut_first-append :
    (c : ℕ) (xs ys : Bytes) → has c xs ≡ false → cut_first c (xs ++ c ∷ ys) ≡ some (xs, ys)
unfolding cut_first has put_before
cut_first-append c [] ys h = rw (==_refl c) refl
cut_first-append c (x ∷ xs) ys h = ground (arith, cut_first-append c xs ys)

-- A part of an address with neither a bracket in it.
pub record IsPart (xs : Bytes) : Type 0 where
  pub no_opening : has opening xs ≡ false
  pub no_closing : has closing xs ≡ false

abbrev SplitsTo : Bytes → Bytes → Bytes → Type 0
SplitsTo addr host port = split_host_port addr ≡ ok (host, port)

split-bracketed :
    (host port : Bytes)
    → IsPart host
    → IsPart port
    → has colon port ≡ false
    → SplitsTo (opening ∷ host ++ closing ∷ colon ∷ port) host port
unfolding split_host_port split_bracketed behind_brackets
split-bracketed host port h p c =
    rw
      (
        cut_first-append closing host (colon ∷ port) h.no_closing,
        c,
        h.no_opening,
        p.no_opening,
        p.no_closing,
      )
      refl

split-plain :
    (host port : Bytes)
    → IsPart host
    → IsPart port
    → has colon host ≡ false
    → has colon port ≡ false
    → SplitsTo (host ++ colon ∷ port) host port
unfolding split_host_port split_plain has cut_first
split-plain [] port h p plain c = rw (c, p.no_opening, p.no_closing) refl
split-plain (x ∷ xs) port h p plain c = ground (
  arith,
  cut_first-append colon (x ∷ xs) port plain,
  h.no_opening,
  h.no_closing,
  p.no_opening,
  p.no_closing,
)

-- Let a host have no bracket, and a port have no bracket and no colon and be a number that Atoi
-- reads. Then ParseHostPort of the two put together, with the host in brackets if it has a colon,
-- gives the host and the number.
pub parse_host_port-join :
    (host port : Bytes) (n : ℤ)
    → IsPart host
    → IsPart port
    → has colon port ≡ false
    → atoi port ≡ ok n
    → parse_host_port (join_host_port host port) ≡ ok (host, n)
unfolding parse_host_port on_split with_port
parse_host_port-join host port n h p c parsed = elim (Bool-cases (has colon host)) [
  | inl e ↦ rw (e, split-bracketed host port h p c, parsed) refl
  | inr e ↦ rw (e, split-plain host port h p e c, parsed) refl
]
