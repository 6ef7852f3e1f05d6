-- ===== src/Prime.antt =====
-- The size of a grown hash table: `get_next_prime` of runtime/prime.h and the table of
-- runtime/prime.c.
pub mod Nearest
mod Tests
use la_tte.Common.{
  ℕ, zero, suc, ◌+◌, ◌-◌, ◌/◌, Bool, ◌||◌, Option, none, some, List, [], ◌∷◌, ltb, leb,
  if◌then◌else◌, get_or,
}

abbrev pub num_of_primes : ℕ
num_of_primes = 22

abbrev pub primes : List ℕ
primes =
    0 ∷ 127 ∷ 251 ∷ 509 ∷ 1021 ∷ 2039 ∷ 4093 ∷ 8191 ∷ 16381 ∷ 32749 ∷ 65521 ∷ 131071 ∷ 262139
    ∷ 524287 ∷ 1048573 ∷ 2097143 ∷ 4194301 ∷ 8388593 ∷ 16777213 ∷ 33554393 ∷ 67108859 ∷ 400000001
    ∷ []

abbrev pub prime_at : ℕ → ℕ
prime_at i = get_or primes i 0

-- How the loop is left: at the value itself, or with `low`, `high` and `mid`
pub data Left : Type 0 where
  exact : ℕ → Left
  between : ℕ → ℕ → ℕ → Left

-- The loop; `none` is the end of the fuel.
unfoldable pub halve : ℕ → ℕ → ℕ → ℕ → ℕ → Option Left
halve zero val low high mid = none
halve (suc fuel) val low high mid =
    let m = (low + high) / 2 in
    let below = halve fuel val low (m - 1) m in
    let above = halve fuel val (m + 1) high m in
    if leb low high
    then (if ltb val (prime_at m)
        then below
        else (if ltb (prime_at m) val then above else some (exact (prime_at m))))
    else some (between low high mid)

-- `a - b` of two `unsigned int`
abbrev pub difference : ℕ → ℕ → ℕ
difference a b = if leb b a then a - b else a + 4294967296 - b

-- What stands behind the loop, with one function for each side of `primes[mid]`
abbrev pub near_above : ℕ → ℕ → ℕ
near_above val mid =
    if ltb (difference val (prime_at (mid - 1))) (difference (prime_at mid) val)
    then prime_at (mid - 1)
    else prime_at mid

abbrev pub near_below : ℕ → ℕ → ℕ
near_below val mid =
    if leb (difference (prime_at (mid + 1)) val) (difference val (prime_at mid))
    then prime_at (mid + 1)
    else prime_at mid

unfoldable pub choose : ℕ → Left → ℕ
choose val (exact p) = p
choose val (between low high mid) =
    if leb high 1 || leb (num_of_primes - 2) low
    then difference val 1
    else (if ltb val (prime_at mid) then near_above val mid else near_below val mid)

unfoldable pub chosen : ℕ → Option Left → Option ℕ
unfolding choose
chosen val none = none
chosen val (some l) = some (choose val l)

-- `low` starts at 1, and the loop has a round for each entry.
unfoldable pub get_next_prime : ℕ → Option ℕ
unfolding halve chosen
get_next_prime val = chosen val (halve num_of_primes val 1 (num_of_primes - 2) 0)
