-- ===== src/Prime/Tests.antt =====
-- The sizes after 61, which tables start with, and after 1021.
use la_tte.Common.{ℕ, arith, ◌≡◌, refl, some, ◌*◌}
use la_tte.Prime.Nearest.{IsEntry, IsNearest, get_next_prime-IsNearest}
use la_tte.Prime.{get_next_prime, halve, choose, chosen}

-- 121 is the square of 11.
after_61 : get_next_prime (61 * 2) ≡ some 121
unfolding get_next_prime halve choose chosen
after_61 = refl

after_1021 : get_next_prime (1021 * 2) ≡ some 2039
unfolding get_next_prime halve choose chosen
after_1021 = refl

get_next_prime-IsNearest_example :
    (p : ℕ) × (get_next_prime 2042 ≡ some p) × IsEntry p × IsNearest 2042 p
get_next_prime-IsNearest_example = get_next_prime-IsNearest 2042 (omega arith) (omega arith)
