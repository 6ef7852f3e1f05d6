-- ===== src/BitVector/Tests.antt =====
-- The theorems about bit vectors at vectors of two words.
use la_tte.Common.{ℕ, List, [], ◌∷◌}

abbrev first : List ℕ
first = 0x8000_0001 ∷ 0x0000_00f0 ∷ []

abbrev second : List ℕ
second = 0x4000_0001 ∷ 0xffff_0000 ∷ []
