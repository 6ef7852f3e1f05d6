-- ===== src/LiveAnalysis/Tests.antt =====
-- Two words, three variables in use of forty.
use la_tte.Common.{ℕ, Option, none, some, List, [], ◌∷◌, ◌==◌, if◌then◌else◌}

abbrev stale : List ℕ
stale = 0xffff_ffff ∷ 0xffff_ffff ∷ []

abbrev mapped : ℕ → Option ℕ
mapped v = if v == 33 then some 16 else none
