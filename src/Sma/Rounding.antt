-- ===== src/Sma/Rounding.antt =====
-- The arithmetic of sizes: rounding up to eight bytes, and doubling until a size is enough.
use la_tte.Common.{
  ℕ, zero, suc, ◌+◌, ◌*◌, ◌/◌, ◌%◌, ◌^◌, ◌≤◌, ◌<◌, ◌≡◌, refl, ◌∙◌, ◌⊎◌, inl, inr, Bool-cases, true,
  false, some, ltb, arith,
}
use la_tte.Word.{and_lowest, low_mask}
use la_tte.Sma.{round, grow}

-- `(size + 8) & -8` is the next multiple of eight above `size`, in every `unsigned int` that the
-- addition does not overflow.
pub round_lem :
    (size : ℕ)
    → size + 8 < 2 ^ 32
    → (size < round size) × (round size ≤ size + 8) × (round size % 8 ≡ 0)
unfolding round
round_lem size h = omega (
  arith,
  and_lowest (size + 8) 0xffff_fff8,
  and_lowest ((size + 8) / 2) 0x7fff_fffc,
  and_lowest ((size + 8) / 2 / 2) 0x3fff_fffe,
  low_mask 29 ((size + 8) / 2 / 2 / 2),
)

grow_more : (fuel n size : ℕ) → ltb n size ≡ true → grow (suc fuel) n size ≡ grow fuel (n * 2) size
unfolding grow
grow_more fuel n size t = ground (arith, t)

grow_done : (fuel n size : ℕ) → ltb n size ≡ false → grow (suc fuel) n size ≡ some n
unfolding grow
grow_done fuel n size t = ground (arith, t)

-- From a positive size, with a round for each byte requested, the doubling ends: its result is
-- enough, is not below the size it started with, and is that size or below twice the request, so that
-- it is an `int` wherever both are below 2^30.
pub grow_bound :
    (fuel n size : ℕ)
    → 0 < n
    → size ≤ n + fuel
    → (r : ℕ) × (grow (suc fuel) n size ≡ some r)
      × (size ≤ r)
      × (n ≤ r)
      × ((r ≡ n) ⊎ (r < 2 * size))
grow_bound zero n size pos h =
    (n, grow_done zero n size (ground arith), omega arith, omega arith, inl refl)
grow_bound (suc fuel) n size pos h = elim (Bool-cases (ltb n size)) [
  | inl t ↦
      let (r, e, a, b, c) = grow_bound fuel (n * 2) size (omega arith) (omega arith) in
      (r, grow_more (suc fuel) n size t ∙ e, a, omega arith, ground arith)
  | inr f ↦ (n, grow_done (suc fuel) n size f, ground arith, omega arith, inl refl)
]
