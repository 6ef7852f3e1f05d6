-- ===== src/AllocStat/Search.antt =====
-- What the searches for a free location return.
use la_tte.Common.{
  ℕ, ◌+◌, ◌-◌, ◌*◌, ◌/◌, ◌%◌, ◌≤◌, ◌<◌, ◌≡◌, refl, ◌⊎◌, inl, inr, Bool-cases, ltb, lt→ltb,
  if◌then◌else◌, Option, none, some, arith,
}
use la_tte.AllocStat.{
  VarType, t_int, t_long, t_cc, t_float, t_double, t_ref, t_ivoid, t_fvoid, t_invalid, is_free,
  is_free_pair, scan, find_integer_reg, find_free_reg, find_free_spill, find_free_storage,
  find_free_non_caller_save_reg, before, is_hw, o0, l0, i0, f0,
}
use la_tte.AllocStat.Scan.{Finds, Finds-iff, Finds-before, Visited, scan-Finds}

module _ (refcount : ℕ → ℕ) where
  -- A free integer register that is a local (%l0 to %l7) or an in register below %i6.
  abbrev pub LocalOrIn : ℕ → Type 0
  LocalOrIn r = (16 ≤ r) × (r < 30) × (refcount r ≡ 0)

  -- A free integer register: that, or an out register below %o6.
  abbrev pub FreeInteger : ℕ → Type 0
  FreeInteger r = LocalOrIn r ⊎ ((8 ≤ r) × (r < 14) × (refcount r ≡ 0))

  abbrev pub FreeFloat : ℕ → Type 0
  FreeFloat r = (32 ≤ r) × (r < 64) × (refcount r ≡ 0)

  -- A free even-numbered register with a free odd one after it.
  abbrev pub FreeDouble : ℕ → Type 0
  FreeDouble r = (32 ≤ r) × (r < 64) × (r % 2 ≡ 0) × (refcount r ≡ 0) × (refcount (r + 1) ≡ 0)

  abbrev pub FreeReg : VarType → ℕ → Type 0
  FreeReg t_int = FreeInteger
  FreeReg t_long = FreeInteger
  FreeReg t_ref = FreeInteger
  FreeReg t_ivoid = FreeInteger
  FreeReg t_float = FreeFloat
  FreeReg t_fvoid = FreeFloat
  FreeReg t_double = FreeDouble
  FreeReg t_cc = λ r. ⊥
  FreeReg t_invalid = λ r. ⊥

  -- A free location from `r` on and below `end`.
  abbrev pub Segment : ℕ → ℕ → ℕ → Type 0
  Segment r end x = (r ≤ x) × (x < end) × (refcount x ≡ 0)

  -- A free even location from `r` on and below `end`, with a free one after it.
  abbrev pub TwinSegment : ℕ → ℕ → ℕ → Type 0
  TwinSegment r end x =
      (r ≤ x) × (x < end) × (x % 2 ≡ 0) × (refcount x ≡ 0) × (refcount (x + 1) ≡ 0)

  run : (rounds r : ℕ) → Finds (scan (is_free refcount) rounds r 1) (Segment r (r + rounds))
  run rounds r =
      Finds-iff (Visited (is_free refcount) rounds r 1) (Segment r (r + rounds))
        (scan (is_free refcount) rounds r 1)
        (λ x (k, lt, e, t). (omega arith, omega arith, ground arith))
        (λ x (le, lt, e). (x - r, omega arith, omega arith, ground arith))
        (scan-Finds (is_free refcount) rounds r 1)

  run_pairs :
      (rounds r : ℕ)
      → r % 2 ≡ 0
      → Finds (scan (is_free_pair refcount) rounds r 2) (TwinSegment r (r + rounds * 2))
  run_pairs rounds r even =
      Finds-iff (Visited (is_free_pair refcount) rounds r 2) (TwinSegment r (r + rounds * 2))
        (scan (is_free_pair refcount) rounds r 2)
        (λ x (k, lt, e, t). (omega arith, omega arith, omega arith, ground arith, ground arith))
        (λ x (le, lt, p, e, f). ((x - r) / 2, omega arith, omega arith, ground arith))
        (scan-Finds (is_free_pair refcount) rounds r 2)

  -- The segments of the three loops, locals and ins joined.
  join : (x : ℕ) → Segment 16 24 x ⊎ Segment 24 30 x → LocalOrIn x
  join x (inl (a, b, c)) = (a, omega arith, c)
  join x (inr (a, b, c)) = (omega arith, b, c)

  split : (x : ℕ) → LocalOrIn x → Segment 16 24 x ⊎ Segment 24 30 x
  split x (a, b, c) = elim (Bool-cases (ltb x 24)) [
    | inl t ↦ inl (a, ground arith, c)
    | inr f ↦ inr (ground arith, b, c)
  ]

  integer-Finds : Finds (find_integer_reg refcount) FreeInteger
  unfolding find_integer_reg
  integer-Finds =
      Finds-iff (λ x. Segment 16 24 x ⊎ (Segment 24 30 x ⊎ Segment 8 14 x)) FreeInteger
        (find_integer_reg refcount)
        (λ x d. elim d [
          | inl a ↦ inl (join x (inl a))
          | inr e ↦ elim e [ inl b ↦ inl (join x (inr b)) | inr c ↦ inr c ]
        ])
        (λ x d. elim d [
          | inl a ↦ elim (split x a) [ inl u ↦ inl u | inr w ↦ inr (inl w) ]
          | inr e ↦ inr (inr e)
        ])
        (Finds-before (Segment 16 24) (λ x. Segment 24 30 x ⊎ Segment 8 14 x) _ _ (run 8 l0)
          (Finds-before (Segment 24 30) (Segment 8 14) _ _ (run 6 i0) (run 6 o0)))

  -- `AllocStat_FindFreeReg` returns a free register of the class of the type, for a double one that
  -- is even with a free odd one after it, and -1 exactly if no such register is free.
  pub find_free_reg-Finds : (t : VarType) → Finds (find_free_reg refcount t) (FreeReg t)
  unfolding find_free_reg
  find_free_reg-Finds t_int = integer-Finds
  find_free_reg-Finds t_long = integer-Finds
  find_free_reg-Finds t_ref = integer-Finds
  find_free_reg-Finds t_ivoid = integer-Finds
  find_free_reg-Finds t_float = run 32 f0
  find_free_reg-Finds t_fvoid = run 32 f0
  find_free_reg-Finds t_double = run_pairs 16 f0 refl
  find_free_reg-Finds t_cc = λ x h. h
  find_free_reg-Finds t_invalid = λ x h. h

  -- A free spill location, for a double an even one with a free one after it.
  abbrev pub FreeSpill : ℕ → VarType → ℕ → Type 0
  FreeSpill locations t_cc = λ r. ⊥
  FreeSpill locations t_invalid = λ r. ⊥
  FreeSpill locations t_double =
      λ r. (72 ≤ r) × (r + 1 < locations) × (r % 2 ≡ 0) × (refcount r ≡ 0) × (refcount (r + 1) ≡ 0)
  FreeSpill locations _ = Segment 72 locations

  spill_run : (n : ℕ) → Finds (scan (is_free refcount) (n - 72) 72 1) (Segment 72 n)
  spill_run n =
      Finds-iff (Segment 72 (72 + (n - 72))) (Segment 72 n) (scan (is_free refcount) (n - 72) 72 1)
        (λ x (a, b, c). (a, omega arith, c)) (λ x (a, b, c). (a, omega arith, c)) (run (n - 72) 72)

  find_free_spill-Finds :
      (n : ℕ) (t : VarType) → Finds (find_free_spill refcount n t) (FreeSpill n t)
  unfolding find_free_spill
  find_free_spill-Finds n t_int = spill_run n
  find_free_spill-Finds n t_long = spill_run n
  find_free_spill-Finds n t_ref = spill_run n
  find_free_spill-Finds n t_ivoid = spill_run n
  find_free_spill-Finds n t_float = spill_run n
  find_free_spill-Finds n t_fvoid = spill_run n
  find_free_spill-Finds n t_double =
      Finds-iff (TwinSegment 72 (72 + (n - 72) / 2 * 2)) (FreeSpill n t_double)
        (scan (is_free_pair refcount) ((n - 72) / 2) 72 2)
        (λ x (a, b, p, c, d). (a, omega arith, p, c, d))
        (λ x (a, b, p, c, d). (a, omega arith, p, c, d)) (run_pairs ((n - 72) / 2) 72 refl)
  find_free_spill-Finds n t_cc = λ x h. h
  find_free_spill-Finds n t_invalid = λ x h. h

  integer-lt : (r : ℕ) → FreeInteger r → r < 72
  integer-lt r h = grind arith

  FreeReg-lt : (t : VarType) (r : ℕ) → FreeReg t r → r < 72
  FreeReg-lt t_int r h = integer-lt r h
  FreeReg-lt t_long r h = integer-lt r h
  FreeReg-lt t_ref r h = integer-lt r h
  FreeReg-lt t_ivoid r h = integer-lt r h
  FreeReg-lt t_float r h = omega (arith, h.1)
  FreeReg-lt t_fvoid r h = omega (arith, h.1)
  FreeReg-lt t_double r h = omega (arith, h.1)
  FreeReg-lt t_cc r h = absurd h
  FreeReg-lt t_invalid r h = absurd h

  -- With `locations` storage locations, `AllocStat_FindFreeStorage` returns a free register of the
  -- class of the type, or, only when there is none, a free spill location below `locations`, for a
  -- double an even one with a free one after it; it returns -1 exactly if there is neither.
  pub find_free_storage-Finds :
      (locations : ℕ) (t : VarType)
      → Finds
          (find_free_storage refcount locations t)
          (λ r. FreeReg t r ⊎ (((s : ℕ) → ¬ FreeReg t s) × FreeSpill locations t r))
  unfolding find_free_storage
  find_free_storage-Finds n t = go (find_free_reg refcount t) (find_free_reg-Finds t)
    where
      go :
          (o : Option ℕ)
          → Finds o (FreeReg t)
          → Finds
              (if is_hw o then o else find_free_spill refcount n t)
              (λ r. FreeReg t r ⊎ (((s : ℕ) → ¬ FreeReg t s) × FreeSpill n t r))
      go none f =
          Finds-iff (FreeSpill n t) _ (find_free_spill refcount n t) (λ x h. inr (f, h))
            (λ x d. elim d [ inl a ↦ absurd (f x a) | inr b ↦ b.1 ]) (find_free_spill-Finds n t)
      go (some r) f = rw (lt→ltb r 72 (FreeReg-lt t r f)) (inl f)

  callee_saved-Finds :
      Finds
        (before (scan (is_free refcount) 8 l0 1) (scan (is_free refcount) 6 i0 1))
        (λ r. FreeInteger r × LocalOrIn r)
  callee_saved-Finds =
      Finds-iff (λ x. Segment 16 24 x ⊎ Segment 24 30 x) (λ r. FreeInteger r × LocalOrIn r)
        (before (scan (is_free refcount) 8 l0 1) (scan (is_free refcount) 6 i0 1))
        (λ x d. (inl (join x d), join x d)) (λ x d. split x d.1)
        (Finds-before (Segment 16 24) (Segment 24 30) _ _ (run 8 l0) (run 6 i0))

  -- `AllocStat_FindFreeNonCallerSaveReg` returns, for a type that lives in an integer register, a
  -- free local or in register, never an out register, and -1 exactly if none is free; for a type of
  -- floating-point registers it returns -1.
  pub find_free_non_caller_save_reg-Finds :
      (t : VarType)
      → Finds (find_free_non_caller_save_reg refcount t) (λ r. FreeReg t r × LocalOrIn r)
  unfolding find_free_non_caller_save_reg
  find_free_non_caller_save_reg-Finds t_int = callee_saved-Finds
  find_free_non_caller_save_reg-Finds t_long = callee_saved-Finds
  find_free_non_caller_save_reg-Finds t_ref = callee_saved-Finds
  find_free_non_caller_save_reg-Finds t_ivoid = callee_saved-Finds
  find_free_non_caller_save_reg-Finds t_float = λ x h. omega (arith, h.0.0, h.1.1)
  find_free_non_caller_save_reg-Finds t_fvoid = λ x h. omega (arith, h.0.0, h.1.1)
  find_free_non_caller_save_reg-Finds t_double = λ x h. omega (arith, h.0.0, h.1.1)
  find_free_non_caller_save_reg-Finds t_cc = λ x h. h.0
  find_free_non_caller_save_reg-Finds t_invalid = λ x h. h.0
