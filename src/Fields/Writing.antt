-- ===== src/Fields/Writing.antt =====
-- What is written into the static fields of a class when it is prepared.
use la_tte.Common.{
  ℕ, ◌≡◌, refl, sym, ap, ◌∙◌, subst, inl, inr, Bool, true, false, ◌&&◌, Bool-cases, Option, none,
  some, List, [], ◌∷◌, ◌++◌, ◌==◌, ltb, if◌then◌else◌, update, update_self, update_ne, ==_to,
  true_branch, arith,
}
use la_tte.Fields.{Field, ptr_type_size}
use la_tte.Fields.Constants.{
  Constant, integer_const, float_const, long_const, double_const, string_const, resolved_string,
  other_const, Store, const_at, write_constant, resolve_static_fields,
}

-- What a constant says is to be written: how many bytes, and which value
module _ (intern : ℕ → ℕ) (size : ℕ) where
  abbrev pub datum : Constant → Option (ℕ × ℕ)
  datum (integer_const v) = some (4, v)
  datum (float_const v) = some (4, v)
  datum (long_const v) = some (8, v)
  datum (double_const v) = some (8, v)
  datum (string_const s) = some (ptr_type_size, intern s)
  datum (resolved_string v) = some (ptr_type_size, v)
  datum other_const = none

  abbrev store_at : ℕ → Option (ℕ × ℕ) → List Store
  store_at place none = []
  store_at place (some (bytes, value)) =
      record { address = place; bytes = bytes; value = value } ∷ []

  -- Each field with a constant by itself, from the constants as they are in the class file
  abbrev pub initial_stores : (ℕ → Constant) → List Field → List Store
  initial_stores pool [] = []
  initial_stores pool (f ∷ fs) =
      (if f.has_constant then store_at f.place (datum (const_at size pool f.bsize)) else [])
      ++ initial_stores pool fs

  -- The constants before and after a write: a string may have been resolved.
  abbrev Same : (ℕ → Constant) → (ℕ → Constant) → Type 0
  Same pool pool' = (i : ℕ) → datum (const_at size pool' i) ≡ datum (const_at size pool i)

  initial-Same :
      (pool pool' : ℕ → Constant) (fs : List Field)
      → Same pool pool'
      → initial_stores pool' fs ≡ initial_stores pool fs
  initial-Same pool pool' [] s = refl
  initial-Same pool pool' (f ∷ fs) s =
      ap (λ d. (if f.has_constant then store_at f.place d else []) ++ initial_stores pool' fs)
        (s f.bsize)
      ∙ ap
          (λ r.
            (if f.has_constant then store_at f.place (datum (const_at size pool f.bsize)) else [])
            ++ r)
          (initial-Same pool pool' fs s)

  write-stores :
      (c : Constant) (f : Field) (pool : ℕ → Constant)
      → (write_constant intern size c f pool).2 ≡ store_at f.place (datum c)
  unfolding write_constant
  write-stores (integer_const v) f pool = refl
  write-stores (float_const v) f pool = refl
  write-stores (long_const v) f pool = refl
  write-stores (double_const v) f pool = refl
  write-stores (string_const s) f pool = refl
  write-stores (resolved_string v) f pool = refl
  write-stores other_const f pool = refl

  string_here :
      (pool : ℕ → Constant) (k s : ℕ)
      → const_at size pool k ≡ string_const s
      → datum (const_at size (update pool k (resolved_string (intern s))) k)
        ≡ datum (const_at size pool k)
  string_here pool k s e = elim (Bool-cases (ltb 0 k && ltb k size)) [
    | inr f ↦ rw f refl
    | inl t ↦
        ap datum (
          true_branch (ltb 0 k && ltb k size) _ other_const t
          ∙ update_self pool k (resolved_string (intern s)))
        ∙ sym (ap datum e)
  ]

  string-Same :
      (pool : ℕ → Constant) (k s : ℕ)
      → const_at size pool k ≡ string_const s
      → Same pool (update pool k (resolved_string (intern s)))
  string-Same pool k s e i = elim (Bool-cases (k == i)) [
    | inr f ↦
        ap (λ c. datum (if ltb 0 i && ltb i size then c else other_const))
          (update_ne pool k i (resolved_string (intern s)) (λ q. absurd (ground arith)))
    | inl t ↦
        subst
          (λ i.
            datum (const_at size (update pool k (resolved_string (intern s))) i)
            ≡ datum (const_at size pool i))
          (==_to k i t) (string_here pool k s e)
  ]

  write-Same :
      (c : Constant) (f : Field) (pool : ℕ → Constant)
      → const_at size pool f.bsize ≡ c
      → Same pool (write_constant intern size c f pool).1
  unfolding write_constant
  write-Same (integer_const v) f pool e i = refl
  write-Same (float_const v) f pool e i = refl
  write-Same (long_const v) f pool e i = refl
  write-Same (double_const v) f pool e i = refl
  write-Same (string_const s) f pool e i = string-Same pool f.bsize s e i
  write-Same (resolved_string v) f pool e i = refl
  write-Same other_const f pool e i = refl

  head_stores :
      (b : Bool) (pool : ℕ → Constant) (f : Field) (fs : List Field)
      → ((p : ℕ → Constant) → (resolve_static_fields intern size p fs).stores ≡ initial_stores p fs)
      → (let c = const_at size pool f.bsize in
          let w = if b then write_constant intern size c f pool else (f, pool, []) in
          w.2 ++ (resolve_static_fields intern size w.1 fs).stores
          ≡ (if b then store_at f.place (datum c) else []) ++ initial_stores pool fs)
  head_stores false pool f fs h = h pool
  head_stores true pool f fs h =
      let c = const_at size pool f.bsize in
      let w = write_constant intern size c f pool in
      ap (λ r. w.2 ++ r) (h w.1 ∙ initial-Same pool w.1 fs (write-Same c f pool refl))
      ∙ ap (λ r. r ++ initial_stores pool fs) (write-stores c f pool)

  -- `resolveStaticFields` writes for each field with a constant what the class file says, whatever
  -- strings the fields before it have resolved in the pool, and writes nothing else.
  pub resolve_static_fields_lem :
      (pool : ℕ → Constant) (fs : List Field)
      → (resolve_static_fields intern size pool fs).stores ≡ initial_stores pool fs
  unfolding resolve_static_fields
  resolve_static_fields_lem pool [] = refl
  resolve_static_fields_lem pool (f ∷ fs) =
      head_stores f.has_constant pool f fs (λ p. resolve_static_fields_lem p fs)
