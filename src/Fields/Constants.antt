-- ===== src/Fields/Constants.antt =====
-- The constants that `resolveStaticFields` of runtime/classMethod.c writes into static fields.
use la_tte.Common.{ℕ, ◌&&◌, List, [], ◌∷◌, ◌++◌, ltb, if◌then◌else◌, update}
use la_tte.Fields.{Field, ptr_type_size}

pub data Constant : Type 0 where
  integer_const : ℕ → Constant
  float_const : ℕ → Constant
  long_const : ℕ → Constant
  double_const : ℕ → Constant
  string_const : ℕ → Constant
  resolved_string : ℕ → Constant
  other_const : Constant

-- A write of some bytes at an address
pub record Store : Type 0 where
  pub address : ℕ
  pub bytes : ℕ
  pub value : ℕ

-- `CONST_TAG`, with the datum
abbrev pub const_at : ℕ → (ℕ → Constant) → ℕ → Constant
const_at size pool idx = if ltb 0 idx && ltb idx size then pool idx else other_const

pub record Written : Type 0 where
  pub pool : ℕ → Constant
  pub stores : List Store
  pub fields : List Field

abbrev pub written : ℕ → ℕ → Field → (ℕ → Constant) → Field × (ℕ → Constant) × List Store
written bytes value f pool = (
  record f { bsize = bytes },
  pool,
  record { address = f.place; bytes = bytes; value = value } ∷ [],
)

-- `intern` is `Utf8Const2JavaString`.
module _ (intern : ℕ → ℕ) (size : ℕ) where
  unfoldable pub write_constant :
      Constant → Field → (ℕ → Constant) → Field × (ℕ → Constant) × List Store
  write_constant (integer_const v) f pool = written 4 v f pool
  write_constant (float_const v) f pool = written 4 v f pool
  write_constant (long_const v) f pool = written 8 v f pool
  write_constant (double_const v) f pool = written 8 v f pool
  write_constant (string_const s) f pool =
      written ptr_type_size (intern s) f (update pool f.bsize (resolved_string (intern s)))
  write_constant (resolved_string v) f pool = written ptr_type_size v f pool
  write_constant other_const f pool = (f, pool, [])

  unfoldable pub resolve_static_fields : (ℕ → Constant) → List Field → Written
  unfolding write_constant
  resolve_static_fields pool [] = record { pool = pool; stores = []; fields = [] }
  resolve_static_fields pool (f ∷ fs) =
      let w =
        if f.has_constant
        then write_constant (const_at size pool f.bsize) f pool
        else (f, pool, []) in
      let rest = resolve_static_fields w.1 fs in
      record { pool = rest.pool; stores = w.2 ++ rest.stores; fields = w.0 ∷ rest.fields }
