-- ===== src/ExceptionTable.antt =====
-- The table that finds a bytecode's address from a native one: translator/exception_info.c, a closed
-- hash table with quadratic probing.
--
-- `info` is the memory behind `table->info`, and a pointer to a cell is its index. Only the test
-- of the load is in whole numbers, where the source multiplies as `int`.
pub mod Residues
pub mod Counts
pub mod Probing
pub mod Lookup
pub mod Writing
pub mod Moving
pub mod Rehash
pub mod Inserting
mod Tests
use la_tte.Common.{
  ℕ, zero, suc, ◌+◌, ◌-◌, ◌*◌, ◌%◌, Bool, ◌||◌, Option, none, some, ltb, leb, ◌==◌, if◌then◌else◌,
  update,
}
use la_tte.Prime.{get_next_prime}

-- A variable map and a method instance are addresses.
pub record ExceptionInfo : Type 0 where
  pub native_pc : ℕ
  pub bytecode_pc : ℕ
  pub var_map : ℕ
  pub method_instance : ℕ

abbrev pub no_info : ExceptionInfo
no_info = record { native_pc = 0; bytecode_pc = 0; var_map = 0; method_instance = 0 }

pub record ExceptionInfoTable : Type 0 where
  pub size : ℕ
  pub num_of_infos : ℕ
  pub info : ℕ → ExceptionInfo

-- `EIT_init`; `gc_malloc` returns zeros.
abbrev pub init : ℕ → ExceptionInfoTable
init initial_size = record {
  size = if initial_size == 0 then 61 else initial_size;
  num_of_infos = 0;
  info = λ _. no_info;
}

abbrev pub hash_val : ℕ → ℕ → ℕ
hash_val native_pc table_size = native_pc % table_size

-- `cur_cell += 2 * (++i) - 1` as an `unsigned int`, where `i` is the value before, and the
-- subtraction after it
abbrev pub back_within : ℕ → ℕ → ℕ
back_within size cell = if leb size cell then cell - size else cell

unfoldable pub next_cell : ℕ → ℕ → ℕ → ℕ
next_cell size i cur_cell = back_within size ((cur_cell + (2 * i + 1)) % 4294967296)

-- The condition that ends the loop: the cell is free, or it is that of `native_pc`.
abbrev pub stops : ExceptionInfoTable → ℕ → ℕ → Bool
stops table native_pc cell =
    ((table.info cell).native_pc == 0) || ((table.info cell).native_pc == native_pc)

-- What `EIT_find` returns: NULL, a pointer to a cell, or nothing, since it reads behind the table or
-- has not ended
pub data Found : Type 0 where
  null : Found
  cell : ℕ → Found
  astray : Found

-- The loop, of at most `fuel` rounds
unfoldable pub probe : ℕ → ExceptionInfoTable → ℕ → ℕ → ℕ → Found
unfolding next_cell
probe zero table native_pc i cur_cell = astray
probe (suc fuel) table native_pc i cur_cell =
    let rest = probe fuel table native_pc (suc i) (next_cell table.size i cur_cell) in
    if ltb cur_cell table.size
    then (if stops table native_pc cur_cell then cell cur_cell else rest)
    else astray

-- `EIT_find`
unfoldable pub find : ExceptionInfoTable → ℕ → Found
unfolding probe
find table native_pc =
    if native_pc == 0
    then null
    else probe (suc table.size) table native_pc 0 (hash_val native_pc table.size)

-- An entry is written to a cell.
abbrev pub write : ExceptionInfoTable → ExceptionInfo → ℕ → ExceptionInfoTable
write table entry c = record {
  size = table.size;
  num_of_infos = table.num_of_infos;
  info = update table.info c entry;
}

-- The entry is written to what `EIT_find` returns; `none` is a crash.
abbrev pub write_found : ExceptionInfoTable → ExceptionInfo → Found → Option ExceptionInfoTable
write_found table entry (cell c) = some (write table entry c)
write_found table entry _ = none

unfoldable pub put : ExceptionInfoTable → ExceptionInfo → Option ExceptionInfoTable
unfolding find
put table entry = write_found table entry (find table entry.native_pc)

-- With `assert( info->nativePC == 0 )`
abbrev pub write_free : ExceptionInfoTable → ExceptionInfo → Found → Option ExceptionInfoTable
write_free table entry (cell c) =
    if (table.info c).native_pc == 0 then some (write table entry c) else none
write_free table entry _ = none

-- One round of the loop of `rehash`
abbrev pub move : ExceptionInfo → Option ExceptionInfoTable → Option ExceptionInfoTable
move entry none = none
move entry (some table) =
    if entry.native_pc == 0 then some table else write_free table entry (find table entry.native_pc)

-- The first rounds of it
unfoldable pub move_first : ℕ → (ℕ → ExceptionInfo) → ExceptionInfoTable → Option ExceptionInfoTable
unfolding find
move_first zero old_info table = some table
move_first (suc i) old_info table = move (old_info i) (move_first i old_info table)

abbrev pub grown : ExceptionInfoTable → ℕ → ExceptionInfoTable
grown table size = record { size = size; num_of_infos = table.num_of_infos; info = λ _. no_info }

abbrev pub rehash_to : ExceptionInfoTable → Option ℕ → Option ExceptionInfoTable
rehash_to table none = none
rehash_to table (some size) = move_first table.size table.info (grown table size)

-- `rehash`
unfoldable pub rehash : ExceptionInfoTable → Option ExceptionInfoTable
unfolding move_first
rehash table = rehash_to table (get_next_prime (table.size * 2))

abbrev pub put_into : ExceptionInfo → Option ExceptionInfoTable → Option ExceptionInfoTable
put_into entry none = none
put_into entry (some table) = put table entry

-- `table->numOfInfos++`
abbrev pub counted : ExceptionInfoTable → ExceptionInfoTable
counted table = record {
  size = table.size;
  num_of_infos = table.num_of_infos + 1;
  info = table.info;
}

-- The test of the load, with the count before
abbrev pub is_loaded : ExceptionInfoTable → Bool
is_loaded table = ltb (table.size * 3) (table.num_of_infos * 5)

-- `EIT_insert`, of an entry
unfoldable pub insert : ExceptionInfoTable → ExceptionInfo → Option ExceptionInfoTable
unfolding put rehash
insert table entry =
    put_into entry (if is_loaded table then rehash (counted table) else some (counted table))

-- The number of cells that the entry is put into
unfoldable pub next_size : ExceptionInfoTable → Option ℕ
next_size table = if is_loaded table then get_next_prime (table.size * 2) else some table.size
