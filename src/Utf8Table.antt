-- ===== src/Utf8Table.antt =====
-- The table of constant strings of runtime/string.c: `hashUtf8String`, `find_utf8hash`,
-- `makeUtf8Const` and `finalizeUtf8const`, with `INTERN_UTF8CONSTS` set.
--
-- A string is the list of its bytes; `(Utf8Const*) -1`, which stands where a string was, is
-- `deleted`. `none` is a crash, or a search that does not end.
pub mod Searching
pub mod Interning
pub mod Deleting
mod Tests
use la_tte.Common.{
  ℕ, zero, suc, ◌+◌, ◌-◌, ◌*◌, ◌%◌, Bool, true, false, ◌&&◌, Option, none, some, List, [], ◌∷◌, ltb,
  leb, ◌==◌, if◌then◌else◌, update,
}
use la_tte.Prime.{get_next_prime}

-- `data` and `length`, and the address that it is at
pub record Utf8Const : Type 0 where
  pub address : ℕ
  pub bytes : List ℕ

pub data Cell : Type 0 where
  free : Cell
  deleted : Cell
  constant : Utf8Const → Cell

-- `utf8hash_size`, `utf8hash_count` and `utf8hash`
pub record Utf8Table : Type 0 where
  pub size : ℕ
  pub count : ℕ
  pub cells : ℕ → Cell

-- A `char` as an `int`, in 32 bits
abbrev pub char_as_int : ℕ → ℕ
char_as_int byte = if ltb byte 128 then byte else 4294967040 + byte

-- The loop of `hashUtf8String`, in 32 bits
unfoldable pub hash_from : ℕ → List ℕ → ℕ
hash_from hash [] = hash
hash_from hash (byte ∷ s) = hash_from ((hash * 37 + char_as_int byte) % 4294967296) s

abbrev pub hash_utf8_string : List ℕ → ℕ
hash_utf8_string s = hash_from 0 s

-- The lengths are equal, and `memcmp` gives 0.
unfoldable pub same_bytes : List ℕ → List ℕ → Bool
same_bytes [] [] = true
same_bytes [] (_ ∷ _) = false
same_bytes (_ ∷ _) [] = false
same_bytes (a ∷ s) (b ∷ t) = (a == b) && same_bytes s t

-- The condition that ends the loop of `find_utf8hash`
unfoldable pub stops : List ℕ → Cell → Bool
unfolding same_bytes
stops s free = true
stops s deleted = false
stops s (constant m) = same_bytes m.bytes s

-- `index += 2 * (++step) - 1; index %= utf8hash_size`, with the step before
abbrev pub next_index : ℕ → ℕ → ℕ → ℕ
next_index size step index = (index + (2 * step + 1)) % 4294967296 % size

unfoldable pub search_from : ℕ → Utf8Table → List ℕ → ℕ → ℕ → Option ℕ
unfolding stops
search_from zero table s step index = none
search_from (suc fuel) table s step index =
    let rest = search_from fuel table s (suc step) (next_index table.size step index) in
    if stops s (table.cells index) then some index else rest

-- `find_utf8hash`
unfoldable pub find_utf8hash : Utf8Table → List ℕ → Option ℕ
unfolding search_from hash_from
find_utf8hash table s = search_from (suc table.size) table s 0 (hash_utf8_string s % table.size)

abbrev pub with_cell : Utf8Table → ℕ → ℕ → Cell → Utf8Table
with_cell table count c x = record {
  size = table.size;
  count = count;
  cells = update table.cells c x;
}

-- From `ptr = find_utf8hash (s, len)`: what is found is returned, or the new constant, which
-- `gc_malloc` returns at `address`.
abbrev pub new_or_old : Utf8Table → List ℕ → ℕ → ℕ → Cell → Option (Utf8Const × Utf8Table)
new_or_old table s address c free =
    let m : Utf8Const = record { address = address; bytes = s } in
    some (m, with_cell table (table.count + 1) c (constant m))
new_or_old table s address c deleted = none
new_or_old table s address c (constant m) = some (m, table)

abbrev pub make_at : Utf8Table → List ℕ → ℕ → Option ℕ → Option (Utf8Const × Utf8Table)
make_at table s address none = none
make_at table s address (some c) = new_or_old table s address c (table.cells c)

-- One round of re-hashing. A pointer is compared as an unsigned number, so that `deleted` is passed
-- to `find_utf8hash`, which reads the length at that address.
abbrev pub write_at : Utf8Table → Cell → Option ℕ → Option Utf8Table
write_at table x none = none
write_at table x (some c) = some (with_cell table table.count c x)

abbrev pub move : Cell → Option Utf8Table → Option Utf8Table
move x none = none
move free (some table) = some table
move deleted (some table) = none
move (constant m) (some table) = write_at table (constant m) (find_utf8hash table m.bytes)

-- The cells from `i` on, the last first
unfoldable pub move_last : ℕ → (ℕ → Cell) → ℕ → Utf8Table → Option Utf8Table
unfolding find_utf8hash
move_last zero old_hash i table = some table
move_last (suc left) old_hash i table = move (old_hash i) (move_last left old_hash (suc i) table)

abbrev pub rehash_to : Utf8Table → Option ℕ → Option Utf8Table
rehash_to table none = none
rehash_to table (some size) =
    move_last table.size table.cells 0
      (record { size = size; count = table.count; cells = λ _. free })

-- The start of `makeUtf8Const`; `utf8hash` is NULL where its size is 0.
unfoldable pub prepare : Utf8Table → Option Utf8Table
unfolding move_last
prepare table =
    if leb (2 * table.size) (3 * table.count)
    then (if table.size == 0
        then some (record { size = 1021; count = table.count; cells = λ _. free })
        else rehash_to table (get_next_prime (table.size * 2)))
    else some table

abbrev pub make_in : List ℕ → ℕ → Option Utf8Table → Option (Utf8Const × Utf8Table)
make_in s address none = none
make_in s address (some table) = make_at table s address (find_utf8hash table s)

-- `makeUtf8Const` of a string whose length is given
unfoldable pub make_utf8_const : Utf8Table → List ℕ → ℕ → Option (Utf8Const × Utf8Table)
unfolding prepare find_utf8hash
make_utf8_const table s address = make_in s address (prepare table)

-- A round of `finalizeUtf8const`, which reads through a free cell's pointer
unfoldable pub constant_round : List ℕ → ℕ → Option ℕ → Cell → Option ℕ
unfolding same_bytes
constant_round s index rest free = none
constant_round s index rest deleted = rest
constant_round s index rest (constant m) = if same_bytes m.bytes s then some index else rest

unfoldable pub search_constant : ℕ → Utf8Table → List ℕ → ℕ → ℕ → Option ℕ
unfolding constant_round
search_constant zero table s step index = none
search_constant (suc fuel) table s step index =
    constant_round s index
      (search_constant fuel table s (suc step) (next_index table.size step index))
      (table.cells index)

-- `utf8hash_count` is positive while a constant is in the table.
abbrev pub delete_at : Utf8Table → Option ℕ → Option Utf8Table
delete_at table none = none
delete_at table (some c) = some (with_cell table (table.count - 1) c deleted)

-- `finalizeUtf8const`
unfoldable pub finalize_utf8_const : Utf8Table → Utf8Const → Option Utf8Table
unfolding search_constant hash_from
finalize_utf8_const table m =
    delete_at table
      (search_constant (suc table.size) table m.bytes 0 (hash_utf8_string m.bytes % table.size))
