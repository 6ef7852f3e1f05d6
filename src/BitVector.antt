-- ===== src/BitVector.antt =====
-- translator/bit_vector.ic and the mask table of translator/bit_vector.c. A `word*` is the list of
-- the words it points to; an index is not negative, and what lies past the list is not modelled
-- (a read gives 0, a write is dropped).
mod Masks
pub mod Laws
mod Tests
use la_tte.Common.{ℕ, ◌-◌, ◌/◌, ◌%◌, bit_and, bit_or, Bool, not, List, [], ◌∷◌, ◌==◌, get_or, set}
use la_tte.Word.{bit_not}
use la_tte.BitRow.{each_word}

-- `Mask_For_Word`
abbrev pub mask_for_word : List ℕ
mask_for_word =
    0x80000000 ∷ 0x40000000 ∷ 0x20000000 ∷ 0x10000000 ∷ 0x08000000 ∷ 0x04000000 ∷ 0x02000000
    ∷ 0x01000000 ∷ 0x00800000 ∷ 0x00400000 ∷ 0x00200000 ∷ 0x00100000 ∷ 0x00080000 ∷ 0x00040000
    ∷ 0x00020000 ∷ 0x00010000 ∷ 0x00008000 ∷ 0x00004000 ∷ 0x00002000 ∷ 0x00001000 ∷ 0x00000800
    ∷ 0x00000400 ∷ 0x00000200 ∷ 0x00000100 ∷ 0x00000080 ∷ 0x00000040 ∷ 0x00000020 ∷ 0x00000010
    ∷ 0x00000008 ∷ 0x00000004 ∷ 0x00000002 ∷ 0x00000001 ∷ []

pub mask : ℕ → ℕ
mask index_in_word = get_or mask_for_word index_in_word 0

unfoldable pub set_bit : List ℕ → ℕ → List ℕ
unfolding mask
set_bit bit_vector index =
    set bit_vector (index / 32) (bit_or (get_or bit_vector (index / 32) 0) (mask (index % 32)))

unfoldable pub is_set : List ℕ → ℕ → Bool
unfolding mask
is_set bit_vector index = not (bit_and (get_or bit_vector (index / 32) 0) (mask (index % 32)) == 0)

unfoldable pub clear_bit : List ℕ → ℕ → List ℕ
unfolding mask
clear_bit bit_vector index =
    set bit_vector (index / 32)
      (bit_and (get_or bit_vector (index / 32) 0) (bit_not (mask (index % 32))))

unfoldable pub copy : List ℕ → List ℕ → ℕ → List ℕ
unfolding each_word
copy dest src size = each_word (λ d s. s) size 0 dest src

unfoldable pub or_words : List ℕ → List ℕ → ℕ → List ℕ
unfolding each_word
or_words dest src size = each_word bit_or size 0 dest src

unfoldable pub and_words : List ℕ → List ℕ → ℕ → List ℕ
unfolding each_word
and_words dest src size = each_word bit_and size 0 dest src

unfoldable pub init : List ℕ → ℕ → List ℕ
unfolding each_word
init bit_vector size = each_word (λ d s. 0) size 0 bit_vector []

unfoldable pub clear_all : List ℕ → ℕ → List ℕ
unfolding init
clear_all bit_vector size = init bit_vector size

unfoldable pub set_all : List ℕ → ℕ → List ℕ
unfolding each_word
set_all bv size = each_word (λ d s. 0xffff_ffff) size 0 bv []
