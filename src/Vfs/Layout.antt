-- ===== src/Vfs/Layout.antt =====
-- The on-disk layout of EncryptedVFSContainer.h, and where allocateBlock places a block.
pub mod Power
pub mod Blocks
pub mod Narrow
use a_social.Base.{
  ℕ, ◌+◌, ◌-◌, ◌*◌, ◌/◌, ◌%◌, ◌^◌, List, [], ◌∷◌, Text, ltb, leb, bit_or, if◌then◌else◌,
}
use a_social.Base.Bytes.{Bytes}

abbrev pub magic_size : ℕ
magic_size = 8

abbrev pub salt_size : ℕ
salt_size = 16

abbrev pub slot_count : ℕ
slot_count = 4096

abbrev pub slot_size : ℕ
slot_size = 128

abbrev pub header_offset : ℕ
header_offset = magic_size + salt_size

abbrev pub header_size : ℕ
header_size = slot_count * slot_size

abbrev pub total_header : ℕ
total_header = header_offset + header_size

abbrev pub data_alignment : ℕ
data_alignment = 4096

abbrev pub data_start : ℕ
data_start = (total_header + data_alignment - 1) / data_alignment * data_alignment

abbrev pub nonce_size : ℕ
nonce_size = 24

abbrev pub mac_size : ℕ
mac_size = 16

abbrev pub slot_plaintext_size : ℕ
slot_plaintext_size = slot_size - nonce_size - mac_size

abbrev pub max_filename_bytes : ℕ
max_filename_bytes = 46

-- quint64 arithmetic
abbrev pub u64 : ℕ
u64 = 2 ^ 64

abbrev pub add64 : ℕ → ℕ → ℕ
add64 a b = (a + b) % u64

abbrev pub sub64 : ℕ → ℕ → ℕ
sub64 a b = (a + u64 - b) % u64

-- The length of a QByteArray of `static_cast<int>(n)` bytes, for a quint64 `n`: a negative int makes
-- an empty array. Where it is less than `n`, the source writes behind the array.
abbrev pub to_int : ℕ → ℕ
to_int n = let m = n % 2 ^ 32 in if ltb m (2 ^ 31) then m else 0

-- `id` is held as its RFC 4122 bytes.
pub record FilePointer : Type 0 where
  pub id : Bytes
  pub filename : Text
  pub data_offset : ℕ
  pub allocated_size : ℕ
  pub used_size : ℕ
  pub flags : ℕ
  pub slot_index : ℕ

-- ((x + DATA_ALIGNMENT - 1) / DATA_ALIGNMENT) * DATA_ALIGNMENT
unfoldable pub align_up : ℕ → ℕ
align_up x = ((x + data_alignment - 1) % u64 / data_alignment) * data_alignment

-- the loop of allocateBlock over m_files
unfoldable pub end_of_data : ℕ → List FilePointer → ℕ
end_of_data acc [] = acc
end_of_data acc (fp ∷ fs) =
    let end = add64 fp.data_offset fp.allocated_size in
    end_of_data (if ltb acc end then end else acc) fs

-- newOffset of allocateBlock
unfoldable pub new_offset : List FilePointer → ℕ
new_offset fs = align_up (end_of_data data_start fs)

-- v |= v >> 1; …; v |= v >> 32
unfoldable pub fill : ℕ → ℕ
fill v0 =
    let v1 = bit_or v0 (v0 / 2 ^ 1) in
    let v2 = bit_or v1 (v1 / 2 ^ 2) in
    let v3 = bit_or v2 (v2 / 2 ^ 4) in
    let v4 = bit_or v3 (v3 / 2 ^ 8) in let v5 = bit_or v4 (v4 / 2 ^ 16) in bit_or v5 (v5 / 2 ^ 32)

unfoldable pub next_power_of_2 : ℕ → ℕ
next_power_of_2 v = if leb v data_alignment then data_alignment else add64 (fill (v - 1)) 1
