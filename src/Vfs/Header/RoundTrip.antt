-- ===== src/Vfs/Header/RoundTrip.antt =====
-- A header slot of plugins/vfs-cake/src/EncryptedVFSContainer.cpp reads back what was written.
use a_social.Base.{
  ℕ, zero, suc, ◌+◌, ◌%◌, ◌≤◌, ◌<◌, ◌≡◌, ◌∙◌, ap, refl, arith, false, some, ◌∷◌, [], length, get_or,
  replicate, ltb, length-take,
}
use a_social.Base.Bytes.{
  Bytes, overwrite, slice, le_bytes, of_le, length-overwrite, slice-overwrite_self,
  slice-overwrite_after, length-le_bytes, of_le-le_bytes,
}
use a_social.Vfs.Platform.{Platform}
use a_social.Vfs.Layout.{FilePointer, u64, slot_plaintext_size, max_filename_bytes}
use a_social.Vfs.Header.{
  put64, get64, put8, stored_name, serialize_file_pointer, deserialize_file_pointer,
}

get_or-slice : (buf : Bytes) (i x d : ℕ) → slice buf i 1 ≡ x ∷ [] → get_or buf i d ≡ x
get_or-slice [] zero x d e = cc
get_or-slice [] (suc i) x d e = cc
get_or-slice (b ∷ bs) zero x d e = ground arith
get_or-slice (b ∷ bs) (suc i) x d e = get_or-slice bs i x d e

-- The values of a file pointer fit their fields.
pub record Fits (fp : FilePointer) : Type 0 where
  pub id_length : length fp.id ≡ 16
  pub data_offset : fp.data_offset < u64
  pub allocated_size : fp.allocated_size < u64
  pub used_size : fp.used_size < u64
  pub flags : fp.flags < 256

-- Reading a field through the writes behind it.
put64_self : (buf : Bytes) (o v : ℕ) → v < u64 → o + 8 ≤ length buf → get64 (put64 buf o v) o ≡ v
put64_self buf o v small fits =
    ap of_le (slice-overwrite_self buf o (le_bytes 8 v) 8 (length-le_bytes 8 v) fits)
    ∙ of_le-le_bytes 8 v small

put64_after : (buf : Bytes) (o v k : ℕ) → o + 8 ≤ k → get64 (put64 buf k v) o ≡ get64 buf o
put64_after buf o v k h = ap of_le (slice-overwrite_after buf k (le_bytes 8 v) o 8 h)

put8_after : (buf : Bytes) (o v k : ℕ) → o + 8 ≤ k → get64 (put8 buf k v) o ≡ get64 buf o
put8_after buf o v k h = ap of_le (slice-overwrite_after buf k (v % 256 ∷ []) o 8 h)

put8_self : (buf : Bytes) (i v d : ℕ) → v < 256 → i + 1 ≤ length buf → get_or (put8 buf i v) i d ≡ v
put8_self buf i v d small fits =
    get_or-slice (put8 buf i v) i (v % 256) d
      (slice-overwrite_self buf i (v % 256 ∷ []) 1 refl fits)
    ∙ omega arith

get_or-overwrite_after :
    (buf src : Bytes) (i k x d : ℕ)
    → i + 1 ≤ k
    → slice buf i 1 ≡ x ∷ []
    → slice (overwrite buf k src) i 1 ≡ x ∷ []
get_or-overwrite_after buf src i k x d h e = slice-overwrite_after buf k src i 1 h ∙ e

module _ (p : Platform) (fp : FilePointer) where
  name : Bytes
  name = stored_name p fp

  b0 : Bytes
  b0 = overwrite (replicate slot_plaintext_size 0) 0 fp.id

  b1 : Bytes
  b1 = put8 b0 16 (length name)

  b2 : Bytes
  b2 = overwrite b1 17 name

  b3 : Bytes
  b3 = put64 b2 63 fp.data_offset

  b4 : Bytes
  b4 = put64 b3 71 fp.allocated_size

  b5 : Bytes
  b5 = put64 b4 79 fp.used_size

  b6 : Bytes
  b6 = put8 b5 87 fp.flags

  serialized : serialize_file_pointer p fp ≡ b6
  unfolding serialize_file_pointer name b0 b1 b2 b3 b4 b5 b6
  serialized = refl

  name-length : length name ≤ max_filename_bytes
  unfolding name
  name-length = omega (arith, length-take max_filename_bytes (p.to_utf8 fp.filename))

  length-b0 : length b0 ≡ 88
  unfolding b0
  length-b0 = length-overwrite (replicate slot_plaintext_size 0) 0 fp.id

  length-b1 : length b1 ≡ 88
  unfolding b1
  length-b1 = length-overwrite b0 16 _ ∙ length-b0

  length-b2 : length b2 ≡ 88
  unfolding b2
  length-b2 = length-overwrite b1 17 name ∙ length-b1

  length-b3 : length b3 ≡ 88
  unfolding b3
  length-b3 = length-overwrite b2 63 _ ∙ length-b2

  length-b4 : length b4 ≡ 88
  unfolding b4
  length-b4 = length-overwrite b3 71 _ ∙ length-b3

  length-b5 : length b5 ≡ 88
  unfolding b5
  length-b5 = length-overwrite b4 79 _ ∙ length-b4

  length-b6 : length b6 ≡ 88
  unfolding b6
  length-b6 = length-overwrite b5 87 _ ∙ length-b5

  -- What stands before offset 63 passes the four last writes.
  before-63 : (o n : ℕ) → o + n ≤ 63 → slice b6 o n ≡ slice b2 o n
  unfolding b6 b5 b4 b3
  before-63 o n h =
      slice-overwrite_after b5 87 _ o n (omega arith)
      ∙ slice-overwrite_after b4 79 _ o n (omega arith)
      ∙ slice-overwrite_after b3 71 _ o n (omega arith)
      ∙ slice-overwrite_after b2 63 _ o n (omega arith)

  id_read : length fp.id ≡ 16 → slice b6 0 16 ≡ fp.id
  unfolding b2 b1 b0
  id_read h =
      before-63 0 16 (omega arith)
      ∙ slice-overwrite_after b1 17 name 0 16 (omega arith)
      ∙ slice-overwrite_after b0 16 _ 0 16 (omega arith)
      ∙ slice-overwrite_self (replicate slot_plaintext_size 0) 0 fp.id 16 h (omega arith)

  name-length_read : get_or b6 16 0 ≡ length name
  unfolding b2 b1
  name-length_read =
      get_or-slice b6 16 (length name % 256) 0 (
        before-63 16 1 (omega arith)
        ∙ slice-overwrite_after b1 17 name 16 1 (omega arith)
        ∙ slice-overwrite_self b0 16 (length name % 256 ∷ []) 1 refl (omega (arith, length-b0)))
      ∙ omega (arith, name-length)

  name_read : slice b6 17 (length name) ≡ name
  unfolding b2
  name_read =
      before-63 17 (length name) (omega (arith, name-length))
      ∙ slice-overwrite_self b1 17 name (length name) refl (omega (arith, length-b1, name-length))

  data_offset_read : fp.data_offset < u64 → get64 b6 63 ≡ fp.data_offset
  unfolding b6 b5 b4 b3
  data_offset_read h =
      put8_after b5 63 _ 87 (omega arith)
      ∙ put64_after b4 63 _ 79 (omega arith)
      ∙ put64_after b3 63 _ 71 (omega arith)
      ∙ put64_self b2 63 fp.data_offset h (omega (arith, length-b2))

  allocated_size_read : fp.allocated_size < u64 → get64 b6 71 ≡ fp.allocated_size
  unfolding b6 b5 b4
  allocated_size_read h =
      put8_after b5 71 _ 87 (omega arith)
      ∙ put64_after b4 71 _ 79 (omega arith)
      ∙ put64_self b3 71 fp.allocated_size h (omega (arith, length-b3))

  used_size_read : fp.used_size < u64 → get64 b6 79 ≡ fp.used_size
  unfolding b6 b5
  used_size_read h =
      put8_after b5 79 _ 87 (omega arith)
      ∙ put64_self b4 79 fp.used_size h (omega (arith, length-b4))

  flags_read : fp.flags < 256 → get_or b6 87 0 ≡ fp.flags
  unfolding b6
  flags_read h = put8_self b5 87 fp.flags 0 h (omega (arith, length-b5))

  pub length-serialize_file_pointer : length (serialize_file_pointer p fp) ≡ slot_plaintext_size
  length-serialize_file_pointer = rw serialized length-b6

  -- A file pointer whose values fit their fields, and whose name survives the cut to 46 bytes of
  -- UTF-8, is read back as it was written, in the slot that it is read from.
  pub deserialize-serialize :
      Fits fp
      → p.from_utf8 (stored_name p fp) ≡ fp.filename
      → deserialize_file_pointer p fp.slot_index (serialize_file_pointer p fp) ≡ some fp
  unfolding deserialize_file_pointer name
  deserialize-serialize h decoded = rw (
    serialized,
    length-b6,
    name-length_read,
    short,
    id_read h.id_length,
    name_read,
    decoded',
    data_offset_read h.data_offset,
    allocated_size_read h.allocated_size,
    used_size_read h.used_size,
    flags_read h.flags,
  )
    where
      short : ltb max_filename_bytes (length name) ≡ false
      short = ground (arith, name-length)

      decoded' : p.from_utf8 name ≡ fp.filename
      decoded' = decoded
