-- ===== src/Vfs/Header.antt =====
-- serializeFilePointer and deserializeFilePointer of
-- plugins/vfs-cake/src/EncryptedVFSContainer.cpp: the 88 bytes of a header slot.
pub mod RoundTrip
use a_social.Base.{
  ℕ, ◌+◌, ◌%◌, ◌≤◌, ◌<◌, Option, none, some, Text, length, get_or, take, replicate, ltb,
  if◌then◌else◌, ◌∷◌, [],
}
use a_social.Base.Bytes.{Bytes, overwrite, slice, le_bytes, of_le}
use a_social.Vfs.Platform.{Platform}
use a_social.Vfs.Layout.{FilePointer, slot_plaintext_size, max_filename_bytes}

-- The lambda `put64`.
abbrev pub put64 : Bytes → ℕ → ℕ → Bytes
put64 buf offset v = overwrite buf offset (le_bytes 8 v)

-- The lambda `get64`.
abbrev pub get64 : Bytes → ℕ → ℕ
get64 buf offset = of_le (slice buf offset 8)

-- `buf[i] = static_cast<char>(v)`
abbrev pub put8 : Bytes → ℕ → ℕ → Bytes
put8 buf i v = overwrite buf i (v % 256 ∷ [])

abbrev pub stored_name : (p : Platform) → FilePointer → Bytes
stored_name p fp = take max_filename_bytes (p.to_utf8 fp.filename)

unfoldable pub serialize_file_pointer : (p : Platform) → FilePointer → Bytes
serialize_file_pointer p fp =
    let name = stored_name p fp in
    let b0 = overwrite (replicate slot_plaintext_size 0) 0 fp.id in
    let b1 = put8 b0 16 (length name) in
    let b2 = overwrite b1 17 name in
    let b3 = put64 b2 63 fp.data_offset in
    let b4 = put64 b3 71 fp.allocated_size in
    let b5 = put64 b4 79 fp.used_size in put8 b5 87 fp.flags

-- `slot_index` is not stored: loadSlots sets it, so it is an argument here.
unfoldable pub deserialize_file_pointer : (p : Platform) → ℕ → Bytes → Option FilePointer
deserialize_file_pointer p slot buf =
    let name_len = get_or buf 16 0 in
    if ltb (length buf) slot_plaintext_size
    then none
    else if ltb max_filename_bytes name_len
    then none
    else some (record {
      id = slice buf 0 16;
      filename = p.from_utf8 (slice buf 17 name_len);
      data_offset = get64 buf 63;
      allocated_size = get64 buf 71;
      used_size = get64 buf 79;
      flags = get_or buf 87 0;
      slot_index = slot;
    })
