-- ===== src/Vfs/Container.antt =====
-- EncryptedVFSContainer of plugins/vfs-cake/src/EncryptedVFSContainer.cpp: its state, and its
-- operations as functions that return the new state beside their result. A write moves the file
-- position by what it was given, so the second of two writes starts where the first one ends.
pub mod Disk
pub mod Loading
pub mod Leaves
pub mod Invariant
pub mod Keeps
pub mod View
mod Examples
use a_social.Base.{
  ℕ, zero, suc, ◌+◌, ◌-◌, ◌*◌, ◌/◌, ◌%◌, Bool, true, false, not, ◌&&◌, Option, none, some, List, [],
  ◌∷◌, ◌++◌, map, Text, length, take, drop, set, remove_at, ltb, ◌==◌, min, if◌then◌else◌,
}
use a_social.Base.Bytes.{Bytes, le_bytes, of_le}
use a_social.Vfs.Platform.{Platform}
use a_social.Vfs.Layout.{
  FilePointer, header_offset, slot_size, slot_count, nonce_size, mac_size, max_filename_bytes,
  data_alignment, add64, sub64, to_int, align_up, new_offset, next_power_of_2,
}
use a_social.Vfs.Slots.{find_file_slot, find_slot, find_free_slot}
use a_social.Vfs.Header.{serialize_file_pointer, deserialize_file_pointer}

-- `draws` counts the draws of random bytes and of identifiers made so far.
pub record Container (p : Platform) : Type 0 where
  pub file : p.File
  pub key : Bytes
  pub salt : Bytes
  pub files : List FilePointer
  pub is_open : Bool
  pub draws : ℕ

-- The QBuffer that openFile returns.
pub record VirtualFile : Type 0 where
  pub slot_index : ℕ
  pub contents : Bytes
  pub dirty : Bool

pub record OpenMode : Type 0 where
  pub reads : Bool
  pub writes : Bool
  pub truncates : Bool

abbrev pub slot_offset : ℕ → ℕ
slot_offset slot = header_offset + slot * slot_size

-- the additional data of a slot: its index, as a quint32 in little-endian order
abbrev pub slot_ad : ℕ → Bytes
slot_ad slot = le_bytes 4 slot

-- CHUNK, 1 MiB
abbrev pub chunk_size : ℕ
chunk_size = 1024 * 1024

module _ (p : Platform) where
  -- Two writes, one behind the other: the nonce and the ciphertext.
  abbrev pub write_sealed : p.File → ℕ → Bytes → Bytes → p.File
  write_sealed f off nonce ct = (p.write (p.write f off nonce).0 (off + length nonce) ct).0

  pub encrypt_slot : ℕ → FilePointer → Container p → Container p × Bool
  encrypt_slot slot fp c =
      let nonce = p.random c.draws nonce_size in
      let drawn : Container p = record c { draws = c.draws + 1 } in
      elim (p.encrypt c.key nonce (slot_ad slot) (serialize_file_pointer p fp)) [
        | none ↦ (drawn, false)
        | some ct ↦ (record drawn { file = write_sealed c.file (slot_offset slot) nonce ct }, true)
      ]

  pub clear_slot : ℕ → Container p → Container p × Bool
  clear_slot slot c =
      let (f, written) = p.write c.file (slot_offset slot) (p.random c.draws slot_size) in
      (record c { file = f; draws = c.draws + 1 }, written)

  -- One round of loadSlots: `none` where the loop goes on without an entry.
  pub read_slot : p.File → Bytes → ℕ → Option FilePointer
  read_slot f key i =
      let raw = p.read f (slot_offset i) slot_size in
      let nonce = take nonce_size raw in
      let ct = drop nonce_size raw in
      if not (length raw == slot_size) then none else elim (p.decrypt key nonce (slot_ad i) ct) [
        | none ↦ none
        | some pt ↦ deserialize_file_pointer p i pt
      ]

  abbrev pub append_found : List FilePointer → Option FilePointer → List FilePointer
  append_found fs none = fs
  append_found fs (some fp) = fs ++ fp ∷ []

  -- The loop over `i < SLOT_COUNT`, with the rounds that are left.
  pub load_slots_from : ℕ → ℕ → p.File → Bytes → List FilePointer → List FilePointer
  load_slots_from zero i f key fs = fs
  load_slots_from (suc rounds) i f key fs =
      load_slots_from rounds (i + 1) f key (append_found fs (read_slot f key i))

  unfoldable pub load_slots : Container p → Container p
  load_slots c = record c { files = load_slots_from slot_count 0 c.file c.key [] }

  -- `while( remaining > 0 )` with its rounds; returns what is left as well.
  pub fill_random : ℕ → ℕ → ℕ → Container p → Container p × ℕ
  fill_random zero remaining pos c = (c, remaining)
  fill_random (suc rounds) remaining pos c =
      let n = min remaining chunk_size in
      let filled : Container p = record c {
        file = (p.write c.file pos (p.random c.draws n)).0;
        draws = c.draws + 1;
      } in
      let rest = fill_random rounds (sub64 remaining n) (pos + n) filled in
      if ltb 0 remaining then rest else (c, remaining)

  pub grow_container : ℕ → Container p → Container p
  grow_container required_end c =
      let padding = of_le (p.random c.draws 4) % (4 * 1024 * 1024) in
      let new_size = align_up (add64 required_end padding) in
      let old_size = p.size c.file in
      let resized : Container p = record c {
        file = p.resize c.file new_size;
        draws = c.draws + 1;
      } in
      let remaining = sub64 new_size old_size in
      (fill_random (remaining / chunk_size + 1) remaining old_size resized).0

  pub allocate_block : ℕ → Container p → Container p × ℕ
  allocate_block required_size c =
      let offset = new_offset c.files in
      let required_end = add64 offset required_size in
      let grown = grow_container required_end c in
      if ltb (p.size c.file) required_end then (grown, offset) else (c, offset)

  -- `{}` where the blob cannot be read
  pub read_blob_from_disk : Container p → FilePointer → Bytes
  read_blob_from_disk c fp =
      let nonce = p.read c.file fp.data_offset nonce_size in
      let ct_size = add64 fp.used_size mac_size in
      let ct = p.read c.file (fp.data_offset + nonce_size) ct_size in
      if fp.used_size == 0
      then []
      else if not (length nonce == nonce_size)
      then []
      else if not (length ct == ct_size)
      then []
      else elim (p.decrypt c.key nonce fp.id ct) [
        | none ↦ []
        | some pt ↦ take (to_int fp.used_size) pt
      ]

  -- the random bytes behind the ciphertext, up to the end of the block
  pub write_padding : FilePointer → ℕ → Container p → Container p
  write_padding fp written c =
      if ltb written fp.allocated_size
      then record c {
        file =
            (p.write c.file (fp.data_offset + written)
              (p.random c.draws (to_int (fp.allocated_size - written)))).0;
        draws = c.draws + 1;
      }
      else c

  pub write_blob_to_disk : FilePointer → Bytes → Container p → Container p × Bool
  write_blob_to_disk fp plaintext c =
      let nonce = p.random c.draws nonce_size in
      let drawn : Container p = record c { draws = c.draws + 1 } in
      elim (p.encrypt c.key nonce fp.id plaintext) [
        | none ↦ (drawn, false)
        | some ct ↦ (
          write_padding fp (nonce_size + length ct)
              (record drawn { file = write_sealed c.file fp.data_offset nonce ct }),
          true,
        )
      ]

  pub list_files : Container p → List Text
  list_files c = map (λ (fp : FilePointer). fp.filename) c.files

  -- readFile on an open container
  pub read_any : Container p → Text → Bytes
  read_any c filename = elim (find_file_slot filename c.files) [
    | none ↦ []
    | some (idx, fp) ↦ if fp.used_size == 0 then [] else read_blob_from_disk c fp
  ]

  pub read_file : Container p → Text → Bytes
  read_file c filename = if not c.is_open then [] else read_any c filename

  -- the blob does not fit the block: a new block, of a power of two
  pub reallocate : ℕ → FilePointer → Container p → Container p × FilePointer
  reallocate blob_size fp c =
      let new_alloc = next_power_of_2 blob_size in
      let (c', offset) = allocate_block new_alloc c in
      if ltb fp.allocated_size blob_size
      then (c', record fp { data_offset = offset; allocated_size = new_alloc })
      else (c, fp)

  -- the rest of writeFileData, for the entry `fp` at `idx`
  pub write_entry : ℕ → ℕ → FilePointer → Bytes → Container p → Container p × Bool
  write_entry slot idx fp plaintext c =
      let blob_size = add64 (add64 nonce_size (length plaintext)) mac_size in
      let (c1, moved) = reallocate blob_size fp c in
      let used : FilePointer = record moved { used_size = length plaintext } in
      let updated : Container p = record c1 { files = set c1.files idx used } in
      let (c2, written) = write_blob_to_disk used plaintext updated in
      if not written then (c2, false) else encrypt_slot slot used c2

  pub write_found : ℕ → ℕ → FilePointer → Bytes → Container p → Container p × Bool
  write_found slot idx fp plaintext c =
      let emptied : FilePointer = record fp { used_size = 0 } in
      if length plaintext == 0
      then encrypt_slot slot emptied (record c { files = set c.files idx emptied })
      else write_entry slot idx fp plaintext c

  pub write_file_data : ℕ → Bytes → Container p → Container p × Bool
  write_file_data slot plaintext c = elim (find_slot slot c.files) [
    | none ↦ (c, false)
    | some (idx, fp) ↦ write_found slot idx fp plaintext c
  ]

  pub delete_found : ℕ → FilePointer → Container p → Container p × Bool
  delete_found idx fp c =
      let (c', cleared) = clear_slot fp.slot_index c in
      if not cleared then (c', false) else (record c' { files = remove_at c'.files idx }, true)

  pub delete_file : Text → Container p → Container p × Bool
  delete_file filename c = elim (find_file_slot filename c.files) [
    | none ↦ (c, false)
    | some (idx, fp) ↦ delete_found idx fp c
  ]

  pub rename_found : ℕ → FilePointer → Text → Container p → Container p × Bool
  rename_found idx fp new_name c =
      let renamed : FilePointer = record fp { filename = new_name } in
      if ltb max_filename_bytes (length (p.to_utf8 new_name))
      then (c, false)
      else encrypt_slot fp.slot_index renamed (record c { files = set c.files idx renamed })

  pub rename_file : Text → Text → Container p → Container p × Bool
  rename_file old_name new_name c = elim (find_file_slot old_name c.files) [
    | none ↦ (c, false)
    | some (idx, fp) ↦ rename_found idx fp new_name c
  ]

  -- the entry of a new file in slot `slot`, written to the header and to m_files
  pub create_entry : Text → ℕ → Container p → Container p × Bool
  create_entry filename slot c =
      let drawn : Container p = record c { draws = c.draws + 1 } in
      let (c1, offset) = allocate_block data_alignment drawn in
      let fp : FilePointer = record {
        id = p.create_uuid c.draws;
        filename = filename;
        data_offset = offset;
        allocated_size = data_alignment;
        used_size = 0;
        flags = 0;
        slot_index = slot;
      } in
      let (c2, sealed) = encrypt_slot slot fp c1 in
      if sealed then (record c2 { files = c2.files ++ fp ∷ [] }, true) else (c2, false)

  -- the end of openFile: the buffer over the data that was read
  pub open_buffer : ℕ → Bytes → OpenMode → Container p → Container p × Option VirtualFile
  open_buffer slot contents mode c =
      if p.buffer_opens mode.reads mode.writes
      then (c, some (record { slot_index = slot; contents = contents; dirty = false }))
      else (c, none)

  -- openFile for a name that is not in m_files
  pub open_new : Text → OpenMode → Container p → Container p × Option VirtualFile
  open_new filename mode c =
      if not mode.writes
      then (c, none)
      else if ltb max_filename_bytes (length (p.to_utf8 filename))
      then (c, none)
      else elim (find_free_slot c.files) [
        | none ↦ (c, none)
        | some slot ↦
            let (c', created) = create_entry filename slot c in
            if created then open_buffer slot [] mode c' else (c', none)
      ]

  pub open_existing : FilePointer → OpenMode → Container p → Container p × Option VirtualFile
  open_existing fp mode c =
      open_buffer fp.slot_index
        (if not mode.truncates && ltb 0 fp.used_size then read_blob_from_disk c fp else []) mode c

  -- openFile on an open container
  pub open_any : Text → OpenMode → Container p → Container p × Option VirtualFile
  open_any filename mode c = elim (find_file_slot filename c.files) [
    | some (idx, fp) ↦ open_existing fp mode c
    | none ↦ open_new filename mode c
  ]

  pub open_file : Text → OpenMode → Container p → Container p × Option VirtualFile
  open_file filename mode c = if not c.is_open then (c, none) else open_any filename mode c
