-- ===== src/Vfs/Container/Keeps.antt =====
-- writeFileData and openFile of EncryptedVFSContainer, and what they make of m_files.
use a_social.Base.{
  ℕ, ◌+◌, ◌%◌, ◌≤◌, ◌<◌, ◌≡◌, ◌⊎◌, inl, inr, ◌∙◌, ap, refl, arith, false, Option, none, some, List,
  [], length, get_elem?, set, ltb, ◌==◌, Bool-cases, Option-cases, Text, unless-true, unless-false,
}
use a_social.Base.Bytes.{Bytes}
use a_social.Vfs.Platform.{Platform, Lawful}
use a_social.Vfs.Layout.{
  FilePointer, slot_count, data_start, data_alignment, new_offset, end_of_data, max_filename_bytes,
}
use a_social.Vfs.Layout.Blocks.{
  WellFormed, EndBefore, SlotFree, WellFormed-set, WellFormed-append, WellFormed-AllInData,
  InData-get_elem?, new_offset_lem,
}
use a_social.Vfs.Slots.{
  find_slot, find_file_slot, find_free_slot, get_elem?-find_slot, find_free_slot_lem,
}
use a_social.Vfs.Container.{
  Container, OpenMode, encrypt_slot, reallocate, write_blob_to_disk, write_entry, write_found,
  write_file_data, delete_found, delete_file, create_entry, open_buffer, open_new, open_any,
  open_existing, VirtualFile, open_file, allocate_block,
}
use a_social.Vfs.Container.Invariant.{
  HasRoom, blob_size, reallocate_lem, files-encrypt_slot, files-write_blob_to_disk,
  files-allocate_block, offset-allocate_block,
}

module _ (p : Platform) where
  pub write_file_data_missing :
      (slot : ℕ) (plaintext : Bytes) (c : Container p)
      → find_slot slot c.files ≡ none
      → write_file_data p slot plaintext c ≡ (c, false)
  unfolding write_file_data
  write_file_data_missing slot plaintext c e = rw (e, write_file_data)

  pub write_file_data_found :
      (slot idx : ℕ) (fp : FilePointer) (plaintext : Bytes) (c : Container p)
      → find_slot slot c.files ≡ some (idx, fp)
      → write_file_data p slot plaintext c ≡ write_found p slot idx fp plaintext c
  unfolding write_file_data
  write_file_data_found slot idx fp plaintext c e = rw (e, write_file_data)

  pub delete_file_missing :
      (filename : Text) (c : Container p)
      → find_file_slot filename c.files ≡ none
      → delete_file p filename c ≡ (c, false)
  unfolding delete_file
  delete_file_missing filename c e = rw (e, delete_file)

  pub delete_file_found :
      (filename : Text) (idx : ℕ) (fp : FilePointer) (c : Container p)
      → find_file_slot filename c.files ≡ some (idx, fp)
      → delete_file p filename c ≡ delete_found p idx fp c
  unfolding delete_file
  delete_file_found filename idx fp c e = rw (e, delete_file)

  -- the entry that writeFileData leaves in m_files
  abbrev pub used_entry : ℕ → FilePointer → Container p → FilePointer
  used_entry n fp c = record ((reallocate p (blob_size n) fp c).1) { used_size = n }

  pub files-write_entry :
      (slot idx : ℕ) (fp : FilePointer) (plaintext : Bytes) (c : Container p)
      → (write_entry p slot idx fp plaintext c).0.files
        ≡ set
            (reallocate p (blob_size (length plaintext)) fp c).0.files
            idx
            (used_entry (length plaintext) fp c)
  unfolding write_entry
  files-write_entry slot idx fp plaintext c =
      elim (Bool-cases (write_blob_to_disk p used plaintext updated).1) [
        | inl written ↦
            rw written
              (files-encrypt_slot p slot used _ ∙ files-write_blob_to_disk p used plaintext updated)
        | inr failed ↦ rw failed (files-write_blob_to_disk p used plaintext updated)
      ]
    where
      r : Container p × FilePointer
      r = reallocate p (blob_size (length plaintext)) fp c

      used : FilePointer
      used = used_entry (length plaintext) fp c

      updated : Container p
      updated = record (r.0) { files = set r.0.files idx used }

  -- An entry with the same slot and block may take the place of the old one.
  same_block :
      (fp g : FilePointer) (idx : ℕ) (fs : List FilePointer)
      → WellFormed fs
      → get_elem? fs idx ≡ some fp
      → g.slot_index ≡ fp.slot_index
      → g.data_offset ≡ fp.data_offset
      → g.allocated_size ≡ fp.allocated_size
      → WellFormed (set fs idx g)
  same_block fp g idx fs w at_idx s o a =
      let old = InData-get_elem? fp fs idx (WellFormed-AllInData fs w) at_idx in
      WellFormed-set g fp fs idx at_idx w
        (record {
          behind_header = omega (arith, old.behind_header);
          aligned = rw o old.aligned;
          no_wrap = omega (arith, old.no_wrap);
          slot_in_range = omega (arith, old.slot_in_range);
        })
        (record { slot = s; place = inl (o, a) })

module _ (p : Platform) (l : Lawful p) where
  write_entry-WellFormed :
      (slot idx : ℕ) (fp : FilePointer) (plaintext : Bytes) (c : Container p)
      → WellFormed c.files
      → get_elem? c.files idx ≡ some fp
      → HasRoom c.files (length plaintext)
      → WellFormed (write_entry p slot idx fp plaintext c).0.files
  write_entry-WellFormed slot idx fp plaintext c w at_idx room =
      let r = reallocate_lem p l (length plaintext) idx fp c w at_idx room in
      rw (files-write_entry p slot idx fp plaintext c, r.files)
        (WellFormed-set (used_entry p (length plaintext) fp c) fp c.files idx at_idx w
          (record {
            behind_header = r.in_data.behind_header;
            aligned = r.in_data.aligned;
            no_wrap = r.in_data.no_wrap;
            slot_in_range = r.in_data.slot_in_range;
          })
          (record { slot = r.moved.slot; place = r.moved.place }))

  write_found-WellFormed :
      (slot idx : ℕ) (fp : FilePointer) (plaintext : Bytes) (c : Container p)
      → WellFormed c.files
      → get_elem? c.files idx ≡ some fp
      → HasRoom c.files (length plaintext)
      → WellFormed (write_found p slot idx fp plaintext c).0.files
  unfolding write_found
  write_found-WellFormed slot idx fp plaintext c w at_idx room =
      elim (Bool-cases (length plaintext == 0)) [
        | inl empty ↦
            let emptied : FilePointer = record fp { used_size = 0 } in
            rw (empty, files-encrypt_slot)
              (same_block p fp emptied idx c.files w at_idx refl refl refl)
        | inr filled ↦ rw filled (write_entry-WellFormed slot idx fp plaintext c w at_idx room)
      ]

  -- On a lawful platform, writing a virtual file back keeps m_files well formed, whether the write succeeds or fails,
  -- where the data area has room for the new block.
  pub write_file_data-WellFormed :
      (slot : ℕ) (plaintext : Bytes) (c : Container p)
      → WellFormed c.files
      → HasRoom c.files (length plaintext)
      → WellFormed (write_file_data p slot plaintext c).0.files
  write_file_data-WellFormed slot plaintext c w room =
      elim (Option-cases (find_slot slot c.files)) [
        | inl missing ↦ rw (write_file_data_missing p slot plaintext c missing) w
        | inr ((idx, fp), found) ↦ rw (write_file_data_found p slot idx fp plaintext c found) (
            write_found-WellFormed slot idx fp plaintext c w
              (get_elem?-find_slot slot c.files idx fp found).0 room)
      ]

  create_entry-WellFormed :
      (filename : Text) (slot : ℕ) (c : Container p)
      → WellFormed c.files
      → find_free_slot c.files ≡ some slot
      → HasRoom c.files 0
      → WellFormed (create_entry p filename slot c).0.files
  unfolding create_entry
  create_entry-WellFormed filename slot c w free room =
      elim (Bool-cases (encrypt_slot p slot fp r.0).1) [
        | inl sealed ↦
            rw (sealed, files-encrypt_slot, files-allocate_block)
              (WellFormed-append fp c.files w
                (record {
                  behind_header = rw offset fresh.0;
                  aligned = rw offset fresh.1;
                  no_wrap = omega (arith, offset, fresh.3);
                  slot_in_range = slot_ok.0;
                })
                (rw offset fresh.2) slot_ok.1)
        | inr failed ↦ rw (failed, files-encrypt_slot, files-allocate_block) w
      ]
    where
      drawn : Container p
      drawn = record c { draws = c.draws + 1 }

      r : Container p × ℕ
      r = allocate_block p data_alignment drawn

      offset : r.1 ≡ new_offset c.files
      offset = offset-allocate_block p data_alignment drawn

      fp : FilePointer
      fp = record {
        id = p.create_uuid c.draws;
        filename = filename;
        data_offset = r.1;
        allocated_size = data_alignment;
        used_size = 0;
        flags = 0;
        slot_index = slot;
      }

      fresh :
          (data_start ≤ new_offset c.files)
          × (new_offset c.files % data_alignment ≡ 0)
          × EndBefore (new_offset c.files) c.files
          × (new_offset c.files < end_of_data data_start c.files + data_alignment)
      fresh = new_offset_lem c.files (WellFormed-AllInData c.files w) (omega arith)

      slot_ok : (slot < slot_count) × SlotFree slot c.files
      slot_ok = find_free_slot_lem c.files slot free

  files-open_buffer :
      (slot : ℕ) (contents : Bytes) (mode : OpenMode) (c : Container p)
      → (open_buffer p slot contents mode c).0.files ≡ c.files
  unfolding open_buffer
  files-open_buffer slot contents mode c =
      elim (Bool-cases (p.buffer_opens mode.reads mode.writes)) [
        | inl opens ↦ rw opens
        | inr fails ↦ rw fails
      ]

  -- openFile for a new name changes m_files only by the entry that it creates.
  files-open_new :
      (filename : Text) (mode : OpenMode) (c : Container p)
      → ((open_new p filename mode c).0.files ≡ c.files)
        ⊎ ((slot : ℕ) × (find_free_slot c.files ≡ some slot)
            × ((open_new p filename mode c).0.files ≡ (create_entry p filename slot c).0.files))
  unfolding open_new
  files-open_new filename mode c = elim (Bool-cases mode.writes) [
    | inr reads ↦ inl (rw reads)
    | inl writes ↦ elim (Bool-cases (ltb max_filename_bytes (length (p.to_utf8 filename)))) [
      | inl long ↦ inl (rw (writes, long))
      | inr short ↦ elim (Option-cases (find_free_slot c.files)) [
        | inl full ↦ inl (rw (writes, short, full, open_new))
        | inr (slot, free) ↦ inr (
          slot,
          free,
          elim (Bool-cases (create_entry p filename slot c).1) [
            | inl created ↦
                rw (writes, short, free, open_new, created)
                  (files-open_buffer slot [] mode (create_entry p filename slot c).0)
            | inr failed ↦ rw (writes, short, free, open_new, failed)
          ],
        )
      ]
    ]
  ]

  files-open_any :
      (filename : Text) (mode : OpenMode) (c : Container p)
      → ((open_any p filename mode c).0.files ≡ c.files)
        ⊎ ((open_any p filename mode c).0.files ≡ (open_new p filename mode c).0.files)
  unfolding open_any open_existing
  files-open_any filename mode c = elim (Option-cases (find_file_slot filename c.files)) [
    | inl missing ↦ inr (rw (missing, open_any))
    | inr ((idx, fp), found) ↦ inl (rw (found, open_any) (files-open_buffer _ _ mode c))
  ]

  files-open_file :
      (filename : Text) (mode : OpenMode) (c : Container p)
      → ((open_file p filename mode c).0.files ≡ c.files)
        ⊎ ((open_file p filename mode c).0.files ≡ (open_any p filename mode c).0.files)
  unfolding open_file
  files-open_file filename mode c = elim (Bool-cases c.is_open) [
    | inr closed ↦ inl (
        ap (λ (r : Container p × Option VirtualFile). r.0.files)
          (unless-false c.is_open _ _ closed))
    | inl opened ↦ inr (
        ap (λ (r : Container p × Option VirtualFile). r.0.files) (unless-true c.is_open _ _ opened))
  ]

  open_new-WellFormed :
      (filename : Text) (mode : OpenMode) (c : Container p)
      → WellFormed c.files
      → HasRoom c.files 0
      → WellFormed (open_new p filename mode c).0.files
  open_new-WellFormed filename mode c w room = elim (files-open_new filename mode c) [
    | inl same ↦ rw same w
    | inr (slot, free, created) ↦ rw created (create_entry-WellFormed filename slot c w free room)
  ]

  -- On a lawful platform, opening a file, old or new, keeps m_files well formed: a file that is created gets a free
  -- slot and a block of its own, where the data area has room for one more.
  pub open_file-WellFormed :
      (filename : Text) (mode : OpenMode) (c : Container p)
      → WellFormed c.files
      → HasRoom c.files 0
      → WellFormed (open_file p filename mode c).0.files
  open_file-WellFormed filename mode c w room = elim (files-open_file filename mode c) [
    | inl same ↦ rw same w
    | inr any ↦ elim (files-open_any filename mode c) [
      | inl same ↦ rw (any, same) w
      | inr new ↦ rw (any, new) (open_new-WellFormed filename mode c w room)
    ]
  ]
