-- ===== src/Vfs/Container/Invariant/Files.antt =====
-- The operations that write to the disk of EncryptedVFSContainer leave m_files to their callers.
use a_social.Base.{
  ℕ, zero, suc, ◌≡◌, ap, refl, arith, Bool, List, ltb, Bool-cases, Option-cases, inl, inr,
}
use a_social.Base.Bytes.{Bytes}
use a_social.Vfs.Platform.{Platform}
use a_social.Vfs.Layout.{FilePointer, nonce_size, add64, new_offset}
use a_social.Vfs.Header.{serialize_file_pointer}
use a_social.Vfs.Container.{
  Container, slot_ad, encrypt_slot, fill_random, grow_container, allocate_block, write_padding,
  write_blob_to_disk,
}

module _ (p : Platform) where
  -- the part of the state that is not on the disk and not secret
  abbrev pub listing : Container p → List FilePointer × Bool
  listing c = (c.files, c.is_open)

  listing-encrypt_slot :
      (slot : ℕ) (fp : FilePointer) (c : Container p)
      → listing (encrypt_slot p slot fp c).0 ≡ listing c
  unfolding encrypt_slot
  listing-encrypt_slot slot fp c =
      elim (Option-cases (
        p.encrypt c.key (p.random c.draws nonce_size) (slot_ad slot)
          (serialize_file_pointer p fp))) [
            | inl failed ↦ rw (failed, encrypt_slot)
            | inr (ct, made) ↦ rw (made, encrypt_slot)
          ]

  listing-write_blob_to_disk :
      (fp : FilePointer) (plaintext : Bytes) (c : Container p)
      → listing (write_blob_to_disk p fp plaintext c).0 ≡ listing c
  unfolding write_blob_to_disk write_padding
  listing-write_blob_to_disk fp plaintext c =
      elim (Option-cases (p.encrypt c.key (p.random c.draws nonce_size) fp.id plaintext)) [
        | inl failed ↦ rw (failed, write_blob_to_disk)
        | inr (ct, made) ↦ rw (made, write_blob_to_disk) (ground arith)
      ]

  listing-fill_random :
      (rounds remaining pos : ℕ) (c : Container p)
      → listing (fill_random p rounds remaining pos c).0 ≡ listing c
  unfolding fill_random
  listing-fill_random zero remaining pos c = refl
  listing-fill_random (suc rounds) remaining pos c = elim (Bool-cases (ltb 0 remaining)) [
    | inl more ↦ rw more (listing-fill_random rounds _ _ _)
    | inr done ↦ rw done
  ]

  listing-allocate_block : (n : ℕ) (c : Container p) → listing (allocate_block p n c).0 ≡ listing c
  unfolding allocate_block grow_container
  listing-allocate_block n c =
      elim (Bool-cases (ltb (p.size c.file) (add64 (new_offset c.files) n))) [
        | inl short ↦ rw short (listing-fill_random _ _ _ _)
        | inr long ↦ rw long
      ]

  pub offset-allocate_block :
      (n : ℕ) (c : Container p) → (allocate_block p n c).1 ≡ new_offset c.files
  unfolding allocate_block
  offset-allocate_block n c =
      elim (Bool-cases (ltb (p.size c.file) (add64 (new_offset c.files) n))) [
        | inl short ↦ rw short
        | inr long ↦ rw long
      ]

  pub files-encrypt_slot :
      (slot : ℕ) (fp : FilePointer) (c : Container p) → (encrypt_slot p slot fp c).0.files ≡ c.files
  files-encrypt_slot slot fp c =
      ap (λ (x : List FilePointer × Bool). x.0) (listing-encrypt_slot slot fp c)

  pub files-write_blob_to_disk :
      (fp : FilePointer) (plaintext : Bytes) (c : Container p)
      → (write_blob_to_disk p fp plaintext c).0.files ≡ c.files
  files-write_blob_to_disk fp plaintext c =
      ap (λ (x : List FilePointer × Bool). x.0) (listing-write_blob_to_disk fp plaintext c)

  pub files-allocate_block : (n : ℕ) (c : Container p) → (allocate_block p n c).0.files ≡ c.files
  files-allocate_block n c = ap (λ (x : List FilePointer × Bool). x.0) (listing-allocate_block n c)

  pub is_open-encrypt_slot :
      (slot : ℕ) (fp : FilePointer) (c : Container p)
      → (encrypt_slot p slot fp c).0.is_open ≡ c.is_open
  is_open-encrypt_slot slot fp c =
      ap (λ (x : List FilePointer × Bool). x.1) (listing-encrypt_slot slot fp c)

  pub is_open-write_blob_to_disk :
      (fp : FilePointer) (plaintext : Bytes) (c : Container p)
      → (write_blob_to_disk p fp plaintext c).0.is_open ≡ c.is_open
  is_open-write_blob_to_disk fp plaintext c =
      ap (λ (x : List FilePointer × Bool). x.1) (listing-write_blob_to_disk fp plaintext c)

  pub is_open-allocate_block :
      (n : ℕ) (c : Container p) → (allocate_block p n c).0.is_open ≡ c.is_open
  is_open-allocate_block n c =
      ap (λ (x : List FilePointer × Bool). x.1) (listing-allocate_block n c)
