-- ===== src/Vfs/Container/Leaves.antt =====
-- What an operation of the container leaves as it was: the key, and the bytes of a region that it
-- has no business with.
use native.Mathlib.Nat.{le_trans}
use a_social.Base.{
  ℕ, zero, suc, ◌+◌, ◌-◌, ◌*◌, ◌%◌, ◌≤◌, ◌<◌, ◌≡◌, inl, inr, ◌∙◌, refl, arith, length, min, ltb,
  Bool-cases, Option-cases,
}
use a_social.Base.Bytes.{Bytes, of_le}
use a_social.Vfs.Platform.{Platform, Lawful}
use a_social.Vfs.Layout.{
  FilePointer, nonce_size, mac_size, slot_size, slot_count, data_start, u64, add64, sub64, to_int,
  align_up, data_alignment, new_offset,
}
use a_social.Vfs.Layout.Blocks.{align_up_lem}
use a_social.Vfs.Layout.Narrow.{to_int_le}
use a_social.Vfs.Header.{serialize_file_pointer}
use a_social.Vfs.Header.RoundTrip.{length-serialize_file_pointer}
use a_social.Vfs.Container.{
  Container, slot_offset, slot_ad, write_sealed, encrypt_slot, clear_slot, fill_random, chunk_size,
  grow_container, allocate_block, write_padding, write_blob_to_disk, read_blob_from_disk,
}
use a_social.Vfs.Container.Disk.{
  Disjoint, read-write-Disjoint, le-size-write_sealed, read-write_sealed-Disjoint,
}

-- From `c` to `c'` the key stays, the file does not shrink, and what `c` holds of the `n` bytes
-- at `o` reads the same.
pub record Leaves (p : Platform) (o n : ℕ) (c c' : Container p) : Type 0 where
  pub key : c'.key ≡ c.key
  pub size : p.size c.file ≤ p.size c'.file
  pub bytes :
      (q k : ℕ)
      → o ≤ q
      → q + k ≤ o + n
      → q + k ≤ p.size c.file
      → p.read c'.file q k ≡ p.read c.file q k

module _ (p : Platform) where
  pub Leaves-refl : (o n : ℕ) (c : Container p) → Leaves p o n c c
  Leaves-refl o n c = record { key = refl; size = omega arith; bytes = λ q k a b s. refl }

  pub Leaves-trans :
      (o n : ℕ) (a b c : Container p) → Leaves p o n a b → Leaves p o n b c → Leaves p o n a c
  Leaves-trans o n a b c x y = record {
    key = y.key ∙ x.key;
    size = le_trans x.size y.size;
    bytes = λ q k f g s. y.bytes q k f g (le_trans s x.size) ∙ x.bytes q k f g s;
  }

  -- A blob that lies in the region reads the same.
  pub read_blob-Leaves :
      (fp : FilePointer) (c c' : Container p)
      → Leaves p fp.data_offset fp.allocated_size c c'
      → fp.used_size + 40 ≤ fp.allocated_size
      → fp.data_offset + fp.used_size + 40 ≤ p.size c.file
      → fp.used_size + mac_size < u64
      → read_blob_from_disk p c' fp ≡ read_blob_from_disk p c fp
  unfolding read_blob_from_disk
  read_blob-Leaves fp c c' k fits held small =
      let e : add64 fp.used_size mac_size ≡ fp.used_size + 16 = omega arith in
      rw (
        e,
        k.key,
        k.bytes fp.data_offset nonce_size (omega arith) (omega arith) (omega arith),
        k.bytes (fp.data_offset + nonce_size) (fp.used_size + 16) (omega arith) (omega arith)
            (omega arith),
      )

module _ (p : Platform) (l : Lawful p) where
  -- A write of two parts that shares no byte with the region leaves it.
  Leaves-write_sealed :
      (o n off draws : ℕ) (nonce ct : Bytes) (c : Container p)
      → Disjoint o n off (length nonce + length ct)
      → Leaves p o n c (record c { file = write_sealed p c.file off nonce ct; draws = draws })
  Leaves-write_sealed o n off draws nonce ct c d = record {
    key = refl;
    size = le-size-write_sealed p l c.file off nonce ct;
    bytes =
        λ q k a b s. read-write_sealed-Disjoint p l c.file off nonce ct q k (ground (arith, d)) s;
  }

  Leaves-write :
      (o n off draws : ℕ) (b : Bytes) (c : Container p)
      → Disjoint o n off (length b)
      → Leaves p o n c (record c { file = (p.write c.file off b).0; draws = draws })
  Leaves-write o n off draws b c d = record {
    key = refl;
    size = l.le-size-write c.file off b;
    bytes = λ q k a e s. read-write-Disjoint p l c.file off b q k (ground (arith, d)) s;
  }

  -- A write of the header leaves the data area.
  pub Leaves-encrypt_slot :
      (o n slot : ℕ) (fp : FilePointer) (c : Container p)
      → data_start ≤ o
      → slot < slot_count
      → Leaves p o n c (encrypt_slot p slot fp c).0
  unfolding encrypt_slot
  Leaves-encrypt_slot o n slot fp c behind header =
      elim (Option-cases (p.encrypt c.key nonce (slot_ad slot) (serialize_file_pointer p fp))) [
        | inl failed ↦
            rw (failed, encrypt_slot)
              (record { key = refl; size = omega arith; bytes = λ q k a b s. refl })
        | inr (ct, made) ↦
            rw (made, encrypt_slot)
              (Leaves-write_sealed o n (slot_offset slot) (c.draws + 1) nonce ct c (
                inr (
                  omega (
                    arith,
                    l.length-random c.draws nonce_size,
                    l.length-encrypt _ _ _ _ ct made,
                    length-serialize_file_pointer p fp,
                  ))))
      ]
    where
      nonce : Bytes
      nonce = p.random c.draws nonce_size

  pub Leaves-clear_slot :
      (o n slot : ℕ) (c : Container p)
      → data_start ≤ o
      → slot < slot_count
      → Leaves p o n c (clear_slot p slot c).0
  unfolding clear_slot
  Leaves-clear_slot o n slot c behind header =
      Leaves-write o n (slot_offset slot) (c.draws + 1) (p.random c.draws slot_size) c
        (inr (omega (arith, l.length-random c.draws slot_size)))

  -- The blob and the padding of a block leave what shares no byte with the block.
  Leaves-write_padding :
      (o n written : ℕ) (fp : FilePointer) (c : Container p)
      → Disjoint o n fp.data_offset fp.allocated_size
      → Leaves p o n c (write_padding p fp written c)
  unfolding write_padding
  Leaves-write_padding o n written fp c d = elim (Bool-cases (ltb written fp.allocated_size)) [
    | inl short ↦ rw short (
        Leaves-write o n (fp.data_offset + written) (c.draws + 1)
          (p.random c.draws (to_int (fp.allocated_size - written))) c
          (ground (
            arith,
            d,
            l.length-random c.draws (to_int (fp.allocated_size - written)),
            to_int_le (fp.allocated_size - written),
          )))
    | inr full ↦ rw full (Leaves-refl p o n c)
  ]

  pub Leaves-write_blob_to_disk :
      (o n : ℕ) (fp : FilePointer) (plaintext : Bytes) (c : Container p)
      → Disjoint o n fp.data_offset fp.allocated_size
      → length plaintext + 40 ≤ fp.allocated_size
      → Leaves p o n c (write_blob_to_disk p fp plaintext c).0
  unfolding write_blob_to_disk
  Leaves-write_blob_to_disk o n fp plaintext c d fits =
      elim (Option-cases (p.encrypt c.key nonce fp.id plaintext)) [
        | inl failed ↦
            rw (failed, write_blob_to_disk)
              (record { key = refl; size = omega arith; bytes = λ q k a b s. refl })
        | inr (ct, made) ↦
            let sealed : Container p = record c {
              file = write_sealed p c.file fp.data_offset nonce ct;
              draws = c.draws + 1;
            } in
            rw (made, write_blob_to_disk)
              (Leaves-trans p o n c sealed _
                (Leaves-write_sealed o n fp.data_offset (c.draws + 1) nonce ct c (
                  ground (
                    arith,
                    d,
                    l.length-random c.draws nonce_size,
                    l.length-encrypt c.key nonce fp.id plaintext ct made,
                  )))
                (Leaves-write_padding o n (nonce_size + length ct) fp sealed d))
      ]
    where
      nonce : Bytes
      nonce = p.random c.draws nonce_size

  -- Filling the file behind `pos` leaves what lies before it.
  Leaves-fill_random :
      (o n rounds remaining pos : ℕ) (c : Container p)
      → o + n ≤ pos
      → Leaves p o n c (fill_random p rounds remaining pos c).0
  unfolding fill_random
  Leaves-fill_random o n zero remaining pos c h = Leaves-refl p o n c
  Leaves-fill_random o n (suc rounds) remaining pos c h = elim (Bool-cases (ltb 0 remaining)) [
    | inl more ↦
        let k : ℕ = min remaining chunk_size in
        let filled : Container p = record c {
          file = (p.write c.file pos (p.random c.draws k)).0;
          draws = c.draws + 1;
        } in
        rw more (
          Leaves-trans p o n c filled _
            (Leaves-write o n pos (c.draws + 1) (p.random c.draws k) c (inl h))
            (Leaves-fill_random o n rounds (sub64 remaining k) (pos + k) filled (omega arith)))
    | inr done ↦ rw done (Leaves-refl p o n c)
  ]

  -- What lies before the old end of the file is everything that the file held.
  Leaves-all : (o n : ℕ) (c c' : Container p) → Leaves p 0 (p.size c.file) c c' → Leaves p o n c c'
  Leaves-all o n c c' k = record {
    key = k.key;
    size = k.size;
    bytes = λ q m a b s. k.bytes q m (omega arith) (omega arith) s;
  }

  -- The container grows to what is needed and at most 4 MiB and one alignment unit more, and
  -- keeps what it holds.
  pub Leaves-grow_container :
      (o n required_end : ℕ) (c : Container p)
      → p.size c.file ≤ required_end
      → required_end + 4 * 1024 * 1024 + data_alignment ≤ u64
      → Leaves p o n c (grow_container p required_end c)
  unfolding grow_container
  Leaves-grow_container o n required_end c more small = Leaves-all o n c _ (
      Leaves-trans p 0 (p.size c.file) c resized _ kept
        (Leaves-fill_random 0 (p.size c.file) _ _ (p.size c.file) resized (omega arith)))
    where
      padding : ℕ
      padding = of_le (p.random c.draws 4) % (4 * 1024 * 1024)

      new_size : ℕ
      new_size = align_up (add64 required_end padding)

      resized : Container p
      resized = record c { file = p.resize c.file new_size; draws = c.draws + 1 }

      bounded : padding < 4 * 1024 * 1024
      bounded = omega arith

      sum : add64 required_end padding ≡ required_end + padding
      sum = omega (arith, bounded)

      grown : p.size c.file ≤ new_size
      grown =
          le_trans (omega (arith, sum))
            (align_up_lem (add64 required_end padding) (omega (arith, sum, bounded))).0

      kept : Leaves p 0 (p.size c.file) c resized
      kept = record {
        key = refl;
        size = l.le-size-resize c.file new_size grown;
        bytes = λ q k a b s. l.read-resize c.file new_size q k grown s;
      }

  pub Leaves-allocate_block :
      (o n required_size : ℕ) (c : Container p)
      → new_offset c.files + required_size + 4 * 1024 * 1024 + data_alignment ≤ u64
      → Leaves p o n c (allocate_block p required_size c).0
  unfolding allocate_block
  Leaves-allocate_block o n required_size c small =
      elim (Bool-cases (ltb (p.size c.file) required_end)) [
        | inl short ↦
            rw short (Leaves-grow_container o n required_end c (ground arith) (omega (arith, e)))
        | inr long ↦ rw long (Leaves-refl p o n c)
      ]
    where
      required_end : ℕ
      required_end = add64 (new_offset c.files) required_size

      e : required_end ≡ new_offset c.files + required_size
      e = omega arith
