-- ===== src/Vfs/Container/View.antt =====
-- The container as a map from names to contents: writeFileData and deleteFile of
-- EncryptedVFSContainer against what readFile returns.
pub mod Refines
pub mod Removal
use native.Mathlib.Nat.{le_trans}
use a_social.Base.{
  ℕ, zero, suc, ◌+◌, ◌-◌, ◌*◌, ◌^◌, ◌≤◌, ◌<◌, ◌≡◌, ◌≢◌, ◌⊎◌, inl, inr, ◌∙◌, sym, ap, refl, arith,
  Bool, true, false, not, Option, none, some, List, [], ◌∷◌, length, get_elem?, set, some-injective,
  ◌==◌, Bool-cases, Option-cases, if◌then◌else◌, Text,
}
use a_social.Base.Bytes.{Bytes}
use a_social.Vfs.Platform.{Platform, Lawful, IsHealthy}
use a_social.Vfs.Layout.{FilePointer, mac_size, u64, slot_count, data_start}
use a_social.Vfs.Layout.Blocks.{
  WellFormed, InData, Moved, Apart, EndBefore, block_end, WellFormed-AllInData, InData-get_elem?,
  Apart-get_elem?,
}
use a_social.Vfs.Slots.{
  find_slot, find_file_slot, get_elem?-find_slot, get_elem?-find_file_slot, find_file_slot-set,
}
use a_social.Vfs.Container.{
  Container, encrypt_slot, reallocate, write_blob_to_disk, write_entry, write_found,
  write_file_data, read_blob_from_disk, read_file,
}
use a_social.Vfs.Container.Disk.{Disjoint, read_blob-write_blob_to_disk}
use a_social.Vfs.Container.Leaves.{
  Leaves, Leaves-refl, Leaves-trans, read_blob-Leaves, Leaves-encrypt_slot,
  Leaves-write_blob_to_disk,
}
use a_social.Vfs.Container.Invariant.{
  HasRoom, blob_size, Reallocated, reallocate_lem, files-encrypt_slot, files-write_blob_to_disk,
  is_open-encrypt_slot, is_open-write_blob_to_disk, narrow-reallocate,
}
use a_social.Vfs.Container.Keeps.{used_entry, write_file_data_found}

-- What readFile returns for an entry.
abbrev pub contents : (p : Platform) → Container p → FilePointer → Bytes
contents p c fp = if fp.used_size == 0 then [] else read_blob_from_disk p c fp

-- The blob of a file that is not empty lies in its block and in the container, and no block is
-- larger than 2 GiB: a longer one makes the source's arrays, whose sizes are of type int, too short.
pub record Stored (p : Platform) (c : Container p) (fp : FilePointer) : Type 0 where
  pub held :
      (fp.used_size ≡ 0)
      ⊎ ((fp.used_size + 40 ≤ fp.allocated_size)
          × (fp.data_offset + fp.used_size + 40 ≤ p.size c.file))
  pub narrow : fp.allocated_size ≤ 2 ^ 31

pub record IsSound (p : Platform) (c : Container p) : Type 0 where
  pub laid_out : WellFormed c.files
  pub stored : (i : ℕ) (fp : FilePointer) → get_elem? c.files i ≡ some fp → Stored p c fp

module _ (p : Platform) where
  -- The contents of a file whose block is left alone stay.
  contents-Leaves :
      (fp : FilePointer) (c c' : Container p)
      → InData fp
      → Stored p c fp
      → Leaves p fp.data_offset fp.allocated_size c c'
      → (contents p c' fp ≡ contents p c fp) × Stored p c' fp
  contents-Leaves fp c c' d s k = elim s.held [
    | inl empty ↦
        let e : (fp.used_size == 0) ≡ true = ground arith in
        (rw e, record { held = inl empty; narrow = s.narrow })
    | inr (fits, held) ↦ (
      ap (λ (b : Bytes). if fp.used_size == 0 then [] else b)
          (read_blob-Leaves p fp c c' k fits held (omega (arith, d.no_wrap))),
      record { held = inr (fits, le_trans held k.size); narrow = s.narrow },
    )
  ]

EndBefore-get_elem? :
    (o : ℕ) (fs : List FilePointer) (i : ℕ) (f : FilePointer)
    → EndBefore o fs
    → get_elem? fs i ≡ some f
    → block_end f ≤ o
EndBefore-get_elem? o [] i f e h = cc
EndBefore-get_elem? o (g ∷ gs) zero f e h = rw (← some-injective h) e.0
EndBefore-get_elem? o (g ∷ gs) (suc i) f e h = EndBefore-get_elem? o gs i f e.1 h

-- The block of another file shares no byte with the block that a moved entry has now.
other_block :
    (fs : List FilePointer) (i j : ℕ) (fp g used : FilePointer)
    → WellFormed fs
    → get_elem? fs i ≡ some fp
    → get_elem? fs j ≡ some g
    → j ≢ i
    → Moved used fp fs
    → Disjoint g.data_offset g.allocated_size used.data_offset used.allocated_size
other_block fs i j fp g used w at_i at_j ne m = elim m.place [
  | inl (o, a) ↦ let apart = Apart-get_elem? g fp fs j i w at_j at_i ne in rw (o, a) apart.blocks
  | inr behind ↦ inl (EndBefore-get_elem? used.data_offset fs j g behind at_j)
]

-- What a successful writeFileData makes of the entry `fp` at `idx`.
record Written (p : Platform) (c c' : Container p) (idx : ℕ) (fp used : FilePointer)
    (plaintext : Bytes) : Type 0 where
  files : c'.files ≡ set c.files idx used
  is_open : c'.is_open ≡ c.is_open
  filename : used.filename ≡ fp.filename
  moved : Moved used fp c.files
  holds : contents p c' used ≡ plaintext
  stored : Stored p c' used
  leaves :
      (o n : ℕ)
      → data_start ≤ o
      → Disjoint o n used.data_offset used.allocated_size
      → Leaves p o n c c'

-- A write of m_files alone leaves the disk.
Leaves-files :
    (p : Platform) (o n : ℕ) (c c1 : Container p) (fs : List FilePointer)
    → Leaves p o n c c1
    → Leaves p o n c (record c1 { files = fs })
Leaves-files p o n c c1 fs k = record { key = k.key; size = k.size; bytes = k.bytes }

module _ (p : Platform) (l : Lawful p) (healthy : IsHealthy p) where
  -- writeFileData past writeBlobToDisk, which gave `c2`
  Written-entry :
      (slot idx : ℕ) (fp : FilePointer) (plaintext : Bytes) (c c2 c' : Container p)
      → WellFormed c.files
      → get_elem? c.files idx ≡ some fp
      → slot < slot_count
      → HasRoom c.files (length plaintext)
      → length plaintext + 40 ≤ 2 ^ 31
      → fp.allocated_size ≤ 2 ^ 31
      → 0 < length plaintext
      → (let used = used_entry p (length plaintext) fp c in
          let c1 = (reallocate p (blob_size (length plaintext)) fp c).0 in
          let updated : Container p = record c1 { files = set c1.files idx used } in
          (write_blob_to_disk p used plaintext updated ≡ (c2, true))
          → (encrypt_slot p slot used c2 ≡ (c', true))
          → Written p c c' idx fp used plaintext)
  Written-entry slot idx fp plaintext c c2 c' w at_idx in_header room short narrow pos blob sealed =
      let n : ℕ = length plaintext in
      let r = reallocate_lem p l n idx fp c w at_idx room in
      let used : FilePointer = used_entry p n fp c in
      let c1 : Container p = (reallocate p (blob_size n) fp c).0 in
      let updated : Container p = record c1 { files = set c1.files idx used } in
      let e2 : c2 ≡ (write_blob_to_disk p used plaintext updated).0 =
        ap (λ (q : Container p × Bool). q.0) (sym blob) in
      let e' : c' ≡ (encrypt_slot p slot used c2).0 =
        ap (λ (q : Container p × Bool). q.0) (sym sealed) in
      let small : n < 2 ^ 31 = omega arith in
      let back =
        read_blob-write_blob_to_disk p l healthy used plaintext updated c2 refl pos small blob in
      let used_data : InData used = record {
        behind_header = r.in_data.behind_header;
        aligned = r.in_data.aligned;
        no_wrap = r.in_data.no_wrap;
        slot_in_range = r.in_data.slot_in_range;
      } in
      let header : (o k : ℕ) → data_start ≤ o → Leaves p o k c2 c' =
        λ o k behind. rw e' (Leaves-encrypt_slot p l o k slot used c2 behind in_header) in
      let stored2 : Stored p c2 used = record {
        held = inr (r.fits, back.1);
        narrow = narrow-reallocate p (blob_size n) fp c narrow (omega arith);
      } in
      let after =
        contents-Leaves p used c2 c' used_data stored2
          (header used.data_offset used.allocated_size r.in_data.behind_header) in
      let some_used : (n == 0) ≡ false = ground (arith, pos) in
      let holds2 : contents p c2 used ≡ plaintext = rw some_used back.0 in
      record {
        files = rw (e', files-encrypt_slot, e2, files-write_blob_to_disk, r.files);
        is_open = rw (e', is_open-encrypt_slot, e2, is_open-write_blob_to_disk, r.is_open);
        filename = r.filename;
        moved = record { slot = r.moved.slot; place = r.moved.place };
        holds = after.0 ∙ holds2;
        stored = after.1;
        leaves = λ o k behind d.
            Leaves-trans p o k c c2 c'
              (rw e2 (
                Leaves-trans p o k c updated _
                  (Leaves-files p o k c c1 (set c1.files idx used) (r.leaves o k))
                  (Leaves-write_blob_to_disk p l o k used plaintext updated d r.fits)))
              (header o k behind);
      }
