-- ===== src/Vfs/Container/Invariant/Moves.antt =====
-- The block of a file that writeFileData of EncryptedVFSContainer grows.
use a_social.Base.{
  ℕ, ◌+◌, ◌*◌, ◌%◌, ◌^◌, ◌≤◌, ◌<◌, ◌≡◌, ◌⊎◌, inl, inr, refl, arith, some, List, get_elem?, ltb,
  Bool-cases,
}
use a_social.Vfs.Platform.{Platform, Lawful}
use a_social.Vfs.Layout.{
  FilePointer, data_start, data_alignment, nonce_size, mac_size, u64, add64, new_offset,
  end_of_data, next_power_of_2,
}
use a_social.Vfs.Layout.Power.{next_power_of_2_lem, next_power_of_2_small}
use a_social.Vfs.Layout.Blocks.{
  WellFormed, InData, Moved, EndBefore, WellFormed-AllInData, new_offset_lem, InData-get_elem?,
}
use a_social.Vfs.Container.{Container, allocate_block, reallocate}
use a_social.Vfs.Container.Leaves.{Leaves, Leaves-refl, Leaves-allocate_block}
use a_social.Vfs.Container.Invariant.Files.{
  files-allocate_block, is_open-allocate_block, offset-allocate_block,
}

-- Behind the blocks in use there is room, in a quint64, for a block that holds `n` bytes and for
-- the growth of the container.
abbrev pub HasRoom : List FilePointer → ℕ → Type 0
HasRoom fs n = end_of_data data_start fs + 2 * n + 2 ^ 23 ≤ u64

-- the size of a sealed blob
abbrev pub blob_size : ℕ → ℕ
blob_size n = add64 (add64 nonce_size n) mac_size

pub record Reallocated (p : Platform) (n : ℕ) (fp : FilePointer) (c : Container p)
    (r : Container p × FilePointer) : Type 0 where
  pub files : r.0.files ≡ c.files
  pub is_open : r.0.is_open ≡ c.is_open
  pub leaves : (o k : ℕ) → Leaves p o k c r.0
  pub moved : Moved r.1 fp c.files
  pub in_data : InData r.1
  pub fits : n + 40 ≤ r.1.allocated_size
  pub filename : r.1.filename ≡ fp.filename
  pub id : r.1.id ≡ fp.id

next_power_bounds :
    (n : ℕ)
    → n + 40 ≤ 2 ^ 63
    → (n + 40 ≤ next_power_of_2 (n + 40)) × (next_power_of_2 (n + 40) ≤ 2 * n + 4096 + 80)
next_power_bounds n h =
    let (k, e, holds, unit, least) = next_power_of_2_lem (n + 40) h in rw e (holds, upper k least)
  where
    upper : (k : ℕ) → (k ≡ 12) ⊎ (2 ^ k < 2 * (n + 40)) → 2 ^ k ≤ 2 * n + 4096 + 80
    upper k (inl small) = rw small (omega arith)
    upper k (inr least) = omega arith

module _ (p : Platform) (l : Lawful p) where
  pub reallocate_lem :
      (n idx : ℕ) (fp : FilePointer) (c : Container p)
      → WellFormed c.files
      → get_elem? c.files idx ≡ some fp
      → HasRoom c.files n
      → Reallocated p n fp c (reallocate p (blob_size n) fp c)
  unfolding reallocate
  reallocate_lem n idx fp c w at_idx room =
      elim (Bool-cases (ltb fp.allocated_size (blob_size n))) [
        | inl short ↦ rw short (record {
          files = files-allocate_block p alloc c;
          is_open = is_open-allocate_block p alloc c;
          leaves = λ o k. Leaves-allocate_block p l o k alloc c (omega (arith, below, e, bounds));
          moved = record { slot = refl; place = inr (rw offset fresh.2) };
          in_data = record {
            behind_header = rw offset fresh.0;
            aligned = rw offset fresh.1;
            no_wrap = omega (arith, offset, below, bounds);
            slot_in_range = old.slot_in_range;
          };
          fits = omega (arith, e, bounds);
          filename = refl;
          id = refl;
        })
        | inr long ↦ rw long (record {
          files = refl;
          is_open = refl;
          leaves = λ o k. Leaves-refl p o k c;
          moved = record { slot = refl; place = inl (refl, refl) };
          in_data = old;
          fits = ground (arith, e);
          filename = refl;
          id = refl;
        })
      ]
    where
      alloc : ℕ
      alloc = next_power_of_2 (blob_size n)

      e : blob_size n ≡ n + 40
      e = omega arith

      bounds : (n + 40 ≤ alloc) × (alloc ≤ 2 * n + 4096 + 80)
      bounds = rw e (next_power_bounds n (omega arith))

      fresh :
          (data_start ≤ new_offset c.files)
          × (new_offset c.files % data_alignment ≡ 0)
          × EndBefore (new_offset c.files) c.files
          × (new_offset c.files < end_of_data data_start c.files + data_alignment)
      fresh = new_offset_lem c.files (WellFormed-AllInData c.files w) (omega arith)

      below : new_offset c.files < end_of_data data_start c.files + data_alignment
      below = fresh.3

      offset : (allocate_block p alloc c).1 ≡ new_offset c.files
      offset = offset-allocate_block p alloc c

      old : InData fp
      old = InData-get_elem? fp c.files idx (WellFormed-AllInData c.files w) at_idx

-- No block is made larger than 2 GiB for a blob of at most that.
pub narrow-reallocate :
    (p : Platform) (size : ℕ) (fp : FilePointer) (c : Container p)
    → fp.allocated_size ≤ 2 ^ 31
    → size ≤ 2 ^ 31
    → (reallocate p size fp c).1.allocated_size ≤ 2 ^ 31
unfolding reallocate
narrow-reallocate p size fp c narrow short = elim (Bool-cases (ltb fp.allocated_size size)) [
  | inl grows ↦ rw grows (next_power_of_2_small size short)
  | inr stays ↦ rw stays narrow
]
