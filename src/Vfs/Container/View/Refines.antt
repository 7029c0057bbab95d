-- ===== src/Vfs/Container/View/Refines.antt =====
-- writeFileData and readFile of EncryptedVFSContainer refine a map from names to contents.
use mathlib.Core.Bool.{false≢true}
use native.Mathlib.Decide.{ℕ_discrete}
use a_social.Base.{
  ℕ, ◌+◌, ◌^◌, ◌≤◌, ◌<◌, ◌≡◌, ◌≢◌, inl, inr, ◌∙◌, sym, ap, refl, arith, Bool, true, none, some, [],
  ◌∷◌, length, get_elem?, set, some-injective, get_elem?-set_self, get_elem?-set_ne, ◌==◌,
  Bool-cases, Option-cases, Text, unless-true,
}
use a_social.Base.Bytes.{Bytes}
use a_social.Vfs.Platform.{Platform, Lawful, IsHealthy}
use a_social.Vfs.Layout.{FilePointer, slot_count}
use a_social.Vfs.Layout.Blocks.{WellFormed, WellFormed-AllInData, InData-get_elem?}
use a_social.Vfs.Slots.{
  find_slot, find_file_slot, get_elem?-find_slot, get_elem?-find_file_slot, find_file_slot-set,
}
use a_social.Vfs.Container.{
  Container, encrypt_slot, reallocate, write_blob_to_disk, write_entry, write_found,
  write_file_data, read_any, read_file,
}
use a_social.Vfs.Container.Leaves.{Leaves-refl, Leaves-trans, Leaves-encrypt_slot}
use a_social.Vfs.Container.Invariant.{HasRoom, blob_size, files-encrypt_slot, is_open-encrypt_slot}
use a_social.Vfs.Container.Keeps.{used_entry, write_file_data_found, write_file_data-WellFormed}
use a_social.Vfs.Container.View.{
  contents, Stored, IsSound, contents-Leaves, other_block, Written, Written-entry, Leaves-files,
}

module _ (p : Platform) (c : Container p) (name : Text) (opened : c.is_open ≡ true) where
  pub read_file_found :
      (idx : ℕ) (fp : FilePointer)
      → find_file_slot name c.files ≡ some (idx, fp)
      → read_file p c name ≡ contents p c fp
  unfolding read_file read_any
  read_file_found idx fp found = unless-true c.is_open _ _ opened ∙ rw (found, read_any)

  pub read_file_missing : find_file_slot name c.files ≡ none → read_file p c name ≡ []
  unfolding read_file read_any
  read_file_missing missing = unless-true c.is_open _ _ opened ∙ rw (missing, read_any)

module _ (p : Platform) (l : Lawful p) (healthy : IsHealthy p) where
  Written-write_entry :
      (slot idx : ℕ) (fp : FilePointer) (plaintext : Bytes) (c c' : Container p)
      → WellFormed c.files
      → get_elem? c.files idx ≡ some fp
      → slot < slot_count
      → HasRoom c.files (length plaintext)
      → length plaintext + 40 ≤ 2 ^ 31
      → fp.allocated_size ≤ 2 ^ 31
      → 0 < length plaintext
      → write_entry p slot idx fp plaintext c ≡ (c', true)
      → Written p c c' idx fp (used_entry p (length plaintext) fp c) plaintext
  unfolding write_entry
  Written-write_entry slot idx fp plaintext c c' w at_idx header room short narrow pos done =
      elim (Bool-cases r.1) [
        | inl written ↦
            Written-entry p l healthy slot idx fp plaintext c r.0 c' w at_idx header room short
              narrow pos (ap (λ (b : Bool). let q : Container p × Bool = (r.0, b) in q) written)
              (rw written at done)
        | inr failed ↦
            absurd (false≢true (ap (λ (q : Container p × Bool). q.1) (rw failed at done)))
      ]
    where
      used : FilePointer
      used = used_entry p (length plaintext) fp c

      c1 : Container p
      c1 = (reallocate p (blob_size (length plaintext)) fp c).0

      updated : Container p
      updated = record c1 { files = set c1.files idx used }

      r : Container p × Bool
      r = write_blob_to_disk p used plaintext updated

  -- The entry that a successful writeFileData leaves.
  Written-write_found :
      (slot idx : ℕ) (fp : FilePointer) (plaintext : Bytes) (c c' : Container p)
      → WellFormed c.files
      → get_elem? c.files idx ≡ some fp
      → slot < slot_count
      → HasRoom c.files (length plaintext)
      → length plaintext + 40 ≤ 2 ^ 31
      → fp.allocated_size ≤ 2 ^ 31
      → write_found p slot idx fp plaintext c ≡ (c', true)
      → (used : FilePointer) × Written p c c' idx fp used plaintext
  unfolding write_found
  Written-write_found slot idx fp plaintext c c' w at_idx header room short narrow done =
      elim (Bool-cases (length plaintext == 0)) [
        | inl empty ↦
            let emptied : FilePointer = record fp { used_size = 0 } in
            let cleared : Container p = record c { files = set c.files idx emptied } in
            let sealed : encrypt_slot p slot emptied cleared ≡ (c', true) = rw empty at done in
            let e' : c' ≡ (encrypt_slot p slot emptied cleared).0 =
              ap (λ (q : Container p × Bool). q.0) (sym sealed) in
            (
              emptied,
              record {
                files = rw (e', files-encrypt_slot);
                is_open = rw (e', is_open-encrypt_slot);
                filename = refl;
                moved = record { slot = refl; place = inl (refl, refl) };
                holds = nil plaintext empty;
                stored = record { held = inl refl; narrow = narrow };
                leaves = λ o k behind d. rw e' (
                    Leaves-trans p o k c cleared _
                      (Leaves-files p o k c c cleared.files (Leaves-refl p o k c))
                      (Leaves-encrypt_slot p l o k slot emptied cleared behind header));
              },
            )
        | inr filled ↦ (
          used_entry p (length plaintext) fp c,
          Written-write_entry slot idx fp plaintext c c' w at_idx header room short narrow
              (ground arith) (rw filled at done),
        )
      ]
    where
      nil : (b : Bytes) → (length b == 0) ≡ true → [] ≡ b
      nil [] e = refl
      nil (x ∷ xs) e = ground arith

  -- Every file but the one that is written keeps its contents and stays on the disk.
  others :
      (idx j : ℕ) (fp g used : FilePointer) (plaintext : Bytes) (c c' : Container p)
      → IsSound p c
      → Written p c c' idx fp used plaintext
      → get_elem? c.files idx ≡ some fp
      → get_elem? c.files j ≡ some g
      → j ≢ idx
      → (contents p c' g ≡ contents p c g) × Stored p c' g
  others idx j fp g used plaintext c c' sound done at_idx at_j ne =
      let d = InData-get_elem? g c.files j (WellFormed-AllInData c.files sound.laid_out) at_j in
      contents-Leaves p g c c' d (sound.stored j g at_j) (
        done.leaves g.data_offset g.allocated_size d.behind_header
          (other_block c.files idx j fp g used sound.laid_out at_idx at_j ne done.moved))

  -- A name that is not the written file's is read as before.
  read_other :
      (idx : ℕ) (fp used : FilePointer) (plaintext : Bytes) (c c' : Container p) (name : Text)
      → IsSound p c
      → c.is_open ≡ true
      → Written p c c' idx fp used plaintext
      → get_elem? c.files idx ≡ some fp
      → fp.filename ≢ name
      → read_file p c' name ≡ read_file p c name
  read_other idx fp used plaintext c c' name sound opened done at_idx ne =
      elim (Option-cases (find_file_slot name c.files)) [
        | inl missing ↦
            read_file_missing p c' name opened' (same ∙ missing)
            ∙ sym (read_file_missing p c name opened missing)
        | inr ((j, g), found) ↦
            let at_j = get_elem?-find_file_slot name c.files j g found in
            read_file_found p c' name opened' j g (same ∙ found)
            ∙ (others idx j fp g used plaintext c c' sound done at_idx at_j.0 (λ e. ne (
                rw (some-injective (sym at_idx ∙ ap (get_elem? c.files) (sym e) ∙ at_j.0))
                  at_j.1))).0
            ∙ sym (read_file_found p c name opened j g found)
      ]
    where
      opened' : c'.is_open ≡ true
      opened' = done.is_open ∙ opened

      same : find_file_slot name c'.files ≡ find_file_slot name c.files
      same =
          ap (find_file_slot name) done.files
          ∙ (find_file_slot-set name c.files idx fp used at_idx done.filename).1 ne

  Stored-all :
      (idx : ℕ) (fp used : FilePointer) (plaintext : Bytes) (c c' : Container p)
      → IsSound p c
      → Written p c c' idx fp used plaintext
      → get_elem? c.files idx ≡ some fp
      → (j : ℕ) (g : FilePointer) → get_elem? c'.files j ≡ some g
      → Stored p c' g
  Stored-all idx fp used plaintext c c' sound done at_idx j g at_j = elim (ℕ_discrete idx j) [
    | yes here ↦
        let e : used ≡ g = some-injective (
          sym (get_elem?-set_self c.files idx fp used at_idx)
          ∙ ap (get_elem? (set c.files idx used)) here
          ∙ at_j') in
        rw (← e) done.stored
    | no there ↦
        (others idx j fp g used plaintext c c' sound done at_idx
          (sym (get_elem?-set_ne c.files idx j used there) ∙ at_j') (λ e. there (sym e))).1
  ]
    where
      at_j' : get_elem? (set c.files idx used) j ≡ some g
      at_j' = rw done.files at at_j

  -- On a lawful, healthy platform and an open, sound container with room, where the name leads to
  -- the entry of the slot, and for data that is at most 2 GiB long when it is sealed: after a write
  -- that succeeds readFile returns what was written for that name and what it returned before for
  -- every other name, and the container is sound.
  pub read_file-write_file_data :
      (slot idx : ℕ) (fp : FilePointer) (plaintext : Bytes) (c c' : Container p)
      → IsSound p c
      → HasRoom c.files (length plaintext)
      → length plaintext + 40 ≤ 2 ^ 31
      → c.is_open ≡ true
      → find_slot slot c.files ≡ some (idx, fp)
      → find_file_slot fp.filename c.files ≡ some (idx, fp)
      → write_file_data p slot plaintext c ≡ (c', true)
      → (read_file p c' fp.filename ≡ plaintext)
        × ((name : Text) → fp.filename ≢ name → read_file p c' name ≡ read_file p c name)
        × IsSound p c'
  read_file-write_file_data slot idx fp plaintext c c' sound room short opened by_slot by_name
        done =
      let at_slot = get_elem?-find_slot slot c.files idx fp by_slot in
      let d =
        InData-get_elem? fp c.files idx (WellFormed-AllInData c.files sound.laid_out) at_slot.0 in
      let (used, w) =
        Written-write_found slot idx fp plaintext c c' sound.laid_out at_slot.0
          (rw at_slot.1 at d.slot_in_range) room short (sound.stored idx fp at_slot.0).narrow
          (sym (write_file_data_found p slot idx fp plaintext c by_slot) ∙ done) in
      let found : find_file_slot fp.filename c'.files ≡ some (idx, used) =
        ap (find_file_slot fp.filename) w.files
        ∙ (find_file_slot-set fp.filename c.files idx fp used at_slot.0 w.filename).0 by_name in
      let laid_out = write_file_data-WellFormed p l slot plaintext c sound.laid_out room in
      (
        read_file_found p c' fp.filename (w.is_open ∙ opened) idx used found ∙ w.holds,
        λ name ne. read_other idx fp used plaintext c c' name sound opened w at_slot.0 ne,
        record {
          laid_out = rw done at laid_out;
          stored = Stored-all idx fp used plaintext c c' sound w at_slot.0;
        },
      )
