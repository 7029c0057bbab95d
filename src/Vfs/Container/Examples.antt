-- ===== src/Vfs/Container/Examples.antt =====
-- Runs of the container of plugins/vfs-cake on a disk in memory.
use a_social.Base.{
  ℕ, zero, suc, ◌+◌, ◌*◌, ◌%◌, ◌^◌, ◌≤◌, ◌<◌, ◌≡◌, ◌≢◌, ◌⊎◌, inl, inr, refl, arith, true, false,
  text_eq, some, [], ◌∷◌, Text, get_elem?, replicate, length,
}
use a_social.Base.Bytes.{Bytes}
use a_social.Vfs.Layout.{
  FilePointer, data_start, data_alignment, next_power_of_2, fill, new_offset, end_of_data,
  slot_count,
}
use a_social.Vfs.Layout.Power.{next_power_of_2_lem}
use a_social.Vfs.Layout.Blocks.{WellFormed, EndBefore, SlotFree, new_offset_lem}
use a_social.Vfs.Slots.{
  find_slot, find_file_slot, find_free_slot, free_slot_from, is_used, find_free_slot_lem,
}
use a_social.Vfs.Header.{serialize_file_pointer, deserialize_file_pointer}
use a_social.Vfs.Header.RoundTrip.{Fits, deserialize-serialize}
use a_social.Vfs.Toy.{toy, toy-Lawful, toy-IsHealthy}
use a_social.Vfs.Container.{
  Container, OpenMode, encrypt_slot, load_slots, reallocate, write_blob_to_disk, write_entry,
  write_found, write_file_data, read_file, open_file,
}
use a_social.Vfs.Container.Loading.{load_slots-encrypt_slot}
use a_social.Vfs.Container.Invariant.{HasRoom}
use a_social.Vfs.Container.Keeps.{write_file_data-WellFormed, open_file-WellFormed}
use a_social.Vfs.Container.View.{IsSound, Stored}
use a_social.Vfs.Container.View.Refines.{read_file-write_file_data}

abbrev notes : FilePointer
notes = record {
  id = replicate 16 1;
  filename = b'n' ∷ [];
  data_offset = data_start;
  allocated_size = 4096;
  used_size = 0;
  flags = 0;
  slot_index = 0;
}

abbrev photo : FilePointer
photo = record {
  id = replicate 16 2;
  filename = b'p' ∷ [];
  data_offset = data_start + 4096;
  allocated_size = 4096;
  used_size = 3;
  flags = 0;
  slot_index = 1;
}

abbrev two_files : Container toy
two_files = record {
  file = record { size = data_start + 8192; byte = λ i. 0 };
  key = [];
  salt = [];
  files = notes ∷ photo ∷ [];
  is_open = true;
  draws = 0;
}

two_files-WellFormed : WellFormed two_files.files
two_files-WellFormed = omega arith

two_files-IsSound : IsSound toy two_files
two_files-IsSound = record { laid_out = two_files-WellFormed; stored = stored }
  where
    stored :
        (i : ℕ) (fp : FilePointer) → get_elem? two_files.files i ≡ some fp → Stored toy two_files fp
    stored zero fp e = record { held = inl (ground arith); narrow = ground arith }
    stored (suc zero) fp e = record { held = inr (ground arith); narrow = ground arith }
    stored (suc (suc i)) fp e = cc

-- 5000 is past one unit, and 8192 is the least power of two that holds it.
power_runs : next_power_of_2 5000 ≡ 8192
unfolding next_power_of_2 fill
power_runs = refl

next_power_of_2_lem_example :
    (k : ℕ) × (next_power_of_2 5000 ≡ 2 ^ k)
    × (5000 ≤ 2 ^ k)
    × (data_alignment ≤ 2 ^ k)
    × ((k ≡ 12) ⊎ (2 ^ k < 2 * 5000))
next_power_of_2_lem_example = next_power_of_2_lem 5000 (omega arith)

new_offset_lem_example :
    (data_start ≤ new_offset two_files.files)
    × (new_offset two_files.files % data_alignment ≡ 0)
    × EndBefore (new_offset two_files.files) two_files.files
    × (new_offset two_files.files < end_of_data data_start two_files.files + data_alignment)
unfolding end_of_data
new_offset_lem_example = new_offset_lem two_files.files (omega arith) (omega arith)

free_slot : find_free_slot two_files.files ≡ some 2
unfolding find_free_slot free_slot_from is_used
free_slot = refl

find_free_slot_lem_example : (2 < slot_count) × SlotFree 2 two_files.files
find_free_slot_lem_example = find_free_slot_lem two_files.files 2 free_slot

photo-Fits : Fits photo
photo-Fits = omega arith

deserialize-serialize_example :
    deserialize_file_pointer toy photo.slot_index (serialize_file_pointer toy photo) ≡ some photo
deserialize-serialize_example = deserialize-serialize toy photo photo-Fits refl

sealed : Container toy
sealed = (encrypt_slot toy 1 photo two_files).0

sealed_done : encrypt_slot toy 1 photo two_files ≡ (sealed, true)
unfolding sealed encrypt_slot
sealed_done = refl

load_slots-encrypt_slot_example : (i : ℕ) × (get_elem? (load_slots toy sealed).files i ≡ some photo)
load_slots-encrypt_slot_example =
    load_slots-encrypt_slot toy toy-Lawful toy-IsHealthy photo two_files sealed photo-Fits refl
      (omega arith) sealed_done

abbrev news : Bytes
news = 7 ∷ 8 ∷ 9 ∷ []

written : Container toy
written = (write_file_data toy 0 news two_files).0

written_done : write_file_data toy 0 news two_files ≡ (written, true)
unfolding written write_file_data write_found write_entry reallocate write_blob_to_disk encrypt_slot
    find_slot
written_done = refl

notes_by_slot : find_slot 0 two_files.files ≡ some (0, notes)
unfolding find_slot
notes_by_slot = refl

notes_by_name : find_file_slot notes.filename two_files.files ≡ some (0, notes)
unfolding find_file_slot text_eq
notes_by_name = refl

room_for : (n : ℕ) → n ≤ 4096 → HasRoom two_files.files n
unfolding end_of_data
room_for n h = omega arith

read_file-write_file_data_example :
    (read_file toy written notes.filename ≡ news)
    × ((name : Text)
        → notes.filename ≢ name
        → read_file toy written name ≡ read_file toy two_files name)
    × IsSound toy written
read_file-write_file_data_example =
    read_file-write_file_data toy toy-Lawful toy-IsHealthy 0 0 notes news two_files written
      two_files-IsSound (room_for (length news) (omega arith)) (omega arith) refl notes_by_slot
      notes_by_name written_done

write_file_data-WellFormed_example : WellFormed (write_file_data toy 0 news two_files).0.files
write_file_data-WellFormed_example =
    write_file_data-WellFormed toy toy-Lawful 0 news two_files two_files-WellFormed
      (room_for (length news) (omega arith))

abbrev read_write : OpenMode
read_write = record { reads = true; writes = true; truncates = false }

open_file-WellFormed_example : WellFormed (open_file toy (b'q' ∷ []) read_write two_files).0.files
open_file-WellFormed_example =
    open_file-WellFormed toy toy-Lawful (b'q' ∷ []) read_write two_files two_files-WellFormed
      (room_for 0 (omega arith))
