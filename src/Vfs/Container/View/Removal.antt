-- ===== src/Vfs/Container/View/Removal.antt =====
-- deleteFile of EncryptedVFSContainer on the names of the container and on what readFile returns.
use a_social.Base.{
  ◌≡◌, ◌≢◌, ◌⊎◌, refl, true, false, Option, none, some, List, [], ◌∷◌, map, Text, text_eq,
  if◌then◌else◌,
}
use a_social.Vfs.Platform.{Platform}
use a_social.Vfs.Layout.{FilePointer}
use a_social.Vfs.Slots.{Found, shift, find_file_slot}
use a_social.Vfs.Container.{Container, clear_slot, delete_file, list_files, read_file}
use a_social.Vfs.Container.View.{IsSound}

-- A list of names without the first that is this one.
abbrev pub erase_first : Text → List Text → List Text
erase_first name [] = []
erase_first name (n ∷ ns) =
    let rest = n ∷ erase_first name ns in if text_eq n name then ns else rest

abbrev pub names_of : List FilePointer → List Text
names_of fs = map (λ (fp : FilePointer). fp.filename) fs

abbrev entry_of : Found → Option FilePointer
entry_of none = none
entry_of (some (i, fp)) = some fp

shift-none : (r : Found) → shift r ≡ none → r ≡ none
shift-none none e = refl
shift-none (some (i, fp)) e = cc

-- The outcome of deleteFile: the file is gone, or it is not there or its slot was not overwritten.
abbrev pub Deleted : (p : Platform) → Text → Container p → Type 0
Deleted p filename c =
    let r = delete_file p filename c in
    IsSound p r.0
    × (((fp : FilePointer) × (fp.filename ≡ filename)
          × (r.1 ≡ true)
          × ((clear_slot p fp.slot_index c).1 ≡ true)
          × (list_files p r.0 ≡ erase_first filename (list_files p c))
          × ((name : Text) → filename ≢ name → read_file p r.0 name ≡ read_file p c name))
        ⊎ ((r.1 ≡ false)
            × (r.0.files ≡ c.files)
            × ((find_file_slot filename c.files ≡ none)
                ⊎ ((fp : FilePointer) × (fp.filename ≡ filename)
                    × ((clear_slot p fp.slot_index c).1 ≡ false)))))
