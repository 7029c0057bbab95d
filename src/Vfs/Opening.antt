-- ===== src/Vfs/Opening.antt =====
-- EncryptedVFSContainer::close and open of plugins/vfs-cake/src/EncryptedVFSContainer.cpp, on a
-- container that exists, with the flush of plugins/vfs-cake/src/VirtualFile.cpp, and the size that
-- createContainer chooses for a new one.
mod Size
mod Outcome
mod Examples
use a_social.Base.{
  ℕ, ◌+◌, ◌-◌, ◌*◌, ◌/◌, ◌%◌, min, Bool, true, false, not, Option, none, some, List, [], ◌∷◌, Text,
  ◌||◌, text_eq, length, ltb, ◌==◌, if◌then◌else◌,
}
use a_social.Base.Bytes.{Bytes}
use a_social.Vfs.Platform.{Platform}
use a_social.Vfs.Layout.{magic_size, salt_size, data_start, align_up, add64}
use a_social.Vfs.Container.{Container, VirtualFile, load_slots, write_file_data}

abbrev pub magic : Bytes
magic = b'V' ∷ b'F' ∷ b'S' ∷ b'C' ∷ b'A' ∷ b'K' ∷ b'E' ∷ b'1' ∷ []

abbrev pub min_size : ℕ
min_size = data_start + 1024 * 1024

abbrev pub ceiling : ℕ → ℕ → ℕ
ceiling max_size free_space =
    if ltb 0 max_size
    then min max_size (free_space / 2)
    else min (free_space / 2) (4 * 1024 * 1024 * 1024)

abbrev pub size_offset : ℕ → ℕ → ℕ
size_offset range draw = if ltb 0 range then draw % range else 0

-- The size of a new container, from the limit, the free bytes of the disk and a random draw.
unfoldable pub container_size : ℕ → ℕ → ℕ → Option ℕ
container_size max_size free_space draw =
    let top = ceiling max_size free_space in
    if ltb top min_size
    then none
    else some (align_up (add64 min_size (size_offset (top - min_size) draw)))

module _ (p : Platform) where
  -- VirtualFile::flush. The file itself is dropped by the close that calls this.
  unfoldable pub flush_file : VirtualFile → Container p → Container p × Bool
  flush_file vf c =
      if not vf.dirty || not c.is_open
      then (c, not vf.dirty)
      else write_file_data p vf.slot_index vf.contents c

  unfoldable pub flush_all : List VirtualFile → Container p → Container p
  flush_all [] c = c
  flush_all (vf ∷ vfs) c = flush_all vfs (flush_file vf c).0

  -- `files` are the virtual files that are still open, in the order of the snapshot.
  unfoldable pub close : List VirtualFile → Container p → Container p
  close files c =
      if not c.is_open
      then c
      else record (flush_all files c) { is_open = false; key = []; salt = []; files = [] }

  -- A key that could not be derived is wiped.
  abbrev pub keep_key : Container p → Option Bytes → Container p × Bool
  keep_key c none = (record c { key = [] }, false)
  keep_key c (some key) = (record c { key = key }, true)

  -- deriveKey, with `crypto_pwhash` as a parameter
  abbrev pub derive_key : (Bytes → Bytes → Option Bytes) → Text → Container p → Container p × Bool
  derive_key pwhash passphrase c = keep_key c (pwhash (p.to_utf8 passphrase) c.salt)

  -- The rest of open, on the opened file.
  unfoldable pub open_stream :
      (Bytes → Bytes → Option Bytes) → Text → p.File → Container p → Container p × Bool
  open_stream pwhash passphrase f c =
      let salt = p.read f magic_size salt_size in
      let salted : Container p = record c { file = f; salt = salt } in
      let (keyed, derived) = derive_key pwhash passphrase salted in
      if not (text_eq (p.read f 0 magic_size) magic)
      then (record c { file = f }, false)
      else if not (length salt == salt_size)
      then (salted, false)
      else if not derived
      then (keyed, false)
      else (load_slots p (record keyed { is_open = true }), true)

  -- Opens on the file that QFile::open gives for the path, or `none` where it fails. The file may be
  -- the one that close has just written, so it is given as a function of that.
  unfoldable pub open_container :
      (Bytes → Bytes → Option Bytes)
      → Text
      → (p.File → Option p.File)
      → List VirtualFile
      → Container p
      → Container p × Bool
  open_container pwhash passphrase reopen files c =
      let closed = close files c in
      elim (reopen closed.file) [
        | none ↦ (closed, false)
        | some f ↦ open_stream pwhash passphrase f closed
      ]
