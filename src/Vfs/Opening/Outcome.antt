-- ===== src/Vfs/Opening/Outcome.antt =====
-- What EncryptedVFSContainer::open leaves behind, by its outcome.
use a_social.Base.{
  ℕ, ◌<◌, ◌≡◌, ◌⊎◌, Bool, true, false, Option, some, List, [], Text, length, if◌then◌else◌,
}
use a_social.Base.Bytes.{Bytes}
use a_social.Vfs.Platform.{Platform}
use a_social.Vfs.Layout.{FilePointer, magic_size, salt_size, slot_count}
use a_social.Vfs.Container.{Container, VirtualFile, read_slot}
use a_social.Vfs.Container.Loading.{Holds}
use a_social.Vfs.Opening.{magic, close, open_container}

module _ (p : Platform) (pwhash : Bytes → Bytes → Option Bytes) (passphrase : Text) where
  -- The file begins with the magic number and a whole salt, and a key is derived from the
  -- passphrase and that salt.
  abbrev pub Opens : p.File → Bytes → Type 0
  Opens f key =
      (p.read f 0 magic_size ≡ magic)
      × (length (p.read f magic_size salt_size) ≡ salt_size)
      × (pwhash (p.to_utf8 passphrase) (p.read f magic_size salt_size) ≡ some key)

  -- The container is open on the file, with the key, its salt and every entry that a slot decrypts
  -- to.
  abbrev pub Succeeds : p.File → Bytes → Container p × Bool → Type 0
  Succeeds f key r =
      (r.1 ≡ true)
      × (r.0.is_open ≡ true)
      × (r.0.file ≡ f)
      × (r.0.key ≡ key)
      × (r.0.salt ≡ p.read f magic_size salt_size)
      × ((slot : ℕ) (fp : FilePointer)
          → slot < slot_count
          → read_slot p f key slot ≡ some fp
          → Holds r.0.files fp)

  -- The container is not open, and the entries are these.
  abbrev pub Fails : Container p → Container p × Bool → Type 0
  Fails c r = (r.1 ≡ false) × (r.0.is_open ≡ c.is_open) × (r.0.files ≡ c.files)

  -- The outcome of open on a container with these virtual files open: where the path opens and the
  -- file fits the passphrase it succeeds; otherwise the container is not open.
  abbrev pub OpenOutcome : (p.File → Option p.File) → List VirtualFile → Container p → Type 0
  OpenOutcome reopen files c =
      let r = open_container p pwhash passphrase reopen files c in
      let here = reopen (close p files c).file in
      ((f : p.File) × (key : Bytes) × (here ≡ some f) × Opens f key × Succeeds f key r)
      ⊎ (((f : p.File) (key : Bytes) → here ≡ some f → Opens f key → ⊥)
          × (r.1 ≡ false)
          × (r.0.is_open ≡ false)
          × (r.0.files ≡ (if c.is_open then [] else c.files)))
