-- ===== src/Dbkv/Engine.antt =====
-- What RocksDBStore uses and does not implement: RocksDB as an ordered map of bytes, QDataStream at
-- version Qt_6_0, UTF-8 and QIODevice, with the documented behaviour that the proofs rely on.
use a_social.Base.{
  ℕ, ◌+◌, ◌^◌, ◌<◌, ◌≡◌, Bool, true, false, ◌&&◌, ◌||◌, Option, some, List, [], ◌∷◌, ◌++◌, Text,
  length, ltb, ◌==◌, if◌then◌else◌, text_eq,
}
use a_social.Base.Bytes.{Bytes}

abbrev pub Entry : Type 0
Entry = Bytes × Bytes

-- The status of a Get.
pub data Found : Type 0 where
  found : Bytes → Found
  not_found : Found
  failed : Found

pub record Engine : Type 1 where
  pub Db : Type 0
  pub Device : Type 0
  pub Reader : Type 0
  -- rocksdb::DB: Open on a directory and on the temporary one, the iterator's entries from SeekToFirst
  -- and from Seek on, Get, Put, Delete, Write of a batch, Flush
  pub open_directory : Text → Option Db
  pub open_temporary : Option Db
  pub entries : Db → List Entry
  pub entries_from : Bytes → Db → List Entry
  pub get : Bytes → Db → Found
  pub put : Bytes → Bytes → Db → Option Db
  pub delete : Bytes → Db → Option Db
  pub write : List Entry → Db → Option Db
  pub flush : Db → Db
  -- QDir::mkpath and QTemporaryDir::isValid
  pub make_path : Text → Bool
  pub temporary_dir : Bool
  -- QIODevice: whether two pointers are to one device, with what `seek(0)` and a write, and `seek(0)` and readAll do; QBuffer's resize
  pub same : Device → Device → Bool
  pub is_open : Device → Bool
  pub size : Device → ℕ
  pub write_all : Bytes → Device → ℕ × Device
  pub read_all : Device → Bytes
  pub resize_buffer : ℕ → Device → Device
  -- QDataStream: writing, and reading on a reader whose status can go bad
  pub put_u32 : ℕ → Bytes
  pub put_bytes : Bytes → Bytes
  pub reader : Bytes → Reader
  pub ok : Reader → Bool
  pub get_u32 : Reader → ℕ × Reader
  pub get_bytes : Reader → Bytes × Reader
  pub to_utf8 : Text → Bytes
  pub from_utf8 : Bytes → Text

-- QDataStream reads back what it wrote; an array of bytes is as long as its prefix can say.
pub record Format (e : Engine) : Type 0 where
  pub get-put_u32 :
      (n : ℕ) (rest : Bytes)
      → n < 2 ^ 32
      → e.get_u32 (e.reader (e.put_u32 n ++ rest)) ≡ (n, e.reader rest)
  pub get-put_bytes :
      (b rest : Bytes)
      → length b + 1 < 2 ^ 32
      → e.get_bytes (e.reader (e.put_bytes b ++ rest)) ≡ (b, e.reader rest)
  pub ok-reader : (b : Bytes) → e.ok (e.reader b) ≡ true
  pub length-put_u32 : (n : ℕ) → length (e.put_u32 n) ≡ 4

-- A device gives back what was written from its start on; behind it may be what it held before.
pub record IsStorage (e : Engine) : Type 0 where
  pub read-write :
      (b : Bytes) (d : e.Device)
      → (e.write_all b d).0 ≡ length b
      → (tail : Bytes) × (e.read_all (e.write_all b d).1 ≡ b ++ tail)
  pub read-resize :
      (b tail : Bytes) (d : e.Device)
      → e.read_all d ≡ b ++ tail
      → (tail' : Bytes) × (e.read_all (e.resize_buffer (length b) d) ≡ b ++ tail')
  pub is_open-write : (b : Bytes) (d : e.Device) → e.is_open (e.write_all b d).1 ≡ e.is_open d
  pub is_open-resize : (n : ℕ) (d : e.Device) → e.is_open (e.resize_buffer n d) ≡ e.is_open d
  pub size-read_all : (d : e.Device) → e.size d ≡ length (e.read_all d)

-- The bytewise order of keys.
unfoldable pub key_less : Bytes → Bytes → Bool
key_less [] [] = false
key_less [] (b ∷ ys) = true
key_less (a ∷ xs) [] = false
key_less (a ∷ xs) (b ∷ ys) = let rest = key_less xs ys in ltb a b || (a == b && rest)

-- The value of a key in entries where a later one replaces an earlier.
unfoldable pub last_of : Bytes → List Entry → Found → Found
last_of k [] before = before
last_of k ((j, v) ∷ es) before = last_of k es (if text_eq j k then found v else before)

-- The iterator gives the map in the order of its keys, and a batch is written entry by entry.
pub record IsOrderedMap (e : Engine) : Type 0 where
  pub get-entries : (k : Bytes) (d : e.Db) → e.get k d ≡ last_of k (e.entries d) not_found
  pub get-write :
      (k : Bytes) (es : List Entry) (d d' : e.Db)
      → e.write es d ≡ some d'
      → e.get k d' ≡ last_of k es (e.get k d)
  pub temporary-empty : (k : Bytes) (d : e.Db) → e.open_temporary ≡ some d → e.get k d ≡ not_found
