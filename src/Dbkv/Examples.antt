-- ===== src/Dbkv/Examples.antt =====
-- Runs of the store of plugins/dbkv-rocksdb over an engine in memory.
use a_social.Base.{
  some-injective, ℕ, ◌≡◌, refl, sym, ap, ◌∙◌, arith, Bool, true, false, Option, none, some, List,
  [], ◌∷◌, ◌++◌, append-nil, codes, length, take, drop, if◌then◌else◌, text_eq,
}
use a_social.Base.Bytes.{Bytes}
use a_social.Dbkv.Engine.{
  Entry, Found, found, not_found, Engine, Format, IsOrderedMap, IsStorage, last_of, key_less,
}
use a_social.Dbkv.Stream.{stream_of, read_stream, read_stream-stream_of}
use a_social.Dbkv.Keys.{list_keys, keys_with, drop_before, list_keys-keys_with}
use a_social.Dbkv.Store.{close, open_device, get, device_store}
use a_social.Dbkv.Reopening.{open_device-close}

-- A reader that has gone bad is none.
abbrev number : Option Bytes → ℕ × Option Bytes
number (some (a ∷ b ∷ c ∷ d ∷ rest)) = (a, some rest)
number _ = (0, none)

abbrev bytes_of : Option Bytes → Bytes × Option Bytes
bytes_of (some (l ∷ rest)) = (take l rest, some (drop l rest))
bytes_of _ = ([], none)

abbrev is_good : Option Bytes → Bool
is_good none = false
is_good (some r) = true

unfoldable without : Bytes → List Entry → List Entry
without k [] = []
without k ((j, v) ∷ es) = let rest = without k es in if text_eq j k then rest else (j, v) ∷ rest

abbrev memory : Engine
memory = record {
  Db = List Entry;
  Device = Bytes;
  Reader = Option Bytes;
  open_directory = λ path. some [];
  open_temporary = some [];
  entries = λ d. d;
  entries_from = drop_before;
  get = λ k d. last_of k d not_found;
  put = λ k v d. some (d ++ ((k, v) ∷ []));
  delete = λ k d. some (without k d);
  write = λ es d. some (d ++ es);
  flush = λ d. d;
  make_path = λ path. true;
  temporary_dir = true;
  same = λ a b. text_eq a b;
  is_open = λ d. true;
  size = length;
  write_all = λ b d. (length b, b ++ drop (length b) d);
  read_all = λ d. d;
  resize_buffer = take;
  put_u32 = λ n. n ∷ 0 ∷ 0 ∷ 0 ∷ [];
  put_bytes = λ b. length b ∷ b;
  reader = some;
  ok = is_good;
  get_u32 = number;
  get_bytes = bytes_of;
  to_utf8 = λ t. t;
  from_utf8 = λ b. b;
}

take-front : (b rest : Bytes) → take (length b) (b ++ rest) ≡ b
take-front [] rest = refl
take-front (x ∷ b) rest = ap (λ t. x ∷ t) (take-front b rest)

drop-front : (b rest : Bytes) → drop (length b) (b ++ rest) ≡ rest
drop-front [] rest = refl
drop-front (x ∷ b) rest = drop-front b rest

memory-Format : Format memory
memory-Format = record {
  get-put_u32 = λ n rest small. refl;
  get-put_bytes = λ b rest short. rw (take-front b rest, drop-front b rest) refl;
  ok-reader = λ b. refl;
  length-put_u32 = λ n. refl;
}

memory-IsStorage : IsStorage memory
memory-IsStorage = record {
  read-write = λ b d e. (drop (length b) d, refl);
  read-resize = λ b tail d e. ([], ap (take (length b)) e ∙ take-front b tail ∙ sym (append-nil b));
  is_open-write = λ b d. refl;
  is_open-resize = λ n d. refl;
  size-read_all = λ d. refl;
}

last_of-append :
    (k : Bytes) (d es : List Entry) (before : Found)
    → last_of k (d ++ es) before ≡ last_of k es (last_of k d before)
unfolding last_of
last_of-append k [] es before = refl
last_of-append k ((j, v) ∷ d) es before =
    last_of-append k d es (if text_eq j k then found v else before)

memory-IsOrderedMap : IsOrderedMap memory
unfolding last_of
memory-IsOrderedMap = record {
  get-entries = λ k d. refl;
  get-write = λ k es d d' e.
      ap (λ x. last_of k x not_found) (sym (some-injective e)) ∙ last_of-append k d es not_found;
  temporary-empty = λ k d e. ap (λ x. last_of k x not_found) (sym (some-injective e));
}

abbrev two_entries : List Entry
two_entries = (codes "a/1", codes "Ann") ∷ (codes "p", codes "me") ∷ []

read_stream-stream_of_example :
    read_stream memory (stream_of memory two_entries ++ codes "rest") ≡ some two_entries
read_stream-stream_of_example =
    read_stream-stream_of memory memory-Format two_entries (codes "rest")
      (omega arith, (omega arith, (omega arith, (omega arith, tt)))) (omega arith)

list_keys-keys_with_example :
    list_keys memory (codes "a/") (some two_entries) ≡ keys_with memory (codes "a/") two_entries
unfolding key_less
list_keys-keys_with_example =
    list_keys-keys_with memory (codes "a/") two_entries ((refl, tt), (tt, tt)) refl

open_device-close_example :
    ((open_device memory
        (close memory (device_store memory two_entries (codes "old"))).1
        (close memory (device_store memory two_entries (codes "old"))).0).1
      ≡ true)
    × (get memory
          (codes "p")
          (open_device memory
            (close memory (device_store memory two_entries (codes "old"))).1
            (close memory (device_store memory two_entries (codes "old"))).0).0
        ≡ get memory (codes "p") (device_store memory two_entries (codes "old")))
open_device-close_example =
    open_device-close memory memory-Format memory-IsStorage memory-IsOrderedMap two_entries []
      two_entries (codes "old") (codes "p") refl refl
      (omega arith, (omega arith, (omega arith, (omega arith, tt)))) (omega arith) refl refl refl
