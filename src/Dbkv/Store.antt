-- ===== src/Dbkv/Store.antt =====
-- RocksDBStore.cpp and plugin.cpp of plugins/dbkv-rocksdb: the lifecycle of the store, on a
-- directory or on a device, and the operations on keys. The buffers that secureWipe clears are local
-- and have no place in the state.
use a_social.Base.{
  Bool, true, false, not, Option, none, some, List, Text, length, ltb, ◌==◌, if◌then◌else◌,
}
use a_social.Base.Bytes.{Bytes}
use a_social.Dbkv.Engine.{Entry, Found, found, not_found, failed, Engine}
use a_social.Dbkv.Stream.{stream_of, read_stream}
use a_social.Dbkv.Keys.{list_keys}

pub record Store (e : Engine) : Type 0 where
  pub db : Option e.Db
  pub device : Option e.Device
  pub temp_dir : Bool

module _ (e : Engine) where
  abbrev pub closed_store : Store e
  closed_store = record { db = none; device = none; temp_dir = false }

  -- Open on a device.
  abbrev pub device_store : e.Db → e.Device → Store e
  device_store db device = record { db = some db; device = some device; temp_dir = true }

  abbrev pub is_open : Store e → Bool
  is_open s = elim s.db [ none ↦ false | some d ↦ true ]

  -- The device with the stream on it, and whether the stream was written as a whole.
  unfoldable pub serialise : e.Db → e.Device → e.Device × Bool
  serialise db device =
      let buffer = stream_of e (e.entries db) in
      let (written, left) = e.write_all buffer device in
      if written == length buffer
      then (if ltb written (e.size left) then e.resize_buffer written left else left, true)
      else (left, false)

  abbrev pub write_batch : Option (List Entry) → e.Db → Option e.Db
  write_batch none db = none
  write_batch (some es) db = e.write es db

  -- The database with the entries of the device; none where they are refused.
  unfoldable pub deserialise : e.Device → e.Db → Option e.Db
  deserialise device db =
      let raw = e.read_all device in
      if length raw == 0 then some db else write_batch (read_stream e raw) db

  abbrev pub flush_to : Option e.Device → e.Db → Store e → Store e
  flush_to none db s = record s { db = some (e.flush db) }
  flush_to (some device) db s = record s { device = some (serialise db device).0 }

  unfoldable pub flush : Store e → Store e
  flush s = elim s.db [ none ↦ s | some db ↦ flush_to s.device db s ]

  -- The closed store, and the device as the store leaves it.
  unfoldable pub close : Store e → Store e × Option e.Device
  close s = elim s.db [ none ↦ (s, none) | some db ↦ (closed_store, (flush s).device) ]

  unfoldable pub open_path : Text → Store e → Store e × Bool
  open_path path s =
      let c = (close s).0 in
      if not (e.make_path path) then (c, false) else elim (e.open_directory path) [
        | none ↦ (record c { db = none }, false)
        | some db ↦ (record c { db = some db; device = none }, true)
      ]

  abbrev pub loaded : Option e.Db → e.Device → Store e × Bool
  loaded none device = (closed_store, false)
  loaded (some db) device = (device_store db device, true)

  -- A device after the store is closed, with the store's own device before and after: what `close`
  -- flushed into it where it is the store's own.
  abbrev pub as_left : Option e.Device → Option e.Device → e.Device → e.Device
  as_left (some own) (some left) device = if e.same own device then left else device
  as_left own left device = device

  unfoldable pub open_device : Option e.Device → Store e → Store e × Bool
  open_device none s = (s, false)
  open_device (some device) s =
      let c = (close s).0 in
      let now = as_left s.device (close s).1 device in
      if not (e.is_open device)
      then (s, false)
      else if not e.temporary_dir
      then (record c { temp_dir = false }, false)
      else elim e.open_temporary [
        | none ↦ (record c { db = none; temp_dir = false }, false)
        | some db ↦ loaded (if ltb 0 (e.size now) then deserialise now db else some db) now
      ]

  unfoldable pub put : Text → Bytes → Store e → Store e × Bool
  put key value s = elim s.db [
    | none ↦ (s, false)
    | some db ↦ elim (e.put (e.to_utf8 key) value db) [
      | none ↦ (s, false)
      | some db' ↦ (record s { db = some db' }, true)
    ]
  ]

  abbrev pub value_of : Found → Option Bytes
  value_of (found b) = some b
  value_of not_found = none
  value_of failed = none

  unfoldable pub get : Text → Store e → Option Bytes
  get key s = elim s.db [ none ↦ none | some db ↦ value_of (e.get (e.to_utf8 key) db) ]

  unfoldable pub exists : Text → Store e → Bool
  exists key s = elim s.db [
    | none ↦ false
    | some db ↦ elim (e.get (e.to_utf8 key) db) [
      | found b ↦ true
      | not_found ↦ false
      | failed ↦ false
    ]
  ]

  unfoldable pub remove : Text → Store e → Store e × Bool
  remove key s = elim s.db [
    | none ↦ (s, false)
    | some db ↦ elim (e.delete (e.to_utf8 key) db) [
      | none ↦ (s, false)
      | some db' ↦ (record s { db = some db' }, true)
    ]
  ]

  -- The plugin: the same over messages, with the serializer of the message.
  abbrev pub open_database : Option e.Device → Store e → Store e × Bool
  open_database device s = open_device device (close s).0

  abbrev pub list_objects : Text → Store e → List Text
  list_objects prefix s = list_keys e prefix s.db

  -- The bytes of the message, or none where it is not serialised.
  unfoldable pub store_object : Text → Option Bytes → Store e → Store e × Bool
  store_object key message s =
      if not (is_open s)
      then (s, false)
      else elim message [ none ↦ (s, false) | some bytes ↦ put key bytes s ]

  unfoldable pub retrieve_object : {A : Type 0} → (Bytes → Option A) → Text → Store e → Option A
  retrieve_object decode key s = elim (get key s) [ none ↦ none | some bytes ↦ decode bytes ]

  abbrev pub object_exists : Text → Store e → Bool
  object_exists key s = exists key s

  abbrev pub delete_object : Text → Store e → Store e × Bool
  delete_object key s = remove key s
