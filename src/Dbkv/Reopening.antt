-- ===== src/Dbkv/Reopening.antt =====
-- A store on a device that is closed and opened again.
use a_social.Base.{
  ◌^◌, ◌<◌, ◌≡◌, refl, sym, ap, ◌∙◌, arith, Bool, true, false, some, ◌++◌, Text, length, ltb, ◌==◌,
  ==_refl, if◌then◌else◌, if-false, length-append,
}
use a_social.Base.Bytes.{Bytes}
use a_social.Dbkv.Engine.{Engine, Format, IsOrderedMap, IsStorage, last_of}
use a_social.Dbkv.Stream.{length-stream_of, stream_of, read_stream, AllShort, read_stream-stream_of}
use a_social.Dbkv.Store.{
  Store, device_store, value_of, write_batch, closed_store, serialise, deserialise, flush, close,
  open_device, get,
}

module _ (e : Engine) (f : Format e) (i : IsStorage e) where
  -- The device that serialise leaves holds the stream, and perhaps more, and is as open as before.
  abbrev Left : e.Db → e.Device → e.Device → Type 0
  Left db before left =
      ((tail : Bytes) × (e.read_all left ≡ stream_of e (e.entries db) ++ tail))
      × (e.is_open left ≡ e.is_open before)

  cut :
      (b : Bool) (db : e.Db) (d left : e.Device)
      → Left db d left
      → Left db d (if b then e.resize_buffer (length (stream_of e (e.entries db))) left else left)
  cut true db d left ((tail, holds), same) = (
    i.read-resize (stream_of e (e.entries db)) tail left holds,
    i.is_open-resize (length (stream_of e (e.entries db))) left ∙ same,
  )
  cut false db d left x = x

  serialise-Left :
      (db : e.Db) (d : e.Device)
      → (e.write_all (stream_of e (e.entries db)) d).0 ≡ length (stream_of e (e.entries db))
      → Left db d (serialise e db d).0
  unfolding serialise
  serialise-Left db d whole =
      let buffer = stream_of e (e.entries db) in
      let left = (e.write_all buffer d).1 in
      rw (whole, ==_refl (length buffer))
        (cut (ltb (length buffer) (e.size left)) db d left
          (i.read-write buffer d whole, i.is_open-write buffer d))

  -- A device with the stream of a database loads it into another.
  deserialise-stream :
      (db : e.Db) (t t' : e.Db) (device : e.Device) (tail : Bytes)
      → e.read_all device ≡ stream_of e (e.entries db) ++ tail
      → AllShort e (e.entries db)
      → length (e.entries db) < 2 ^ 32
      → e.write (e.entries db) t ≡ some t'
      → (deserialise e device t ≡ some t') × (ltb 0 (e.size device) ≡ true)
  unfolding deserialise
  deserialise-stream db t t' device tail holds short few written =
      let es = e.entries db in
      let full : 0 < length (e.read_all device) =
        ground
          (arith, ap length holds, length-append (stream_of e es) tail, length-stream_of e f es) in
      (
        if-false (length (e.read_all device) == 0) (some t) _ (ground (arith, full))
            ∙ ap (λ raw. write_batch e (read_stream e raw) t) holds
            ∙ ap (λ o. write_batch e o t) (read_stream-stream_of e f es tail short few)
            ∙ written,
        ground (arith, i.size-read_all device, full),
      )

  opens :
      (device : e.Device) (t t' : e.Db)
      → e.is_open device ≡ true
      → e.temporary_dir ≡ true
      → e.open_temporary ≡ some t
      → ltb 0 (e.size device) ≡ true
      → deserialise e device t ≡ some t'
      → open_device e (some device) (closed_store e) ≡ (device_store e t' device, true)
  unfolding open_device close
  opens device t t' ready dir temp full loads = rw (ready, dir, temp, full, loads) refl

  -- A store with a device that is closed and opened again on that device, as the close left it,
  -- opens, and every key has the value it had; where the stream was written as a whole, keys and
  -- values are short enough for QDataStream and fewer than 2 ^ 32, and the temporary database
  -- opens and takes the batch.
  pub open_device-close :
      IsOrderedMap e
      → (db t t' : e.Db) (d : e.Device) (key : Text) → e.is_open d ≡ true
      → (e.write_all (stream_of e (e.entries db)) d).0 ≡ length (stream_of e (e.entries db))
      → AllShort e (e.entries db)
      → length (e.entries db) < 2 ^ 32
      → e.temporary_dir ≡ true
      → e.open_temporary ≡ some t
      → e.write (e.entries db) t ≡ some t'
      → (let closed = close e (device_store e db d) in
          let opened = open_device e closed.1 closed.0 in
          (opened.1 ≡ true) × (get e key opened.0 ≡ get e key (device_store e db d)))
  unfolding close flush get
  open_device-close m db t t' d key ready whole short few dir temp written =
      let left = (serialise e db d).0 in
      let ((tail, holds), same) = serialise-Left db d whole in
      let (loads, full) = deserialise-stream db t t' left tail holds short few written in
      let is = opens left t t' (same ∙ ready) dir temp full loads in
      let k = e.to_utf8 key in
      (
        ap (λ (r : Store e × Bool). r.1) is,
        ap (λ (r : Store e × Bool). get e key r.0) is
            ∙ ap (value_of e) (
                m.get-write k (e.entries db) t t' written
                ∙ ap (last_of k (e.entries db)) (m.temporary-empty k t temp)
                ∙ sym (m.get-entries k db)),
      )
