-- ===== src/Vfs/Container/Disk.antt =====
-- What the writes of the container leave on the disk.
use native.Mathlib.Nat.{le_trans}
use mathlib.Core.Bool.{false≢true}
use mathlib.Core.Path.{ap₂}
use a_social.Base.{
  ℕ, ◌+◌, ◌^◌, ◌≤◌, ◌<◌, ◌≡◌, ◌⊎◌, inl, inr, ◌∙◌, ap, sym, length-append, ==_refl, refl, arith,
  Bool, true, false, some, length, take-append_length, drop-append_length, ◌++◌, ltb, ◌==◌,
  Bool-cases, Option-cases,
}
use a_social.Base.Bytes.{Bytes}
use a_social.Vfs.Platform.{Platform, Lawful, IsHealthy}
use a_social.Vfs.Layout.{FilePointer, nonce_size, mac_size, slot_size, add64}
use a_social.Vfs.Layout.Narrow.{to_int_small, take-length}
use a_social.Vfs.Header.{serialize_file_pointer, stored_name}
use a_social.Vfs.Header.RoundTrip.{Fits, deserialize-serialize, length-serialize_file_pointer}
use a_social.Vfs.Container.{
  Container, slot_offset, slot_ad, write_sealed, encrypt_slot, read_slot, write_padding,
  write_blob_to_disk, read_blob_from_disk,
}

-- The `n` bytes at `o` and the `k` bytes at `off` share no byte.
abbrev pub Disjoint : ℕ → ℕ → ℕ → ℕ → Type 0
Disjoint o n off k = (o + n ≤ off) ⊎ (off + k ≤ o)

-- What a successful encryptSlot wrote.
pub encrypt_slot_done :
    (p : Platform) (slot : ℕ) (fp : FilePointer) (c c' : Container p)
    → encrypt_slot p slot fp c ≡ (c', true)
    → (ct : Bytes) × (p.encrypt c.key
          (p.random c.draws nonce_size)
          (slot_ad slot)
          (serialize_file_pointer p fp)
        ≡ some ct)
      × (c' ≡ record c {
        file = write_sealed p c.file (slot_offset slot) (p.random c.draws nonce_size) ct;
        draws = c.draws + 1;
      })
unfolding encrypt_slot
encrypt_slot_done p slot fp c c' done =
    elim (Option-cases (
      p.encrypt c.key (p.random c.draws nonce_size) (slot_ad slot) (serialize_file_pointer p fp))) [
        | inl failed ↦
            absurd (
              false≢true (ap (λ (q : Container p × Bool). q.1) (rw (failed, encrypt_slot) at done)))
        | inr (ct, made) ↦
            (ct, made, sym (ap (λ (q : Container p × Bool). q.0) (rw (made, encrypt_slot) at done)))
      ]

module _ (p : Platform) (l : Lawful p) where
  pub read-write-Disjoint :
      (f : p.File) (off : ℕ) (b : Bytes) (o n : ℕ)
      → Disjoint o n off (length b)
      → o + n ≤ p.size f
      → p.read (p.write f off b).0 o n ≡ p.read f o n
  read-write-Disjoint f off b o n (inl h) s = l.read-write_before f off b o n h s
  read-write-Disjoint f off b o n (inr h) s = l.read-write_after f off b o n h s

  pub le-size-write_sealed :
      (f : p.File) (off : ℕ) (nonce ct : Bytes) → p.size f ≤ p.size (write_sealed p f off nonce ct)
  le-size-write_sealed f off nonce ct =
      le_trans (l.le-size-write f off nonce) (l.le-size-write (p.write f off nonce).0 _ ct)

  pub read-write_sealed-Disjoint :
      (f : p.File) (off : ℕ) (nonce ct : Bytes) (o n : ℕ)
      → Disjoint o n off (length nonce + length ct)
      → o + n ≤ p.size f
      → p.read (write_sealed p f off nonce ct) o n ≡ p.read f o n
  read-write_sealed-Disjoint f off nonce ct o n d s =
      read-write-Disjoint (p.write f off nonce).0 (off + length nonce) ct o n (ground (arith, d))
        (le_trans s (l.le-size-write f off nonce))
      ∙ read-write-Disjoint f off nonce o n (ground (arith, d)) s

  module _ (healthy : IsHealthy p) where
    -- The nonce and the ciphertext are read back, each from its place.
    pub read-write_sealed_nonce :
        (f : p.File) (off : ℕ) (nonce ct : Bytes)
        → length nonce ≡ nonce_size
        → p.read (write_sealed p f off nonce ct) off nonce_size ≡ nonce
    read-write_sealed_nonce f off nonce ct e =
        let first : off + length nonce ≤ p.size (p.write f off nonce).0 =
          l.size-write f off nonce (omega (arith, e)) (healthy f off nonce) in
        read-write-Disjoint (p.write f off nonce).0 (off + length nonce) ct off nonce_size
          (inl (omega (arith, e))) (omega (arith, e, first))
        ∙ l.read-write_self f off nonce_size nonce e (healthy f off nonce)

    pub read-write_sealed_ct :
        (f : p.File) (off : ℕ) (nonce ct : Bytes) (k : ℕ)
        → length nonce ≡ nonce_size
        → length ct ≡ k
        → p.read (write_sealed p f off nonce ct) (off + nonce_size) k ≡ ct
    read-write_sealed_ct f off nonce ct k e ek = rw (← e) (
        l.read-write_self (p.write f off nonce).0 (off + length nonce) k ct ek
          (healthy (p.write f off nonce).0 _ ct))

    pub size-write_sealed :
        (f : p.File) (off : ℕ) (nonce ct : Bytes)
        → length nonce ≡ nonce_size
        → 0 < length ct
        → off + nonce_size + length ct ≤ p.size (write_sealed p f off nonce ct)
    size-write_sealed f off nonce ct e pos = rw (← e) (
        l.size-write (p.write f off nonce).0 (off + length nonce) ct pos
          (healthy (p.write f off nonce).0 _ ct))

    -- The bytes of a sealed slot, as one read of 128 bytes.
    raw_slot :
        (f : p.File) (slot : ℕ) (nonce ct : Bytes)
        → length nonce ≡ nonce_size
        → length ct ≡ 104
        → p.read (write_sealed p f (slot_offset slot) nonce ct) (slot_offset slot) slot_size
          ≡ nonce ++ ct
    raw_slot f slot nonce ct en ec =
        l.read-append (write_sealed p f (slot_offset slot) nonce ct) (slot_offset slot) nonce_size
          104
          (omega
            (arith, size-write_sealed f (slot_offset slot) nonce ct en (omega (arith, ec)), ec))
        ∙ ap₂ (λ (x y : Bytes). x ++ y) (read-write_sealed_nonce f (slot_offset slot) nonce ct en)
            (read-write_sealed_ct f (slot_offset slot) nonce ct 104 en ec)

    -- A round of loadSlots at a slot that encryptSlot filled reads the entry that was written.
    pub read_slot-encrypt_slot :
        (fp : FilePointer) (c c' : Container p)
        → Fits fp
        → p.from_utf8 (stored_name p fp) ≡ fp.filename
        → encrypt_slot p fp.slot_index fp c ≡ (c', true)
        → read_slot p c'.file c'.key fp.slot_index ≡ some fp
    unfolding read_slot
    read_slot-encrypt_slot fp c c' fits named done =
        let (ct, made, e) = encrypt_slot_done p fp.slot_index fp c c' done in
        let nonce : Bytes = p.random c.draws nonce_size in
        let en : length nonce ≡ nonce_size = l.length-random c.draws nonce_size in
        let ec : length ct ≡ 104 =
          omega (arith, l.length-encrypt _ _ _ _ ct made, length-serialize_file_pointer p fp) in
        let raw = raw_slot c.file fp.slot_index nonce ct en ec in
        let total : length (nonce ++ ct) ≡ slot_size =
          omega (arith, length-append nonce ct, en, ec) in
        let opened = l.decrypt-encrypt c.key nonce (slot_ad fp.slot_index) _ ct made in
        rw
          (
            e,
            raw,
            total,
            take-append_length nonce ct nonce_size en,
            drop-append_length nonce ct nonce_size en,
            opened,
          )
          (deserialize-serialize p fp fits named)

-- What a successful writeBlobToDisk wrote.
pub write_blob_done :
    (p : Platform) (fp : FilePointer) (plaintext : Bytes) (c c' : Container p)
    → write_blob_to_disk p fp plaintext c ≡ (c', true)
    → (ct : Bytes) × (p.encrypt c.key (p.random c.draws nonce_size) fp.id plaintext ≡ some ct)
      × (c'
          ≡ write_padding p fp (nonce_size + length ct) (record c {
            file = write_sealed p c.file fp.data_offset (p.random c.draws nonce_size) ct;
            draws = c.draws + 1;
          }))
unfolding write_blob_to_disk
write_blob_done p fp plaintext c c' done =
    elim (Option-cases (p.encrypt c.key (p.random c.draws nonce_size) fp.id plaintext)) [
      | inl failed ↦ absurd (
          false≢true
            (ap (λ (q : Container p × Bool). q.1) (rw (failed, write_blob_to_disk) at done)))
      | inr (ct, made) ↦ (
        ct,
        made,
        sym (ap (λ (q : Container p × Bool). q.0) (rw (made, write_blob_to_disk) at done)),
      )
    ]

module _ (p : Platform) (l : Lawful p) where
  -- The padding leaves the bytes before it and the key.
  pub read-write_padding :
      (fp : FilePointer) (written : ℕ) (c : Container p) (o n : ℕ)
      → o + n ≤ fp.data_offset + written
      → o + n ≤ p.size c.file
      → (p.read (write_padding p fp written c).file o n ≡ p.read c.file o n)
        × ((write_padding p fp written c).key ≡ c.key)
        × (p.size c.file ≤ p.size (write_padding p fp written c).file)
  unfolding write_padding
  read-write_padding fp written c o n before held =
      elim (Bool-cases (ltb written fp.allocated_size)) [
        | inl short ↦
            rw short
              (l.read-write_before c.file _ _ o n before held, refl, l.le-size-write c.file _ _)
        | inr full ↦ rw full (refl, refl, omega arith)
      ]

  module _ (healthy : IsHealthy p) where
    -- A blob of less than 2 GiB that was written is read back, and the file holds all of it.
    pub read_blob-write_blob_to_disk :
        (fp : FilePointer) (plaintext : Bytes) (c c' : Container p)
        → fp.used_size ≡ length plaintext
        → 0 < length plaintext
        → length plaintext < 2 ^ 31
        → write_blob_to_disk p fp plaintext c ≡ (c', true)
        → (read_blob_from_disk p c' fp ≡ plaintext)
          × (fp.data_offset + fp.used_size + 40 ≤ p.size c'.file)
    unfolding read_blob_from_disk
    read_blob-write_blob_to_disk fp plaintext c c' used pos small done =
        let (ct, made, e) = write_blob_done p fp plaintext c c' done in
        let nonce : Bytes = p.random c.draws nonce_size in
        let en : length nonce ≡ nonce_size = l.length-random c.draws nonce_size in
        let ec : length ct ≡ length plaintext + 16 = l.length-encrypt _ _ _ _ ct made in
        let sealed : Container p = record c {
          file = write_sealed p c.file fp.data_offset nonce ct;
          draws = c.draws + 1;
        } in
        let size : add64 fp.used_size mac_size ≡ length ct = omega (arith, ec, used, small) in
        let held =
          size-write_sealed p l healthy c.file fp.data_offset nonce ct en (omega (arith, ec)) in
        let some_used : (fp.used_size == 0) ≡ false = ground (arith, used, pos) in
        let first =
          read-write_padding fp (nonce_size + length ct) sealed fp.data_offset nonce_size
            (omega arith) (omega (arith, held)) in
        let second =
          read-write_padding fp (nonce_size + length ct) sealed (fp.data_offset + nonce_size)
            (length ct) (omega arith) (omega (arith, held)) in
        let opened = l.decrypt-encrypt c.key nonce fp.id plaintext ct made in
        (
          rw (
            e,
            some_used,
            size,
            first.0,
            second.0,
            first.1,
            read-write_sealed_nonce p l healthy c.file fp.data_offset nonce ct en,
            read-write_sealed_ct p l healthy c.file fp.data_offset nonce ct (length ct) en refl,
            en,
            ==_refl (length ct),
            opened,
            used,
            to_int_small (length plaintext) small,
            take-length plaintext,
          ),
          rw e (omega (arith, held, first.2, ec, used)),
        )
