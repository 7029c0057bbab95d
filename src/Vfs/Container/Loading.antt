-- ===== src/Vfs/Container/Loading.antt =====
-- loadSlots of plugins/vfs-cake/src/EncryptedVFSContainer.cpp goes through all slots of the header.
use a_social.Base.{
  ℕ, zero, suc, ◌+◌, ◌≤◌, ◌<◌, ◌≡◌, refl, subst, arith, true, Option, none, some, List, [], ◌∷◌,
  ◌++◌, get_elem?, ◌==◌, Bool-cases, inl, inr,
}
use a_social.Base.Bytes.{Bytes}
use a_social.Vfs.Platform.{Platform, Lawful, IsHealthy}
use a_social.Vfs.Layout.{FilePointer, slot_count}
use a_social.Vfs.Header.{stored_name}
use a_social.Vfs.Header.RoundTrip.{Fits}
use a_social.Vfs.Container.{
  Container, encrypt_slot, read_slot, append_found, load_slots_from, load_slots,
}
use a_social.Vfs.Container.Disk.{read_slot-encrypt_slot}

abbrev pub Holds : List FilePointer → FilePointer → Type 0
Holds fs fp = (i : ℕ) × (get_elem? fs i ≡ some fp)

Holds-append_left :
    (fs gs : List FilePointer) (fp : FilePointer) → Holds fs fp → Holds (fs ++ gs) fp
Holds-append_left [] gs fp (i, h) = cc
Holds-append_left (f ∷ fs) gs fp (zero, h) = (zero, h)
Holds-append_left (f ∷ fs) gs fp (suc i, h) =
    let (j, e) = Holds-append_left fs gs fp (i, h) in (suc j, e)

Holds-append_last : (fs : List FilePointer) (fp : FilePointer) → Holds (fs ++ fp ∷ []) fp
Holds-append_last [] fp = (zero, refl)
Holds-append_last (f ∷ fs) fp = let (j, e) = Holds-append_last fs fp in (suc j, e)

module _ (p : Platform) where
  Holds-append_found :
      (fs : List FilePointer) (o : Option FilePointer) (fp : FilePointer)
      → Holds fs fp
      → Holds (append_found p fs o) fp
  Holds-append_found fs none fp h = h
  Holds-append_found fs (some g) fp h = Holds-append_left fs (g ∷ []) fp h

  -- An entry that was found stays.
  Holds-load_slots_from :
      (rounds i : ℕ) (f : p.File) (key : Bytes) (fs : List FilePointer) (fp : FilePointer)
      → Holds fs fp
      → Holds (load_slots_from p rounds i f key fs) fp
  unfolding load_slots_from
  Holds-load_slots_from zero i f key fs fp h = h
  Holds-load_slots_from (suc rounds) i f key fs fp h =
      Holds-load_slots_from rounds (i + 1) f key _ fp
        (Holds-append_found fs (read_slot p f key i) fp h)

  -- The loop reads each slot from `i` on for which it has a round.
  load_slots_from-reads :
      (rounds i slot : ℕ) (f : p.File) (key : Bytes) (fs : List FilePointer) (fp : FilePointer)
      → i ≤ slot
      → slot < i + rounds
      → read_slot p f key slot ≡ some fp
      → Holds (load_slots_from p rounds i f key fs) fp
  unfolding load_slots_from
  load_slots_from-reads zero i slot f key fs fp from to h = absurd (omega arith)
  load_slots_from-reads (suc rounds) i slot f key fs fp from to h = elim (Bool-cases (i == slot)) [
    | inl here ↦
        let e : slot ≡ i = ground arith in
        let found : read_slot p f key i ≡ some fp =
          subst (λ j. read_slot p f key j ≡ some fp) e h in
        Holds-load_slots_from rounds (i + 1) f key _ fp (rw found (Holds-append_last fs fp))
    | inr later ↦
        load_slots_from-reads rounds (i + 1) slot f key _ fp (ground arith) (omega arith) h
  ]

  pub load_slots-reads :
      (slot : ℕ) (fp : FilePointer) (c : Container p)
      → slot < slot_count
      → read_slot p c.file c.key slot ≡ some fp
      → Holds (load_slots p c).files fp
  unfolding load_slots
  load_slots-reads slot fp c inside found =
      load_slots_from-reads slot_count 0 slot c.file c.key [] fp (omega arith)
        (omega (arith, inside)) found

  -- On a lawful, healthy platform, what encryptSlot wrote into one of the 4096 slots is among the
  -- entries that loadSlots finds under the same key, in its slot, where its values fit their fields
  -- and its name survives the cut to 46 bytes of UTF-8.
  pub load_slots-encrypt_slot :
      (l : Lawful p) (healthy : IsHealthy p) (fp : FilePointer) (c c' : Container p)
      → Fits fp
      → p.from_utf8 (stored_name p fp) ≡ fp.filename
      → fp.slot_index < slot_count
      → encrypt_slot p fp.slot_index fp c ≡ (c', true)
      → (i : ℕ) × (get_elem? (load_slots p c').files i ≡ some fp)
  load_slots-encrypt_slot l healthy fp c c' fits named inside done =
      load_slots-reads fp.slot_index fp c' inside
        (read_slot-encrypt_slot p l healthy fp c c' fits named done)
