-- ===== src/Core/Laws/Contacts.antt =====
-- The contacts of src/core.cpp, stored, deleted and read back.
use a_social.Base.{
  ◌+◌, ◌≡◌, refl, sym, ap, ◌∙◌, Bool, true, false, not, ◌||◌, Text, text_eq, if◌then◌else◌,
  if-false, codes,
}
use a_social.Core.Entities.{Contact, no_contact, contact_values}
use a_social.Core.Host.{Host, Sessions, IsMap, RoundTrips}
use a_social.Core.State.{Core, is_empty, is_profile_open, put_and_flush, delete_and_flush}
use a_social.Core.Lifecycle.Sessions.{IsOpened}
use a_social.Core.Machine.Guards.{
  or_false_right, put_and_flush-IsOpened, delete_and_flush-IsOpened, drawn-IsOpened,
}
use a_social.Core.Records.{idle}
use a_social.Core.Records.Contacts.{contact_key, get_contact, store_contact, delete_contact}
use a_social.Core.Laws.{
  stored, fetch, fetch-put_and_flush, fetch-delete_and_flush, active-put_and_flush,
  active-delete_and_flush, idle-opened, passed,
}

module _ (h : Host) (s : Sessions h) where
  get_contact-opened :
      (c : Core h) (j owner : Text)
      → IsOpened h c
      → is_empty owner ≡ false
      → c.active_persona_id ≡ owner
      → get_contact h j c ≡ fetch h h.contact_codec no_contact (codes "Contact") owner j c.world
  unfolding get_contact
  get_contact-opened c j owner o some_owner active =
      if-false _ _ _ (idle-opened h s c o (ap is_empty active ∙ some_owner))
      ∙ ap (λ p. fetch h h.contact_codec no_contact (codes "Contact") p j c.world) active

  -- With a profile open, a contact of the active persona that storeContact accepts is read back by
  -- getContact as it was stored, at the new time of its update, and every other contact of the
  -- persona as before; where the database is a map and messages come back from the wire format as
  -- they were.
  pub get_contact-store_contact :
      IsMap h
      → RoundTrips h
      → (c : Core h) (k : Contact) → IsOpened h c
      → c.active_persona_id ≡ k.persona_uid
      → (store_contact h k c).1 ≡ true
      → (j : Text)
      → get_contact h j (store_contact h k c).0
        ≡ (if text_eq k.uid j then record k { updated_at = h.now c.draws } else get_contact h j c)
  unfolding store_contact
  get_contact-store_contact m r c k o active ok j =
      let x : Contact = record k { updated_at = h.now c.draws } in
      let drawn : Core h = record c { draws = c.draws + 1 } in
      let bytes = h.contact_codec.encode x in
      let gate = not (is_profile_open h c) || (is_empty k.uid || is_empty k.persona_uid) in
      let (goes, same) =
        stored h gate c (codes "Contact") (contact_values x) (contact_key h k.persona_uid k.uid)
          bytes drawn ok in
      let put = put_and_flush h (contact_key h k.persona_uid k.uid) bytes drawn in
      let owned =
        or_false_right (is_empty k.uid) _ (or_false_right (not (is_profile_open h c)) _ goes) in
      ap (λ (q : Core h × Bool). get_contact h j q.0) same
      ∙ get_contact-opened put.0 j k.persona_uid
          (put_and_flush-IsOpened h s _ bytes drawn (drawn-IsOpened h s c _ o)) owned
          (active-put_and_flush h _ bytes drawn ∙ active)
      ∙ fetch-put_and_flush h m h.contact_codec no_contact (codes "Contact") k.persona_uid k.uid x
          drawn j (r.contact x) (sym (ap (λ (q : Core h × Bool). q.1) same) ∙ ok)
      ∙ ap (λ y. if text_eq k.uid j then x else y)
          (sym (get_contact-opened c j k.persona_uid o owned active))

  -- With a profile open, after a deleteContact that succeeds getContact finds nothing under that
  -- identifier and every other contact of the active persona as before; where the database is a
  -- map.
  pub get_contact-delete_contact :
      IsMap h
      → (c : Core h) (uid : Text) → IsOpened h c
      → (delete_contact h uid c).1 ≡ true
      → (j : Text)
      → get_contact h j (delete_contact h uid c).0
        ≡ (if text_eq uid j then no_contact else get_contact h j c)
  unfolding delete_contact
  get_contact-delete_contact m c uid o ok j =
      let owner = c.active_persona_id in
      let (goes, same) =
        passed h (idle h c) c (delete_and_flush h (contact_key h owner uid) c) ok in
      let deleted = delete_and_flush h (contact_key h owner uid) c in
      let owned = or_false_right (not (is_profile_open h c)) (is_empty owner) goes in
      ap (λ (q : Core h × Bool). get_contact h j q.0) same
      ∙ get_contact-opened deleted.0 j owner (delete_and_flush-IsOpened h s _ c o) owned
          (active-delete_and_flush h _ c)
      ∙ fetch-delete_and_flush h m h.contact_codec no_contact (codes "Contact") owner uid c j
          (sym (ap (λ (q : Core h × Bool). q.1) same) ∙ ok)
      ∙ ap (λ y. if text_eq uid j then no_contact else y)
          (sym (get_contact-opened c j owner o owned refl))
