-- ===== src/Core/Records/Contacts.antt =====
-- The contacts of the active persona (src/core.cpp).
use a_social.Base.{◌+◌, Bool, false, not, ◌||◌, List, [], ◌∷◌, Text, if◌then◌else◌, codes}
use a_social.Core.Entities.{Contact, no_contact, contact_values}
use a_social.Core.Host.{Host}
use a_social.Core.State.{
  Core, is_empty, key_of, prefix_of, is_profile_open, retrieve, retrieve_all, delete_and_flush,
  take_time,
}
use a_social.Core.Records.{or_default, idle, store_valid}

module _ (h : Host) where
  abbrev pub contact_key : Text → Text → Text
  contact_key persona_uid uid = key_of (codes "Contact") (persona_uid ∷ uid ∷ [])

  abbrev pub contacts_of : Core h → List Contact
  contacts_of c =
      retrieve_all h h.contact_codec
        (h.list_objects (prefix_of (codes "Contact") (c.active_persona_id ∷ [])) c.world) c.world

  unfoldable pub list_contacts : Core h → List Contact
  list_contacts c =
      if idle h c then [] else h.sort (λ a b. h.less a.display_name b.display_name) (contacts_of c)

  unfoldable pub create_contact : Text → Core h → Contact × Core h
  create_contact display_name c =
      let time = h.now c.draws in
      if idle h c then (no_contact, c) else (
        record no_contact {
          uid = h.new_id (c.draws + 1);
          created_at = time;
          updated_at = time;
          persona_uid = c.active_persona_id;
          display_name = display_name;
        },
        record c { draws = c.draws + 2 },
      )

  unfoldable pub get_contact : Text → Core h → Contact
  get_contact uid c =
      if idle h c
      then no_contact
      else or_default no_contact
          (retrieve h h.contact_codec (contact_key c.active_persona_id uid) c.world)

  unfoldable pub store_contact : Contact → Core h → Core h × Bool
  store_contact contact c =
      let (time, drawn) = take_time h c in
      let k = record contact { updated_at = time } in
      if not (is_profile_open h c) || (is_empty contact.uid || is_empty contact.persona_uid)
      then (c, false)
      else store_valid h (codes "Contact") (contact_values k) (contact_key k.persona_uid k.uid)
          (h.contact_codec.encode k) drawn

  unfoldable pub delete_contact : Text → Core h → Core h × Bool
  delete_contact uid c =
      if idle h c then (c, false) else delete_and_flush h (contact_key c.active_persona_id uid) c

  -- The name or the notes hold the query, whatever the case.
  abbrev pub matches : Text → Contact → Bool
  matches lower_query k =
      h.has_part (h.to_lower k.display_name) lower_query
      || h.has_part (h.to_lower (or_default [] k.notes)) lower_query

  unfoldable pub keep_matches : Text → List Contact → List Contact
  keep_matches lower_query [] = []
  keep_matches lower_query (k ∷ ks) =
      let rest = keep_matches lower_query ks in if matches lower_query k then k ∷ rest else rest

  unfoldable pub search_contacts : Text → Core h → List Contact
  search_contacts query c = if idle h c then [] else keep_matches (h.to_lower query) (contacts_of c)
