-- ===== src/Access/Methods/People.antt =====
-- The methods of src/CoreAccessProxy.cpp that PeopleCall holds, with their permissions and defaults.
use a_social.Base.{inl, inr, refl, false, []}
use a_social.Access.Permissions.{
  settings_read, settings_write, profile_export, profile_import, data_read, data_write, test_flag,
}
use a_social.Access.Calls.{
  Types, people, bool, text, texts, bytes, variant, persona, personas, contact, contacts,
  PeopleCall, export_profile, import_profile, get_setting, set_setting, list_settings,
  set_active_persona, active_persona_id, list_personas, create_persona, get_persona, store_persona,
  delete_persona, list_contacts, create_contact, get_contact, store_contact, delete_contact,
  search_contacts,
}
use a_social.Access.Proxy.{people_call}
use a_social.Access.Gated.{Gated, if_not}

module _ (t : Types) (S : Type 0) where
  pub people_call-Gated : (c : PeopleCall t) → Gated t S (people c)
  unfolding people_call
  people_call-Gated (export_profile encryption_password) = record {
    reply = bytes [];
    reply_is_default = refl;
    covers = inr refl;
    acts = λ granted real s.
        if_not t S (test_flag profile_export granted) (s, bytes [])
          (real (people (export_profile encryption_password)) s);
  }
  people_call-Gated (import_profile exported decryption_password vfs_password) = record {
    reply = bool false;
    reply_is_default = refl;
    covers = inr refl;
    acts = λ granted real s.
        if_not t S (test_flag profile_import granted) (s, bool false)
          (real (people (import_profile exported decryption_password vfs_password)) s);
  }
  people_call-Gated (get_setting key) = record {
    reply = variant t.no_variant;
    reply_is_default = refl;
    covers = inl refl;
    acts = λ granted real s.
        if_not t S (test_flag settings_read granted) (s, variant t.no_variant)
          (real (people (get_setting key)) s);
  }
  people_call-Gated (set_setting key value) = record {
    reply = bool false;
    reply_is_default = refl;
    covers = inr refl;
    acts = λ granted real s.
        if_not t S (test_flag settings_write granted) (s, bool false)
          (real (people (set_setting key value)) s);
  }
  people_call-Gated list_settings = record {
    reply = texts [];
    reply_is_default = refl;
    covers = inl refl;
    acts = λ granted real s.
        if_not t S (test_flag settings_read granted) (s, texts []) (real (people list_settings) s);
  }
  people_call-Gated (set_active_persona persona_id) = record {
    reply = bool false;
    reply_is_default = refl;
    covers = inr refl;
    acts = λ granted real s.
        if_not t S (test_flag data_write granted) (s, bool false)
          (real (people (set_active_persona persona_id)) s);
  }
  people_call-Gated active_persona_id = record {
    reply = text [];
    reply_is_default = refl;
    covers = inl refl;
    acts = λ granted real s.
        if_not t S (test_flag data_read granted) (s, text []) (real (people active_persona_id) s);
  }
  people_call-Gated list_personas = record {
    reply = personas [];
    reply_is_default = refl;
    covers = inl refl;
    acts = λ granted real s.
        if_not t S (test_flag data_read granted) (s, personas []) (real (people list_personas) s);
  }
  people_call-Gated (create_persona display_name) = record {
    reply = persona t.default_persona;
    reply_is_default = refl;
    covers = inr refl;
    acts = λ granted real s.
        if_not t S (test_flag data_write granted) (s, persona t.default_persona)
          (real (people (create_persona display_name)) s);
  }
  people_call-Gated (get_persona persona_id) = record {
    reply = persona t.default_persona;
    reply_is_default = refl;
    covers = inl refl;
    acts = λ granted real s.
        if_not t S (test_flag data_read granted) (s, persona t.default_persona)
          (real (people (get_persona persona_id)) s);
  }
  people_call-Gated (store_persona new_persona) = record {
    reply = bool false;
    reply_is_default = refl;
    covers = inr refl;
    acts = λ granted real s.
        if_not t S (test_flag data_write granted) (s, bool false)
          (real (people (store_persona new_persona)) s);
  }
  people_call-Gated (delete_persona persona_id) = record {
    reply = bool false;
    reply_is_default = refl;
    covers = inr refl;
    acts = λ granted real s.
        if_not t S (test_flag data_write granted) (s, bool false)
          (real (people (delete_persona persona_id)) s);
  }
  people_call-Gated list_contacts = record {
    reply = contacts [];
    reply_is_default = refl;
    covers = inl refl;
    acts = λ granted real s.
        if_not t S (test_flag data_read granted) (s, contacts []) (real (people list_contacts) s);
  }
  people_call-Gated (create_contact display_name) = record {
    reply = contact t.default_contact;
    reply_is_default = refl;
    covers = inr refl;
    acts = λ granted real s.
        if_not t S (test_flag data_write granted) (s, contact t.default_contact)
          (real (people (create_contact display_name)) s);
  }
  people_call-Gated (get_contact contact_id) = record {
    reply = contact t.default_contact;
    reply_is_default = refl;
    covers = inl refl;
    acts = λ granted real s.
        if_not t S (test_flag data_read granted) (s, contact t.default_contact)
          (real (people (get_contact contact_id)) s);
  }
  people_call-Gated (store_contact new_contact) = record {
    reply = bool false;
    reply_is_default = refl;
    covers = inr refl;
    acts = λ granted real s.
        if_not t S (test_flag data_write granted) (s, bool false)
          (real (people (store_contact new_contact)) s);
  }
  people_call-Gated (delete_contact contact_id) = record {
    reply = bool false;
    reply_is_default = refl;
    covers = inr refl;
    acts = λ granted real s.
        if_not t S (test_flag data_write granted) (s, bool false)
          (real (people (delete_contact contact_id)) s);
  }
  people_call-Gated (search_contacts query) = record {
    reply = contacts [];
    reply_is_default = refl;
    covers = inl refl;
    acts = λ granted real s.
        if_not t S (test_flag data_read granted) (s, contacts [])
          (real (people (search_contacts query)) s);
  }
