-- ===== src/Access/Proxy.antt =====
-- CoreAccessProxy of src/CoreAccessProxy.cpp: each call is forwarded to the real core if the plugin
-- was granted its permission, and otherwise returns the method's default.
use a_social.Base.{ℕ, Bool, false, not, none, [], if◌then◌else◌}
use a_social.Access.Permissions.{
  Permission, plugin_access, container_write, container_read, profile_write, profile_read,
  data_read, data_write, profile_export, profile_import, settings_read, settings_write,
  app_lifecycle, test_flag, expand_implied_permissions,
}
use a_social.Access.Calls.{
  Types, Reply, Call, profiles, people, messaging, nothing, pointer, bool, text, texts, bytes,
  variant, profile, param, params, persona, personas, contact, contacts, group, groups, members,
  message, messages, event, events, ProfileCall, PeopleCall, MessagingCall, get_dbkv,
  get_dbkv_profile, get_vfs, create_container, is_container_initialized, container_path,
  open_profile, create_profile, close_profile, is_profile_open, delete_current_profile, get_profile,
  store_profile, get_current_profile_id, current_persona_name, list_params, create_param, get_param,
  store_param, delete_param, export_profile, import_profile, get_setting, set_setting,
  list_settings, set_active_persona, active_persona_id, list_personas, create_persona, get_persona,
  store_persona, delete_persona, list_contacts, create_contact, get_contact, store_contact,
  delete_contact, search_contacts, list_groups, create_group, get_group, store_group, delete_group,
  add_group_member, remove_group_member, list_group_members, list_messages, create_message,
  get_message, store_message, delete_message, list_events, create_event, get_event, store_event,
  delete_event, exit,
}

-- `check` without its line in the log
abbrev pub check : ℕ → Permission → Bool
check granted perm = test_flag perm granted

module _ (t : Types) {S : Type 0} where
  unfoldable pub profile_call :
      ℕ → (ProfileCall t → S → S × Reply t) → ProfileCall t → S → S × Reply t
  profile_call granted real get_dbkv s =
      if not (check granted plugin_access) then (s, pointer none) else real get_dbkv s
  profile_call granted real get_dbkv_profile s =
      if not (check granted plugin_access) then (s, pointer none) else real get_dbkv_profile s
  profile_call granted real get_vfs s =
      if not (check granted plugin_access) then (s, pointer none) else real get_vfs s
  profile_call granted real (create_container path max_size_bytes) s =
      if not (check granted container_write)
      then (s, bool false)
      else real (create_container path max_size_bytes) s
  profile_call granted real is_container_initialized s =
      if not (check granted container_read)
      then (s, bool false)
      else real is_container_initialized s
  profile_call granted real container_path s =
      if not (check granted container_read) then (s, text []) else real container_path s
  profile_call granted real (open_profile password) s =
      if not (check granted profile_write) then (s, bool false) else real (open_profile password) s
  profile_call granted real (create_profile password display_name) s =
      if not (check granted profile_write)
      then (s, bool false)
      else real (create_profile password display_name) s
  profile_call granted real close_profile s =
      if not (check granted profile_write) then (s, nothing) else real close_profile s
  profile_call granted real is_profile_open s =
      if not (check granted profile_read) then (s, bool false) else real is_profile_open s
  profile_call granted real (delete_current_profile progress) s =
      if not (check granted profile_write)
      then (s, bool false)
      else real (delete_current_profile progress) s
  profile_call granted real get_profile s =
      if not (check granted profile_read)
      then (s, profile t.default_profile)
      else real get_profile s
  profile_call granted real (store_profile new_profile) s =
      if not (check granted profile_write)
      then (s, bool false)
      else real (store_profile new_profile) s
  profile_call granted real get_current_profile_id s =
      if not (check granted profile_read) then (s, text []) else real get_current_profile_id s
  profile_call granted real current_persona_name s =
      if not (check granted profile_read) then (s, text []) else real current_persona_name s
  profile_call granted real list_params s =
      if not (check granted data_read) then (s, params []) else real list_params s
  profile_call granted real (create_param param_key) s =
      if not (check granted data_write)
      then (s, param t.default_profile_parameter)
      else real (create_param param_key) s
  profile_call granted real (get_param param_key) s =
      if not (check granted data_read)
      then (s, param t.default_profile_parameter)
      else real (get_param param_key) s
  profile_call granted real (store_param new_param) s =
      if not (check granted data_write) then (s, bool false) else real (store_param new_param) s
  profile_call granted real (delete_param param_key) s =
      if not (check granted data_write) then (s, bool false) else real (delete_param param_key) s

  unfoldable pub people_call : ℕ → (PeopleCall t → S → S × Reply t) → PeopleCall t → S → S × Reply t
  people_call granted real (export_profile encryption_password) s =
      if not (check granted profile_export)
      then (s, bytes [])
      else real (export_profile encryption_password) s
  people_call granted real (import_profile exported decryption_password vfs_password) s =
      if not (check granted profile_import)
      then (s, bool false)
      else real (import_profile exported decryption_password vfs_password) s
  people_call granted real (get_setting key) s =
      if not (check granted settings_read)
      then (s, variant t.no_variant)
      else real (get_setting key) s
  people_call granted real (set_setting key value) s =
      if not (check granted settings_write) then (s, bool false) else real (set_setting key value) s
  people_call granted real list_settings s =
      if not (check granted settings_read) then (s, texts []) else real list_settings s
  people_call granted real (set_active_persona persona_id) s =
      if not (check granted data_write)
      then (s, bool false)
      else real (set_active_persona persona_id) s
  people_call granted real active_persona_id s =
      if not (check granted data_read) then (s, text []) else real active_persona_id s
  people_call granted real list_personas s =
      if not (check granted data_read) then (s, personas []) else real list_personas s
  people_call granted real (create_persona display_name) s =
      if not (check granted data_write)
      then (s, persona t.default_persona)
      else real (create_persona display_name) s
  people_call granted real (get_persona persona_id) s =
      if not (check granted data_read)
      then (s, persona t.default_persona)
      else real (get_persona persona_id) s
  people_call granted real (store_persona new_persona) s =
      if not (check granted data_write) then (s, bool false) else real (store_persona new_persona) s
  people_call granted real (delete_persona persona_id) s =
      if not (check granted data_write) then (s, bool false) else real (delete_persona persona_id) s
  people_call granted real list_contacts s =
      if not (check granted data_read) then (s, contacts []) else real list_contacts s
  people_call granted real (create_contact display_name) s =
      if not (check granted data_write)
      then (s, contact t.default_contact)
      else real (create_contact display_name) s
  people_call granted real (get_contact contact_id) s =
      if not (check granted data_read)
      then (s, contact t.default_contact)
      else real (get_contact contact_id) s
  people_call granted real (store_contact new_contact) s =
      if not (check granted data_write) then (s, bool false) else real (store_contact new_contact) s
  people_call granted real (delete_contact contact_id) s =
      if not (check granted data_write) then (s, bool false) else real (delete_contact contact_id) s
  people_call granted real (search_contacts query) s =
      if not (check granted data_read) then (s, contacts []) else real (search_contacts query) s

  unfoldable pub messaging_call :
      ℕ → (MessagingCall t → S → S × Reply t) → MessagingCall t → S → S × Reply t
  messaging_call granted real list_groups s =
      if not (check granted data_read) then (s, groups []) else real list_groups s
  messaging_call granted real (create_group name) s =
      if not (check granted data_write)
      then (s, group t.default_group)
      else real (create_group name) s
  messaging_call granted real (get_group group_id) s =
      if not (check granted data_read)
      then (s, group t.default_group)
      else real (get_group group_id) s
  messaging_call granted real (store_group new_group) s =
      if not (check granted data_write) then (s, bool false) else real (store_group new_group) s
  messaging_call granted real (delete_group group_id) s =
      if not (check granted data_write) then (s, bool false) else real (delete_group group_id) s
  messaging_call granted real (add_group_member group_id contact_id) s =
      if not (check granted data_write)
      then (s, bool false)
      else real (add_group_member group_id contact_id) s
  messaging_call granted real (remove_group_member group_id contact_id) s =
      if not (check granted data_write)
      then (s, bool false)
      else real (remove_group_member group_id contact_id) s
  messaging_call granted real (list_group_members group_id) s =
      if not (check granted data_read)
      then (s, members [])
      else real (list_group_members group_id) s
  messaging_call granted real (list_messages limit) s =
      if not (check granted data_read) then (s, messages []) else real (list_messages limit) s
  messaging_call granted real (create_message recipient_id body recipient_type) s =
      if not (check granted data_write)
      then (s, message t.default_message)
      else real (create_message recipient_id body recipient_type) s
  messaging_call granted real (get_message message_id) s =
      if not (check granted data_read)
      then (s, message t.default_message)
      else real (get_message message_id) s
  messaging_call granted real (store_message new_message) s =
      if not (check granted data_write) then (s, bool false) else real (store_message new_message) s
  messaging_call granted real (delete_message message_id) s =
      if not (check granted data_write) then (s, bool false) else real (delete_message message_id) s
  messaging_call granted real list_events s =
      if not (check granted data_read) then (s, events []) else real list_events s
  messaging_call granted real (create_event title date) s =
      if not (check granted data_write)
      then (s, event t.default_event)
      else real (create_event title date) s
  messaging_call granted real (get_event event_id) s =
      if not (check granted data_read)
      then (s, event t.default_event)
      else real (get_event event_id) s
  messaging_call granted real (store_event new_event) s =
      if not (check granted data_write) then (s, bool false) else real (store_event new_event) s
  messaging_call granted real (delete_event event_id) s =
      if not (check granted data_write) then (s, bool false) else real (delete_event event_id) s
  messaging_call granted real exit s =
      if not (check granted app_lifecycle) then (s, nothing) else real exit s

  abbrev pub forward : ℕ → (Call t → S → S × Reply t) → Call t → S → S × Reply t
  forward granted real (profiles c) s = profile_call granted (λ c. real (profiles c)) c s
  forward granted real (people c) s = people_call granted (λ c. real (people c)) c s
  forward granted real (messaging c) s = messaging_call granted (λ c. real (messaging c)) c s

  -- The proxy that a plugin declared with `granted` holds: its constructor expands the flags.
  unfoldable pub core_access_proxy : ℕ → (Call t → S → S × Reply t) → Call t → S → S × Reply t
  core_access_proxy granted real c s = forward (expand_implied_permissions granted) real c s
