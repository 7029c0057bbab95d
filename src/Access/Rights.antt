-- ===== src/Access/Rights.antt =====
-- The permission that each method of the core needs, as include/PluginPermissions.h documents the
-- flags: the methods that read and write settings, the container, profiles and entities, the raw
-- plugin pointers, export, import and exit.
use a_social.Access.Permissions.{
  Permission, profile_delete, app_lifecycle, container_read, container_write, data_read, data_write,
  plugin_access, profile_export, profile_import, profile_read, profile_write, settings_read,
  settings_write,
}
use a_social.Access.Calls.{
  Types, Call, profiles, people, messaging, ProfileCall, PeopleCall, MessagingCall, get_dbkv,
  get_dbkv_profile, get_vfs, create_container, is_container_initialized, container_path,
  open_profile, create_profile, close_profile, is_profile_open, delete_current_profile, get_profile,
  store_profile, get_current_profile_id, current_persona_name, list_params, create_param, get_param,
  store_param, delete_param, export_profile, import_profile, get_setting, set_setting,
  list_settings, set_active_persona, active_persona_id, list_personas, create_persona, get_persona,
  store_persona, delete_persona, list_contacts, create_contact, get_contact, store_contact,
  delete_contact, search_contacts, list_groups, create_group, get_group, store_group, delete_group,
  add_group_member, remove_group_member, list_group_members, list_messages, create_message,
  get_message, store_message, delete_message, list_events, create_event, get_event, store_event,
  delete_event, exit,
}

abbrev pub profile_call_permission : (t : Types) → ProfileCall t → Permission
profile_call_permission t get_dbkv = plugin_access
profile_call_permission t get_dbkv_profile = plugin_access
profile_call_permission t get_vfs = plugin_access
profile_call_permission t (create_container _ _) = container_write
profile_call_permission t is_container_initialized = container_read
profile_call_permission t container_path = container_read
profile_call_permission t (open_profile _) = profile_write
profile_call_permission t (create_profile _ _) = profile_write
profile_call_permission t close_profile = profile_write
profile_call_permission t is_profile_open = profile_read
profile_call_permission t (delete_current_profile _) = profile_delete
profile_call_permission t get_profile = profile_read
profile_call_permission t (store_profile _) = profile_write
profile_call_permission t get_current_profile_id = profile_read
profile_call_permission t current_persona_name = profile_read
profile_call_permission t list_params = data_read
profile_call_permission t (create_param _) = data_write
profile_call_permission t (get_param _) = data_read
profile_call_permission t (store_param _) = data_write
profile_call_permission t (delete_param _) = data_write

abbrev pub people_call_permission : (t : Types) → PeopleCall t → Permission
people_call_permission t (export_profile _) = profile_export
people_call_permission t (import_profile _ _ _) = profile_import
people_call_permission t (get_setting _) = settings_read
people_call_permission t (set_setting _ _) = settings_write
people_call_permission t list_settings = settings_read
people_call_permission t (set_active_persona _) = data_write
people_call_permission t active_persona_id = data_read
people_call_permission t list_personas = data_read
people_call_permission t (create_persona _) = data_write
people_call_permission t (get_persona _) = data_read
people_call_permission t (store_persona _) = data_write
people_call_permission t (delete_persona _) = data_write
people_call_permission t list_contacts = data_read
people_call_permission t (create_contact _) = data_write
people_call_permission t (get_contact _) = data_read
people_call_permission t (store_contact _) = data_write
people_call_permission t (delete_contact _) = data_write
people_call_permission t (search_contacts _) = data_read

abbrev pub messaging_call_permission : (t : Types) → MessagingCall t → Permission
messaging_call_permission t list_groups = data_read
messaging_call_permission t (create_group _) = data_write
messaging_call_permission t (get_group _) = data_read
messaging_call_permission t (store_group _) = data_write
messaging_call_permission t (delete_group _) = data_write
messaging_call_permission t (add_group_member _ _) = data_write
messaging_call_permission t (remove_group_member _ _) = data_write
messaging_call_permission t (list_group_members _) = data_read
messaging_call_permission t (list_messages _) = data_read
messaging_call_permission t (create_message _ _ _) = data_write
messaging_call_permission t (get_message _) = data_read
messaging_call_permission t (store_message _) = data_write
messaging_call_permission t (delete_message _) = data_write
messaging_call_permission t list_events = data_read
messaging_call_permission t (create_event _ _) = data_write
messaging_call_permission t (get_event _) = data_read
messaging_call_permission t (store_event _) = data_write
messaging_call_permission t (delete_event _) = data_write
messaging_call_permission t exit = app_lifecycle

abbrev pub permission_of : (t : Types) → Call t → Permission
permission_of t (profiles c) = profile_call_permission t c
permission_of t (people c) = people_call_permission t c
permission_of t (messaging c) = messaging_call_permission t c
