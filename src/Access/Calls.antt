-- ===== src/Access/Calls.antt =====
-- The calls of CoreInterface (include/CoreInterface.h), in the order in which
-- src/CoreAccessProxy.cpp implements them, and their replies.
use a_social.Base.{ℕ, Bool, true, false, Option, List, Text}
use a_social.Base.Bytes.{Bytes}

-- The generated message types, and what Qt and the plugins give. A `default_` is the value of `{}`.
pub record Types : Type 1 where
  pub Profile : Type 0
  pub ProfileParameter : Type 0
  pub Persona : Type 0
  pub Contact : Type 0
  pub Group : Type 0
  pub GroupMember : Type 0
  pub Message : Type 0
  pub Event : Type 0
  pub Variant : Type 0
  pub Pointer : Type 0
  pub Callback : Type 0
  pub default_profile : Profile
  pub default_profile_parameter : ProfileParameter
  pub default_persona : Persona
  pub default_contact : Contact
  pub default_group : Group
  pub default_message : Message
  pub default_event : Event
  pub no_variant : Variant

pub data Reply (t : Types) : Type 0 where
  nothing : Reply t
  pointer : Option t.Pointer → Reply t
  bool : Bool → Reply t
  text : Text → Reply t
  texts : List Text → Reply t
  bytes : Bytes → Reply t
  variant : t.Variant → Reply t
  profile : t.Profile → Reply t
  param : t.ProfileParameter → Reply t
  params : List t.ProfileParameter → Reply t
  persona : t.Persona → Reply t
  personas : List t.Persona → Reply t
  contact : t.Contact → Reply t
  contacts : List t.Contact → Reply t
  group : t.Group → Reply t
  groups : List t.Group → Reply t
  members : List t.GroupMember → Reply t
  message : t.Message → Reply t
  messages : List t.Message → Reply t
  event : t.Event → Reply t
  events : List t.Event → Reply t

pub data ProfileCall (t : Types) : Type 0 where
  get_dbkv : ProfileCall t
  get_dbkv_profile : ProfileCall t
  get_vfs : ProfileCall t
  create_container : Text → ℕ → ProfileCall t
  is_container_initialized : ProfileCall t
  container_path : ProfileCall t
  open_profile : Text → ProfileCall t
  create_profile : Text → Text → ProfileCall t
  close_profile : ProfileCall t
  is_profile_open : ProfileCall t
  delete_current_profile : t.Callback → ProfileCall t
  get_profile : ProfileCall t
  store_profile : t.Profile → ProfileCall t
  get_current_profile_id : ProfileCall t
  current_persona_name : ProfileCall t
  list_params : ProfileCall t
  create_param : Text → ProfileCall t
  get_param : Text → ProfileCall t
  store_param : t.ProfileParameter → ProfileCall t
  delete_param : Text → ProfileCall t

pub data PeopleCall (t : Types) : Type 0 where
  export_profile : Text → PeopleCall t
  import_profile : Bytes → Text → Text → PeopleCall t
  get_setting : Text → PeopleCall t
  set_setting : Text → t.Variant → PeopleCall t
  list_settings : PeopleCall t
  set_active_persona : Text → PeopleCall t
  active_persona_id : PeopleCall t
  list_personas : PeopleCall t
  create_persona : Text → PeopleCall t
  get_persona : Text → PeopleCall t
  store_persona : t.Persona → PeopleCall t
  delete_persona : Text → PeopleCall t
  list_contacts : PeopleCall t
  create_contact : Text → PeopleCall t
  get_contact : Text → PeopleCall t
  store_contact : t.Contact → PeopleCall t
  delete_contact : Text → PeopleCall t
  search_contacts : Text → PeopleCall t

pub data MessagingCall (t : Types) : Type 0 where
  list_groups : MessagingCall t
  create_group : Text → MessagingCall t
  get_group : Text → MessagingCall t
  store_group : t.Group → MessagingCall t
  delete_group : Text → MessagingCall t
  add_group_member : Text → Text → MessagingCall t
  remove_group_member : Text → Text → MessagingCall t
  list_group_members : Text → MessagingCall t
  list_messages : ℕ → MessagingCall t
  create_message : Text → Text → Text → MessagingCall t
  get_message : Text → MessagingCall t
  store_message : t.Message → MessagingCall t
  delete_message : Text → MessagingCall t
  list_events : MessagingCall t
  create_event : Text → Text → MessagingCall t
  get_event : Text → MessagingCall t
  store_event : t.Event → MessagingCall t
  delete_event : Text → MessagingCall t
  exit : MessagingCall t

pub data Call (t : Types) : Type 0 where
  profiles : ProfileCall t → Call t
  people : PeopleCall t → Call t
  messaging : MessagingCall t → Call t

-- The methods that CoreInterface declares `const`.
abbrev pub profile_call_is_const : (t : Types) → ProfileCall t → Bool
profile_call_is_const t get_dbkv = true
profile_call_is_const t get_dbkv_profile = true
profile_call_is_const t get_vfs = true
profile_call_is_const t is_container_initialized = true
profile_call_is_const t container_path = true
profile_call_is_const t is_profile_open = true
profile_call_is_const t get_profile = true
profile_call_is_const t get_current_profile_id = true
profile_call_is_const t current_persona_name = true
profile_call_is_const t list_params = true
profile_call_is_const t (get_param _) = true
profile_call_is_const t _ = false

abbrev pub people_call_is_const : (t : Types) → PeopleCall t → Bool
people_call_is_const t (get_setting _) = true
people_call_is_const t list_settings = true
people_call_is_const t active_persona_id = true
people_call_is_const t list_personas = true
people_call_is_const t (get_persona _) = true
people_call_is_const t list_contacts = true
people_call_is_const t (get_contact _) = true
people_call_is_const t (search_contacts _) = true
people_call_is_const t _ = false

abbrev pub messaging_call_is_const : (t : Types) → MessagingCall t → Bool
messaging_call_is_const t list_groups = true
messaging_call_is_const t (get_group _) = true
messaging_call_is_const t (list_group_members _) = true
messaging_call_is_const t (list_messages _) = true
messaging_call_is_const t (get_message _) = true
messaging_call_is_const t list_events = true
messaging_call_is_const t (get_event _) = true
messaging_call_is_const t _ = false

abbrev pub is_const : (t : Types) → Call t → Bool
is_const t (profiles c) = profile_call_is_const t c
is_const t (people c) = people_call_is_const t c
is_const t (messaging c) = messaging_call_is_const t c
