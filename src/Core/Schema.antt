-- ===== src/Core/Schema.antt =====
-- The messages of libs/asocial_proto/proto/asocial/v1 as the code generator gets them, and the
-- entities that it makes of them. The names in these files are of ASCII letters, so ASCII's cases
-- stand for those of QChar.
pub mod Entries
use a_social.Base.{
  ℕ, ◌+◌, ◌-◌, Bool, true, false, ◌&&◌, Option, none, some, List, [], ◌∷◌, Text, ltb, leb, ◌==◌,
  if◌then◌else◌, codes,
}
use a_social.Protogen.Names.{Cases}
use a_social.Protogen.Descriptors.{
  FieldType, string_type, bytes_type, timestamp_type, other_type, FieldDescriptor, EntityConfigData,
  MessageDescriptor, EntityInfo, EntityMap,
}
use a_social.Protogen.Schema.{first_pass, second_pass}
use a_social.Base.{text_eq}

abbrev pub ascii : Cases
ascii = record {
  is_upper = λ c. leb b'A' c && leb c b'Z';
  is_space = λ c. c == b' ';
  to_lower = λ c. if leb b'A' c && leb c b'Z' then c + 32 else c;
  to_upper = λ c. if leb b'a' c && leb c b'z' then c - 32 else c;
}

abbrev field : FieldType → Text → FieldDescriptor
field type name = record {
  name = name;
  type = type;
  has_optional_keyword = false;
  is_repeated = false;
  fk = [];
}

abbrev optional : FieldType → Text → FieldDescriptor
optional type name = record {
  name = name;
  type = type;
  has_optional_keyword = true;
  is_repeated = false;
  fk = [];
}

abbrev repeated : FieldType → Text → FieldDescriptor
repeated type name = record {
  name = name;
  type = type;
  has_optional_keyword = false;
  is_repeated = true;
  fk = [];
}

abbrev reference : Text → Text → FieldDescriptor
reference name fk = record {
  name = name;
  type = string_type;
  has_optional_keyword = false;
  is_repeated = false;
  fk = fk;
}

abbrev stamps : List FieldDescriptor → List FieldDescriptor
stamps fs =
    field string_type (codes "uid")
    ∷ field timestamp_type (codes "created_at")
    ∷ field timestamp_type (codes "updated_at")
    ∷ fs

abbrev config : Text → Text → Bool → Bool → Text → Bool → Option EntityConfigData
config prefix pattern singleton persona_scoped sort_field sort_descending = some (record {
  key_prefix = prefix;
  key_pattern = pattern;
  singleton = singleton;
  persona_scoped = persona_scoped;
  sort_field = sort_field;
  sort_descending = sort_descending;
})

abbrev pub event_message : MessageDescriptor
event_message = record {
  name = codes "Event";
  file = codes "asocial/v1/event.proto";
  config = config (codes "e") (codes "{persona_uid}/{uid}") false true (codes "started") true;
  fields = stamps (
      reference (codes "persona_uid") (codes "Persona.uid")
      ∷ field string_type (codes "title")
      ∷ optional string_type (codes "description")
      ∷ optional string_type (codes "location")
      ∷ optional timestamp_type (codes "started")
      ∷ optional timestamp_type (codes "ended")
      ∷ field string_type (codes "event_type")
      ∷ optional string_type (codes "color")
      ∷ optional string_type (codes "category")
      ∷ []);
}

abbrev pub param_message : MessageDescriptor
param_message = record {
  name = codes "ProfileParameter";
  file = codes "asocial/v1/profile_param.proto";
  config = config (codes "pp") (codes "{key}") false false (codes "key") false;
  fields = field string_type (codes "key") ∷ field string_type (codes "value") ∷ [];
}

abbrev pub contact_message : MessageDescriptor
contact_message = record {
  name = codes "Contact";
  file = codes "asocial/v1/contact.proto";
  config = config (codes "c") (codes "{persona_uid}/{uid}") false true (codes "display_name") false;
  fields = stamps (
      reference (codes "persona_uid") (codes "Persona.uid")
      ∷ field string_type (codes "display_name")
      ∷ field bytes_type (codes "public_key")
      ∷ field other_type (codes "trust_level")
      ∷ optional string_type (codes "notes")
      ∷ field bytes_type (codes "avatar")
      ∷ optional timestamp_type (codes "birthday")
      ∷ optional timestamp_type (codes "deathday")
      ∷ field string_type (codes "relationship_type")
      ∷ optional string_type (codes "parent_contact_uid")
      ∷ []);
}

abbrev pub message_message : MessageDescriptor
message_message = record {
  name = codes "Message";
  file = codes "asocial/v1/message.proto";
  config = config (codes "m") (codes "{persona_uid}/{created_at}/{uid}") false true [] true;
  fields =
      field string_type (codes "uid")
      ∷ field timestamp_type (codes "created_at")
      ∷ reference (codes "persona_uid") (codes "Persona.uid")
      ∷ field string_type (codes "thread_uid")
      ∷ reference (codes "sender_contact_uid") (codes "Contact.uid")
      ∷ field string_type (codes "recipient_type")
      ∷ reference (codes "recipient_uid") (codes "Contact.uid,Group.uid")
      ∷ field string_type (codes "body")
      ∷ field string_type (codes "content_type")
      ∷ repeated other_type (codes "attachments")
      ∷ field other_type (codes "is_read")
      ∷ [];
}

abbrev pub profile_message : MessageDescriptor
profile_message = record {
  name = codes "Profile";
  file = codes "asocial/v1/profile.proto";
  config = config (codes "p") [] true false [] false;
  fields = stamps (
      field string_type (codes "display_name")
      ∷ field string_type (codes "bio")
      ∷ field bytes_type (codes "avatar")
      ∷ []);
}

abbrev pub persona_message : MessageDescriptor
persona_message = record {
  name = codes "Persona";
  file = codes "asocial/v1/profile.proto";
  config = config (codes "a") (codes "{uid}") false false (codes "display_name") false;
  fields = stamps (
      reference (codes "profile_uid") (codes "Profile.uid")
      ∷ field string_type (codes "display_name")
      ∷ field string_type (codes "bio")
      ∷ field bytes_type (codes "avatar")
      ∷ field other_type (codes "is_default")
      ∷ []);
}

abbrev pub group_message : MessageDescriptor
group_message = record {
  name = codes "Group";
  file = codes "asocial/v1/group.proto";
  config = config (codes "g") (codes "{persona_uid}/{uid}") false true (codes "name") false;
  fields = stamps (
      reference (codes "persona_uid") (codes "Persona.uid")
      ∷ field string_type (codes "name")
      ∷ field string_type (codes "description")
      ∷ optional string_type (codes "color")
      ∷ []);
}

abbrev pub group_member_message : MessageDescriptor
group_member_message = record {
  name = codes "GroupMember";
  file = codes "asocial/v1/group.proto";
  config = config (codes "gm") (codes "{group_uid}/{contact_uid}") false false [] false;
  fields =
      reference (codes "group_uid") (codes "Group.uid")
      ∷ reference (codes "contact_uid") (codes "Contact.uid")
      ∷ field string_type (codes "role")
      ∷ field timestamp_type (codes "joined_at")
      ∷ [];
}

abbrev messages : List MessageDescriptor
messages =
    event_message ∷ param_message ∷ contact_message ∷ message_message ∷ profile_message
    ∷ persona_message ∷ group_message ∷ group_member_message ∷ []

unfoldable pub schema : EntityMap
schema = second_pass ascii messages (first_pass ascii messages [])

abbrev no_entity : EntityInfo
no_entity = record {
  proto_source_file = [];
  name = [];
  name_snake = [];
  name_upper = [];
  name_plural = [];
  cpp_type = [];
  key_prefix = [];
  key_pattern = [];
  singleton = false;
  persona_scoped = false;
  sort_field = [];
  sort_descending = false;
  has_uid = false;
  has_created_at = false;
  has_updated_at = false;
  has_key = false;
  all_fields = [];
  required_fields = [];
  fk_fields = [];
  key_fn_params = [];
  key_fn_body = [];
  prefix_overloads = [];
  const_name = [];
  fn_name = [];
}

abbrev entity_in : Text → EntityMap → EntityInfo
entity_in name [] = no_entity
entity_in name ((n, e) ∷ m) = if text_eq n name then e else entity_in name m

-- The entity of this name.
unfoldable pub entity : Text → EntityInfo
entity name = entity_in name schema
