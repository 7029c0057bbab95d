-- ===== src/Protogen/Descriptors.antt =====
-- The records of include/asocial_protogen/entity_parser.h, and what protobuf's descriptors say.
use a_social.Base.{ℕ, Bool, Option, List, Text}

pub record FkTarget : Type 0 where
  pub entity : Text
  pub field : Text
  pub key_prefix : Text

pub record FieldInfo : Type 0 where
  pub proto_name : Text
  pub getter : Text
  pub setter : Text
  pub is_string : Bool
  pub is_bytes : Bool
  pub is_timestamp : Bool
  pub is_optional : Bool
  pub is_repeated : Bool
  pub fk_targets : List FkTarget

pub record KeySegment : Type 0 where
  pub name : Text
  pub param_name : Text
  pub is_timestamp : Bool

pub record PrefixOverload : Type 0 where
  pub param_count : ℕ
  pub params : Text
  pub body : Text

pub record EntityInfo : Type 0 where
  pub proto_source_file : Text
  pub name : Text
  pub name_snake : Text
  pub name_upper : Text
  pub name_plural : Text
  pub cpp_type : Text
  pub key_prefix : Text
  pub key_pattern : Text
  pub singleton : Bool
  pub persona_scoped : Bool
  pub sort_field : Text
  pub sort_descending : Bool
  pub has_uid : Bool
  pub has_created_at : Bool
  pub has_updated_at : Bool
  pub has_key : Bool
  pub all_fields : List FieldInfo
  pub required_fields : List FieldInfo
  pub fk_fields : List FieldInfo
  pub key_fn_params : Text
  pub key_fn_body : Text
  pub prefix_overloads : List PrefixOverload
  pub const_name : Text
  pub fn_name : Text

-- What protobuf's descriptors say of a field and of a message; the options are already read.
pub data FieldType : Type 0 where
  string_type bytes_type timestamp_type other_type : FieldType

pub record FieldDescriptor : Type 0 where
  pub name : Text
  pub type : FieldType
  pub has_optional_keyword : Bool
  pub is_repeated : Bool
  pub fk : Text

pub record EntityConfigData : Type 0 where
  pub key_prefix : Text
  pub key_pattern : Text
  pub singleton : Bool
  pub persona_scoped : Bool
  pub sort_field : Text
  pub sort_descending : Bool

pub record MessageDescriptor : Type 0 where
  pub name : Text
  pub file : Text
  pub fields : List FieldDescriptor
  pub config : Option EntityConfigData

-- `entityMap`, by the name of the message
abbrev pub EntityMap : Type 0
EntityMap = List (Text × EntityInfo)
