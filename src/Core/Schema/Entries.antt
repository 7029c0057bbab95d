-- ===== src/Core/Schema/Entries.antt =====
-- What the generator makes of contacts and personas.
use a_social.Base.{
  ◌≡◌, refl, List, [], ◌∷◌, map, Text, text_eq, codes, ends_with, split_nonempty, join,
}
use a_social.Protogen.Descriptors.{FieldInfo, FkTarget}
use a_social.Protogen.Schema.{
  get_entity_key_prefix, parse_targets, parse_fk_annotation, field_info, is_required, add_field,
  add_fields, key_segments, param_list, body_text, prefix_overload, prefix_overloads,
  build_key_functions, new_entity, first_pass, second_pass,
}
use a_social.Core.Schema.{schema, entity}

-- What the references of a message depend on.
abbrev pub view : FieldInfo → Text × List FkTarget
view f = (f.proto_name, f.fk_targets)

pub required_of_contact :
    map (λ (f : FieldInfo). f.proto_name) (entity (codes "Contact")).required_fields
    ≡ codes "uid"
      ∷ codes "persona_uid"
      ∷ codes "display_name"
      ∷ codes "public_key"
      ∷ codes "avatar"
      ∷ codes "relationship_type"
      ∷ []
unfolding schema entity text_eq first_pass second_pass new_entity build_key_functions
    prefix_overloads prefix_overload body_text param_list key_segments add_fields add_field
    is_required field_info get_entity_key_prefix ends_with split_nonempty join
required_of_contact = refl

pub prefix_of_persona : (entity (codes "Persona")).key_prefix ≡ codes "a"
unfolding schema entity text_eq first_pass second_pass new_entity build_key_functions
    prefix_overloads prefix_overload body_text param_list key_segments add_fields add_field
    is_required field_info get_entity_key_prefix ends_with split_nonempty join
prefix_of_persona = refl

-- A persona refers to a profile, a member to a group and to a contact.
pub targets_of_persona :
    map view (entity (codes "Persona")).fk_fields
    ≡ (
      codes "profile_uid",
      (record { entity = codes "Profile"; field = codes "uid"; key_prefix = codes "p" }) ∷ [],
    )
      ∷ []
unfolding schema entity text_eq first_pass second_pass new_entity build_key_functions
    prefix_overloads prefix_overload body_text param_list key_segments add_fields add_field
    is_required field_info get_entity_key_prefix ends_with split_nonempty join parse_targets
    parse_fk_annotation
targets_of_persona = refl

pub targets_of_member :
    map view (entity (codes "GroupMember")).fk_fields
    ≡ (
      codes "group_uid",
      (record { entity = codes "Group"; field = codes "uid"; key_prefix = codes "g" }) ∷ [],
    )
      ∷ (
        codes "contact_uid",
        (record { entity = codes "Contact"; field = codes "uid"; key_prefix = codes "c" }) ∷ [],
      )
      ∷ []
unfolding schema entity text_eq first_pass second_pass new_entity build_key_functions
    prefix_overloads prefix_overload body_text param_list key_segments add_fields add_field
    is_required field_info get_entity_key_prefix ends_with split_nonempty join parse_targets
    parse_fk_annotation
targets_of_member = refl
