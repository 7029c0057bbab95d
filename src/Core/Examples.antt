-- ===== src/Core/Examples.antt =====
-- Runs of src/core.cpp on the host in memory.
use a_social.Base.{
  ◌≡◌, ◌↔◌, ◌⊎◌, inl, refl, true, false, none, some, [], ◌∷◌, text_eq, take, reverse, if◌then◌else◌,
  codes, starts_with, ends_with, split_nonempty, join, arith,
}
use a_social.Protogen.Schema.{
  parse_targets, parse_fk_annotation, field_info, is_required, add_field, add_fields, key_segments,
  param_list, body_text, prefix_overload, prefix_overloads, build_key_functions, new_entity,
  first_pass, second_pass, get_entity_key_prefix,
}
use a_social.Protogen.Generated.{
  key, prefix, segments, value_of, required_errors, field_refs, target_refs, validate,
  validate_full, missing_errors, valid,
}
use a_social.Protogen.Generated.Keys.{starts_with-key_iff}
use a_social.Protogen.Generated.Checks.{AllPresent, AllResolved, validate_full_lem}
use a_social.Core.Entities.{persona_values, Contact, Persona, no_contact, no_persona}
use a_social.Core.Schema.{schema, entity}
use a_social.Core.State.{
  Core, is_profile_open, flush_profile, key_exists, retrieve_all, put_and_flush, delete_and_flush,
  is_container_initialized, prefix_of,
}
use a_social.Core.Lifecycle.Sessions.{IsClosed, IsOpened}
use a_social.Core.Lifecycle.{create_profile, close_profile}
use a_social.Core.Records.{store_valid, idle}
use a_social.Core.Records.Contacts.{store_contact, get_contact, delete_contact}
use a_social.Core.Records.Personas.{store_persona, delete_persona}
use a_social.Core.Records.Groups.{add_group_member}
use a_social.Core.Records.Messages.{list_messages, message_keys}
use a_social.Core.Machine.{register, close, after, here, step}
use a_social.Core.Machine.Invariant.{Reach-IsConsistent}
use a_social.Core.Laws.Contacts.{get_contact-store_contact, get_contact-delete_contact}
use a_social.Core.Laws.Messages.{list_messages-take}
use a_social.Core.Laws.Cascade.{is_owned, delete_persona_lem}
use a_social.Core.Laws.Creation.{IsCreated, create_profile-IsCreated}
use a_social.Core.Laws.Refusal.{store-refused}
use a_social.Core.Toy.{lookup, keys_under, toy, started}
use a_social.Core.Toy.Laws.{toy-Sessions, toy-IsMap, toy-RoundTrips, started-IsClosed}

-- A core with a profile open: a persona `1` that is active, a contact `7` and a message of it.
abbrev busy : Core toy
busy = record started {
  world = record {
    containers = true ∷ [];
    running = true;
    objects = (codes "a/1", []) ∷ (codes "c/1/7", []) ∷ (codes "m/1/0/5", codes "hello") ∷ [];
  };
  container = some 0;
  db_device = some 0;
  active_persona_id = codes "1";
}

busy-IsOpened : IsOpened toy busy
busy-IsOpened = record {
  handle = 0;
  device = 0;
  container = refl;
  container_open = refl;
  db_device = refl;
  database = refl;
  plugin = refl;
}

abbrev friend : Contact
friend = record no_contact {
  uid = codes "8";
  persona_uid = codes "1";
  display_name = codes "Bo";
  public_key = codes "k";
  avatar = codes "i";
  relationship_type = codes "friend";
}

Reach-IsConsistent_example :
    (IsClosed toy (after toy close (after toy (register [] (codes "Ann")) started))
      × (is_profile_open toy (after toy close (after toy (register [] (codes "Ann")) started))
          ≡ false))
    ⊎ (IsOpened toy (after toy close (after toy (register [] (codes "Ann")) started))
        × (is_profile_open toy (after toy close (after toy (register [] (codes "Ann")) started))
            ≡ true))
Reach-IsConsistent_example =
    Reach-IsConsistent toy toy-Sessions started
      (after toy close (after toy (register [] (codes "Ann")) started)) started-IsClosed
      (step close (step (register [] (codes "Ann")) here))

create_profile-IsCreated_example :
    IsCreated toy (codes "Ann") (create_profile toy [] (codes "Ann") started)
    × (is_profile_open toy (create_profile toy [] (codes "Ann") started).0 ≡ true)
unfolding is_container_initialized close_profile
create_profile-IsCreated_example =
    create_profile-IsCreated toy toy-IsMap toy-RoundTrips toy-Sessions (λ k b w o. refl) []
      (codes "Ann") started 0 0 (inl started-IsClosed) refl refl refl refl refl refl

stores_friend : (store_contact toy friend busy).1 ≡ true
unfolding schema entity text_eq first_pass second_pass new_entity build_key_functions
    prefix_overloads prefix_overload body_text param_list key_segments add_fields add_field
    is_required field_info get_entity_key_prefix ends_with split_nonempty join parse_targets
    parse_fk_annotation key prefix segments value_of required_errors field_refs target_refs validate
    validate_full missing_errors valid is_profile_open flush_profile key_exists put_and_flush
    store_valid store_contact lookup keys_under starts_with
stores_friend = refl

get_contact-store_contact_example :
    get_contact toy (codes "8") (store_contact toy friend busy).0 ≡ (
      if text_eq (codes "8") (codes "8")
      then record friend { updated_at = 0 }
      else get_contact toy (codes "8") busy)
get_contact-store_contact_example =
    get_contact-store_contact toy toy-Sessions toy-IsMap toy-RoundTrips busy friend busy-IsOpened
      refl stores_friend (codes "8")

deletes : (delete_contact toy (codes "7") busy).1 ≡ true
unfolding delete_contact delete_and_flush flush_profile is_profile_open
deletes = refl

get_contact-delete_contact_example :
    get_contact toy (codes "7") (delete_contact toy (codes "7") busy).0
    ≡ (if text_eq (codes "7") (codes "7") then no_contact else get_contact toy (codes "7") busy)
get_contact-delete_contact_example =
    get_contact-delete_contact toy toy-Sessions toy-IsMap busy (codes "7") busy-IsOpened deletes
      (codes "7")

open_idle : idle toy busy ≡ false
unfolding is_profile_open
open_idle = refl

list_messages-take_example :
    list_messages toy 5 busy
    ≡ take 5 (retrieve_all toy toy.message_codec (reverse (message_keys toy busy)) busy.world)
list_messages-take_example = list_messages-take toy busy 5 open_idle

busy_open : is_profile_open toy busy ≡ true
unfolding is_profile_open
busy_open = refl

no_member : starts_with (codes "c/1/7") (prefix_of (codes "GroupMember") []) ≡ false
unfolding schema entity text_eq first_pass second_pass new_entity build_key_functions
    prefix_overloads prefix_overload body_text param_list key_segments add_fields add_field
    is_required field_info get_entity_key_prefix ends_with split_nonempty join parse_targets
    parse_fk_annotation prefix segments starts_with
no_member = refl

delete_persona_lem_example :
    lookup (codes "c/1/7") (delete_persona toy (codes "1") busy).0.world.objects ≡ (
      if is_owned toy (codes "1") (codes "c/1/7")
      then none
      else lookup (codes "c/1/7") busy.world.objects)
delete_persona_lem_example =
    delete_persona_lem toy toy-IsMap toy-Sessions (λ k w o. refl) (codes "1") busy (codes "c/1/7")
      busy_open no_member

abbrev stranger : Persona
stranger = record no_persona {
  uid = codes "2";
  profile_uid = codes "9";
  display_name = codes "Cy";
  bio = codes "b";
  avatar = codes "i";
}

store-refused_example :
    ((store_persona toy stranger busy).1 ≡ false)
    × ((add_group_member toy (codes "4") (codes "7") busy).1 ≡ false)
unfolding keys_under starts_with
store-refused_example =
    store-refused toy busy stranger (codes "4") (codes "7") (omega arith) refl (omega arith) refl

starts_with-key_iff_example :
    (starts_with
        (key (entity (codes "Contact")) (codes "1" ∷ codes "7" ∷ []))
        (prefix (entity (codes "Contact")) (codes "1" ∷ []))
      ≡ true)
    ↔ (codes "1" ≡ codes "1")
starts_with-key_iff_example =
    starts_with-key_iff (entity (codes "Contact")) (codes "1") (codes "1") (codes "7") []
      ((λ e. omega (arith, e)), tt) ((λ e. omega (arith, e)), tt)

validate_full_lem_example :
    (valid (validate_full (entity (codes "Persona")) (persona_values stranger) (λ k. true)) ≡ true)
    ↔ (AllPresent (entity (codes "Persona")).required_fields (persona_values stranger)
        × AllResolved (λ k. true) (entity (codes "Persona")).fk_fields (persona_values stranger))
validate_full_lem_example =
    validate_full_lem (entity (codes "Persona")) (persona_values stranger) (λ k. true)
