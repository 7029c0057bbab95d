-- ===== src/Core/Machine.antt =====
-- Core as a state machine: its steps are the operations of src/core.cpp that can change its state.
pub mod Guards
pub mod Storing
pub mod Invariant
use a_social.Base.{ℕ, Text, Option}
use a_social.Base.Bytes.{Bytes}
use a_social.Core.Entities.{Profile, ProfileParameter, Persona, Contact, Group, Message, Event}
use a_social.Core.Host.{Host}
use a_social.Core.State.{Core, flush_profile}
use a_social.Core.Lifecycle.{
  create_container, close_profile, open_profile, create_profile, delete_current_profile, exit, init,
}
use a_social.Core.Records.Profiles.{
  store_profile, store_param, delete_param, import_profile, set_setting,
}
use a_social.Core.Records.Personas.{
  set_active_persona, create_persona, store_persona, delete_persona,
}
use a_social.Core.Records.Contacts.{create_contact, store_contact, delete_contact}
use a_social.Core.Records.Groups.{
  create_group, store_group, delete_group, add_group_member, remove_group_member,
}
use a_social.Core.Records.Messages.{create_message, store_message, delete_message}
use a_social.Core.Records.Events.{create_event, store_event, delete_event}

pub data Request (h : Host) : Type 0 where
  new_container : Text → ℕ → Request h
  close : Request h
  login : Text → Request h
  register : Text → Text → Request h
  delete_current : Request h
  quit : Request h
  start : Request h
  flush : Request h
  put_profile : Profile → Request h
  put_param : ProfileParameter → Request h
  drop_param : Text → Request h
  restore : Bytes → Text → Request h
  put_setting : Text → h.Variant → Request h
  activate : Text → Request h
  new_persona : Text → Request h
  put_persona : Persona → Request h
  drop_persona : Text → Request h
  new_contact : Text → Request h
  put_contact : Contact → Request h
  drop_contact : Text → Request h
  new_group : Text → Request h
  put_group : Group → Request h
  drop_group : Text → Request h
  add_member : Text → Text → Request h
  remove_member : Text → Text → Request h
  new_message : Text → Text → Text → Request h
  put_message : Message → Request h
  drop_message : Text → Request h
  new_event : Text → Text → Request h
  put_event : Event → Request h
  drop_event : Text → Request h

module _ (h : Host) where
  -- The state after a request.
  abbrev pub after : Request h → Core h → Core h
  after (new_container path n) c = (create_container h path n c).0
  after close c = close_profile h c
  after (login pw) c = (open_profile h pw c).0
  after (register pw name) c = (create_profile h pw name c).0
  after delete_current c = (delete_current_profile h c).0
  after quit c = exit h c
  after start c = init h c
  after flush c = flush_profile h c
  after (put_profile p) c = (store_profile h p c).0
  after (put_param p) c = (store_param h p c).0
  after (drop_param k) c = (delete_param h k c).0
  after (restore bytes pw) c = (import_profile h bytes pw c).0
  after (put_setting k v) c = (set_setting h k v c).0
  after (activate uid) c = (set_active_persona h uid c).0
  after (new_persona name) c = (create_persona h name c).1
  after (put_persona p) c = (store_persona h p c).0
  after (drop_persona uid) c = (delete_persona h uid c).0
  after (new_contact name) c = (create_contact h name c).1
  after (put_contact k) c = (store_contact h k c).0
  after (drop_contact uid) c = (delete_contact h uid c).0
  after (new_group name) c = (create_group h name c).1
  after (put_group g) c = (store_group h g c).0
  after (drop_group uid) c = (delete_group h uid c).0
  after (add_member g k) c = (add_group_member h g k c).0
  after (remove_member g k) c = (remove_group_member h g k c).0
  after (new_message to body type) c = (create_message h to body type c).1
  after (put_message m) c = (store_message h m c).0
  after (drop_message uid) c = (delete_message h uid c).0
  after (new_event title date) c = (create_event h title date c).1
  after (put_event e) c = (store_event h e c).0
  after (drop_event uid) c = (delete_event h uid c).0

  -- What requests lead to, one after the other.
  pub data Reach (c : Core h) : Core h → Type 0 where
    here : Reach c c
    step : {d : Core h} (r : Request h) → Reach c d → Reach c (after r d)
