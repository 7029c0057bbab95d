-- ===== src/Core/Entities.antt =====
-- The messages of libs/asocial_proto/proto/asocial/v1, as the core handles them, and the texts of
-- the fields that validation reads. A timestamp is a number; an optional field may be absent.
use a_social.Base.{ℕ, Bool, false, Option, none, List, [], ◌∷◌, Text, codes}
use a_social.Base.Bytes.{Bytes}
use a_social.Protogen.Generated.{Values}

pub record Profile : Type 0 where
  pub uid : Text
  pub created_at : ℕ
  pub updated_at : ℕ
  pub display_name : Text
  pub bio : Text
  pub avatar : Bytes

pub record ProfileParameter : Type 0 where
  pub key : Text
  pub value : Text

pub record Persona : Type 0 where
  pub uid : Text
  pub created_at : ℕ
  pub updated_at : ℕ
  pub profile_uid : Text
  pub display_name : Text
  pub bio : Text
  pub avatar : Bytes
  pub is_default : Bool

pub record Contact : Type 0 where
  pub uid : Text
  pub created_at : ℕ
  pub updated_at : ℕ
  pub persona_uid : Text
  pub display_name : Text
  pub public_key : Bytes
  pub trust_level : ℕ
  pub notes : Option Text
  pub avatar : Bytes
  pub birthday : Option ℕ
  pub deathday : Option ℕ
  pub relationship_type : Text
  pub parent_contact_uid : Option Text

pub record Group : Type 0 where
  pub uid : Text
  pub created_at : ℕ
  pub updated_at : ℕ
  pub persona_uid : Text
  pub name : Text
  pub description : Text
  pub color : Option Text

pub record GroupMember : Type 0 where
  pub group_uid : Text
  pub contact_uid : Text
  pub role : Text
  pub joined_at : ℕ

pub record MessageAttachment : Type 0 where
  pub filename : Text
  pub mime_type : Text
  pub content : Bytes
  pub thumbnail : Bytes

pub record Message : Type 0 where
  pub uid : Text
  pub created_at : ℕ
  pub persona_uid : Text
  pub thread_uid : Text
  pub sender_contact_uid : Text
  pub recipient_type : Text
  pub recipient_uid : Text
  pub body : Text
  pub content_type : Text
  pub attachments : List MessageAttachment
  pub is_read : Bool

pub record Event : Type 0 where
  pub uid : Text
  pub created_at : ℕ
  pub updated_at : ℕ
  pub persona_uid : Text
  pub title : Text
  pub description : Option Text
  pub location : Option Text
  pub started : Option ℕ
  pub ended : Option ℕ
  pub event_type : Text
  pub color : Option Text
  pub category : Option Text

-- A default-constructed message, `{}`.
abbrev pub no_profile : Profile
no_profile = record {
  uid = [];
  created_at = 0;
  updated_at = 0;
  display_name = [];
  bio = [];
  avatar = [];
}

abbrev pub no_param : ProfileParameter
no_param = record { key = []; value = [] }

abbrev pub no_persona : Persona
no_persona = record {
  uid = [];
  created_at = 0;
  updated_at = 0;
  profile_uid = [];
  display_name = [];
  bio = [];
  avatar = [];
  is_default = false;
}

abbrev pub no_contact : Contact
no_contact = record {
  uid = [];
  created_at = 0;
  updated_at = 0;
  persona_uid = [];
  display_name = [];
  public_key = [];
  trust_level = 0;
  notes = none;
  avatar = [];
  birthday = none;
  deathday = none;
  relationship_type = [];
  parent_contact_uid = none;
}

abbrev pub no_group : Group
no_group = record {
  uid = [];
  created_at = 0;
  updated_at = 0;
  persona_uid = [];
  name = [];
  description = [];
  color = none;
}

abbrev pub no_message : Message
no_message = record {
  uid = [];
  created_at = 0;
  persona_uid = [];
  thread_uid = [];
  sender_contact_uid = [];
  recipient_type = [];
  recipient_uid = [];
  body = [];
  content_type = [];
  attachments = [];
  is_read = false;
}

abbrev pub no_event : Event
no_event = record {
  uid = [];
  created_at = 0;
  updated_at = 0;
  persona_uid = [];
  title = [];
  description = none;
  location = none;
  started = none;
  ended = none;
  event_type = [];
  color = none;
  category = none;
}

-- The getters that validation calls, under the names of the fields.
abbrev pub profile_values : Profile → Values
profile_values p =
    (codes "uid", p.uid)
    ∷ (codes "display_name", p.display_name)
    ∷ (codes "bio", p.bio)
    ∷ (codes "avatar", p.avatar)
    ∷ []

abbrev pub persona_values : Persona → Values
persona_values p =
    (codes "uid", p.uid)
    ∷ (codes "profile_uid", p.profile_uid)
    ∷ (codes "display_name", p.display_name)
    ∷ (codes "bio", p.bio)
    ∷ (codes "avatar", p.avatar)
    ∷ []

abbrev pub contact_values : Contact → Values
contact_values c =
    (codes "uid", c.uid)
    ∷ (codes "persona_uid", c.persona_uid)
    ∷ (codes "display_name", c.display_name)
    ∷ (codes "public_key", c.public_key)
    ∷ (codes "avatar", c.avatar)
    ∷ (codes "relationship_type", c.relationship_type)
    ∷ []

abbrev pub group_values : Group → Values
group_values g =
    (codes "uid", g.uid)
    ∷ (codes "persona_uid", g.persona_uid)
    ∷ (codes "name", g.name)
    ∷ (codes "description", g.description)
    ∷ []

abbrev pub group_member_values : GroupMember → Values
group_member_values m =
    (codes "group_uid", m.group_uid)
    ∷ (codes "contact_uid", m.contact_uid)
    ∷ (codes "role", m.role)
    ∷ []

abbrev pub message_values : Message → Values
message_values m =
    (codes "uid", m.uid)
    ∷ (codes "persona_uid", m.persona_uid)
    ∷ (codes "thread_uid", m.thread_uid)
    ∷ (codes "sender_contact_uid", m.sender_contact_uid)
    ∷ (codes "recipient_type", m.recipient_type)
    ∷ (codes "recipient_uid", m.recipient_uid)
    ∷ (codes "body", m.body)
    ∷ (codes "content_type", m.content_type)
    ∷ []

abbrev pub event_values : Event → Values
event_values e =
    (codes "uid", e.uid)
    ∷ (codes "persona_uid", e.persona_uid)
    ∷ (codes "title", e.title)
    ∷ (codes "event_type", e.event_type)
    ∷ []
