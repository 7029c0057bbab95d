-- ===== src/Core/Host.antt =====
-- What src/core.cpp uses and does not implement: the storage plugins behind their interfaces
-- (include/plugin), protobuf's serializers, QFile, Settings and the clock, as operations on a
-- world, and the documented behaviour that the proofs rely on.
use a_social.Base.{
  ℕ, ◌≡◌, ◌≢◌, ◌↔◌, Bool, true, false, Option, none, some, List, Text, text_eq, if◌then◌else◌,
  starts_with, contains,
}
use a_social.Base.Bytes.{Bytes}
use a_social.Core.Entities.{
  Profile, ProfileParameter, Persona, Contact, Group, GroupMember, Message, Event,
}

-- QProtobufSerializer at one message type.
pub record Codec (A : Type 0) : Type 0 where
  pub encode : A → Bytes
  pub decode : Bytes → Option A

pub record Host : Type 1 where
  pub World : Type 0
  pub Container : Type 0
  pub Device : Type 0
  pub Variant : Type 0
  -- QFile::exists
  pub file_exists : Text → World → Bool
  -- VFSPluginInterface::openContainer: path, passphrase, size limit
  pub open_container : Text → Text → ℕ → World → Option Container × World
  -- VFSContainerPluginInterface
  pub container_is_open : Container → World → Bool
  pub list_files : Container → World → List Text
  pub open_file : Container → Text → World → Option Device × World
  pub delete_file : Container → Text → World → World
  pub close_container : Container → World → World
  pub delete_container : Container → World → World
  -- the QIODevice of a virtual file
  pub close_device : Device → World → World
  pub delete_device : Device → World → World
  -- DBKVPluginInterface, with the wire format of a message for the message; its name as a plugin
  pub db_name : Option Text
  pub db_open : Device → World → World × Bool
  pub db_is_open : World → Bool
  pub db_flush : World → World
  pub db_close : World → World
  pub list_objects : Text → World → List Text
  pub put_object : Text → Bytes → World → World × Bool
  pub get_object : Text → World → Option Bytes
  pub delete_object : Text → World → World × Bool
  pub profile_codec : Codec Profile
  pub param_codec : Codec ProfileParameter
  pub persona_codec : Codec Persona
  pub contact_codec : Codec Contact
  pub group_codec : Codec Group
  pub member_codec : Codec GroupMember
  pub message_codec : Codec Message
  pub event_codec : Codec Event
  -- QProtobufJsonSerializer, and the reading of an import: the display name and the bio, if any
  pub profile_json : Profile → Bytes
  pub param_json : ProfileParameter → Bytes
  pub read_import : Bytes → Option (Text × Option Text)
  -- Settings
  pub setting : Text → World → Variant
  pub set_setting : Text → Variant → World → World
  pub list_settings : World → List Text
  pub setting_text : Text → World → Text
  -- the clock and the identifiers, at the draw with this number
  pub now : ℕ → ℕ
  pub new_id : ℕ → Text
  -- timestampToIsoKey, timestampToIso and QDateTime::fromString in either format
  pub iso_key : ℕ → Text
  pub iso : ℕ → Text
  pub read_date : Text → Option ℕ
  -- `a < b`, `text.toLower()` and `text.contains(part)` on QString, and std::sort
  pub less : Text → Text → Bool
  pub to_lower : Text → Text
  pub has_part : Text → Text → Bool
  pub sort : {A : Type 0} → (A → A → Bool) → List A → List A
  -- the progress callback, and QCoreApplication::exit
  pub progress : ℕ → World → World
  pub app_exit : World → World

-- An operation that neither opens or closes the database nor any container.
abbrev pub Quiet : (h : Host) → (h.World → h.World) → Type 0
Quiet h f =
    (w : h.World)
    → (h.db_is_open (f w) ≡ h.db_is_open w)
      × ((k : h.Container) → h.container_is_open k (f w) ≡ h.container_is_open k w)

-- Which operations open and close what.
pub record Sessions (h : Host) : Type 0 where
  pub open_container-opens :
      (path pw : Text) (n : ℕ) (w : h.World) (k : h.Container)
      → (h.open_container path pw n w).0 ≡ some k
      → h.container_is_open k (h.open_container path pw n w).1 ≡ true
  pub open_container-db :
      (path pw : Text) (n : ℕ) (w : h.World)
      → h.db_is_open (h.open_container path pw n w).1 ≡ h.db_is_open w
  pub open_container-keeps :
      (path pw : Text) (n : ℕ) (w : h.World) (k : h.Container)
      → h.container_is_open k w ≡ true
      → h.container_is_open k (h.open_container path pw n w).1 ≡ true
  pub open_container-new :
      (path pw : Text) (n : ℕ) (w : h.World) (j k : h.Container)
      → h.container_is_open j w ≡ true
      → (h.open_container path pw n w).0 ≡ some k
      → j ≢ k
  pub close_container-other :
      (j k : h.Container) (w : h.World)
      → j ≢ k
      → h.container_is_open j (h.close_container k w) ≡ h.container_is_open j w
  pub delete_container-other :
      (j k : h.Container) (w : h.World)
      → j ≢ k
      → h.container_is_open j (h.delete_container k w) ≡ h.container_is_open j w
  pub open_file-Quiet : (k : h.Container) (name : Text) → Quiet h (λ w. (h.open_file k name w).1)
  pub delete_file-Quiet : (k : h.Container) (name : Text) → Quiet h (h.delete_file k name)
  pub close_container-db :
      (k : h.Container) (w : h.World) → h.db_is_open (h.close_container k w) ≡ h.db_is_open w
  pub delete_container-db :
      (k : h.Container) (w : h.World) → h.db_is_open (h.delete_container k w) ≡ h.db_is_open w
  pub close_device-Quiet : (d : h.Device) → Quiet h (h.close_device d)
  pub delete_device-Quiet : (d : h.Device) → Quiet h (h.delete_device d)
  pub progress-Quiet : (n : ℕ) → Quiet h (h.progress n)
  pub set_setting-Quiet : (k : Text) (v : h.Variant) → Quiet h (h.set_setting k v)
  pub app_exit-Quiet : Quiet h h.app_exit
  pub db_open-opens :
      (d : h.Device) (w : h.World) → h.db_is_open (h.db_open d w).0 ≡ (h.db_open d w).1
  pub db_open-container :
      (d : h.Device) (w : h.World) (k : h.Container)
      → h.container_is_open k (h.db_open d w).0 ≡ h.container_is_open k w
  pub db_close-closes : (w : h.World) → h.db_is_open (h.db_close w) ≡ false
  pub db_close-container :
      (w : h.World) (k : h.Container)
      → h.container_is_open k (h.db_close w) ≡ h.container_is_open k w
  pub db_flush-Quiet : Quiet h h.db_flush
  pub put_object-Quiet : (key : Text) (b : Bytes) → Quiet h (λ w. (h.put_object key b w).0)
  pub delete_object-Quiet : (key : Text) → Quiet h (λ w. (h.delete_object key w).0)

-- The database that is open is a map from keys to bytes.
pub record IsMap (h : Host) : Type 0 where
  pub get-put :
      (key : Text) (b : Bytes) (w : h.World) (j : Text)
      → (h.put_object key b w).1 ≡ true
      → h.get_object j (h.put_object key b w).0
        ≡ (if text_eq key j then some b else h.get_object j w)
  pub get-delete :
      (key : Text) (w : h.World) (j : Text)
      → (h.delete_object key w).1 ≡ true
      → h.get_object j (h.delete_object key w).0
        ≡ (if text_eq key j then none else h.get_object j w)
  pub get-flush : (w : h.World) (j : Text) → h.get_object j (h.db_flush w) ≡ h.get_object j w
  pub list-iff :
      (prefix key : Text) (w : h.World)
      → (contains key (h.list_objects prefix w) ≡ true)
        ↔ ((starts_with key prefix ≡ true) × (h.get_object key w ≢ none))

-- Messages come back from the wire format as they were.
pub record RoundTrips (h : Host) : Type 0 where
  pub profile : (p : Profile) → h.profile_codec.decode (h.profile_codec.encode p) ≡ some p
  pub persona : (p : Persona) → h.persona_codec.decode (h.persona_codec.encode p) ≡ some p
  pub contact : (c : Contact) → h.contact_codec.decode (h.contact_codec.encode c) ≡ some c
