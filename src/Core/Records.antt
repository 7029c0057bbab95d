-- ===== src/Core/Records.antt =====
-- The records of an open profile in src/core.cpp: what the operations on them share.
pub mod Profiles
pub mod Personas
pub mod Contacts
pub mod Groups
pub mod Messages
pub mod Events
use a_social.Base.{ℕ, Bool, true, false, not, ◌||◌, Option, none, some, Text, if◌then◌else◌}
use a_social.Base.Bytes.{Bytes}
use a_social.Protogen.Generated.{Values}
use a_social.Core.Host.{Codec, Host}
use a_social.Core.State.{Core, is_empty, is_profile_open, put_and_flush, accepts}

-- What stands in a default-constructed message where there is none.
abbrev pub or_default : {A : Type 0} → A → Option A → A
or_default a none = a
or_default a (some b) = b

module _ (h : Host) where
  -- `!isProfileOpen() || m_activePersonaId.isEmpty()`
  abbrev pub idle : Core h → Bool
  idle c = not (is_profile_open h c) || is_empty c.active_persona_id

  -- The end of a `store…Full`: validation, and the store if it accepts.
  unfoldable pub store_valid : Text → Values → Text → Bytes → Core h → Core h × Bool
  store_valid name values k b c =
      if not (accepts h name values c) then (c, false) else put_and_flush h k b c
