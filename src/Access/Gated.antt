-- ===== src/Access/Gated.antt =====
-- What the gate of src/CoreAccessProxy.cpp is for one method: a permission and a default.
use a_social.Base.{ℕ, ◌≡◌, ◌⊎◌, refl, Bool, true, false, not, none, [], if◌then◌else◌}
use a_social.Access.Permissions.{
  Permission, settings_read, container_read, profile_read, data_read, test_flag,
}
use a_social.Access.Calls.{
  is_const, Types, Reply, Call, nothing, pointer, bool, text, texts, bytes, variant, profile, param,
  params, persona, personas, contact, contacts, group, groups, members, message, messages, event,
  events,
}
use a_social.Access.Proxy.{forward}
use a_social.Access.Rights.{permission_of}

-- The permissions that allow a change: all but the four that read. PluginAccess is one of them, as
-- it hands out raw pointers to plugins whose methods change what they store.
abbrev pub is_write : Permission → Bool
is_write profile_read = false
is_write data_read = false
is_write settings_read = false
is_write container_read = false
is_write _ = true

module _ (t : Types) where
  -- A reply that tells nothing: a null pointer, false, an empty value or list.
  abbrev pub IsDefault : Reply t → Type 0
  IsDefault nothing = Unit
  IsDefault (pointer o) = o ≡ none
  IsDefault (bool b) = b ≡ false
  IsDefault (text x) = x ≡ []
  IsDefault (texts x) = x ≡ []
  IsDefault (bytes x) = x ≡ []
  IsDefault (variant x) = x ≡ t.no_variant
  IsDefault (profile x) = x ≡ t.default_profile
  IsDefault (param x) = x ≡ t.default_profile_parameter
  IsDefault (params x) = x ≡ []
  IsDefault (persona x) = x ≡ t.default_persona
  IsDefault (personas x) = x ≡ []
  IsDefault (contact x) = x ≡ t.default_contact
  IsDefault (contacts x) = x ≡ []
  IsDefault (group x) = x ≡ t.default_group
  IsDefault (groups x) = x ≡ []
  IsDefault (members x) = x ≡ []
  IsDefault (message x) = x ≡ t.default_message
  IsDefault (messages x) = x ≡ []
  IsDefault (event x) = x ≡ t.default_event
  IsDefault (events x) = x ≡ []

module _ (t : Types) (S : Type 0) where
  -- The default of one method, which is answered where the permission is missing; what changes the
  -- core needs a write permission.
  pub record Gated (c : Call t) : Type 0 where
    pub reply : Reply t
    pub reply_is_default : IsDefault t reply
    pub covers : (is_const t c ≡ true) ⊎ (is_write (permission_of t c) ≡ true)
    pub acts :
        (granted : ℕ) (real : Call t → S → S × Reply t) (s : S)
        → forward t granted real c s
          ≡ (if test_flag (permission_of t c) granted then real c s else (s, reply))

  pub if_not : {A : Type 0} (b : Bool) (x y : A) → (if not b then x else y) ≡ (if b then y else x)
  if_not true x y = refl
  if_not false x y = refl
