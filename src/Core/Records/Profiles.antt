-- ===== src/Core/Records/Profiles.antt =====
-- The profile, its parameters, export and import, and the settings (src/core.cpp).
use a_social.Base.{
  Bool, true, false, not, ◌||◌, Option, none, some, List, [], ◌∷◌, ◌++◌, Text, if◌then◌else◌, codes,
}
use a_social.Base.Bytes.{Bytes}
use a_social.Protogen.Generated.{validate, valid}
use a_social.Core.Entities.{
  Profile, ProfileParameter, no_profile, no_param, no_persona, profile_values,
}
use a_social.Core.Schema.{entity}
use a_social.Core.Host.{Host}
use a_social.Core.State.{
  Core, is_empty, profile_key, key_of, prefix_of, is_profile_open, flush_profile, retrieve,
  retrieve_all, put_and_flush, delete_and_flush, take_time,
}
use a_social.Core.Lifecycle.{create_profile}
use a_social.Core.Records.{or_default}

module _ (h : Host) where
  unfoldable pub get_profile : Core h → Profile
  get_profile c =
      if not (is_profile_open h c)
      then no_profile
      else or_default no_profile (retrieve h h.profile_codec profile_key c.world)

  unfoldable pub store_profile : Profile → Core h → Core h × Bool
  store_profile profile c =
      let (time, drawn) = take_time h c in
      let prof = record profile { updated_at = time } in
      if not (is_profile_open h c)
      then (c, false)
      else if not (valid (validate (entity (codes "Profile")) (profile_values prof)))
      then (drawn, false)
      else put_and_flush h profile_key (h.profile_codec.encode prof) drawn

  abbrev pub get_current_profile_id : Core h → Text
  get_current_profile_id c = c.current_profile_id

  unfoldable pub current_persona_name : Core h → Text
  current_persona_name c =
      if not (is_profile_open h c) || is_empty c.active_persona_id
      then []
      else (or_default no_persona (
          retrieve h h.persona_codec (key_of (codes "Persona") (c.active_persona_id ∷ []))
            c.world)).display_name

  abbrev param_key : Text → Text
  param_key k = key_of (codes "ProfileParameter") (k ∷ [])

  unfoldable pub list_params : Core h → List ProfileParameter
  list_params c =
      if not (is_profile_open h c)
      then []
      else h.sort (λ a b. h.less a.key b.key)
          (retrieve_all h h.param_codec
            (h.list_objects (prefix_of (codes "ProfileParameter") []) c.world) c.world)

  unfoldable pub create_param : Text → Core h → ProfileParameter
  create_param k c = if not (is_profile_open h c) then no_param else record no_param { key = k }

  unfoldable pub get_param : Text → Core h → ProfileParameter
  get_param k c =
      if not (is_profile_open h c)
      then no_param
      else or_default no_param (retrieve h h.param_codec (param_key k) c.world)

  unfoldable pub store_param : ProfileParameter → Core h → Core h × Bool
  store_param param c =
      if not (is_profile_open h c) || is_empty param.key
      then (c, false)
      else put_and_flush h (param_key param.key) (h.param_codec.encode param) c

  unfoldable pub delete_param : Text → Core h → Core h × Bool
  delete_param k c =
      if not (is_profile_open h c) then (c, false) else delete_and_flush h (param_key k) c

  -- Each parameter on a line of its own after the profile.
  unfoldable pub export_lines : List ProfileParameter → Bytes
  export_lines [] = []
  export_lines (p ∷ ps) = b'\n' ∷ (h.param_json p ++ export_lines ps)

  unfoldable pub export_profile : Core h → Bytes
  export_profile c =
      if not (is_profile_open h c)
      then []
      else h.profile_json (get_profile c) ++ export_lines (list_params c)

  -- The outcome of storing the bio is not looked at.
  abbrev pub store_bio : Option Text → Core h → Core h
  store_bio none c = c
  store_bio (some bio) c = (store_profile (record (get_profile c) { bio = bio }) c).0

  abbrev pub import_as : Text → Option Text → Text → Core h → Core h × Bool
  import_as name bio vfs_password c =
      let (c', ok) = create_profile h vfs_password name c in
      if not ok then (c', false) else (flush_profile h (store_bio bio c'), true)

  unfoldable pub import_profile : Bytes → Text → Core h → Core h × Bool
  import_profile bytes vfs_password c = elim (h.read_import bytes) [
    | none ↦ (c, false)
    | some (name, bio) ↦ import_as name bio vfs_password c
  ]

  abbrev pub get_setting : Text → Core h → h.Variant
  get_setting k c = h.setting k c.world

  abbrev pub set_setting : Text → h.Variant → Core h → Core h × Bool
  set_setting k v c = (record c { world = h.set_setting k v c.world }, true)

  abbrev pub list_settings : Core h → List Text
  list_settings c = h.list_settings c.world
