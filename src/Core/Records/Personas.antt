-- ===== src/Core/Records/Personas.antt =====
-- The personas of a profile (src/core.cpp).
use a_social.Base.{
  ◌+◌, Bool, true, false, not, ◌&&◌, ◌||◌, Option, none, some, List, [], ◌∷◌, Text, text_eq,
  if◌then◌else◌, codes,
}
use a_social.Core.Entities.{Persona, Group, no_persona, persona_values}
use a_social.Core.Host.{Host}
use a_social.Core.State.{
  Core, is_empty, key_of, prefix_of, is_profile_open, retrieve, retrieve_all, delete_and_flush,
  delete_keys, take_time,
}
use a_social.Core.Records.{or_default, store_valid}

module _ (h : Host) where
  abbrev pub persona_key : Text → Text
  persona_key uid = key_of (codes "Persona") (uid ∷ [])

  unfoldable pub set_active_persona : Text → Core h → Core h × Bool
  set_active_persona uid c =
      if not (is_profile_open h c)
      then (c, false)
      else elim (retrieve h h.persona_codec (persona_key uid) c.world) [
        | none ↦ (c, false)
        | some p ↦ (record c { active_persona_id = uid }, true)
      ]

  -- The loop drops the personas of another profile.
  unfoldable pub of_profile : Text → List Persona → List Persona
  of_profile uid [] = []
  of_profile uid (p ∷ ps) =
      let rest = of_profile uid ps in if not (text_eq p.profile_uid uid) then rest else p ∷ rest

  -- The default persona first, then by name.
  unfoldable pub persona_before : Persona → Persona → Bool
  persona_before a b =
      if (a.is_default && not b.is_default) || (not a.is_default && b.is_default)
      then a.is_default
      else h.less a.display_name b.display_name

  unfoldable pub list_personas : Core h → List Persona
  list_personas c =
      if not (is_profile_open h c)
      then []
      else h.sort persona_before (
          of_profile c.current_profile_id (
            retrieve_all h h.persona_codec (h.list_objects (prefix_of (codes "Persona") []) c.world)
              c.world))

  unfoldable pub create_persona : Text → Core h → Persona × Core h
  create_persona display_name c =
      let time = h.now c.draws in
      if not (is_profile_open h c) then (no_persona, c) else (
        record no_persona {
          uid = h.new_id (c.draws + 1);
          created_at = time;
          updated_at = time;
          profile_uid = c.current_profile_id;
          display_name = display_name;
          is_default = false;
        },
        record c { draws = c.draws + 2 },
      )

  unfoldable pub get_persona : Text → Core h → Persona
  get_persona uid c =
      if not (is_profile_open h c)
      then no_persona
      else or_default no_persona (retrieve h h.persona_codec (persona_key uid) c.world)

  unfoldable pub store_persona : Persona → Core h → Core h × Bool
  store_persona persona c =
      let (time, drawn) = take_time h c in
      let p = record persona { updated_at = time } in
      if not (is_profile_open h c) || is_empty persona.uid
      then (c, false)
      else store_valid h (codes "Persona") (persona_values p) (persona_key p.uid)
          (h.persona_codec.encode p) drawn

  -- The members of the group under a key, when the group can be read.
  abbrev pub delete_members_of : Option Group → h.World → h.World
  delete_members_of none w = w
  delete_members_of (some g) w =
      delete_keys h (h.list_objects (prefix_of (codes "GroupMember") (g.uid ∷ [])) w) w

  unfoldable pub delete_groups : List Text → h.World → h.World
  delete_groups [] w = w
  delete_groups (k ∷ ks) w =
      delete_groups ks (h.delete_object k (delete_members_of (retrieve h h.group_codec k w) w)).0

  -- The keys of the persona are listed, kind by kind, before each loop.
  abbrev pub delete_kind : Text → Text → h.World → h.World
  delete_kind name uid w = delete_keys h (h.list_objects (prefix_of name (uid ∷ [])) w) w

  unfoldable pub delete_records_of : Text → h.World → h.World
  delete_records_of uid w =
      let w1 = delete_kind (codes "Contact") uid w in
      let w2 = delete_groups (h.list_objects (prefix_of (codes "Group") (uid ∷ [])) w1) w1 in
      delete_kind (codes "Event") uid (delete_kind (codes "Message") uid w2)

  unfoldable pub delete_persona : Text → Core h → Core h × Bool
  delete_persona uid c =
      if not (is_profile_open h c)
      then (c, false)
      else delete_and_flush h (persona_key uid) (record c { world = delete_records_of uid c.world })
