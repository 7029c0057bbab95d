-- ===== src/Core/Records/Groups.antt =====
-- The groups of the active persona, and their members (src/core.cpp).
use a_social.Base.{◌+◌, Bool, false, not, ◌||◌, List, [], ◌∷◌, Text, if◌then◌else◌, codes}
use a_social.Core.Entities.{Group, GroupMember, no_group, group_values, group_member_values}
use a_social.Core.Host.{Host}
use a_social.Core.State.{
  Core, is_empty, key_of, prefix_of, is_profile_open, retrieve, retrieve_all, delete_and_flush,
  delete_keys, take_time,
}
use a_social.Core.Records.{or_default, idle, store_valid}

module _ (h : Host) where
  abbrev pub group_key : Text → Text → Text
  group_key persona_uid uid = key_of (codes "Group") (persona_uid ∷ uid ∷ [])

  abbrev pub member_key : Text → Text → Text
  member_key group_uid contact_uid = key_of (codes "GroupMember") (group_uid ∷ contact_uid ∷ [])

  abbrev pub member_keys : Text → Core h → List Text
  member_keys group_uid c =
      h.list_objects (prefix_of (codes "GroupMember") (group_uid ∷ [])) c.world

  unfoldable pub list_groups : Core h → List Group
  list_groups c =
      if idle h c
      then []
      else h.sort (λ a b. h.less a.name b.name)
          (retrieve_all h h.group_codec
            (h.list_objects (prefix_of (codes "Group") (c.active_persona_id ∷ [])) c.world) c.world)

  unfoldable pub create_group : Text → Core h → Group × Core h
  create_group name c =
      let time = h.now c.draws in
      if idle h c then (no_group, c) else (
        record no_group {
          uid = h.new_id (c.draws + 1);
          created_at = time;
          updated_at = time;
          persona_uid = c.active_persona_id;
          name = name;
        },
        record c { draws = c.draws + 2 },
      )

  unfoldable pub get_group : Text → Core h → Group
  get_group uid c =
      if idle h c
      then no_group
      else or_default no_group
          (retrieve h h.group_codec (group_key c.active_persona_id uid) c.world)

  unfoldable pub store_group : Group → Core h → Core h × Bool
  store_group group c =
      let (time, drawn) = take_time h c in
      let g = record group { updated_at = time } in
      if not (is_profile_open h c) || (is_empty group.uid || is_empty group.persona_uid)
      then (c, false)
      else store_valid h (codes "Group") (group_values g) (group_key g.persona_uid g.uid)
          (h.group_codec.encode g) drawn

  unfoldable pub delete_group : Text → Core h → Core h × Bool
  delete_group uid c =
      if idle h c
      then (c, false)
      else delete_and_flush h (group_key c.active_persona_id uid)
          (record c { world = delete_keys h (member_keys uid c) c.world })

  -- The factory of the message draws a time as well, that is not used.
  unfoldable pub add_group_member : Text → Text → Core h → Core h × Bool
  add_group_member group_uid contact_uid c =
      let gm : GroupMember = record {
        group_uid = group_uid;
        contact_uid = contact_uid;
        role = codes "member";
        joined_at = h.now (c.draws + 1);
      } in
      if not (is_profile_open h c)
      then (c, false)
      else store_valid h (codes "GroupMember") (group_member_values gm)
          (member_key group_uid contact_uid) (h.member_codec.encode gm)
          (record c { draws = c.draws + 2 })

  unfoldable pub remove_group_member : Text → Text → Core h → Core h × Bool
  remove_group_member group_uid contact_uid c =
      if not (is_profile_open h c)
      then (c, false)
      else delete_and_flush h (member_key group_uid contact_uid) c

  unfoldable pub list_group_members : Text → Core h → List GroupMember
  list_group_members group_uid c =
      if not (is_profile_open h c)
      then []
      else retrieve_all h h.member_codec (member_keys group_uid c) c.world
