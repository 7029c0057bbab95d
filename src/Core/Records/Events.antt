-- ===== src/Core/Records/Events.antt =====
-- The events of the active persona (src/core.cpp).
use a_social.Base.{
  ℕ, ◌+◌, Bool, false, not, ◌||◌, Option, none, some, List, [], ◌∷◌, Text, if◌then◌else◌, codes,
}
use a_social.Core.Entities.{Event, no_event, event_values}
use a_social.Core.Host.{Host}
use a_social.Core.State.{
  Core, is_empty, key_of, prefix_of, is_profile_open, retrieve, retrieve_all, delete_and_flush,
  take_time,
}
use a_social.Core.Records.{or_default, idle, store_valid}

module _ (h : Host) where
  abbrev pub event_key : Text → Text → Text
  event_key persona_uid uid = key_of (codes "Event") (persona_uid ∷ uid ∷ [])

  abbrev date_of : Option ℕ → Text
  date_of none = []
  date_of (some t) = h.iso t

  unfoldable pub list_events : Core h → List Event
  list_events c =
      if idle h c
      then []
      else h.sort (λ a b. h.less (date_of b.started) (date_of a.started))
          (retrieve_all h h.event_codec
            (h.list_objects (prefix_of (codes "Event") (c.active_persona_id ∷ [])) c.world) c.world)

  unfoldable pub create_event : Text → Text → Core h → Event × Core h
  create_event title date c =
      let time = h.now c.draws in
      if idle h c then (no_event, c) else (
        record no_event {
          uid = h.new_id (c.draws + 1);
          created_at = time;
          updated_at = time;
          persona_uid = c.active_persona_id;
          title = title;
          started = h.read_date date;
        },
        record c { draws = c.draws + 2 },
      )

  unfoldable pub get_event : Text → Core h → Event
  get_event uid c =
      if idle h c
      then no_event
      else or_default no_event
          (retrieve h h.event_codec (event_key c.active_persona_id uid) c.world)

  unfoldable pub store_event : Event → Core h → Core h × Bool
  store_event event c =
      let (time, drawn) = take_time h c in
      let e = record event { updated_at = time } in
      if not (is_profile_open h c) || (is_empty event.uid || is_empty event.persona_uid)
      then (c, false)
      else store_valid h (codes "Event") (event_values e) (event_key e.persona_uid e.uid)
          (h.event_codec.encode e) drawn

  unfoldable pub delete_event : Text → Core h → Core h × Bool
  delete_event uid c =
      if idle h c then (c, false) else delete_and_flush h (event_key c.active_persona_id uid) c
