-- ===== src/Core/Records/Messages.antt =====
-- The messages of the active persona (src/core.cpp).
use a_social.Base.{
  ℕ, zero, suc, ◌+◌, Bool, false, not, ◌||◌, Option, none, some, List, [], ◌∷◌, Text, text_eq,
  if◌then◌else◌, codes, ends_with, reverse,
}
use a_social.Core.Entities.{Message, no_message, message_values}
use a_social.Core.Host.{Host}
use a_social.Core.State.{
  Core, is_empty, key_of, prefix_of, is_profile_open, retrieve, delete_and_flush,
}
use a_social.Core.Records.{or_default, idle, store_valid}

module _ (h : Host) where
  abbrev pub message_keys : Core h → List Text
  message_keys c = h.list_objects (prefix_of (codes "Message") (c.active_persona_id ∷ [])) c.world

  -- The loop from the last key on, with how many messages are still wanted.
  unfoldable pub newest : List Text → ℕ → h.World → List Message
  newest [] n w = []
  newest (k ∷ ks) zero w = []
  newest (k ∷ ks) (suc n) w = elim (retrieve h h.message_codec k w) [
    | none ↦ newest ks (suc n) w
    | some m ↦ m ∷ newest ks n w
  ]

  -- A limit below zero is a limit of zero.
  unfoldable pub list_messages : ℕ → Core h → List Message
  list_messages limit c = if idle h c then [] else newest (reverse (message_keys c)) limit c.world

  unfoldable pub create_message : Text → Text → Text → Core h → Message × Core h
  create_message recipient_id body recipient_type c = if idle h c then (no_message, c) else (
    record no_message {
      uid = h.new_id (c.draws + 1);
      created_at = h.now c.draws;
      persona_uid = c.active_persona_id;
      thread_uid = h.new_id (c.draws + 2);
      recipient_type = recipient_type;
      recipient_uid = recipient_id;
      body = body;
    },
    record c { draws = c.draws + 3 },
  )

  -- The first message with this identifier.
  unfoldable pub find_message : Text → List Text → h.World → Option Message
  find_message uid [] w = none
  find_message uid (k ∷ ks) w =
      let rest = find_message uid ks w in
      elim (retrieve h h.message_codec k w) [
        | none ↦ rest
        | some m ↦ if text_eq m.uid uid then some m else rest
      ]

  unfoldable pub get_message : Text → Core h → Message
  get_message uid c =
      if idle h c
      then no_message
      else or_default no_message (find_message uid (message_keys c) c.world)

  abbrev pub message_key : Message → Text
  message_key m = key_of (codes "Message") (m.persona_uid ∷ h.iso_key m.created_at ∷ m.uid ∷ [])

  unfoldable pub store_message : Message → Core h → Core h × Bool
  store_message m c =
      if not (is_profile_open h c) || (is_empty m.uid || is_empty m.persona_uid)
      then (c, false)
      else store_valid h (codes "Message") (message_values m) (message_key m)
          (h.message_codec.encode m) c

  -- The first key that ends in this identifier.
  unfoldable pub find_key : Text → List Text → Option Text
  find_key uid [] = none
  find_key uid (k ∷ ks) = if ends_with k (b'/' ∷ uid) then some k else find_key uid ks

  abbrev pub delete_listed : Option Text → Core h → Core h × Bool
  delete_listed none c = (c, false)
  delete_listed (some k) c = delete_and_flush h k c

  unfoldable pub delete_message : Text → Core h → Core h × Bool
  delete_message uid c =
      if idle h c then (c, false) else delete_listed (find_key uid (message_keys c)) c
