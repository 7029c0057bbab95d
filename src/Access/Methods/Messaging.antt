-- ===== src/Access/Methods/Messaging.antt =====
-- The methods of src/CoreAccessProxy.cpp that MessagingCall holds, with their permissions and defaults.
use a_social.Base.{inl, inr, refl, false, []}
use a_social.Access.Permissions.{data_read, data_write, app_lifecycle, test_flag}
use a_social.Access.Calls.{
  Types, messaging, nothing, bool, group, groups, members, message, messages, event, events,
  MessagingCall, list_groups, create_group, get_group, store_group, delete_group, add_group_member,
  remove_group_member, list_group_members, list_messages, create_message, get_message,
  store_message, delete_message, list_events, create_event, get_event, store_event, delete_event,
  exit,
}
use a_social.Access.Proxy.{messaging_call}
use a_social.Access.Gated.{Gated, if_not}

module _ (t : Types) (S : Type 0) where
  pub messaging_call-Gated : (c : MessagingCall t) → Gated t S (messaging c)
  unfolding messaging_call
  messaging_call-Gated list_groups = record {
    reply = groups [];
    reply_is_default = refl;
    covers = inl refl;
    acts = λ granted real s.
        if_not t S (test_flag data_read granted) (s, groups []) (real (messaging list_groups) s);
  }
  messaging_call-Gated (create_group name) = record {
    reply = group t.default_group;
    reply_is_default = refl;
    covers = inr refl;
    acts = λ granted real s.
        if_not t S (test_flag data_write granted) (s, group t.default_group)
          (real (messaging (create_group name)) s);
  }
  messaging_call-Gated (get_group group_id) = record {
    reply = group t.default_group;
    reply_is_default = refl;
    covers = inl refl;
    acts = λ granted real s.
        if_not t S (test_flag data_read granted) (s, group t.default_group)
          (real (messaging (get_group group_id)) s);
  }
  messaging_call-Gated (store_group new_group) = record {
    reply = bool false;
    reply_is_default = refl;
    covers = inr refl;
    acts = λ granted real s.
        if_not t S (test_flag data_write granted) (s, bool false)
          (real (messaging (store_group new_group)) s);
  }
  messaging_call-Gated (delete_group group_id) = record {
    reply = bool false;
    reply_is_default = refl;
    covers = inr refl;
    acts = λ granted real s.
        if_not t S (test_flag data_write granted) (s, bool false)
          (real (messaging (delete_group group_id)) s);
  }
  messaging_call-Gated (add_group_member group_id contact_id) = record {
    reply = bool false;
    reply_is_default = refl;
    covers = inr refl;
    acts = λ granted real s.
        if_not t S (test_flag data_write granted) (s, bool false)
          (real (messaging (add_group_member group_id contact_id)) s);
  }
  messaging_call-Gated (remove_group_member group_id contact_id) = record {
    reply = bool false;
    reply_is_default = refl;
    covers = inr refl;
    acts = λ granted real s.
        if_not t S (test_flag data_write granted) (s, bool false)
          (real (messaging (remove_group_member group_id contact_id)) s);
  }
  messaging_call-Gated (list_group_members group_id) = record {
    reply = members [];
    reply_is_default = refl;
    covers = inl refl;
    acts = λ granted real s.
        if_not t S (test_flag data_read granted) (s, members [])
          (real (messaging (list_group_members group_id)) s);
  }
  messaging_call-Gated (list_messages limit) = record {
    reply = messages [];
    reply_is_default = refl;
    covers = inl refl;
    acts = λ granted real s.
        if_not t S (test_flag data_read granted) (s, messages [])
          (real (messaging (list_messages limit)) s);
  }
  messaging_call-Gated (create_message recipient_id body recipient_type) = record {
    reply = message t.default_message;
    reply_is_default = refl;
    covers = inr refl;
    acts = λ granted real s.
        if_not t S (test_flag data_write granted) (s, message t.default_message)
          (real (messaging (create_message recipient_id body recipient_type)) s);
  }
  messaging_call-Gated (get_message message_id) = record {
    reply = message t.default_message;
    reply_is_default = refl;
    covers = inl refl;
    acts = λ granted real s.
        if_not t S (test_flag data_read granted) (s, message t.default_message)
          (real (messaging (get_message message_id)) s);
  }
  messaging_call-Gated (store_message new_message) = record {
    reply = bool false;
    reply_is_default = refl;
    covers = inr refl;
    acts = λ granted real s.
        if_not t S (test_flag data_write granted) (s, bool false)
          (real (messaging (store_message new_message)) s);
  }
  messaging_call-Gated (delete_message message_id) = record {
    reply = bool false;
    reply_is_default = refl;
    covers = inr refl;
    acts = λ granted real s.
        if_not t S (test_flag data_write granted) (s, bool false)
          (real (messaging (delete_message message_id)) s);
  }
  messaging_call-Gated list_events = record {
    reply = events [];
    reply_is_default = refl;
    covers = inl refl;
    acts = λ granted real s.
        if_not t S (test_flag data_read granted) (s, events []) (real (messaging list_events) s);
  }
  messaging_call-Gated (create_event title date) = record {
    reply = event t.default_event;
    reply_is_default = refl;
    covers = inr refl;
    acts = λ granted real s.
        if_not t S (test_flag data_write granted) (s, event t.default_event)
          (real (messaging (create_event title date)) s);
  }
  messaging_call-Gated (get_event event_id) = record {
    reply = event t.default_event;
    reply_is_default = refl;
    covers = inl refl;
    acts = λ granted real s.
        if_not t S (test_flag data_read granted) (s, event t.default_event)
          (real (messaging (get_event event_id)) s);
  }
  messaging_call-Gated (store_event new_event) = record {
    reply = bool false;
    reply_is_default = refl;
    covers = inr refl;
    acts = λ granted real s.
        if_not t S (test_flag data_write granted) (s, bool false)
          (real (messaging (store_event new_event)) s);
  }
  messaging_call-Gated (delete_event event_id) = record {
    reply = bool false;
    reply_is_default = refl;
    covers = inr refl;
    acts = λ granted real s.
        if_not t S (test_flag data_write granted) (s, bool false)
          (real (messaging (delete_event event_id)) s);
  }
  messaging_call-Gated exit = record {
    reply = nothing;
    reply_is_default = tt;
    covers = inr refl;
    acts = λ granted real s.
        if_not t S (test_flag app_lifecycle granted) (s, nothing) (real (messaging exit) s);
  }
