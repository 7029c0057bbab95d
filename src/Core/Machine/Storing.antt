-- ===== src/Core/Machine/Storing.antt =====
-- The requests of src/core.cpp that work on an open profile keep the core consistent.
use a_social.Base.{
  inl, inr, refl, ◌∙◌, Bool, true, false, Option, none, some, List, [], ◌∷◌, Text, if◌then◌else◌,
  Option-cases, codes,
}
use a_social.Core.Entities.{Profile, ProfileParameter, Persona, Contact, Group, Message, Event}
use a_social.Core.Host.{Host, Quiet, Sessions}
use a_social.Core.State.{Core, prefix_of, retrieve}
use a_social.Core.Records.Profiles.{store_profile, store_param, delete_param}
use a_social.Core.Records.Personas.{
  set_active_persona, create_persona, store_persona, delete_persona, delete_groups, delete_kind,
  delete_members_of, delete_records_of, persona_key,
}
use a_social.Core.Records.Contacts.{create_contact, store_contact, delete_contact}
use a_social.Core.Records.Groups.{
  create_group, store_group, delete_group, add_group_member, remove_group_member, member_keys,
}
use a_social.Core.Records.Messages.{
  create_message, store_message, delete_message, delete_listed, find_key, message_keys,
}
use a_social.Core.Records.Events.{create_event, store_event, delete_event}
use a_social.Core.Lifecycle.Sessions.{IsOpened, IsConsistent, IsOpened-Quiet}
use a_social.Core.Machine.Guards.{
  guarded_outcome, guarded_new, open_only, open_and, put_and_flush-IsOpened,
  delete_and_flush-IsOpened, store_valid-IsOpened, drawn-IsOpened, Quiet-delete_keys,
}

module _ (h : Host) (s : Sessions h) where
  pub store_param-IsConsistent :
      (p : ProfileParameter) (c : Core h) → IsConsistent h c → IsConsistent h (store_param h p c).0
  unfolding store_param
  store_param-IsConsistent p c v =
      guarded_outcome h s c _ _ v (open_and h s c _) (λ o. put_and_flush-IsOpened h s _ _ c o)

  pub delete_param-IsConsistent :
      (k : Text) (c : Core h) → IsConsistent h c → IsConsistent h (delete_param h k c).0
  unfolding delete_param
  delete_param-IsConsistent k c v =
      guarded_outcome h s c _ _ v (open_only h s c) (λ o. delete_and_flush-IsOpened h s _ c o)

  pub store_persona-IsConsistent :
      (p : Persona) (c : Core h) → IsConsistent h c → IsConsistent h (store_persona h p c).0
  unfolding store_persona
  store_persona-IsConsistent p c v =
      guarded_outcome h s c _ _ v (open_and h s c _)
        (λ o. store_valid-IsOpened h s _ _ _ _ _ (drawn-IsOpened h s c _ o))

  pub store_contact-IsConsistent :
      (k : Contact) (c : Core h) → IsConsistent h c → IsConsistent h (store_contact h k c).0
  unfolding store_contact
  store_contact-IsConsistent k c v =
      guarded_outcome h s c _ _ v (open_and h s c _)
        (λ o. store_valid-IsOpened h s _ _ _ _ _ (drawn-IsOpened h s c _ o))

  pub store_group-IsConsistent :
      (g : Group) (c : Core h) → IsConsistent h c → IsConsistent h (store_group h g c).0
  unfolding store_group
  store_group-IsConsistent g c v =
      guarded_outcome h s c _ _ v (open_and h s c _)
        (λ o. store_valid-IsOpened h s _ _ _ _ _ (drawn-IsOpened h s c _ o))

  pub store_event-IsConsistent :
      (e : Event) (c : Core h) → IsConsistent h c → IsConsistent h (store_event h e c).0
  unfolding store_event
  store_event-IsConsistent e c v =
      guarded_outcome h s c _ _ v (open_and h s c _)
        (λ o. store_valid-IsOpened h s _ _ _ _ _ (drawn-IsOpened h s c _ o))

  pub store_message-IsConsistent :
      (m : Message) (c : Core h) → IsConsistent h c → IsConsistent h (store_message h m c).0
  unfolding store_message
  store_message-IsConsistent m c v =
      guarded_outcome h s c _ _ v (open_and h s c _) (λ o. store_valid-IsOpened h s _ _ _ _ c o)

  pub add_group_member-IsConsistent :
      (g k : Text) (c : Core h) → IsConsistent h c → IsConsistent h (add_group_member h g k c).0
  unfolding add_group_member
  add_group_member-IsConsistent g k c v =
      guarded_outcome h s c _ _ v (open_only h s c)
        (λ o. store_valid-IsOpened h s _ _ _ _ _ (drawn-IsOpened h s c _ o))

  pub remove_group_member-IsConsistent :
      (g k : Text) (c : Core h) → IsConsistent h c → IsConsistent h (remove_group_member h g k c).0
  unfolding remove_group_member
  remove_group_member-IsConsistent g k c v =
      guarded_outcome h s c _ _ v (open_only h s c) (λ o. delete_and_flush-IsOpened h s _ c o)

  pub delete_contact-IsConsistent :
      (k : Text) (c : Core h) → IsConsistent h c → IsConsistent h (delete_contact h k c).0
  unfolding delete_contact
  delete_contact-IsConsistent k c v =
      guarded_outcome h s c _ _ v (open_and h s c _) (λ o. delete_and_flush-IsOpened h s _ c o)

  pub delete_event-IsConsistent :
      (k : Text) (c : Core h) → IsConsistent h c → IsConsistent h (delete_event h k c).0
  unfolding delete_event
  delete_event-IsConsistent k c v =
      guarded_outcome h s c _ _ v (open_and h s c _) (λ o. delete_and_flush-IsOpened h s _ c o)

  pub create_contact-IsConsistent :
      (name : Text) (c : Core h) → IsConsistent h c → IsConsistent h (create_contact h name c).1
  unfolding create_contact
  create_contact-IsConsistent name c v =
      guarded_new h s c _ _ _ v (open_and h s c _) (λ o. drawn-IsOpened h s c _ o)

  pub create_group-IsConsistent :
      (name : Text) (c : Core h) → IsConsistent h c → IsConsistent h (create_group h name c).1
  unfolding create_group
  create_group-IsConsistent name c v =
      guarded_new h s c _ _ _ v (open_and h s c _) (λ o. drawn-IsOpened h s c _ o)

  pub create_persona-IsConsistent :
      (name : Text) (c : Core h) → IsConsistent h c → IsConsistent h (create_persona h name c).1
  unfolding create_persona
  create_persona-IsConsistent name c v =
      guarded_new h s c _ _ _ v (open_only h s c) (λ o. drawn-IsOpened h s c _ o)

  pub create_message-IsConsistent :
      (to body type : Text) (c : Core h)
      → IsConsistent h c
      → IsConsistent h (create_message h to body type c).1
  unfolding create_message
  create_message-IsConsistent to body type c v =
      guarded_new h s c _ _ _ v (open_and h s c _) (λ o. drawn-IsOpened h s c _ o)

  pub create_event-IsConsistent :
      (title date : Text) (c : Core h)
      → IsConsistent h c
      → IsConsistent h (create_event h title date c).1
  unfolding create_event
  create_event-IsConsistent title date c v =
      guarded_new h s c _ _ _ v (open_and h s c _) (λ o. drawn-IsOpened h s c _ o)

  pub delete_group-IsConsistent :
      (uid : Text) (c : Core h) → IsConsistent h c → IsConsistent h (delete_group h uid c).0
  unfolding delete_group
  delete_group-IsConsistent uid c v = guarded_outcome h s c _ _ v (open_and h s c _) (λ o.
      delete_and_flush-IsOpened h s _ _
        (IsOpened-Quiet h s c _ (Quiet-delete_keys h s (member_keys h uid c)) o))

  delete_listed-IsOpened :
      (o : Option Text) (c : Core h) → IsOpened h c → IsOpened h (delete_listed h o c).0
  delete_listed-IsOpened none c o = o
  delete_listed-IsOpened (some k) c o = delete_and_flush-IsOpened h s k c o

  pub delete_message-IsConsistent :
      (uid : Text) (c : Core h) → IsConsistent h c → IsConsistent h (delete_message h uid c).0
  unfolding delete_message
  delete_message-IsConsistent uid c v =
      guarded_outcome h s c _ _ v (open_and h s c _)
        (λ o. delete_listed-IsOpened (find_key h uid (message_keys h c)) c o)

  pub store_profile-IsConsistent :
      (p : Profile) (c : Core h) → IsConsistent h c → IsConsistent h (store_profile h p c).0
  unfolding store_profile
  store_profile-IsConsistent p c v = guarded_outcome h s c _ _ v (open_only h s c) (λ o.
      if_both _ _ _ (drawn-IsOpened h s c _ o)
        (put_and_flush-IsOpened h s _ _ _ (drawn-IsOpened h s c _ o)))
    where
      if_both :
          (b : Bool) (x y : Core h × Bool)
          → IsOpened h x.0
          → IsOpened h y.0
          → IsOpened h (if b then x else y).0
      if_both true x y p q = p
      if_both false x y p q = q

  -- Deleting what a persona has is quiet.
  pub Quiet-delete_members_of : (g : Option Group) → Quiet h (delete_members_of h g)
  Quiet-delete_members_of none w = (refl, λ k. refl)
  Quiet-delete_members_of (some g) w =
      Quiet-delete_keys h s (h.list_objects (prefix_of (codes "GroupMember") (g.uid ∷ [])) w) w

  pub Quiet-delete_groups : (ks : List Text) → Quiet h (delete_groups h ks)
  unfolding delete_groups
  Quiet-delete_groups [] w = (refl, λ k. refl)
  Quiet-delete_groups (k ∷ ks) w =
      let m = delete_members_of h (retrieve h h.group_codec k w) w in
      let (a, b) = Quiet-delete_members_of (retrieve h h.group_codec k w) w in
      let (d, e) = s.delete_object-Quiet k m in
      let (p, q) = Quiet-delete_groups ks (h.delete_object k m).0 in
      (p ∙ d ∙ a, λ j. q j ∙ e j ∙ b j)

  pub Quiet-delete_kind : (name uid : Text) → Quiet h (delete_kind h name uid)
  Quiet-delete_kind name uid w =
      Quiet-delete_keys h s (h.list_objects (prefix_of name (uid ∷ [])) w) w

  Quiet-delete_records_of : (uid : Text) → Quiet h (delete_records_of h uid)
  unfolding delete_records_of
  Quiet-delete_records_of uid w =
      let w1 = delete_kind h (codes "Contact") uid w in
      let groups = h.list_objects (prefix_of (codes "Group") (uid ∷ [])) w1 in
      let w2 = delete_groups h groups w1 in
      let w3 = delete_kind h (codes "Message") uid w2 in
      let (a, b) = Quiet-delete_kind (codes "Contact") uid w in
      let (d, e) = Quiet-delete_groups groups w1 in
      let (f, g) = Quiet-delete_kind (codes "Message") uid w2 in
      let (i, j) = Quiet-delete_kind (codes "Event") uid w3 in
      (i ∙ f ∙ d ∙ a, λ k. j k ∙ g k ∙ e k ∙ b k)

  pub delete_persona-IsConsistent :
      (uid : Text) (c : Core h) → IsConsistent h c → IsConsistent h (delete_persona h uid c).0
  unfolding delete_persona
  delete_persona-IsConsistent uid c v = guarded_outcome h s c _ _ v (open_only h s c) (λ o.
      delete_and_flush-IsOpened h s _ _ (IsOpened-Quiet h s c _ (Quiet-delete_records_of uid) o))

  pub set_active_persona-IsConsistent :
      (uid : Text) (c : Core h) → IsConsistent h c → IsConsistent h (set_active_persona h uid c).0
  unfolding set_active_persona
  set_active_persona-IsConsistent uid c v = guarded_outcome h s c _ _ v (open_only h s c) (λ o.
      elim (Option-cases (retrieve h h.persona_codec (persona_key h uid) c.world)) [
        | inl lost ↦ rw lost o
        | inr (p, found) ↦ rw found (record {
          handle = o.handle;
          device = o.device;
          container = o.container;
          container_open = o.container_open;
          db_device = o.db_device;
          database = o.database;
          plugin = o.plugin;
        })
      ])
