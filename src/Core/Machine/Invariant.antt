-- ===== src/Core/Machine/Invariant.antt =====
-- What every sequence of requests to src/core.cpp keeps.
use a_social.Base.{
  ℕ, ◌≡◌, ◌⊎◌, inl, inr, sym, ◌∙◌, subst, Bool, true, false, not, ◌&&◌, Option, none, some, [],
  Text, if◌then◌else◌, Bool-cases, Option-cases, if-true, if-false, codes,
}
use a_social.Base.Bytes.{Bytes}
use a_social.Core.Host.{Host, Quiet, Sessions}
use a_social.Core.State.{Core, is_profile_open, flush_profile}
use a_social.Core.Lifecycle.{
  create_container, close_profile, open_profile, create_profile, exit, init,
}
use a_social.Core.Lifecycle.Sessions.{IsClosed, IsOpened, IsConsistent, Settled, IsOpened-Quiet}
use a_social.Core.Lifecycle.Closing.{
  close_profile-IsClosed, delete_current_profile-IsClosed, Attempt, open_profile-Attempt,
  create_profile-Attempt, is_profile_open-opened, is_profile_open-closed,
}
use a_social.Core.Records.Profiles.{import_profile, import_as, store_bio, get_profile}
use a_social.Core.Machine.{
  Request, new_container, close, login, register, delete_current, quit, start, flush, put_profile,
  put_param, drop_param, restore, put_setting, activate, new_persona, put_persona, drop_persona,
  new_contact, put_contact, drop_contact, new_group, put_group, drop_group, add_member,
  remove_member, new_message, put_message, drop_message, new_event, put_event, drop_event, after,
  Reach, here, step,
}
use a_social.Core.Machine.Storing.{
  store_param-IsConsistent, delete_param-IsConsistent, store_persona-IsConsistent,
  store_contact-IsConsistent, store_group-IsConsistent, store_event-IsConsistent,
  store_message-IsConsistent, add_group_member-IsConsistent, remove_group_member-IsConsistent,
  delete_contact-IsConsistent, delete_event-IsConsistent, create_contact-IsConsistent,
  create_group-IsConsistent, create_persona-IsConsistent, create_message-IsConsistent,
  create_event-IsConsistent, delete_group-IsConsistent, delete_message-IsConsistent,
  store_profile-IsConsistent, delete_persona-IsConsistent, set_active_persona-IsConsistent,
}

module _ (h : Host) (s : Sessions h) where
  IsClosed-world :
      (c : Core h) (w : h.World)
      → h.db_is_open w ≡ h.db_is_open c.world
      → IsClosed h c
      → IsClosed h (record c { world = w })
  IsClosed-world c w same v = record {
    container = v.container;
    db_device = v.db_device;
    database = same ∙ v.database;
    profile = v.profile;
    persona = v.persona;
  }

  IsConsistent-Quiet :
      (c : Core h) (f : h.World → h.World)
      → Quiet h f
      → IsConsistent h c
      → IsConsistent h (record c { world = f c.world })
  IsConsistent-Quiet c f quiet (inl v) = inl (IsClosed-world c (f c.world) (quiet c.world).0 v)
  IsConsistent-Quiet c f quiet (inr o) = inr (IsOpened-Quiet h s c f quiet o)

  flush_profile-IsConsistent : (c : Core h) → IsConsistent h c → IsConsistent h (flush_profile h c)
  unfolding flush_profile
  flush_profile-IsConsistent c v = elim (Bool-cases (c.dbkv_profile && h.db_is_open c.world)) [
    | inl flushes ↦
        subst (IsConsistent h) (sym (if-true _ _ c flushes))
          (IsConsistent-Quiet c h.db_flush s.db_flush-Quiet v)
    | inr skips ↦ subst (IsConsistent h) (sym (if-false _ _ c skips)) v
  ]

  -- A container that is made and closed again leaves the open one alone.
  container_made :
      (path : Text) (n : ℕ) (c : Core h) (k : h.Container)
      → (h.open_container path [] n c.world).0 ≡ some k
      → IsConsistent h c
      → IsConsistent h (record c {
        world = h.delete_container k (h.close_container k (h.open_container path [] n c.world).1);
        container_path = path;
      })
  container_made path n c k made (inl v) = inl (record {
    container = v.container;
    db_device = v.db_device;
    database =
        s.delete_container-db k _
        ∙ s.close_container-db k _
        ∙ s.open_container-db path [] n c.world
        ∙ v.database;
    profile = v.profile;
    persona = v.persona;
  })
  container_made path n c k made (inr o) =
      let other = s.open_container-new path [] n c.world o.handle k o.container_open made in
      inr (record {
        handle = o.handle;
        device = o.device;
        container = o.container;
        container_open =
            s.delete_container-other o.handle k _ other
            ∙ s.close_container-other o.handle k _ other
            ∙ s.open_container-keeps path [] n c.world o.handle o.container_open;
        db_device = o.db_device;
        database =
            s.delete_container-db k _
            ∙ s.close_container-db k _
            ∙ s.open_container-db path [] n c.world
            ∙ o.database;
        plugin = o.plugin;
      })

  container_refused :
      (path : Text) (n : ℕ) (c : Core h)
      → IsConsistent h c
      → IsConsistent h (record c { world = (h.open_container path [] n c.world).1 })
  container_refused path n c (inl v) =
      inl (IsClosed-world c _ (s.open_container-db path [] n c.world) v)
  container_refused path n c (inr o) = inr (record {
    handle = o.handle;
    device = o.device;
    container = o.container;
    container_open = s.open_container-keeps path [] n c.world o.handle o.container_open;
    db_device = o.db_device;
    database = s.open_container-db path [] n c.world ∙ o.database;
    plugin = o.plugin;
  })

  create_container-IsConsistent :
      (path : Text) (n : ℕ) (c : Core h)
      → IsConsistent h c
      → IsConsistent h (create_container h path n c).0
  unfolding create_container
  create_container-IsConsistent path n c v = elim (Bool-cases (not c.vfs)) [
    | inl missing ↦
        subst (λ (r : Core h × Bool). IsConsistent h r.0) (sym (if-true _ _ _ missing)) v
    | inr loaded ↦
        subst (λ (r : Core h × Bool). IsConsistent h r.0) (sym (if-false _ _ _ loaded))
          (elim (Option-cases (h.open_container path [] n c.world).0) [
            | inl refused ↦ rw refused (container_refused path n c v)
            | inr (k, made) ↦ rw made (container_made path n c k made v)
          ])
  ]

  settled : (r : Core h × Bool) → Settled h r → IsConsistent h r.0
  settled (c, true) o = inr o
  settled (c, false) v = inl v

  attempted :
      (c : Core h) (r : Core h × Bool) → IsConsistent h c → Attempt h s c r → IsConsistent h r.0
  attempted c r v (inl same) = subst (λ (q : Core h × Bool). IsConsistent h q.0) (sym same) v
  attempted c r v (inr x) = settled r x

  store_bio-IsConsistent :
      (bio : Option Text) (c : Core h) → IsConsistent h c → IsConsistent h (store_bio h bio c)
  store_bio-IsConsistent none c v = v
  store_bio-IsConsistent (some bio) c v =
      store_profile-IsConsistent h s (record (get_profile h c) { bio = bio }) c v

  import_as-IsConsistent :
      (name : Text) (bio : Option Text) (pw : Text) (c : Core h)
      → IsConsistent h c
      → IsConsistent h (import_as h name bio pw c).0
  import_as-IsConsistent name bio pw c v =
      let made =
        attempted c (create_profile h pw name c) v (create_profile-Attempt h s pw name c v) in
      imported (not (create_profile h pw name c).1) (create_profile h pw name c).0 made
    where
      imported :
          (b : Bool) (d : Core h)
          → IsConsistent h d
          → (λ (r : Core h × Bool). IsConsistent h r.0)
              (if b then (d, false) else (flush_profile h (store_bio h bio d), true))
      imported true d u = u
      imported false d u = flush_profile-IsConsistent _ (store_bio-IsConsistent bio d u)

  import_profile-IsConsistent :
      (bytes : Bytes) (pw : Text) (c : Core h)
      → IsConsistent h c
      → IsConsistent h (import_profile h bytes pw c).0
  unfolding import_profile
  import_profile-IsConsistent bytes pw c v = elim (Option-cases (h.read_import bytes)) [
    | inl bad ↦ rw (bad, import_profile) v
    | inr ((name, bio), read) ↦ rw (read, import_profile) (import_as-IsConsistent name bio pw c v)
  ]

  exit-IsClosed : (c : Core h) → IsConsistent h c → IsClosed h (exit h c)
  unfolding exit
  exit-IsClosed c v =
      let d = close_profile h c in
      IsClosed-world d (h.app_exit d.world) (s.app_exit-Quiet d.world).0
        (close_profile-IsClosed h s c v)

  init-IsConsistent : (c : Core h) → IsConsistent h c → IsConsistent h (init h c)
  unfolding init
  init-IsConsistent c v =
      start_with (h.file_exists (h.setting_text (codes "vfs.container.path") c.world) c.world)
    where
      start_with :
          (b : Bool)
          → IsConsistent h (
              if b
              then (create_container h (h.setting_text (codes "vfs.container.path") c.world) 0 c).0
              else c)
      start_with true =
          create_container-IsConsistent (h.setting_text (codes "vfs.container.path") c.world) 0 c v
      start_with false = v

  after-IsConsistent :
      (r : Request h) (c : Core h) → IsConsistent h c → IsConsistent h (after h r c)
  after-IsConsistent (new_container path n) c v = create_container-IsConsistent path n c v
  after-IsConsistent close c v = inl (close_profile-IsClosed h s c v)
  after-IsConsistent (login pw) c v =
      attempted c (open_profile h pw c) v (open_profile-Attempt h s pw c v)
  after-IsConsistent (register pw name) c v =
      attempted c (create_profile h pw name c) v (create_profile-Attempt h s pw name c v)
  after-IsConsistent delete_current c v = inl (delete_current_profile-IsClosed h s c v)
  after-IsConsistent quit c v = inl (exit-IsClosed c v)
  after-IsConsistent start c v = init-IsConsistent c v
  after-IsConsistent flush c v = flush_profile-IsConsistent c v
  after-IsConsistent (put_profile p) c v = store_profile-IsConsistent h s p c v
  after-IsConsistent (put_param p) c v = store_param-IsConsistent h s p c v
  after-IsConsistent (drop_param k) c v = delete_param-IsConsistent h s k c v
  after-IsConsistent (restore bytes pw) c v = import_profile-IsConsistent bytes pw c v
  after-IsConsistent (put_setting k x) c v =
      IsConsistent-Quiet c (h.set_setting k x) (s.set_setting-Quiet k x) v
  after-IsConsistent (activate uid) c v = set_active_persona-IsConsistent h s uid c v
  after-IsConsistent (new_persona name) c v = create_persona-IsConsistent h s name c v
  after-IsConsistent (put_persona p) c v = store_persona-IsConsistent h s p c v
  after-IsConsistent (drop_persona uid) c v = delete_persona-IsConsistent h s uid c v
  after-IsConsistent (new_contact name) c v = create_contact-IsConsistent h s name c v
  after-IsConsistent (put_contact k) c v = store_contact-IsConsistent h s k c v
  after-IsConsistent (drop_contact uid) c v = delete_contact-IsConsistent h s uid c v
  after-IsConsistent (new_group name) c v = create_group-IsConsistent h s name c v
  after-IsConsistent (put_group g) c v = store_group-IsConsistent h s g c v
  after-IsConsistent (drop_group uid) c v = delete_group-IsConsistent h s uid c v
  after-IsConsistent (add_member g k) c v = add_group_member-IsConsistent h s g k c v
  after-IsConsistent (remove_member g k) c v = remove_group_member-IsConsistent h s g k c v
  after-IsConsistent (new_message to body type) c v =
      create_message-IsConsistent h s to body type c v
  after-IsConsistent (put_message m) c v = store_message-IsConsistent h s m c v
  after-IsConsistent (drop_message uid) c v = delete_message-IsConsistent h s uid c v
  after-IsConsistent (new_event title date) c v = create_event-IsConsistent h s title date c v
  after-IsConsistent (put_event e) c v = store_event-IsConsistent h s e c v
  after-IsConsistent (drop_event uid) c v = delete_event-IsConsistent h s uid c v

  -- Whatever is asked of it, a core that starts with no profile open has at every moment either
  -- nothing of a profile (no container, no device, no open database, no identifiers), and then
  -- isProfileOpen is false, or a container that is open, a device and an open database, and then
  -- isProfileOpen is true; under the documented behaviour of the plugins.
  pub Reach-IsConsistent :
      (c d : Core h)
      → IsClosed h c
      → Reach h c d
      → (IsClosed h d × (is_profile_open h d ≡ false))
        ⊎ (IsOpened h d × (is_profile_open h d ≡ true))
  Reach-IsConsistent c d v path = told d (kept path)
    where
      kept : {e : Core h} → Reach h c e → IsConsistent h e
      kept here = inl v
      kept (step {d = e} r p) = after-IsConsistent r e (kept p)

      told :
          (e : Core h)
          → IsConsistent h e
          → (IsClosed h e × (is_profile_open h e ≡ false))
            ⊎ (IsOpened h e × (is_profile_open h e ≡ true))
      told e (inl u) = inl (u, is_profile_open-closed h s e u)
      told e (inr o) = inr (o, is_profile_open-opened h s e o)
