-- ===== src/Core/Lifecycle/Creating.antt =====
-- createProfile of src/core.cpp, from a closed core on: it ends with a profile open, or closed
-- again.
use a_social.Base.{
  ◌+◌, codes, ◌≡◌, inl, inr, refl, ◌∙◌, true, false, none, some, [], ◌∷◌, Text, Bool-cases,
  Option-cases,
}
use a_social.Core.Entities.{Persona}
use a_social.Core.Host.{Host, Sessions}
use a_social.Core.State.{Core, key_of, profile_key}
use a_social.Core.Lifecycle.{
  db_file_name, new_profile, default_persona, store_default_persona, fill_profile, create_device,
  create_target, create_closed,
}
use a_social.Core.Lifecycle.Sessions.{
  IsClosed, IsOpened, Settled, HasContainer, drop_container-IsClosed, drop_both-IsClosed, reopened,
  with_device, just_opened, still-IsClosed, IsOpened-Quiet, IsOpened-flush_profile,
}

module _ (h : Host) (s : Sessions h) where
  store_default_persona-IsOpened :
      (uid : Text) (persona : Persona) (c : Core h)
      → IsOpened h c
      → IsOpened h (store_default_persona h uid persona c)
  unfolding store_default_persona
  store_default_persona-IsOpened uid persona c o =
      let stored = IsOpened-flush_profile h s _ (
        IsOpened-Quiet h s c _
          (s.put_object-Quiet (key_of (codes "Persona") (persona.uid ∷ []))
            (h.persona_codec.encode persona))
          o) in
      record {
        handle = stored.handle;
        device = stored.device;
        container = stored.container;
        container_open = stored.container_open;
        db_device = stored.db_device;
        database = stored.database;
        plugin = stored.plugin;
      }

  fill_profile-Settled :
      (name : Text) (k : h.Container) (d : h.Device) (c : Core h)
      → HasContainer h s k c
      → c.db_device ≡ some d
      → h.db_is_open c.world ≡ true
      → Settled h (fill_profile h name k d c)
  unfolding fill_profile
  fill_profile-Settled name k d c held device db =
      let prof =
        h.profile_codec.encode (new_profile h (h.new_id (c.draws + 1)) name (h.now c.draws)) in
      let quiet = s.put_object-Quiet profile_key prof in
      let persona =
        default_persona h (h.new_id (c.draws + 3)) (h.now (c.draws + 2)) (h.new_id (c.draws + 1))
          name in
      let w = (h.put_object profile_key prof c.world).0 in
      elim (Bool-cases (h.put_object profile_key prof c.world).1) [
        | inl ok ↦ rw ok (
            store_default_persona-IsOpened (h.new_id (c.draws + 1)) persona
              (record c { world = w; draws = c.draws + 4 })
              (record {
                handle = k;
                device = d;
                container = held.container;
                container_open = (quiet c.world).1 k ∙ held.running;
                db_device = device;
                database = (quiet c.world).0 ∙ db;
                plugin = held.plugin;
              }))
        | inr failed ↦ rw failed (
            drop_both-IsClosed h s k d (record c { world = h.db_close w; draws = c.draws + 2 })
              (s.db_close-closes w) held.profile held.persona)
      ]

  create_device-Settled :
      (name : Text) (k : h.Container) (d : h.Device) (c : Core h)
      → HasContainer h s k c
      → c.db_device ≡ some d
      → Settled h (create_device h name k d c)
  unfolding create_device
  create_device-Settled name k d c held device =
      let opens = s.db_open-opens d (h.db_close c.world) in
      let c' : Core h = record c { world = (h.db_open d (h.db_close c.world)).0 } in
      elim (Bool-cases (h.db_open d (h.db_close c.world)).1) [
        | inl ok ↦
            rw ok (fill_profile-Settled name k d c' (reopened h s k d c held) device (opens ∙ ok))
        | inr failed ↦
            rw failed (drop_both-IsClosed h s k d c' (opens ∙ failed) held.profile held.persona)
      ]

  create_target-Settled :
      (name : Text) (k : h.Container) (c : Core h)
      → HasContainer h s k c
      → c.db_device ≡ none
      → h.db_is_open c.world ≡ false
      → Settled h (create_target h name k c)
  unfolding create_target
  create_target-Settled name k c held device db =
      let file = db_file_name h c in
      let quiet = s.open_file-Quiet k file in
      let w = (h.open_file k file c.world).1 in
      elim (Option-cases (h.open_file k file c.world).0) [
        | inl refused ↦
            rw (refused, create_target)
              (drop_container-IsClosed h s k (record c { world = w }) device
                ((quiet c.world).0 ∙ db) held.profile held.persona)
        | inr (d, made) ↦
            rw (made, create_target)
              (create_device-Settled name k d (record c { world = w; db_device = some d })
                (with_device h s k d c (λ v. (h.open_file k file v).1) quiet held) refl)
      ]

  pub create_closed-Settled :
      (password name : Text) (c : Core h)
      → IsClosed h c
      → c.dbkv_profile ≡ true
      → Settled h (create_closed h password name c)
  unfolding create_closed
  create_closed-Settled password name c closed plugin =
      elim (Option-cases (h.open_container c.container_path password 0 c.world).0) [
        | inl refused ↦
            rw (refused, create_closed) (still-IsClosed h s c c.container_path password 0 closed)
        | inr (k, made) ↦
            rw (made, create_closed)
              (create_target-Settled name k
                (record c {
                  world = (h.open_container c.container_path password 0 c.world).1;
                  container = some k;
                })
                (just_opened h s c c.container_path password 0 k closed plugin made)
                closed.db_device
                (s.open_container-db c.container_path password 0 c.world ∙ closed.database))
      ]
