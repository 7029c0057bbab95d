-- ===== src/Core/Lifecycle/Opening.antt =====
-- openProfile of src/core.cpp, from a closed core on: it ends with a profile open, or closed again.
use a_social.Base.{
  ◌≡◌, inl, inr, refl, ◌∙◌, true, false, none, some, Text, Bool-cases, Option-cases,
}
use a_social.Core.Host.{Host, Sessions}
use a_social.Core.State.{Core, is_empty, profile_key, retrieve}
use a_social.Core.Lifecycle.{
  db_file_name, target_file, load_profile, open_device, open_target, open_closed,
}
use a_social.Core.Lifecycle.Sessions.{
  IsClosed, Settled, HasContainer, drop_container-IsClosed, drop_both-IsClosed, reopened,
  with_device, just_opened, still-IsClosed,
}

module _ (h : Host) (s : Sessions h) where
  load_profile-Settled :
      (k : h.Container) (d : h.Device) (c : Core h)
      → HasContainer h s k c
      → c.db_device ≡ some d
      → h.db_is_open c.world ≡ true
      → Settled h (load_profile h k d c)
  unfolding load_profile
  load_profile-Settled k d c held device db =
      elim (Option-cases (retrieve h h.profile_codec profile_key c.world)) [
        | inl missing ↦
            rw (missing, load_profile)
              (drop_both-IsClosed h s k d (record c { world = h.db_close c.world })
                (s.db_close-closes c.world) held.profile held.persona)
        | inr (prof, found) ↦
            rw (found, load_profile)
              (record {
                handle = k;
                device = d;
                container = held.container;
                container_open = held.running;
                db_device = device;
                database = db;
                plugin = held.plugin;
              })
      ]

  open_device-Settled :
      (k : h.Container) (d : h.Device) (c : Core h)
      → HasContainer h s k c
      → c.db_device ≡ some d
      → Settled h (open_device h k d c)
  unfolding open_device
  open_device-Settled k d c held device =
      let opens = s.db_open-opens d (h.db_close c.world) in
      let c' : Core h = record c { world = (h.db_open d (h.db_close c.world)).0 } in
      elim (Bool-cases (h.db_open d (h.db_close c.world)).1) [
        | inl ok ↦ rw ok (load_profile-Settled k d c' (reopened h s k d c held) device (opens ∙ ok))
        | inr failed ↦
            rw failed (drop_both-IsClosed h s k d c' (opens ∙ failed) held.profile held.persona)
      ]

  open_target-Settled :
      (k : h.Container) (name : Text) (c : Core h)
      → HasContainer h s k c
      → c.db_device ≡ none
      → h.db_is_open c.world ≡ false
      → Settled h (open_target h k name c)
  unfolding open_target
  open_target-Settled k name c held device db =
      let quiet = s.open_file-Quiet k name in
      let w = (h.open_file k name c.world).1 in
      elim (Bool-cases (is_empty name)) [
        | inl empty ↦ rw empty (drop_container-IsClosed h s k c device db held.profile held.persona)
        | inr found ↦ elim (Option-cases (h.open_file k name c.world).0) [
          | inl refused ↦
              rw (found, refused)
                (drop_container-IsClosed h s k (record c { world = w }) device
                  ((quiet c.world).0 ∙ db) held.profile held.persona)
          | inr (d, made) ↦
              rw (found, made)
                (open_device-Settled k d (record c { world = w; db_device = some d })
                  (with_device h s k d c (λ v. (h.open_file k name v).1) quiet held) refl)
        ]
      ]

  pub open_closed-Settled :
      (password : Text) (c : Core h)
      → IsClosed h c
      → c.dbkv_profile ≡ true
      → Settled h (open_closed h password c)
  unfolding open_closed
  open_closed-Settled password c closed plugin =
      elim (Option-cases (h.open_container c.container_path password 0 c.world).0) [
        | inl refused ↦
            rw (refused, open_closed) (still-IsClosed h s c c.container_path password 0 closed)
        | inr (k, made) ↦
            rw (made, open_closed)
              (open_target-Settled k
                (target_file h (db_file_name h c)
                  (h.list_files k (h.open_container c.container_path password 0 c.world).1))
                (record c {
                  world = (h.open_container c.container_path password 0 c.world).1;
                  container = some k;
                })
                (just_opened h s c c.container_path password 0 k closed plugin made)
                closed.db_device
                (s.open_container-db c.container_path password 0 c.world ∙ closed.database))
      ]
