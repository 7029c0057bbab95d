-- ===== src/Core/Lifecycle.antt =====
-- The lifecycle of the container and the profile in src/core.cpp. A `delete` of a device or a
-- container is an operation of its own beside the `close` before it.
pub mod Sessions
pub mod Opening
pub mod Creating
pub mod Closing
use a_social.Base.{
  ℕ, zero, suc, ◌+◌, ◌*◌, ◌/◌, Bool, true, false, not, ◌&&◌, ◌||◌, Option, none, some, List, [],
  ◌∷◌, ◌++◌, Text, length, ltb, ◌==◌, if◌then◌else◌, codes, contains, ends_with,
}
use a_social.Base.Bytes.{Bytes}
use a_social.Core.Entities.{Profile, Persona, no_profile, no_persona}
use a_social.Core.Host.{Codec, Host}
use a_social.Core.State.{
  Core, is_empty, profile_key, key_of, prefix_of, has_device, is_profile_open,
  is_container_initialized, flush_profile, retrieve, take_time,
}

module _ (h : Host) where
  unfoldable pub db_file_name : Core h → Text
  db_file_name c = elim h.db_name [
    | none ↦ codes "dbkv-rocksdb.dat"
    | some name ↦ if c.dbkv_profile then name ++ codes ".dat" else codes "dbkv-rocksdb.dat"
  ]

  -- `m_container->close(); delete m_container; m_container = nullptr;`
  abbrev pub drop_container : h.Container → Core h → Core h
  drop_container k c = record c {
    world = h.delete_container k (h.close_container k c.world);
    container = none;
  }

  -- `delete m_dbDevice; m_dbDevice = nullptr;`
  abbrev pub drop_device : h.Device → Core h → Core h
  drop_device d c = record c { world = h.delete_device d c.world; db_device = none }

  unfoldable pub create_container : Text → ℕ → Core h → Core h × Bool
  create_container path max_size c =
      let (o, w) = h.open_container path [] max_size c.world in
      if not c.vfs then (c, false) else elim o [
        | none ↦ (record c { world = w }, false)
        | some k ↦ (
          record c { world = h.delete_container k (h.close_container k w); container_path = path },
          true,
        )
      ]

  abbrev pub close_database : Core h → Core h
  close_database c =
      if c.dbkv_profile && (h.db_is_open c.world && has_device h c.db_device)
      then record c { world = h.db_close (h.db_flush c.world) }
      else c

  abbrev pub close_device_of : Option h.Device → Core h → Core h
  close_device_of none c = c
  close_device_of (some d) c = record c {
    world = h.delete_device d (h.close_device d c.world);
    db_device = none;
  }

  abbrev pub close_container_of : Option h.Container → Core h → Core h
  close_container_of none c = c
  close_container_of (some k) c = drop_container k c

  abbrev pub forget_ids : Core h → Core h
  forget_ids c = record c {
    current_profile_id = [];
    active_persona_id = [];
    changes = if is_empty c.current_profile_id then c.changes else c.changes + 1;
  }

  unfoldable pub close_profile : Core h → Core h
  close_profile c =
      let c1 = close_database c in
      let c2 = close_device_of c1.db_device c1 in forget_ids (close_container_of c2.container c2)

  -- The database file: the one of the plugin's name, or the first `.dat`; empty where there is none.
  abbrev first_dat : List Text → Text
  first_dat [] = []
  first_dat (f ∷ fs) = if ends_with f (codes ".dat") then f else first_dat fs

  unfoldable pub target_file : Text → List Text → Text
  target_file db_name files = if contains db_name files then db_name else first_dat files

  -- The loop over the personas: the default one, or else the first.
  abbrev or_first : Text → Text → Text
  or_first active uid = if is_empty active then uid else active

  unfoldable pub pick_persona : List Text → Text → h.World → Text
  pick_persona [] active w = active
  pick_persona (k ∷ ks) active w = elim (retrieve h h.persona_codec k w) [
    | none ↦ pick_persona ks active w
    | some p ↦ if p.is_default then p.uid else pick_persona ks (or_first active p.uid) w
  ]

  abbrev opened : Profile → Core h → Core h
  opened prof c = record c {
    current_profile_id = prof.uid;
    active_persona_id =
        pick_persona (h.list_objects (prefix_of (codes "Persona") []) c.world) c.active_persona_id
          c.world;
    changes = c.changes + 1;
  }

  -- The rest of openProfile, once the database is open.
  unfoldable pub load_profile : h.Container → h.Device → Core h → Core h × Bool
  load_profile k d c = elim (retrieve h h.profile_codec profile_key c.world) [
    | none ↦ (drop_container k (drop_device d (record c { world = h.db_close c.world })), false)
    | some prof ↦ (opened prof c, true)
  ]

  -- `m_dbkvProfile->closeDatabase()`, and openDatabase on the device
  abbrev reopen_database : h.Device → Core h → Core h × Bool
  reopen_database d c =
      let (w, ok) = h.db_open d (h.db_close c.world) in (record c { world = w }, ok)

  unfoldable pub open_device : h.Container → h.Device → Core h → Core h × Bool
  open_device k d c =
      let (c', ok) = reopen_database d c in
      if not ok then (drop_container k (drop_device d c'), false) else load_profile k d c'

  unfoldable pub open_target : h.Container → Text → Core h → Core h × Bool
  open_target k name c =
      let (o, w) = h.open_file k name c.world in
      if is_empty name then (drop_container k c, false) else elim o [
        | none ↦ (drop_container k (record c { world = w }), false)
        | some d ↦ open_device k d (record c { world = w; db_device = some d })
      ]

  unfoldable pub open_closed : Text → Core h → Core h × Bool
  open_closed password c =
      let (o, w) = h.open_container c.container_path password 0 c.world in
      elim o [
        | none ↦ (record c { world = w }, false)
        | some k ↦
            open_target k (target_file (db_file_name c) (h.list_files k w))
              (record c { world = w; container = some k })
      ]

  unfoldable pub open_profile : Text → Core h → Core h × Bool
  open_profile password c =
      if not c.vfs || not c.dbkv_profile
      then (c, false)
      else if not (is_container_initialized h c)
      then (c, false)
      else open_closed password (close_profile c)

  abbrev pub new_profile : Text → Text → ℕ → Profile
  new_profile uid display_name time = record no_profile {
    uid = uid;
    display_name = display_name;
    created_at = time;
    updated_at = time;
  }

  -- `db::createPersona()` with the fields that createProfile sets
  abbrev pub default_persona : Text → ℕ → Text → Text → Persona
  default_persona uid time profile_uid display_name = record no_persona {
    uid = uid;
    created_at = time;
    updated_at = time;
    profile_uid = profile_uid;
    display_name = display_name;
    is_default = true;
  }

  -- What createProfile stores after the profile. The outcome of the store is not looked at.
  unfoldable pub store_default_persona : Text → Persona → Core h → Core h
  store_default_persona profile_uid persona c =
      let stored : Core h = record c {
        world =
            (h.put_object (key_of (codes "Persona") (persona.uid ∷ []))
              (h.persona_codec.encode persona) c.world).0;
      } in
      record (flush_profile h stored) {
        current_profile_id = profile_uid;
        active_persona_id = persona.uid;
        changes = c.changes + 1;
      }

  -- The rest of createProfile, once the database is open: two draws for the profile, two for the
  -- persona.
  unfoldable pub fill_profile : Text → h.Container → h.Device → Core h → Core h × Bool
  fill_profile display_name k d c =
      let time = h.now c.draws in
      let uid = h.new_id (c.draws + 1) in
      let (w, ok) =
        h.put_object profile_key (h.profile_codec.encode (new_profile uid display_name time))
          c.world in
      let drawn : Core h = record c { world = w; draws = c.draws + 2 } in
      let persona =
        default_persona (h.new_id (c.draws + 3)) (h.now (c.draws + 2)) uid display_name in
      if not ok
      then (
        drop_container k (drop_device d (record drawn { world = h.db_close drawn.world })),
        false,
      )
      else (store_default_persona uid persona (record drawn { draws = c.draws + 4 }), true)

  unfoldable pub create_device : Text → h.Container → h.Device → Core h → Core h × Bool
  create_device display_name k d c =
      let (c', ok) = reopen_database d c in
      if not ok
      then (drop_container k (drop_device d c'), false)
      else fill_profile display_name k d c'

  unfoldable pub create_target : Text → h.Container → Core h → Core h × Bool
  create_target display_name k c =
      let (o, w) = h.open_file k (db_file_name c) c.world in
      elim o [
        | none ↦ (drop_container k (record c { world = w }), false)
        | some d ↦ create_device display_name k d (record c { world = w; db_device = some d })
      ]

  unfoldable pub create_closed : Text → Text → Core h → Core h × Bool
  create_closed password display_name c =
      let (o, w) = h.open_container c.container_path password 0 c.world in
      elim o [
        | none ↦ (record c { world = w }, false)
        | some k ↦ create_target display_name k (record c { world = w; container = some k })
      ]

  unfoldable pub create_profile : Text → Text → Core h → Core h × Bool
  create_profile password display_name c =
      if not c.vfs || not c.dbkv_profile
      then (c, false)
      else if not (is_container_initialized h c)
      then (c, false)
      else create_closed password display_name (close_profile c)

  -- The loop over the files, with how many are done of how many.
  unfoldable pub delete_files : h.Container → List Text → ℕ → ℕ → h.World → h.World
  delete_files k [] done total w = w
  delete_files k (f ∷ fs) done total w =
      delete_files k fs (done + 1) total
        (h.progress (if ltb 0 total then (done + 1) * 100 / total else 100) (h.delete_file k f w))

  abbrev pub close_db_if_open : Core h → Core h
  close_db_if_open c = if h.db_is_open c.world then record c { world = h.db_close c.world } else c

  unfoldable pub delete_in : h.Container → Core h → Core h
  delete_in k c =
      let files = h.list_files k c.world in
      let c1 = close_db_if_open c in
      let c2 = close_device_of c1.db_device c1 in
      let c3 : Core h = record c2 { world = delete_files k files 0 (length files) c2.world } in
      record (drop_container k c3) {
        current_profile_id = [];
        active_persona_id = [];
        changes = c3.changes + 1;
      }

  abbrev pub delete_with : Option h.Container → Core h → Core h × Bool
  delete_with none c = (c, false)
  delete_with (some k) c = (delete_in k c, true)

  unfoldable pub delete_current_profile : Core h → Core h × Bool
  delete_current_profile c =
      if not (is_profile_open h c) then (c, false) else delete_with c.container c

  unfoldable pub exit : Core h → Core h
  exit c = let closed = close_profile c in record closed { world = h.app_exit closed.world }

  unfoldable pub init : Core h → Core h
  init c =
      let path = h.setting_text (codes "vfs.container.path") c.world in
      if h.file_exists path c.world then (create_container path 0 c).0 else c
