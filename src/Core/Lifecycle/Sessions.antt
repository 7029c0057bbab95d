-- ===== src/Core/Lifecycle/Sessions.antt =====
-- The core of src/core.cpp has a profile open as a whole or not at all.
use a_social.Base.{
  if-true, and-true, subst, ℕ, ◌≡◌, ◌⊎◌, refl, sym, ◌∙◌, Bool, true, false, ◌&&◌, none, some, [],
  Text,
}
use a_social.Core.Host.{Host, Quiet, Sessions}
use a_social.Core.State.{Core, flush_profile}
use a_social.Core.Lifecycle.{drop_container, drop_device}

-- No profile is open, and nothing of one is left.
pub record IsClosed (h : Host) (c : Core h) : Type 0 where
  pub container : c.container ≡ none
  pub db_device : c.db_device ≡ none
  pub database : h.db_is_open c.world ≡ false
  pub profile : c.current_profile_id ≡ []
  pub persona : c.active_persona_id ≡ []

-- A profile is open: container, device and database.
pub record IsOpened (h : Host) (c : Core h) : Type 0 where
  pub handle : h.Container
  pub device : h.Device
  pub container : c.container ≡ some handle
  pub container_open : h.container_is_open handle c.world ≡ true
  pub db_device : c.db_device ≡ some device
  pub database : h.db_is_open c.world ≡ true
  pub plugin : c.dbkv_profile ≡ true

abbrev pub IsConsistent : (h : Host) → Core h → Type 0
IsConsistent h c = IsClosed h c ⊎ IsOpened h c

-- What an attempt to open a profile leaves.
abbrev pub Settled : (h : Host) → Core h × Bool → Type 0
Settled h (c, true) = IsOpened h c
Settled h (c, false) = IsClosed h c

module _ (h : Host) (s : Sessions h) where
  -- Nothing is open beside this container and, in the second, this device.
  pub record HasContainer (k : h.Container) (c : Core h) : Type 0 where
    pub container : c.container ≡ some k
    pub running : h.container_is_open k c.world ≡ true
    pub plugin : c.dbkv_profile ≡ true
    pub profile : c.current_profile_id ≡ []
    pub persona : c.active_persona_id ≡ []

  pub drop_container-IsClosed :
      (k : h.Container) (c : Core h)
      → c.db_device ≡ none
      → h.db_is_open c.world ≡ false
      → c.current_profile_id ≡ []
      → c.active_persona_id ≡ []
      → IsClosed h (drop_container h k c)
  drop_container-IsClosed k c device db profile persona = record {
    container = refl;
    db_device = device;
    database = s.delete_container-db k _ ∙ s.close_container-db k c.world ∙ db;
    profile = profile;
    persona = persona;
  }

  pub drop_both-IsClosed :
      (k : h.Container) (d : h.Device) (c : Core h)
      → h.db_is_open c.world ≡ false
      → c.current_profile_id ≡ []
      → c.active_persona_id ≡ []
      → IsClosed h (drop_container h k (drop_device h d c))
  drop_both-IsClosed k d c db profile persona =
      drop_container-IsClosed k (drop_device h d c) refl ((s.delete_device-Quiet d c.world).0 ∙ db)
        profile persona

  -- The database is opened again on a device; then one rest or the other.
  pub reopened :
      (k : h.Container) (d : h.Device) (c : Core h)
      → HasContainer k c
      → HasContainer k (record c { world = (h.db_open d (h.db_close c.world)).0 })
  reopened k d c held = record {
    container = held.container;
    running =
        s.db_open-container d (h.db_close c.world) k
        ∙ s.db_close-container c.world k
        ∙ held.running;
    plugin = held.plugin;
    profile = held.profile;
    persona = held.persona;
  }

  pub with_device :
      (k : h.Container) (d : h.Device) (c : Core h) (f : h.World → h.World)
      → Quiet h f
      → HasContainer k c
      → HasContainer k (record c { world = f c.world; db_device = some d })
  with_device k d c f quiet held = record {
    container = held.container;
    running = (quiet c.world).1 k ∙ held.running;
    plugin = held.plugin;
    profile = held.profile;
    persona = held.persona;
  }

  -- A container that was just opened, on a closed core.
  pub just_opened :
      (c : Core h) (path pw : Text) (n : ℕ) (k : h.Container)
      → IsClosed h c
      → c.dbkv_profile ≡ true
      → (h.open_container path pw n c.world).0 ≡ some k
      → HasContainer k
          (record c { world = (h.open_container path pw n c.world).1; container = some k })
  just_opened c path pw n k closed plugin made = record {
    container = refl;
    running = s.open_container-opens path pw n c.world k made;
    plugin = plugin;
    profile = closed.profile;
    persona = closed.persona;
  }

  -- The container could not be opened.
  pub still-IsClosed :
      (c : Core h) (path pw : Text) (n : ℕ)
      → IsClosed h c
      → IsClosed h (record c { world = (h.open_container path pw n c.world).1 })
  still-IsClosed c path pw n closed = record {
    container = closed.container;
    db_device = closed.db_device;
    database = s.open_container-db path pw n c.world ∙ closed.database;
    profile = closed.profile;
    persona = closed.persona;
  }

  -- A quiet step on an open core.
  pub IsOpened-Quiet :
      (c : Core h) (f : h.World → h.World)
      → Quiet h f
      → IsOpened h c
      → IsOpened h (record c { world = f c.world })
  IsOpened-Quiet c f quiet o = record {
    handle = o.handle;
    device = o.device;
    container = o.container;
    container_open = (quiet c.world).1 o.handle ∙ o.container_open;
    db_device = o.db_device;
    database = (quiet c.world).0 ∙ o.database;
    plugin = o.plugin;
  }

  pub flush_profile-opened :
      (c : Core h) → IsOpened h c → flush_profile h c ≡ record c { world = h.db_flush c.world }
  unfolding flush_profile
  flush_profile-opened c o =
      if-true (c.dbkv_profile && h.db_is_open c.world) (record c { world = h.db_flush c.world }) c
        (and-true c.dbkv_profile (h.db_is_open c.world) o.plugin o.database)

  pub IsOpened-flush_profile : (c : Core h) → IsOpened h c → IsOpened h (flush_profile h c)
  IsOpened-flush_profile c o =
      subst (IsOpened h) (sym (flush_profile-opened c o))
        (IsOpened-Quiet c h.db_flush s.db_flush-Quiet o)
