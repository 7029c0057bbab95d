-- ===== src/Core/Lifecycle/Closing.antt =====
-- Closing and deleting a profile in src/core.cpp: both leave the core closed.
use a_social.Base.{
  length, ◌+◌, ◌*◌, ◌/◌, ltb, if-true, if-false, and-true, subst, ℕ, ◌≡◌, ◌⊎◌, inl, inr, refl, sym,
  ap, ◌∙◌, Bool, true, false, not, ◌&&◌, ◌||◌, Option, none, some, List, [], ◌∷◌, Text,
  if◌then◌else◌, Bool-cases,
}
use a_social.Core.Host.{Host, Quiet, Sessions}
use a_social.Core.State.{open_in, Core, is_profile_open, has_device, is_container_initialized}
use a_social.Core.Lifecycle.{
  delete_with, close_db_if_open, close_container_of, close_device_of, close_database, forget_ids,
  drop_container, close_profile, open_profile, create_profile, delete_files, delete_in,
  delete_current_profile,
}
use a_social.Core.Lifecycle.Sessions.{IsClosed, IsOpened, IsConsistent, Settled}
use a_social.Core.Lifecycle.Creating.{create_closed-Settled}
use a_social.Core.Lifecycle.Opening.{open_closed-Settled}

middle_false : (a b c : Bool) → b ≡ false → (a && (b && c)) ≡ false
middle_false true b c e = rw e refl
middle_false false b c e = refl

all_true : (a b c : Bool) → a ≡ true → b ≡ true → c ≡ true → (a && (b && c)) ≡ true
all_true a b c e f g = rw (e, f) g

module _ (h : Host) (s : Sessions h) where
  close_device_none : (o : Option h.Device) (c : Core h) → o ≡ none → close_device_of h o c ≡ c
  close_device_none o c e = rw e refl

  close_device_some :
      (o : Option h.Device) (d : h.Device) (c : Core h)
      → o ≡ some d
      → close_device_of h o c
        ≡ record c { world = h.delete_device d (h.close_device d c.world); db_device = none }
  close_device_some o d c e = rw e refl

  close_container_none :
      (o : Option h.Container) (c : Core h) → o ≡ none → close_container_of h o c ≡ c
  close_container_none o c e = rw e refl

  close_container_some :
      (o : Option h.Container) (k : h.Container) (c : Core h)
      → o ≡ some k
      → close_container_of h o c ≡ drop_container h k c
  close_container_some o k c e = rw e refl

  has_device-some : (o : Option h.Device) (d : h.Device) → o ≡ some d → has_device h o ≡ true
  has_device-some o d e = rw e refl

  -- The three parts of closing, one after the other.
  close_profile_steps :
      (c c1 c2 c3 : Core h)
      → close_database h c ≡ c1
      → close_device_of h c1.db_device c1 ≡ c2
      → close_container_of h c2.container c2 ≡ c3
      → close_profile h c ≡ forget_ids h c3
  unfolding close_profile
  close_profile_steps c c1 c2 c3 e1 e2 e3 =
      ap
        (λ x.
          let y = close_device_of h x.db_device x in
          forget_ids h (close_container_of h y.container y))
        e1
      ∙ ap (λ y. forget_ids h (close_container_of h y.container y)) e2
      ∙ ap (forget_ids h) e3

  close_profile_closed : (c : Core h) → IsClosed h c → close_profile h c ≡ forget_ids h c
  close_profile_closed c v =
      close_profile_steps c c c c
        (if-false _ _ c (
          middle_false c.dbkv_profile (h.db_is_open c.world) (has_device h c.db_device) v.database))
        (close_device_none c.db_device c v.db_device)
        (close_container_none c.container c v.container)

  -- Closing an open profile.
  abbrev shut : Core h → h.Container → h.Device → Core h
  shut c k d = record c {
    world = h.delete_container k (
        h.close_container k
          (h.delete_device d (h.close_device d (h.db_close (h.db_flush c.world)))));
    db_device = none;
    container = none;
  }

  close_profile_opened :
      (c : Core h) (o : IsOpened h c) → close_profile h c ≡ forget_ids h (shut c o.handle o.device)
  close_profile_opened c o =
      let c1 : Core h = record c { world = h.db_close (h.db_flush c.world) } in
      let c2 : Core h = record c1 {
        world = h.delete_device o.device (h.close_device o.device c1.world);
        db_device = none;
      } in
      close_profile_steps c c1 c2 (drop_container h o.handle c2)
        (if-true _ c1 c (
          all_true c.dbkv_profile (h.db_is_open c.world) (has_device h c.db_device) o.plugin
            o.database (has_device-some c.db_device o.device o.db_device)))
        (close_device_some c.db_device o.device c1 o.db_device)
        (close_container_some c.container o.handle c2 o.container)

  shut-database :
      (c : Core h) (k : h.Container) (d : h.Device) → h.db_is_open (shut c k d).world ≡ false
  shut-database c k d =
      let w = h.db_close (h.db_flush c.world) in
      let v = h.delete_device d (h.close_device d w) in
      s.delete_container-db k (h.close_container k v)
      ∙ s.close_container-db k v
      ∙ (s.delete_device-Quiet d (h.close_device d w)).0
      ∙ (s.close_device-Quiet d w).0
      ∙ s.db_close-closes (h.db_flush c.world)

  pub close_profile-IsClosed : (c : Core h) → IsConsistent h c → IsClosed h (close_profile h c)
  close_profile-IsClosed c (inl v) = subst (IsClosed h) (sym (close_profile_closed c v)) (record {
    container = v.container;
    db_device = v.db_device;
    database = v.database;
    profile = refl;
    persona = refl;
  })
  close_profile-IsClosed c (inr o) = subst (IsClosed h) (sym (close_profile_opened c o)) (record {
    container = refl;
    db_device = refl;
    database = shut-database c o.handle o.device;
    profile = refl;
    persona = refl;
  })

  -- The files of the container are deleted quietly.
  delete_files-Quiet :
      (k : h.Container) (fs : List Text) (done total : ℕ) → Quiet h (delete_files h k fs done total)
  unfolding delete_files
  delete_files-Quiet k [] done total w = (refl, λ j. refl)
  delete_files-Quiet k (f ∷ fs) done total w =
      let pct = if ltb 0 total then (done + 1) * 100 / total else 100 in
      let (d, e) = s.delete_file-Quiet k f w in
      let (p, q) = s.progress-Quiet pct (h.delete_file k f w) in
      let (r, t) =
        delete_files-Quiet k fs (done + 1) total (h.progress pct (h.delete_file k f w)) in
      (r ∙ p ∙ d, λ j. t j ∙ q j ∙ e j)

  abbrev after_files : Core h → h.Container → List Text → Core h
  after_files c k files =
      record (drop_container h k
        (record c { world = delete_files h k files 0 (length files) c.world })) {
          current_profile_id = [];
          active_persona_id = [];
          changes = c.changes + 1;
        }

  delete_in_steps :
      (c c1 c2 : Core h) (k : h.Container)
      → close_db_if_open h c ≡ c1
      → close_device_of h c1.db_device c1 ≡ c2
      → delete_in h k c ≡ after_files c2 k (h.list_files k c.world)
  unfolding delete_in
  delete_in_steps c c1 c2 k e1 e2 =
      ap (λ x. after_files (close_device_of h x.db_device x) k (h.list_files k c.world)) e1
      ∙ ap (λ y. after_files y k (h.list_files k c.world)) e2

  delete_in-IsClosed : (c : Core h) (o : IsOpened h c) → IsClosed h (delete_in h o.handle c)
  delete_in-IsClosed c o =
      let k = o.handle in
      let files = h.list_files k c.world in
      let c1 : Core h = record c { world = h.db_close c.world } in
      let c2 : Core h = record c1 {
        world = h.delete_device o.device (h.close_device o.device c1.world);
        db_device = none;
      } in
      let w = delete_files h k files 0 (length files) c2.world in
      subst (IsClosed h)
        (sym (
          delete_in_steps c c1 c2 k (if-true _ c1 c o.database)
            (close_device_some c.db_device o.device c1 o.db_device)))
        (record {
          container = refl;
          db_device = refl;
          database =
              s.delete_container-db k (h.close_container k w)
              ∙ s.close_container-db k w
              ∙ (delete_files-Quiet k files 0 (length files) c2.world).0
              ∙ (s.delete_device-Quiet o.device (h.close_device o.device c1.world)).0
              ∙ (s.close_device-Quiet o.device c1.world).0
              ∙ s.db_close-closes c.world;
          profile = refl;
          persona = refl;
        })

  -- Whether a profile is open is whether the core is opened.
  open_in-some :
      (o : Option h.Container) (k : h.Container) (w : h.World)
      → o ≡ some k
      → h.container_is_open k w ≡ true
      → open_in h o w ≡ true
  open_in-some o k w e f = rw e f

  pub is_profile_open-opened : (c : Core h) → IsOpened h c → is_profile_open h c ≡ true
  unfolding is_profile_open
  is_profile_open-opened c o =
      and-true (open_in h c.container c.world) _
        (open_in-some c.container o.handle c.world o.container o.container_open)
        (all_true c.dbkv_profile (h.db_is_open c.world) (has_device h c.db_device) o.plugin
          o.database (has_device-some c.db_device o.device o.db_device))

  pub is_profile_open-closed : (c : Core h) → IsClosed h c → is_profile_open h c ≡ false
  unfolding is_profile_open
  is_profile_open-closed c v = none_open c.container c.world _ v.container
    where
      none_open :
          (o : Option h.Container) (w : h.World) (b : Bool)
          → o ≡ none
          → (open_in h o w && b) ≡ false
      none_open o w b e = rw e refl

  pub delete_current_profile-IsClosed :
      (c : Core h) → IsConsistent h c → IsClosed h (delete_current_profile h c).0
  unfolding delete_current_profile
  delete_current_profile-IsClosed c (inl v) =
      subst (λ (r : Core h × Bool). IsClosed h r.0)
        (sym
          (if-true (not (is_profile_open h c)) (c, false) _ (ap not (is_profile_open-closed c v))))
        v
  delete_current_profile-IsClosed c (inr o) =
      subst (λ (r : Core h × Bool). IsClosed h r.0)
        (sym
          (if-false (not (is_profile_open h c)) (c, false) _ (ap not (is_profile_open-opened c o))))
        (found c.container o.container)
    where
      found : (m : Option h.Container) → m ≡ some o.handle → IsClosed h (delete_with h m c).0
      found m e = rw e (delete_in-IsClosed c o)

  pub close_profile-dbkv_profile :
      (c : Core h) → IsConsistent h c → (close_profile h c).dbkv_profile ≡ c.dbkv_profile
  close_profile-dbkv_profile c (inl v) =
      ap (λ (x : Core h). x.dbkv_profile) (close_profile_closed c v)
  close_profile-dbkv_profile c (inr o) =
      ap (λ (x : Core h). x.dbkv_profile) (close_profile_opened c o)

  -- An attempt fails with nothing done, or settles.
  abbrev pub Attempt : Core h → Core h × Bool → Type 0
  Attempt c r = (r ≡ (c, false)) ⊎ Settled h r

  attempt :
      (c : Core h) (tried : Core h × Bool)
      → (c.dbkv_profile ≡ true → Settled h tried)
      → Attempt c (
          if not c.vfs || not c.dbkv_profile
          then (c, false)
          else if not (is_container_initialized h c)
          then (c, false)
          else tried)
  attempt c tried settled = elim (Bool-cases (not c.vfs || not c.dbkv_profile)) [
    | inl refused ↦ inl (if-true _ _ _ refused)
    | inr loaded ↦ elim (Bool-cases (not (is_container_initialized h c))) [
      | inl absent ↦ inl (if-false _ _ _ loaded ∙ if-true _ _ _ absent)
      | inr there ↦ inr (
          subst (Settled h) (sym (if-false _ _ _ loaded ∙ if-false _ _ _ there))
            (settled (neither c.vfs c.dbkv_profile loaded)))
    ]
  ]
    where
      neither : (a b : Bool) → (not a || not b) ≡ false → b ≡ true
      neither true true e = refl
      neither true false e = cc
      neither false b e = cc

  pub open_profile-Attempt :
      (password : Text) (c : Core h) → IsConsistent h c → Attempt c (open_profile h password c)
  unfolding open_profile
  open_profile-Attempt password c v = attempt c _ (λ e.
      open_closed-Settled h s password (close_profile h c) (close_profile-IsClosed c v)
        (close_profile-dbkv_profile c v ∙ e))

  pub create_profile-Attempt :
      (password name : Text) (c : Core h)
      → IsConsistent h c
      → Attempt c (create_profile h password name c)
  unfolding create_profile
  create_profile-Attempt password name c v = attempt c _ (λ e.
      create_closed-Settled h s password name (close_profile h c) (close_profile-IsClosed c v)
        (close_profile-dbkv_profile c v ∙ e))
