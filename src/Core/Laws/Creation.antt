-- ===== src/Core/Laws/Creation.antt =====
-- createProfile of src/core.cpp, where the plugins do not fail.
use a_social.Base.{
  text_eq_refl, ◌++◌, ◌+◌, ◌≡◌, refl, sym, ap, ◌∙◌, subst, Bool, true, false, not, ◌||◌, some, [],
  ◌∷◌, Text, text_eq, if-true, if-false, unless-true, codes, join,
}
use a_social.Protogen.Generated.{key}
use a_social.Core.Schema.Entries.{prefix_of_persona}
use a_social.Core.Entities.{Profile, Persona}
use a_social.Base.Bytes.{Bytes}
use a_social.Core.Host.{Codec, Host, Sessions, IsMap, RoundTrips}
use a_social.Core.State.{
  Core, profile_key, key_of, is_profile_open, is_container_initialized, retrieve, decoded,
  flush_profile,
}
use a_social.Core.Lifecycle.{
  db_file_name, close_profile, create_profile, create_closed, create_target, create_device,
  fill_profile, store_default_persona, new_profile, default_persona,
}
use a_social.Core.Lifecycle.Sessions.{IsConsistent, IsOpened, Settled}
use a_social.Core.Lifecycle.Creating.{create_closed-Settled}
use a_social.Core.Lifecycle.Closing.{
  close_profile-IsClosed, close_profile-dbkv_profile, is_profile_open-opened,
}
use a_social.Core.Laws.{get-flush_profile}

-- The profile and the active persona can be read, and have this name.
pub record IsCreated (h : Host) (name : Text) (r : Core h × Bool) : Type 0 where
  pub succeeded : r.1 ≡ true
  pub profile : Profile
  pub profile_read : retrieve h h.profile_codec profile_key r.0.world ≡ some profile
  pub profile_id : r.0.current_profile_id ≡ profile.uid
  pub profile_name : profile.display_name ≡ name
  pub persona : Persona
  pub persona_read :
      retrieve h h.persona_codec (key_of (codes "Persona") (r.0.active_persona_id ∷ [])) r.0.world
      ≡ some persona
  pub persona_name : persona.display_name ≡ name
  pub persona_default : persona.is_default ≡ true
  pub persona_profile : persona.profile_uid ≡ profile.uid

-- The key of a persona is not the key of the profile.
persona_key-profile_key :
    (uid : Text) → text_eq (key_of (codes "Persona") (uid ∷ [])) profile_key ≡ false
unfolding key text_eq
persona_key-profile_key uid =
    ap (λ p. text_eq (p ++ b'/' ∷ join (codes "/") (uid ∷ [])) profile_key) prefix_of_persona

module _ (h : Host) (m : IsMap h) (r : RoundTrips h) (s : Sessions h)
    (puts : (key : Text) (b : Bytes) (w : h.World)
      → h.db_is_open w ≡ true
      → (h.put_object key b w).1 ≡ true) where
  -- The profile and the default persona, put one after the other and flushed.
  read_profile :
      (prof : Profile) (persona : Persona) (c : Core h)
      → h.db_is_open c.world ≡ true
      → (let w1 = (h.put_object profile_key (h.profile_codec.encode prof) c.world).0 in
          let w2 =
            (h.put_object
              (key_of (codes "Persona") (persona.uid ∷ []))
              (h.persona_codec.encode persona)
              w1).0 in
          retrieve h h.profile_codec profile_key w2 ≡ some prof)
  read_profile prof persona c o =
      let key = key_of (codes "Persona") (persona.uid ∷ []) in
      let w1 = (h.put_object profile_key (h.profile_codec.encode prof) c.world).0 in
      ap (decoded h h.profile_codec) (
        m.get-put key (h.persona_codec.encode persona) w1 profile_key
          (puts _ _ _ ((s.put_object-Quiet profile_key _ c.world).0 ∙ o))
        ∙ if-false _ _ _ (persona_key-profile_key persona.uid)
        ∙ m.get-put profile_key (h.profile_codec.encode prof) c.world profile_key (puts _ _ _ o)
        ∙ if-true _ _ _ (text_eq_refl profile_key))
      ∙ r.profile prof

  read_persona :
      (persona : Persona) (w : h.World)
      → h.db_is_open w ≡ true
      → (let key = key_of (codes "Persona") (persona.uid ∷ []) in
          retrieve h h.persona_codec key (h.put_object key (h.persona_codec.encode persona) w).0
          ≡ some persona)
  read_persona persona w o =
      let key = key_of (codes "Persona") (persona.uid ∷ []) in
      ap (decoded h h.persona_codec) (
        m.get-put key (h.persona_codec.encode persona) w key (puts _ _ _ o)
        ∙ if-true _ _ _ (text_eq_refl key))
      ∙ r.persona persona

  -- A flush changes nothing that is read.
  read-flush_profile :
      {A : Type 0} (codec : Codec A) (k : Text) (c : Core h)
      → retrieve h codec k (flush_profile h c).world ≡ retrieve h codec k c.world
  read-flush_profile codec k c = ap (decoded h codec) (get-flush_profile h m c k)

  store_default_persona-IsCreated :
      (name : Text) (prof : Profile) (persona : Persona) (c : Core h)
      → h.db_is_open c.world ≡ true
      → prof.display_name ≡ name
      → persona.display_name ≡ name
      → persona.is_default ≡ true
      → persona.profile_uid ≡ prof.uid
      → IsCreated h name (
        store_default_persona h prof.uid persona (record c {
          world = (h.put_object profile_key (h.profile_codec.encode prof) c.world).0;
        }),
        true,
      )
  unfolding store_default_persona
  store_default_persona-IsCreated name prof persona c o named persona_named default of_profile =
      record {
        succeeded = refl;
        profile = prof;
        profile_read =
            read-flush_profile h.profile_codec profile_key _ ∙ read_profile prof persona c o;
        profile_id = refl;
        profile_name = named;
        persona = persona;
        persona_read =
            read-flush_profile h.persona_codec (key_of (codes "Persona") (persona.uid ∷ [])) _
            ∙ read_persona persona _ ((s.put_object-Quiet profile_key _ c.world).0 ∙ o);
        persona_name = persona_named;
        persona_default = default;
        persona_profile = of_profile;
      }

  fill_profile-IsCreated :
      (name : Text) (k : h.Container) (d : h.Device) (c : Core h)
      → h.db_is_open c.world ≡ true
      → IsCreated h name (fill_profile h name k d c)
  unfolding fill_profile
  fill_profile-IsCreated name k d c o =
      let prof = new_profile h (h.new_id (c.draws + 1)) name (h.now c.draws) in
      let persona =
        default_persona h (h.new_id (c.draws + 3)) (h.now (c.draws + 2)) prof.uid name in
      subst (IsCreated h name)
        (sym (unless-true _ _ _ (puts profile_key (h.profile_codec.encode prof) c.world o)))
        (store_default_persona-IsCreated name prof persona (record c { draws = c.draws + 4 }) o refl
          refl refl refl)

  create_device-IsCreated :
      (name : Text) (k : h.Container) (d : h.Device) (c : Core h)
      → (h.db_open d (h.db_close c.world)).1 ≡ true
      → IsCreated h name (create_device h name k d c)
  unfolding create_device
  create_device-IsCreated name k d c ok = subst (IsCreated h name) (sym (unless-true _ _ _ ok)) (
      fill_profile-IsCreated name k d (record c { world = (h.db_open d (h.db_close c.world)).0 })
        (s.db_open-opens d (h.db_close c.world) ∙ ok))

  create_target-IsCreated :
      (name : Text) (k : h.Container) (d : h.Device) (c : Core h)
      → (h.open_file k (db_file_name h c) c.world).0 ≡ some d
      → (h.db_open d (h.db_close (h.open_file k (db_file_name h c) c.world).1)).1 ≡ true
      → IsCreated h name (create_target h name k c)
  unfolding create_target
  create_target-IsCreated name k d c opened ok =
      rw (opened, create_target)
        (create_device-IsCreated name k d
          (record c { world = (h.open_file k (db_file_name h c) c.world).1; db_device = some d })
          ok)

  create_closed-IsCreated :
      (password name : Text) (c : Core h) (k : h.Container) (d : h.Device)
      → (h.open_container c.container_path password 0 c.world).0 ≡ some k
      → (let w = (h.open_container c.container_path password 0 c.world).1 in
          (h.open_file k (db_file_name h c) w).0 ≡ some d)
      → (let w = (h.open_container c.container_path password 0 c.world).1 in
          (h.db_open d (h.db_close (h.open_file k (db_file_name h c) w).1)).1 ≡ true)
      → IsCreated h name (create_closed h password name c)
  unfolding create_closed db_file_name
  create_closed-IsCreated password name c k d opened file ok =
      rw (opened, create_closed)
        (create_target-IsCreated name k d
          (record c {
            world = (h.open_container c.container_path password 0 c.world).1;
            container = some k;
          })
          file ok)

  -- With the plugins loaded and a container on disk, where a store into an open database succeeds,
  -- the database is a map and messages come back from the wire format as they were: createProfile
  -- succeeds from every consistent state, closed or with a profile open, in which the container
  -- opens, then its database file, then the database on it. Afterwards a profile is open, and the
  -- profile and a default persona of it, which is active, can be read under the name that was
  -- given.
  pub create_profile-IsCreated :
      (password name : Text) (c : Core h) (k : h.Container) (d : h.Device)
      → IsConsistent h c
      → c.vfs ≡ true
      → c.dbkv_profile ≡ true
      → is_container_initialized h c ≡ true
      → (let closed = close_profile h c in
          (h.open_container closed.container_path password 0 closed.world).0 ≡ some k)
      → (let closed = close_profile h c in
          let w = (h.open_container closed.container_path password 0 closed.world).1 in
          (h.open_file k (db_file_name h closed) w).0 ≡ some d)
      → (let closed = close_profile h c in
          let w = (h.open_container closed.container_path password 0 closed.world).1 in
          (h.db_open d (h.db_close (h.open_file k (db_file_name h closed) w).1)).1 ≡ true)
      → IsCreated h name (create_profile h password name c)
        × (is_profile_open h (create_profile h password name c).0 ≡ true)
  unfolding create_profile
  create_profile-IsCreated password name c k d v vfs db disk opened file ok =
      let closed = close_profile h c in
      let tried = create_closed h password name closed in
      let is : create_profile h password name c ≡ tried =
        if-false _ _ _ (loaded c.vfs c.dbkv_profile vfs db) ∙ if-false _ _ _ (ap not disk) in
      let made = create_closed-IsCreated password name closed k d opened file ok in
      let ends =
        create_closed-Settled h s password name closed (close_profile-IsClosed h s c v)
          (close_profile-dbkv_profile h s c v ∙ db) in
      (
        subst (IsCreated h name) (sym is) made,
        ap (λ (x : Core h × Bool). is_profile_open h x.0) is
            ∙ is_profile_open-opened h s tried.0 (settled_open tried ends made.succeeded),
      )
    where
      loaded : (a b : Bool) → a ≡ true → b ≡ true → (not a || not b) ≡ false
      loaded a b e f = rw (e, f) refl

      settled_open : (x : Core h × Bool) → Settled h x → x.1 ≡ true → IsOpened h x.0
      settled_open (d, true) o e = o
      settled_open (d, false) o e = absurd (cc e)
