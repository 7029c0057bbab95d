-- ===== src/Core/Laws/Refusal.antt =====
-- What the validation of src/core.cpp refuses: a reference that no key begins with.
use a_social.Base.{
  ◌+◌, ◌<◌, ◌≡◌, ◌⊎◌, inl, inr, refl, ap, ◌∙◌, subst, arith, Bool, true, false, not, ◌||◌, List, [],
  ◌∷◌, ◌++◌, map, Text, text_eq, length, ◌==◌, if◌then◌else◌, Bool-cases, if-false, if-true, codes,
}
use a_social.Protogen.Descriptors.{FkTarget, FieldInfo}
use a_social.Protogen.Generated.{Values, value_of, ForeignKeyRef, field_refs, target_refs}
use a_social.Protogen.Generated.Checks.{AllFound, validate_full_found}
use a_social.Core.Entities.{Persona, persona_values}
use a_social.Core.Schema.{entity}
use a_social.Core.Schema.Entries.{view, targets_of_persona, targets_of_member}
use a_social.Core.Host.{Host}
use a_social.Core.State.{Core, is_empty, is_profile_open, key_exists, accepts}
use a_social.Core.Records.Personas.{store_persona}
use a_social.Core.Records.Groups.{add_group_member}
use a_social.Core.Records.{store_valid}
use a_social.Base.Bytes.{Bytes}

-- The references of a message need only the names and the targets of the fields.
unfoldable refs_by : List (Text × List FkTarget) → Values → List ForeignKeyRef
refs_by [] vs = []
refs_by ((n, ts) ∷ fs) vs =
    let rest = refs_by fs vs in
    if length (value_of n vs) == 0 then rest else target_refs n (value_of n vs) ts ++ rest

refs_by-field_refs :
    (fs : List FieldInfo) (vs : Values) → field_refs fs vs ≡ refs_by (map view fs) vs
unfolding field_refs refs_by
refs_by-field_refs [] vs = refl
refs_by-field_refs (f ∷ fs) vs =
    ap
      (λ rest.
        if length (value_of f.proto_name vs) == 0
        then rest
        else target_refs f.proto_name (value_of f.proto_name vs) f.fk_targets ++ rest)
      (refs_by-field_refs fs vs)

-- A first reference that is set has been found.
first_found :
    (exists : Text → Bool) (n : Text) (t : FkTarget) (fs : List (Text × List FkTarget))
    (vs : Values)
    → AllFound exists (refs_by ((n, t ∷ []) ∷ fs) vs)
    → 0 < length (value_of n vs)
    → exists (t.key_prefix ++ (codes "/") ++ value_of n vs) ≡ true
unfolding refs_by target_refs
first_found exists n t fs vs found set = elim (Bool-cases (length (value_of n vs) == 0)) [
  | inl empty ↦ absurd (ground (arith, empty, set))
  | inr full ↦ set_found (subst (AllFound exists) (if-false _ _ _ full) found).0
]
  where
    set_found :
        ((length (value_of n vs) ≡ 0)
          ⊎ (exists (t.key_prefix ++ (codes "/") ++ value_of n vs) ≡ true))
        → exists (t.key_prefix ++ (codes "/") ++ value_of n vs) ≡ true
    set_found (inl e) = absurd (ground (arith, e, set))
    set_found (inr e) = e

module _ (h : Host) where
  -- No key begins with this.
  abbrev pub NoKey : Text → Core h → Type 0
  NoKey prefix c = length (h.list_objects prefix c.world) ≡ 0

  key_exists-none : (prefix : Text) (c : Core h) → NoKey prefix c → key_exists h c prefix ≡ false
  unfolding key_exists
  key_exists-none prefix c e = missing (not c.dbkv_profile || not (h.db_is_open c.world))
    where
      missing :
          (b : Bool)
          → (if b then false else not (length (h.list_objects prefix c.world) == 0)) ≡ false
      missing true = refl
      missing false = ground (arith, e)

  refused :
      (name n : Text) (t : FkTarget) (fs : List (Text × List FkTarget)) (vs : Values) (c : Core h)
      → map view (entity name).fk_fields ≡ (n, t ∷ []) ∷ fs
      → 0 < length (value_of n vs)
      → NoKey (t.key_prefix ++ (codes "/") ++ value_of n vs) c
      → accepts h name vs c ≡ false
  refused name n t fs vs c is set missing = elim (Bool-cases (accepts h name vs c)) [
    | inr bad ↦ bad
    | inl ok ↦
        let all = ((validate_full_found (entity name) vs (key_exists h c)).0 ok).1 in
        let refs = refs_by-field_refs (entity name).fk_fields vs ∙ ap (λ v. refs_by v vs) is in
        absurd (
          cc (
            first_found (key_exists h c) n t fs vs (subst (AllFound (key_exists h c)) refs all) set,
            key_exists-none _ c missing,
          ))
  ]

  refused_store :
      (b : Bool) (c d : Core h) (name : Text) (vs : Values) (k : Text) (x : Bytes)
      → accepts h name vs d ≡ false
      → ((λ (q : Core h × Bool). q.1) (if b then (c, false) else store_valid h name vs k x d))
        ≡ false
  unfolding store_valid
  refused_store true c d name vs k x bad = refl
  refused_store false c d name vs k x bad =
      ap (λ (q : Core h × Bool). q.1) (if-true (not (accepts h name vs d)) _ _ (ap not bad))

  -- storePersona refuses a persona of a profile when no key of the database begins with `p/` and
  -- the identifier of the profile, and addGroupMember refuses a member of a group when none begins
  -- with `g/` and the identifier of the group. (The key of a profile is `p`, and that of a group
  -- has its persona before its identifier.)
  pub store-refused :
      (c : Core h) (p : Persona) (group_uid contact_uid : Text)
      → 0 < length p.profile_uid
      → NoKey (codes "p/" ++ p.profile_uid) c
      → 0 < length group_uid
      → NoKey (codes "g/" ++ group_uid) c
      → ((store_persona h p c).1 ≡ false) × ((add_group_member h group_uid contact_uid c).1 ≡ false)
  unfolding store_persona add_group_member value_of text_eq
  store-refused c p group_uid contact_uid set missing group_set group_missing = (
    refused_store (not (is_profile_open h c) || is_empty p.uid) c (record c { draws = c.draws + 1 })
        (codes "Persona") (persona_values (record p { updated_at = h.now c.draws })) _ _
        (refused (codes "Persona") (codes "profile_uid") _ [] _ (record c { draws = c.draws + 1 })
          targets_of_persona set missing),
    refused_store (not (is_profile_open h c)) c (record c { draws = c.draws + 2 })
        (codes "GroupMember") _ _ _
        (refused (codes "GroupMember") (codes "group_uid") _ _ _ (record c { draws = c.draws + 2 })
          targets_of_member group_set group_missing),
  )
