-- ===== src/Core/Laws/Cascade.antt =====
-- What deletePersona of src/core.cpp deletes with a persona.
use a_social.Base.{
  ◌≡◌, ◌⊎◌, inl, inr, refl, sym, ap, ◌∙◌, Bool, true, false, not, ◌&&◌, ◌||◌, Option, none, some,
  List, [], ◌∷◌, Text, text_eq, if◌then◌else◌, Bool-cases, Option-cases, if-true, if-false, codes,
  starts_with, contains,
}
use a_social.Core.Schema.{entity}
use a_social.Core.Entities.{Group}
use a_social.Core.Host.{Host, IsMap, Sessions}
use a_social.Core.Machine.Storing.{Quiet-delete_members_of, Quiet-delete_groups, Quiet-delete_kind}
use a_social.Core.State.{Core, prefix_of, retrieve, is_profile_open, delete_and_flush, delete_keys}
use a_social.Core.Records.Personas.{
  persona_key, delete_members_of, delete_groups, delete_kind, delete_records_of, delete_persona,
}
use a_social.Core.Laws.{get-delete_and_flush, delete_and_flush-works}
use a_social.Core.Laws.Keys.{
  merge, absent_or, present, listed, through, past, starts_with-member, contains_empty,
  contains_cases, contains_neither,
}

-- A key that a persona's deletion reaches: of one of its records, or its own.
abbrev pub is_owned : (h : Host) → Text → Text → Bool
is_owned h uid j =
    starts_with j (prefix_of (codes "Contact") (uid ∷ []))
    || (starts_with j (prefix_of (codes "Group") (uid ∷ []))
        || (starts_with j (prefix_of (codes "Message") (uid ∷ []))
            || (starts_with j (prefix_of (codes "Event") (uid ∷ []))
                || text_eq (persona_key h uid) j)))

database_open : (a b c d : Bool) → (a && (b && (c && d))) ≡ true → c ≡ true
database_open a b true d e = refl
database_open true true false d e = cc
database_open true false false d e = cc
database_open false b false d e = cc

module _ (h : Host) (m : IsMap h) (s : Sessions h)
    (works : (k : Text) (w : h.World)
      → h.db_is_open w ≡ true
      → (h.delete_object k w).1 ≡ true) where
  get-delete_keys :
      (ks : List Text) (w : h.World) (j : Text)
      → h.db_is_open w ≡ true
      → h.get_object j (delete_keys h ks w) ≡ (if contains j ks then none else h.get_object j w)
  unfolding delete_keys contains
  get-delete_keys [] w j o = refl
  get-delete_keys (k ∷ ks) w j o =
      get-delete_keys ks (h.delete_object k w).0 j ((s.delete_object-Quiet k w).0 ∙ o)
      ∙ ap (λ o. if contains j ks then none else o) (m.get-delete k w j (works k w o))
      ∙ merge (text_eq k j) (contains j ks) (h.get_object j w)

  -- Deleting the keys of a prefix deletes what the prefix begins.
  get-delete_prefix :
      (p : Text) (w : h.World) (j : Text)
      → h.db_is_open w ≡ true
      → h.get_object j (delete_keys h (h.list_objects p w) w)
        ≡ (if starts_with j p then none else h.get_object j w)
  get-delete_prefix p w j o =
      get-delete_keys (h.list_objects p w) w j o
      ∙ listed (contains j (h.list_objects p w)) (starts_with j p) (h.get_object j w)
          (m.list-iff p j w)

  -- The keys of groups, and with them keys of members.
  get-delete_members_of :
      (g : Option Group) (w : h.World) (j : Text)
      → h.db_is_open w ≡ true
      → ((h.get_object j w ≡ none) → h.get_object j (delete_members_of h g w) ≡ none)
        × ((starts_with j (prefix_of (codes "GroupMember") []) ≡ false)
            → h.get_object j (delete_members_of h g w) ≡ h.get_object j w)
  get-delete_members_of none w j o = (λ e. e, λ e. refl)
  get-delete_members_of (some g) w j o =
      let p = prefix_of (codes "GroupMember") (g.uid ∷ []) in
      (
        λ e. get-delete_prefix p w j o ∙ absent_or _ _ (inl e),
        λ e.
            get-delete_prefix p w j o
            ∙ present _ _ (starts_with-member (entity (codes "GroupMember")) j g.uid e),
      )

  abbrev GroupsDone : List Text → Text → h.World → h.World → Type 0
  GroupsDone ks j w v =
      ((h.get_object j w ≡ none) ⊎ (contains j ks ≡ true) → h.get_object j v ≡ none)
      × ((starts_with j (prefix_of (codes "GroupMember") []) ≡ false)
          → (contains j ks ≡ false)
          → h.get_object j v ≡ h.get_object j w)

  groups_next :
      (k : Text) (ks : List Text) (g : Option Group) (j : Text) (w v : h.World)
      → h.db_is_open w ≡ true
      → GroupsDone ks j (h.delete_object k (delete_members_of h g w)).0 v
      → GroupsDone (k ∷ ks) j w v
  groups_next k ks g j w v o rest = (gone, λ e n. kept e (contains_neither k ks j n))
    where
      deleted :
          h.get_object j (h.delete_object k (delete_members_of h g w)).0
          ≡ (if text_eq k j then none else h.get_object j (delete_members_of h g w))
      deleted =
          m.get-delete k (delete_members_of h g w) j
            (works k (delete_members_of h g w) ((Quiet-delete_members_of h s g w).0 ∙ o))

      gone : (h.get_object j w ≡ none) ⊎ (contains j (k ∷ ks) ≡ true) → h.get_object j v ≡ none
      gone (inl e) =
          rest.0 (inl (deleted ∙ absent_or _ _ (inl ((get-delete_members_of g w j o).0 e))))
      gone (inr e) = elim (contains_cases k ks j e) [
        | inl this ↦ rest.0 (inl (deleted ∙ absent_or _ _ (inr this)))
        | inr later ↦ rest.0 (inr later)
      ]

      kept :
          (starts_with j (prefix_of (codes "GroupMember") []) ≡ false)
          → (text_eq k j ≡ false) × (contains j ks ≡ false)
          → h.get_object j v ≡ h.get_object j w
      kept e (n, l) = rest.1 e l ∙ deleted ∙ present _ _ n ∙ (get-delete_members_of g w j o).1 e

  get-delete_groups :
      (ks : List Text) (w : h.World) (j : Text)
      → h.db_is_open w ≡ true
      → GroupsDone ks j w (delete_groups h ks w)
  unfolding delete_groups
  get-delete_groups [] w j o = (none_left, λ e n. refl)
    where
      none_left : (h.get_object j w ≡ none) ⊎ (contains j [] ≡ true) → h.get_object j w ≡ none
      none_left (inl e) = e
      none_left (inr e) = absurd (cc (contains_empty j, e))
  get-delete_groups (k ∷ ks) w j o =
      let g = retrieve h h.group_codec k w in
      let left = delete_members_of h g w in
      groups_next k ks g j w _ o (
        get-delete_groups ks (h.delete_object k left).0 j
          ((s.delete_object-Quiet k left).0 ∙ (Quiet-delete_members_of h s g w).0 ∙ o))

  -- The groups of a persona.
  get-delete_persona_groups :
      (p : Text) (w : h.World) (j : Text)
      → h.db_is_open w ≡ true
      → ((h.get_object j w ≡ none) ⊎ (starts_with j p ≡ true)
          → h.get_object j (delete_groups h (h.list_objects p w) w) ≡ none)
        × ((starts_with j (prefix_of (codes "GroupMember") []) ≡ false)
            → (starts_with j p ≡ false)
            → h.get_object j (delete_groups h (h.list_objects p w) w) ≡ h.get_object j w)
  get-delete_persona_groups p w j o =
      let done = get-delete_groups (h.list_objects p w) w j o in
      (λ e. done.0 (reached e), λ e n. done.1 e (unlisted n))
    where
      reached :
          (h.get_object j w ≡ none) ⊎ (starts_with j p ≡ true)
          → (h.get_object j w ≡ none) ⊎ (contains j (h.list_objects p w) ≡ true)
      reached (inl e) = inl e
      reached (inr e) = elim (Option-cases (h.get_object j w)) [
        | inl lost ↦ inl lost
        | inr (x, found) ↦ inr ((m.list-iff p j w).1 (e, λ bad. cc (found, bad)))
      ]

      unlisted : (starts_with j p ≡ false) → contains j (h.list_objects p w) ≡ false
      unlisted n = elim (Bool-cases (contains j (h.list_objects p w))) [
        | inl listed ↦ absurd (cc (((m.list-iff p j w).0 listed).0, n))
        | inr absent ↦ absent
      ]

  -- With a profile open, where the database is a map and a delete in an open database succeeds,
  -- deletePersona leaves no contact, group, message or event of the persona and not the persona
  -- itself, and leaves every other key as it was; for the keys that are none of a member of a group.
  pub delete_persona_lem :
      (uid : Text) (c : Core h) (j : Text)
      → is_profile_open h c ≡ true
      → starts_with j (prefix_of (codes "GroupMember") []) ≡ false
      → h.get_object j (delete_persona h uid c).0.world
        ≡ (if is_owned h uid j then none else h.get_object j c.world)
  unfolding delete_persona delete_records_of is_profile_open
  delete_persona_lem uid c j opened n =
      let w1 = delete_kind h (codes "Contact") uid c.world in
      let groups = prefix_of (codes "Group") (uid ∷ []) in
      let w2 = delete_groups h (h.list_objects groups w1) w1 in
      let w3 = delete_kind h (codes "Message") uid w2 in
      let d : Core h = record c { world = delete_kind h (codes "Event") uid w3 } in
      let o0 : h.db_is_open c.world ≡ true = database_open _ _ _ _ opened in
      let o1 = (Quiet-delete_kind h s (codes "Contact") uid c.world).0 ∙ o0 in
      let o2 = (Quiet-delete_groups h s (h.list_objects groups w1) w1).0 ∙ o1 in
      let o3 = (Quiet-delete_kind h s (codes "Message") uid w2).0 ∙ o2 in
      let o4 = (Quiet-delete_kind h s (codes "Event") uid w3).0 ∙ o3 in
      let of_groups = get-delete_persona_groups groups w1 j o1 in
      let is =
        ap (λ (r : Core h × Bool). h.get_object j r.0.world)
          (if-false (not (is_profile_open h c)) (c, false)
            (delete_and_flush h (persona_key h uid) d) (ap not opened)) in
      let last =
        get-delete_and_flush h m (persona_key h uid) d j
          (delete_and_flush-works h (persona_key h uid) d (works _ _ o4)) in
      elim (Bool-cases (is_owned h uid j)) [
        | inl owned ↦
            is
            ∙ through (h.get_object j c.world) _ _ _ _ _ _ _ _ _ _
                (get-delete_prefix _ c.world j o0) of_groups.0 (get-delete_prefix _ w2 j o2)
                (get-delete_prefix _ w3 j o3) last owned
            ∙ sym (if-true (is_owned h uid j) none (h.get_object j c.world) owned)
        | inr other ↦
            is
            ∙ past (h.get_object j c.world) _ _ _ _ _ _ _ _ _ _ (get-delete_prefix _ c.world j o0)
                (of_groups.1 n) (get-delete_prefix _ w2 j o2) (get-delete_prefix _ w3 j o3) last
                other
            ∙ sym (if-false (is_owned h uid j) none (h.get_object j c.world) other)
      ]
