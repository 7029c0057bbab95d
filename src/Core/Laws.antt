-- ===== src/Core/Laws.antt =====
-- The records of src/core.cpp over a database that is a map: reading back what was stored and
-- deleted.
pub mod Contacts
pub mod Messages
mod Keys
pub mod Cascade
pub mod Creation
pub mod Refusal
use a_social.Base.{
  ℕ, ◌≡◌, ◌≢◌, ◌↔◌, ◌⊎◌, inl, inr, refl, sym, ap, ◌∙◌, subst, Bool, true, false, not, ◌&&◌, ◌||◌,
  Option, none, some, List, [], ◌∷◌, ◌++◌, Text, text_eq, if◌then◌else◌, Bool-cases, Option-cases,
  if-true, if-false, arith, codes, join, ==_refl,
}
use a_social.Base.Bytes.{Bytes}
use a_social.Protogen.Descriptors.{EntityInfo}
use a_social.Protogen.Generated.{key, Values}
use a_social.Core.Host.{Codec, Host, Sessions, IsMap}
use a_social.Core.State.{
  Core, is_profile_open, flush_profile, flush_if, put_and_flush, delete_and_flush, accepts,
  retrieve, decoded, is_empty, key_of,
}
use a_social.Core.Schema.{entity}
use a_social.Core.Lifecycle.Sessions.{IsOpened}
use a_social.Core.Lifecycle.Closing.{is_profile_open-opened}
use a_social.Core.Records.{or_default, idle, store_valid}

text_eq-append : (p xs ys : Text) → text_eq (p ++ xs) (p ++ ys) ≡ text_eq xs ys
unfolding text_eq
text_eq-append [] xs ys = refl
text_eq-append (c ∷ p) xs ys = ground (arith, text_eq-append p xs ys)

-- The keys of one kind and one owner are equal just when the identifiers are.
pub text_eq-key :
    (e : EntityInfo) (owner a b : Text)
    → text_eq (key e (owner ∷ a ∷ [])) (key e (owner ∷ b ∷ [])) ≡ text_eq a b
unfolding key join
text_eq-key e owner a b =
    text_eq-append e.key_prefix _ _
    ∙ text_eq-append (b'/' ∷ []) (owner ++ b'/' ∷ a) (owner ++ b'/' ∷ b)
    ∙ text_eq-append owner _ _
    ∙ text_eq-append (b'/' ∷ []) a b

pub text_eq-key_one :
    (e : EntityInfo) (a b : Text) → text_eq (key e (a ∷ [])) (key e (b ∷ [])) ≡ text_eq a b
unfolding key join
text_eq-key_one e a b = text_eq-append e.key_prefix _ _ ∙ text_eq-append (b'/' ∷ []) a b

module _ (h : Host) where
  outcome-flush_if : (b : Bool) (c : Core h) → (flush_if h b c).1 ≡ b
  outcome-flush_if true c = refl
  outcome-flush_if false c = refl

  -- A store that succeeds has been accepted.
  pub store_valid-stores :
      (name : Text) (vs : Values) (k : Text) (b : Bytes) (c : Core h)
      → (store_valid h name vs k b c).1 ≡ true
      → (accepts h name vs c ≡ true) × (store_valid h name vs k b c ≡ put_and_flush h k b c)
  unfolding store_valid
  store_valid-stores name vs k b c ok = stored (accepts h name vs c) ok
    where
      stored :
          (a : Bool)
          → ((λ (r : Core h × Bool). r.1) (if not a then (c, false) else put_and_flush h k b c))
            ≡ true
          → (a ≡ true)
            × ((if not a then (c, false) else put_and_flush h k b c) ≡ put_and_flush h k b c)
      stored true e = (refl, refl)
      stored false e = cc

  -- What a get function finds of one owner.
  abbrev pub fetch : {A : Type 0} → Codec A → A → Text → Text → Text → h.World → A
  fetch codec d name owner uid w =
      or_default d (retrieve h codec (key_of name (owner ∷ uid ∷ [])) w)

  -- A flush leaves who is active.
  active-flush_if :
      (b : Bool) (c : Core h) → (flush_if h b c).0.active_persona_id ≡ c.active_persona_id
  unfolding flush_profile
  active-flush_if false c = refl
  active-flush_if true c = flushed (c.dbkv_profile && h.db_is_open c.world)
    where
      flushed :
          (b : Bool)
          → (λ (d : Core h). d.active_persona_id)
              (if b then record c { world = h.db_flush c.world } else c)
            ≡ c.active_persona_id
      flushed true = refl
      flushed false = refl

  pub active-put_and_flush :
      (k : Text) (b : Bytes) (c : Core h)
      → (put_and_flush h k b c).0.active_persona_id ≡ c.active_persona_id
  unfolding put_and_flush
  active-put_and_flush k b c = active-flush_if (h.put_object k b c.world).1 _

  pub active-delete_and_flush :
      (k : Text) (c : Core h) → (delete_and_flush h k c).0.active_persona_id ≡ c.active_persona_id
  unfolding delete_and_flush
  active-delete_and_flush k c = active-flush_if (h.delete_object k c.world).1 _

  -- With a profile open and a persona active nothing is idle.
  pub idle-opened :
      (s : Sessions h) (c : Core h)
      → IsOpened h c
      → is_empty c.active_persona_id ≡ false
      → idle h c ≡ false
  idle-opened s c o active = rw (is_profile_open-opened h s c o) active

  -- An operation behind a guard that succeeded has passed it.
  pub passed :
      (b : Bool) (c : Core h) (r : Core h × Bool)
      → ((λ (q : Core h × Bool). q.1) (if b then (c, false) else r)) ≡ true
      → (b ≡ false) × ((if b then (c, false) else r) ≡ r)
  passed true c r e = cc
  passed false c r e = (refl, refl)

  -- A store behind a guard that succeeded is its store.
  pub stored :
      (b : Bool) (c : Core h) (name : Text) (vs : Values) (k : Text) (x : Bytes) (d : Core h)
      → ((λ (q : Core h × Bool). q.1) (if b then (c, false) else store_valid h name vs k x d))
        ≡ true
      → (b ≡ false)
        × ((if b then (c, false) else store_valid h name vs k x d) ≡ put_and_flush h k x d)
  stored b c name vs k x d ok =
      let (goes, same) = passed b c (store_valid h name vs k x d) ok in
      (
        goes,
        same
            ∙ (store_valid-stores name vs k x d
                (sym (ap (λ (q : Core h × Bool). q.1) same) ∙ ok)).1,
      )

  pub delete_and_flush-works :
      (k : Text) (c : Core h)
      → (h.delete_object k c.world).1 ≡ true
      → (delete_and_flush h k c).1 ≡ true
  unfolding delete_and_flush
  delete_and_flush-works k c works = outcome-flush_if (h.delete_object k c.world).1 _ ∙ works

module _ (h : Host) (m : IsMap h) where
  pub get-flush_profile :
      (c : Core h) (j : Text) → h.get_object j (flush_profile h c).world ≡ h.get_object j c.world
  unfolding flush_profile
  get-flush_profile c j = flushed (c.dbkv_profile && h.db_is_open c.world)
    where
      flushed :
          (b : Bool)
          → h.get_object j
              ((λ (d : Core h). d.world) (if b then record c { world = h.db_flush c.world } else c))
            ≡ h.get_object j c.world
      flushed true = m.get-flush c.world j
      flushed false = refl

  get-flush_if :
      (b : Bool) (c : Core h) (j : Text)
      → h.get_object j (flush_if h b c).0.world ≡ h.get_object j c.world
  get-flush_if true c j = get-flush_profile c j
  get-flush_if false c j = refl

  pub get-put_and_flush :
      (k : Text) (b : Bytes) (c : Core h) (j : Text)
      → (put_and_flush h k b c).1 ≡ true
      → h.get_object j (put_and_flush h k b c).0.world
        ≡ (if text_eq k j then some b else h.get_object j c.world)
  unfolding put_and_flush
  get-put_and_flush k b c j ok =
      get-flush_if (h.put_object k b c.world).1 _ j
      ∙ m.get-put k b c.world j (sym (outcome-flush_if h (h.put_object k b c.world).1 _) ∙ ok)

  pub get-delete_and_flush :
      (k : Text) (c : Core h) (j : Text)
      → (delete_and_flush h k c).1 ≡ true
      → h.get_object j (delete_and_flush h k c).0.world
        ≡ (if text_eq k j then none else h.get_object j c.world)
  unfolding delete_and_flush
  get-delete_and_flush k c j ok =
      get-flush_if (h.delete_object k c.world).1 _ j
      ∙ m.get-delete k c.world j (sym (outcome-flush_if h (h.delete_object k c.world).1 _) ∙ ok)

  pub fetch-put_and_flush :
      {A : Type 0} (codec : Codec A) (d : A) (name owner uid : Text) (x : A) (c : Core h) (j : Text)
      → codec.decode (codec.encode x) ≡ some x
      → (put_and_flush h (key_of name (owner ∷ uid ∷ [])) (codec.encode x) c).1 ≡ true
      → fetch h codec d name owner j
          (put_and_flush h (key_of name (owner ∷ uid ∷ [])) (codec.encode x) c).0.world
        ≡ (if text_eq uid j then x else fetch h codec d name owner j c.world)
  fetch-put_and_flush codec d name owner uid x c j back ok =
      ap (λ o. or_default d (decoded h codec o))
        (get-put_and_flush _ (codec.encode x) c (key_of name (owner ∷ j ∷ [])) ok
          ∙ ap
              (λ b.
                if b
                then some (codec.encode x)
                else h.get_object (key_of name (owner ∷ j ∷ [])) c.world)
              (text_eq-key (entity name) owner uid j))
      ∙ by_cases (text_eq uid j)
    where
      by_cases :
          (b : Bool)
          → or_default d (
              decoded h codec (
                if b
                then some (codec.encode x)
                else h.get_object (key_of name (owner ∷ j ∷ [])) c.world))
            ≡ (if b then x else fetch h codec d name owner j c.world)
      by_cases true = ap (or_default d) back
      by_cases false = refl

  pub fetch-delete_and_flush :
      {A : Type 0} (codec : Codec A) (d : A) (name owner uid : Text) (c : Core h) (j : Text)
      → (delete_and_flush h (key_of name (owner ∷ uid ∷ [])) c).1 ≡ true
      → fetch h codec d name owner j (delete_and_flush h (key_of name (owner ∷ uid ∷ [])) c).0.world
        ≡ (if text_eq uid j then d else fetch h codec d name owner j c.world)
  fetch-delete_and_flush codec d name owner uid c j ok =
      ap (λ o. or_default d (decoded h codec o))
        (get-delete_and_flush _ c (key_of name (owner ∷ j ∷ [])) ok
          ∙ ap (λ b. if b then none else h.get_object (key_of name (owner ∷ j ∷ [])) c.world)
              (text_eq-key (entity name) owner uid j))
      ∙ by_cases (text_eq uid j)
    where
      by_cases :
          (b : Bool)
          → or_default d (
              decoded h codec
                (if b then none else h.get_object (key_of name (owner ∷ j ∷ [])) c.world))
            ≡ (if b then d else fetch h codec d name owner j c.world)
      by_cases true = refl
      by_cases false = refl
