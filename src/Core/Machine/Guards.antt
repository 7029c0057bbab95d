-- ===== src/Core/Machine/Guards.antt =====
-- The guarded operations of src/core.cpp keep an open profile open.
use a_social.Base.{
  ℕ, ◌≡◌, inl, inr, refl, sym, ap, ◌∙◌, subst, Bool, true, false, not, ◌||◌, List, [], ◌∷◌, Text,
  if◌then◌else◌, Bool-cases, if-true, if-false,
}
use a_social.Base.Bytes.{Bytes}
use a_social.Protogen.Generated.{Values}
use a_social.Core.Host.{Host, Quiet, Sessions}
use a_social.Core.State.{
  Core, is_profile_open, flush_if, put_and_flush, delete_and_flush, delete_keys, accepts,
}
use a_social.Core.Records.{store_valid}
use a_social.Core.Lifecycle.Sessions.{
  IsOpened, IsConsistent, IsOpened-Quiet, IsOpened-flush_profile,
}
use a_social.Core.Lifecycle.Closing.{is_profile_open-closed}

pub or_false : (a b : Bool) → (a || b) ≡ false → a ≡ false
or_false true b e = cc
or_false false b e = refl

pub or_false_right : (a b : Bool) → (a || b) ≡ false → b ≡ false
or_false_right true b e = cc
or_false_right false b e = e

pub not-false : (a : Bool) → not a ≡ false → a ≡ true
not-false true e = refl
not-false false e = cc

module _ (h : Host) (s : Sessions h) where
  pub IsOpened-of : (c : Core h) → IsConsistent h c → is_profile_open h c ≡ true → IsOpened h c
  IsOpened-of c (inl v) e = absurd (cc (is_profile_open-closed h s c v, e))
  IsOpened-of c (inr o) e = o

  -- An operation that does nothing unless a profile is open.
  guarded {ℓ} :
      {B : Type ℓ} (c : Core h) (f : B → Core h) (b : Bool) (x y : B)
      → IsConsistent h c
      → (b ≡ false → is_profile_open h c ≡ true)
      → f x ≡ c
      → (IsOpened h c → IsOpened h (f y))
      → IsConsistent h (f (if b then x else y))
  guarded c f b x y v opens same keeps = elim (Bool-cases b) [
    | inl stops ↦ subst (IsConsistent h) (sym (ap f (if-true b x y stops) ∙ same)) v
    | inr goes ↦
        subst (IsConsistent h) (sym (ap f (if-false b x y goes)))
          (inr (keeps (IsOpened-of c v (opens goes))))
  ]

  -- The same for an operation that tells whether it succeeded, and for one that makes a message.
  pub guarded_outcome :
      (c : Core h) (b : Bool) (r : Core h × Bool)
      → IsConsistent h c
      → (b ≡ false → is_profile_open h c ≡ true)
      → (IsOpened h c → IsOpened h r.0)
      → IsConsistent h (if b then (c, false) else r).0
  guarded_outcome c b r v opens keeps =
      guarded c (λ (q : Core h × Bool). q.0) b (c, false) r v opens refl keeps

  pub guarded_new {ℓ} :
      {A : Type ℓ} (c : Core h) (b : Bool) (a : A) (r : A × Core h)
      → IsConsistent h c
      → (b ≡ false → is_profile_open h c ≡ true)
      → (IsOpened h c → IsOpened h r.1)
      → IsConsistent h (if b then (a, c) else r).1
  guarded_new {A = A} c b a r v opens keeps =
      guarded c (λ (q : A × Core h). q.1) b (a, c) r v opens refl keeps

  pub open_only : (c : Core h) → not (is_profile_open h c) ≡ false → is_profile_open h c ≡ true
  open_only c e = not-false (is_profile_open h c) e

  pub open_and :
      (c : Core h) (b : Bool)
      → (not (is_profile_open h c) || b) ≡ false
      → is_profile_open h c ≡ true
  open_and c b e = open_only c (or_false (not (is_profile_open h c)) b e)

  flush_if-IsOpened : (b : Bool) (c : Core h) → IsOpened h c → IsOpened h (flush_if h b c).0
  flush_if-IsOpened true c o = IsOpened-flush_profile h s c o
  flush_if-IsOpened false c o = o

  pub put_and_flush-IsOpened :
      (k : Text) (b : Bytes) (c : Core h) → IsOpened h c → IsOpened h (put_and_flush h k b c).0
  unfolding put_and_flush
  put_and_flush-IsOpened k b c o =
      flush_if-IsOpened (h.put_object k b c.world).1 _
        (IsOpened-Quiet h s c _ (s.put_object-Quiet k b) o)

  pub delete_and_flush-IsOpened :
      (k : Text) (c : Core h) → IsOpened h c → IsOpened h (delete_and_flush h k c).0
  unfolding delete_and_flush
  delete_and_flush-IsOpened k c o =
      flush_if-IsOpened (h.delete_object k c.world).1 _
        (IsOpened-Quiet h s c _ (s.delete_object-Quiet k) o)

  pub store_valid-IsOpened :
      (name : Text) (vs : Values) (k : Text) (b : Bytes) (c : Core h)
      → IsOpened h c
      → IsOpened h (store_valid h name vs k b c).0
  unfolding store_valid
  store_valid-IsOpened name vs k b c o = elim (Bool-cases (not (accepts h name vs c))) [
    | inl refused ↦ subst (λ (r : Core h × Bool). IsOpened h r.0) (sym (if-true _ _ _ refused)) o
    | inr accepted ↦
        subst (λ (r : Core h × Bool). IsOpened h r.0) (sym (if-false _ _ _ accepted))
          (put_and_flush-IsOpened k b c o)
  ]

  pub drawn-IsOpened : (c : Core h) (n : ℕ) → IsOpened h c → IsOpened h (record c { draws = n })
  drawn-IsOpened c n o = record {
    handle = o.handle;
    device = o.device;
    container = o.container;
    container_open = o.container_open;
    db_device = o.db_device;
    database = o.database;
    plugin = o.plugin;
  }

  pub Quiet-delete_keys : (ks : List Text) → Quiet h (delete_keys h ks)
  unfolding delete_keys
  Quiet-delete_keys [] w = (refl, λ k. refl)
  Quiet-delete_keys (k ∷ ks) w =
      let (d, e) = s.delete_object-Quiet k w in
      let (p, q) = Quiet-delete_keys ks (h.delete_object k w).0 in (p ∙ d, λ j. q j ∙ e j)
