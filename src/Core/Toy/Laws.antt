-- ===== src/Core/Toy/Laws.antt =====
-- The host in memory behaves as documented.
use a_social.Base.{
  some-injective, ℕ, zero, suc, ◌≡◌, ◌≢◌, ◌↔◌, inl, inr, refl, sym, ap, ◌∙◌, Bool, true, false,
  ◌&&◌, ◌||◌, Option, none, some, List, [], ◌∷◌, ◌++◌, Text, text_eq, length, get_or, set,
  if◌then◌else◌, Bool-cases, starts_with, contains, text_eq_sound, text_eq_refl,
}
use a_social.Base.Bytes.{Bytes}
use a_social.Core.Host.{Sessions, IsMap, RoundTrips}
use a_social.Core.Lifecycle.Sessions.{IsClosed}
use a_social.Core.Toy.{lookup, remove, keys_under, toy, started}
use a_social.Core.Toy.Codecs.{profile_back, persona_back, contact_back}

swap :
    (a b : Bool) (x o : Option Bytes)
    → (a ≡ true → b ≡ true → ⊥)
    → (if a then x else if b then none else o) ≡ (if b then none else if a then x else o)
swap true true x o n = absurd (n refl refl)
swap true false x o n = refl
swap false b x o n = refl

drop_first :
    (a : Bool) (x o : Option Bytes)
    → (if a then none else o) ≡ (if a then none else if a then x else o)
drop_first true x o = refl
drop_first false x o = refl

same_none : {A : Type 0} (a : Bool) → none ≡ (if◌then◌else◌ {A = Option A} a none none)
same_none true = refl
same_none false = refl

lookup-remove :
    (k : Text) (os : List (Text × Bytes)) (j : Text)
    → lookup j (remove k os) ≡ (if text_eq k j then none else lookup j os)
unfolding lookup remove
lookup-remove k [] j = same_none (text_eq k j)
lookup-remove k ((i, b) ∷ os) j = elim (Bool-cases (text_eq i k)) [
  | inl same ↦
      ap (λ x. lookup j (if x then remove k os else (i, b) ∷ remove k os)) same
      ∙ lookup-remove k os j
      ∙ drop_first (text_eq k j) (some b) (lookup j os)
      ∙ ap (λ x. if text_eq k j then none else if text_eq x j then some b else lookup j os)
          (sym (text_eq_sound i k same))
  | inr apart ↦
      ap (λ x. lookup j (if x then remove k os else (i, b) ∷ remove k os)) apart
      ∙ ap (λ o. if text_eq i j then some b else o) (lookup-remove k os j)
      ∙ swap (text_eq i j) (text_eq k j) (some b) (lookup j os) (λ e f. cc (
        apart,
        ap (λ x. text_eq i x) (text_eq_sound i j e ∙ sym (text_eq_sound k j f)),
        text_eq_refl i,
      ))
]

get_or-append : (xs : List Bool) → get_or (xs ++ (true ∷ [])) (length xs) false ≡ true
get_or-append [] = refl
get_or-append (x ∷ xs) = get_or-append xs

get_or-keeps :
    (xs : List Bool) (k : ℕ) → get_or xs k false ≡ true → get_or (xs ++ (true ∷ [])) k false ≡ true
get_or-keeps [] k e = absurd (cc e)
get_or-keeps (x ∷ xs) zero e = e
get_or-keeps (x ∷ xs) (suc k) e = get_or-keeps xs k e

get_or-length : (xs : List Bool) → get_or xs (length xs) false ≡ false
get_or-length [] = refl
get_or-length (x ∷ xs) = get_or-length xs

get_or-set_other :
    (xs : List Bool) (j k : ℕ) → j ≢ k → get_or (set xs k false) j false ≡ get_or xs j false
get_or-set_other [] j k n = refl
get_or-set_other (x ∷ xs) zero zero n = absurd (n refl)
get_or-set_other (x ∷ xs) zero (suc k) n = refl
get_or-set_other (x ∷ xs) (suc j) zero n = refl
get_or-set_other (x ∷ xs) (suc j) (suc k) n = get_or-set_other xs j k (λ e. n (ap suc e))

contains-if :
    (u : Bool) (k : Text) (ks : List Text) (j : Text)
    → contains j (if u then k ∷ ks else ks) ≡ ((u && text_eq k j) || contains j ks)
unfolding contains
contains-if true k ks j = first (text_eq k j)
  where
    first : (b : Bool) → (elim b [ true ↦ true | false ↦ contains j ks ]) ≡ (b || contains j ks)
    first true = refl
    first false = refl
contains-if false k ks j = refl

listed :
    (u t s c : Bool) (x o : Option Bytes)
    → x ≢ none
    → (t ≡ true → u ≡ s)
    → (c ≡ true) ↔ ((s ≡ true) × (o ≢ none))
    → (((u && t) || c) ≡ true) ↔ ((s ≡ true) × ((if t then x else o) ≢ none))
listed true true s c x o some_x same ih = (λ e. (sym (same refl), some_x), λ e. refl)
listed false true s c x o some_x same ih =
    (λ e. absurd (cc (same refl, (ih.0 e).0)), λ e. absurd (cc (same refl, e.0)))
listed true false s c x o some_x same ih = ih
listed false false s c x o some_x same ih = ih

list_iff :
    (p j : Text) (os : List (Text × Bytes))
    → (contains j (keys_under p os) ≡ true) ↔ ((starts_with j p ≡ true) × (lookup j os ≢ none))
unfolding contains keys_under lookup
list_iff p j [] = (λ e. absurd (cc e), λ e. absurd (e.1 refl))
list_iff p j ((k, b) ∷ os) =
    let step =
      listed (starts_with k p) (text_eq k j) (starts_with j p) (contains j (keys_under p os))
        (some b) (lookup j os) (λ bad. cc bad)
        (λ e. ap (λ x. starts_with x p) (text_eq_sound k j e)) (list_iff p j os) in
    let same = contains-if (starts_with k p) k (keys_under p os) j in
    (λ e. step.0 (sym same ∙ e), λ e. same ∙ step.1 e)

pub toy-Sessions : Sessions toy
toy-Sessions = record {
  open_container-opens =
      λ path pw n w k e. rw (sym (some-injective e)) (get_or-append w.containers);
  open_container-db = λ path pw n w. refl;
  open_container-keeps = λ path pw n w k e. get_or-keeps w.containers k e;
  open_container-new = λ path pw n w j k e f same. absurd (
      cc (
        e,
        ap (λ i. get_or w.containers i false) (same ∙ sym (some-injective f)),
        get_or-length w.containers,
      ));
  close_container-other = λ j k w n. get_or-set_other w.containers j k n;
  delete_container-other = λ j k w n. refl;
  open_file-Quiet = λ k name w. (refl, λ j. refl);
  delete_file-Quiet = λ k name w. (refl, λ j. refl);
  close_container-db = λ k w. refl;
  delete_container-db = λ k w. refl;
  close_device-Quiet = λ d w. (refl, λ j. refl);
  delete_device-Quiet = λ d w. (refl, λ j. refl);
  progress-Quiet = λ n w. (refl, λ j. refl);
  set_setting-Quiet = λ k v w. (refl, λ j. refl);
  app_exit-Quiet = λ w. (refl, λ j. refl);
  db_open-opens = λ d w. refl;
  db_open-container = λ d w k. refl;
  db_close-closes = λ w. refl;
  db_close-container = λ w k. refl;
  db_flush-Quiet = λ w. (refl, λ j. refl);
  put_object-Quiet = λ k b w. (refl, λ j. refl);
  delete_object-Quiet = λ k w. (refl, λ j. refl);
}

pub toy-IsMap : IsMap toy
unfolding lookup
toy-IsMap = record {
  get-put = λ k b w j e. refl;
  get-delete = λ k w j e. lookup-remove k w.objects j;
  get-flush = λ w j. refl;
  list-iff = λ p j w. list_iff p j w.objects;
}

pub toy-RoundTrips : RoundTrips toy
toy-RoundTrips = record { profile = profile_back; persona = persona_back; contact = contact_back }

pub started-IsClosed : IsClosed toy started
started-IsClosed = record {
  container = refl;
  db_device = refl;
  database = refl;
  profile = refl;
  persona = refl;
}
