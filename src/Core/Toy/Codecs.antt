-- ===== src/Core/Toy/Codecs.antt =====
-- A wire format for the host in memory: each field is a cell, with its length before it.
use a_social.Base.{
  ℕ, zero, suc, ◌≡◌, refl, ap, ◌∙◌, Bool, true, false, Option, none, some, List, [], ◌∷◌, ◌++◌,
  Text, length, take, drop,
}
use a_social.Base.Bytes.{Bytes}
use a_social.Core.Entities.{Profile, ProfileParameter, Persona, Contact}
use a_social.Core.Host.{Codec}

unfoldable pub flatten : List Bytes → Bytes
flatten [] = []
flatten (c ∷ cs) = length c ∷ (c ++ flatten cs)

unfoldable pub cells : ℕ → Bytes → List Bytes
cells zero b = []
cells (suc n) [] = []
cells (suc n) (l ∷ b) = take l b ∷ cells n (drop l b)

abbrev of_bool : Bool → Bytes
of_bool true = 1 ∷ []
of_bool false = 0 ∷ []

abbrev to_bool : Bytes → Bool
to_bool (suc n ∷ b) = true
to_bool _ = false

abbrev of_option : Option ℕ → Bytes
of_option none = []
of_option (some n) = n ∷ []

abbrev to_option : Bytes → Option ℕ
to_option [] = none
to_option (n ∷ b) = some n

abbrev of_optional : Option Text → Bytes
of_optional none = []
of_optional (some t) = 0 ∷ t

abbrev to_optional : Bytes → Option Text
to_optional [] = none
to_optional (n ∷ t) = some t

abbrev of_number : ℕ → Bytes
of_number n = n ∷ []

abbrev to_number : Bytes → ℕ
to_number [] = 0
to_number (n ∷ b) = n

abbrev read_profile : List Bytes → Option Profile
read_profile (a ∷ b ∷ c ∷ d ∷ e ∷ f ∷ []) = some (record {
  uid = a;
  created_at = to_number b;
  updated_at = to_number c;
  display_name = d;
  bio = e;
  avatar = f;
})
read_profile _ = none

abbrev fields_of_profile : Profile → List Bytes
fields_of_profile p =
    p.uid ∷ of_number p.created_at ∷ of_number p.updated_at ∷ p.display_name ∷ p.bio ∷ p.avatar ∷ []

unfoldable pub profile_codec : Codec Profile
profile_codec = record {
  encode = λ p. flatten (fields_of_profile p);
  decode = λ b. read_profile (cells 6 b);
}

abbrev read_param : List Bytes → Option ProfileParameter
read_param (a ∷ b ∷ []) = some (record { key = a; value = b })
read_param _ = none

unfoldable pub param_codec : Codec ProfileParameter
param_codec = record {
  encode = λ p. flatten (p.key ∷ p.value ∷ []);
  decode = λ b. read_param (cells 2 b);
}

abbrev read_persona : List Bytes → Option Persona
read_persona (a ∷ b ∷ c ∷ d ∷ e ∷ f ∷ g ∷ i ∷ []) = some (record {
  uid = a;
  created_at = to_number b;
  updated_at = to_number c;
  profile_uid = d;
  display_name = e;
  bio = f;
  avatar = g;
  is_default = to_bool i;
})
read_persona _ = none

abbrev fields_of_persona : Persona → List Bytes
fields_of_persona p =
    p.uid
    ∷ of_number p.created_at
    ∷ of_number p.updated_at
    ∷ p.profile_uid
    ∷ p.display_name
    ∷ p.bio
    ∷ p.avatar
    ∷ of_bool p.is_default
    ∷ []

unfoldable pub persona_codec : Codec Persona
persona_codec = record {
  encode = λ p. flatten (fields_of_persona p);
  decode = λ b. read_persona (cells 8 b);
}

abbrev read_contact : List Bytes → Option Contact
read_contact (a ∷ b ∷ c ∷ d ∷ e ∷ f ∷ g ∷ i ∷ j ∷ k ∷ l ∷ m ∷ n ∷ []) = some (record {
  uid = a;
  created_at = to_number b;
  updated_at = to_number c;
  persona_uid = d;
  display_name = e;
  public_key = f;
  trust_level = to_number g;
  notes = to_optional i;
  avatar = j;
  birthday = to_option k;
  deathday = to_option l;
  relationship_type = m;
  parent_contact_uid = to_optional n;
})
read_contact _ = none

abbrev fields_of_contact : Contact → List Bytes
fields_of_contact c =
    c.uid
    ∷ of_number c.created_at
    ∷ of_number c.updated_at
    ∷ c.persona_uid
    ∷ c.display_name
    ∷ c.public_key
    ∷ of_number c.trust_level
    ∷ of_optional c.notes
    ∷ c.avatar
    ∷ of_option c.birthday
    ∷ of_option c.deathday
    ∷ c.relationship_type
    ∷ of_optional c.parent_contact_uid
    ∷ []

unfoldable pub contact_codec : Codec Contact
contact_codec = record {
  encode = λ c. flatten (fields_of_contact c);
  decode = λ b. read_contact (cells 13 b);
}

take-cell : (c rest : Bytes) → take (length c) (c ++ rest) ≡ c
take-cell [] rest = refl
take-cell (x ∷ c) rest = ap (λ t. x ∷ t) (take-cell c rest)

drop-cell : (c rest : Bytes) → drop (length c) (c ++ rest) ≡ rest
drop-cell [] rest = refl
drop-cell (x ∷ c) rest = drop-cell c rest

cells-flatten : (cs : List Bytes) → cells (length cs) (flatten cs) ≡ cs
unfolding cells flatten
cells-flatten [] = refl
cells-flatten (c ∷ cs) =
    rw (take-cell c (flatten cs), drop-cell c (flatten cs)) (ap (λ t. c ∷ t) (cells-flatten cs))

bool_back : (b : Bool) → to_bool (of_bool b) ≡ b
bool_back true = refl
bool_back false = refl

option_back : (o : Option ℕ) → to_option (of_option o) ≡ o
option_back none = refl
option_back (some n) = refl

optional_back : (o : Option Text) → to_optional (of_optional o) ≡ o
optional_back none = refl
optional_back (some t) = refl

pub profile_back : (p : Profile) → profile_codec.decode (profile_codec.encode p) ≡ some p
unfolding profile_codec
profile_back p = ap read_profile (cells-flatten (fields_of_profile p))

read_persona-fields : (p : Persona) → read_persona (fields_of_persona p) ≡ some p
read_persona-fields p = rw (bool_back p.is_default) refl

pub persona_back : (p : Persona) → persona_codec.decode (persona_codec.encode p) ≡ some p
unfolding persona_codec
persona_back p = ap read_persona (cells-flatten (fields_of_persona p)) ∙ read_persona-fields p

read_contact-fields : (c : Contact) → read_contact (fields_of_contact c) ≡ some c
read_contact-fields c =
    rw
      (
        optional_back c.notes,
        optional_back c.parent_contact_uid,
        option_back c.birthday,
        option_back c.deathday,
      )
      refl

pub contact_back : (c : Contact) → contact_codec.decode (contact_codec.encode c) ≡ some c
unfolding contact_codec
contact_back c = ap read_contact (cells-flatten (fields_of_contact c)) ∙ read_contact-fields c
