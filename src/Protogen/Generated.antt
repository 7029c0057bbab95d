-- ===== src/Protogen/Generated.antt =====
-- What the functions do that src/templates.cpp of the code generator writes for an entity: its
-- keys, its validation and its factory.
pub mod Keys
pub mod Checks
use a_social.Base.{
  ℕ, Bool, true, false, not, ◌&&◌, List, [], ◌∷◌, ◌++◌, Text, text_eq, length, ◌==◌, if◌then◌else◌,
  codes, join,
}
use a_social.Protogen.Descriptors.{FkTarget, FieldInfo, EntityInfo}

-- `PFX + a + '/' + b + …`
unfoldable pub key : EntityInfo → List Text → Text
key e args = e.key_prefix ++ (codes "/" ++ join (codes "/") args)

-- The prefix of the keys whose first parameters are these: each is closed by a `/`.
unfoldable pub segments : List Text → Text
segments [] = []
segments (a ∷ args) = a ++ (codes "/" ++ segments args)

unfoldable pub prefix : EntityInfo → List Text → Text
prefix e args = e.key_prefix ++ (codes "/" ++ segments args)

-- The text of a field of the message, by its name; a field that is unset is empty.
abbrev pub Values : Type 0
Values = List (Text × Text)

unfoldable pub value_of : Text → Values → Text
value_of name [] = []
value_of name ((n, v) ∷ vs) = if text_eq n name then v else value_of name vs

pub record ForeignKeyRef : Type 0 where
  pub field : Text
  pub target_entity : Text
  pub target_field : Text
  pub lookup_key_prefix : Text
  pub value : Text

pub record ValidationResult : Type 0 where
  pub errors : List (Text × Text)
  pub foreign_keys : List ForeignKeyRef

unfoldable pub required_errors : List FieldInfo → Values → List (Text × Text)
required_errors [] vs = []
required_errors (f ∷ fs) vs =
    let rest = required_errors fs vs in
    if length (value_of f.proto_name vs) == 0
    then (f.proto_name, f.proto_name ++ codes " is required") ∷ rest
    else rest

unfoldable pub target_refs : Text → Text → List FkTarget → List ForeignKeyRef
target_refs field value [] = []
target_refs field value (t ∷ ts) =
    (record {
      field = field;
      target_entity = t.entity;
      target_field = t.field;
      lookup_key_prefix = t.key_prefix ++ codes "/";
      value = value;
    })
    ∷ target_refs field value ts

unfoldable pub field_refs : List FieldInfo → Values → List ForeignKeyRef
field_refs [] vs = []
field_refs (f ∷ fs) vs =
    let value = value_of f.proto_name vs in
    let rest = field_refs fs vs in
    if length value == 0 then rest else target_refs f.proto_name value f.fk_targets ++ rest

unfoldable pub validate : EntityInfo → Values → ValidationResult
validate e vs = record {
  errors = required_errors e.required_fields vs;
  foreign_keys = field_refs e.fk_fields vs;
}

unfoldable pub missing_errors : (Text → Bool) → List ForeignKeyRef → List (Text × Text)
missing_errors exists [] = []
missing_errors exists (fk ∷ fks) =
    let rest = missing_errors exists fks in
    if not (length fk.value == 0) && not (exists (fk.lookup_key_prefix ++ fk.value))
    then (fk.field, fk.target_entity ++ (codes " not found: " ++ fk.value)) ∷ rest
    else rest

unfoldable pub validate_full : EntityInfo → Values → (Text → Bool) → ValidationResult
validate_full e vs exists =
    let r = validate e vs in record r { errors = r.errors ++ missing_errors exists r.foreign_keys }

-- `vr.valid`, which addError clears
unfoldable pub valid : ValidationResult → Bool
valid r = length r.errors == 0
