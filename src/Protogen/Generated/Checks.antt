-- ===== src/Protogen/Generated/Checks.antt =====
-- When the generated validation of libs/asocial_proto/libs/asocial_protogen accepts a message.
use a_social.Base.{
  ◌<◌, ◌≡◌, ◌↔◌, ◌⊎◌, inl, inr, refl, arith, Bool, true, List, [], ◌∷◌, ◌++◌, Text, length, ◌==◌,
  Bool-cases, length-append, codes,
}
use a_social.Protogen.Descriptors.{FkTarget, FieldInfo, EntityInfo}
use a_social.Protogen.Generated.{
  Values, value_of, ForeignKeyRef, required_errors, target_refs, field_refs, validate,
  missing_errors, validate_full, valid,
}

-- Every required field has a value.
abbrev pub AllPresent : List FieldInfo → Values → Type 0
AllPresent [] vs = Unit
AllPresent (f ∷ fs) vs = (0 < length (value_of f.proto_name vs)) × AllPresent fs vs

-- Every reference is empty or leads to a key that exists.
abbrev pub AllFound : (Text → Bool) → List ForeignKeyRef → Type 0
AllFound exists [] = Unit
AllFound exists (fk ∷ fks) =
    ((length fk.value ≡ 0) ⊎ (exists (fk.lookup_key_prefix ++ fk.value) ≡ true))
    × AllFound exists fks

AllPresent-required_errors :
    (fs : List FieldInfo) (vs : Values) → (length (required_errors fs vs) ≡ 0) ↔ AllPresent fs vs
unfolding required_errors
AllPresent-required_errors [] vs = (λ h. tt, λ h. refl)
AllPresent-required_errors (f ∷ fs) vs =
    let ih = AllPresent-required_errors fs vs in
    elim (Bool-cases (length (value_of f.proto_name vs) == 0)) [
      | inl empty ↦ rw empty (λ h. absurd (omega (arith, h)), λ h. absurd (ground (arith, h.0)))
      | inr set ↦ rw set (λ h. (ground arith, ih.0 h), λ h. ih.1 h.1)
    ]

AllFound-missing_errors :
    (exists : Text → Bool) (fks : List ForeignKeyRef)
    → (length (missing_errors exists fks) ≡ 0) ↔ AllFound exists fks
unfolding missing_errors
AllFound-missing_errors exists [] = (λ h. tt, λ h. refl)
AllFound-missing_errors exists (fk ∷ fks) =
    let ih = AllFound-missing_errors exists fks in
    elim (Bool-cases (length fk.value == 0)) [
      | inl empty ↦ rw empty (λ h. (inl (ground arith), ih.0 h), λ h. ih.1 h.1)
      | inr set ↦ elim (Bool-cases (exists (fk.lookup_key_prefix ++ fk.value))) [
        | inl found ↦ rw (set, found) (λ h. (inr refl, ih.0 h), λ h. ih.1 h.1)
        | inr lost ↦
            rw (set, lost) (λ h. absurd (omega (arith, h)), λ h. absurd (ground (arith, h.0)))
      ]
    ]

-- An entity with each of these keys exists.
abbrev pub TargetsExist : (Text → Bool) → Text → List FkTarget → Type 0
TargetsExist exists value [] = Unit
TargetsExist exists value (t ∷ ts) =
    (exists ((t.key_prefix ++ codes "/") ++ value) ≡ true) × TargetsExist exists value ts

-- Every foreign key field of the message is empty, or its value leads to an existing key under the
-- prefix of each of its targets.
abbrev pub AllResolved : (Text → Bool) → List FieldInfo → Values → Type 0
AllResolved exists [] vs = Unit
AllResolved exists (f ∷ fs) vs =
    ((length (value_of f.proto_name vs) ≡ 0)
      ⊎ TargetsExist exists (value_of f.proto_name vs) f.fk_targets)
    × AllResolved exists fs vs

AllFound-target_refs :
    (exists : Text → Bool) (field value : Text) (ts : List FkTarget) (rest : List ForeignKeyRef)
    → 0 < length value
    → AllFound exists (target_refs field value ts ++ rest)
      ↔ (TargetsExist exists value ts × AllFound exists rest)
unfolding target_refs
AllFound-target_refs exists field value [] rest set = (λ h. (tt, h), λ h. h.1)
AllFound-target_refs exists field value (t ∷ ts) rest set =
    let ih = AllFound-target_refs exists field value ts rest set in
    (
      λ h. elim h.0 [
        | inl empty ↦ absurd (omega (arith, empty, set))
        | inr found ↦ ((found, (ih.0 h.1).0), (ih.0 h.1).1)
      ],
      λ h. (inr h.0.0, ih.1 (h.0.1, h.1)),
    )

AllFound-field_refs :
    (exists : Text → Bool) (fs : List FieldInfo) (vs : Values)
    → AllFound exists (field_refs fs vs) ↔ AllResolved exists fs vs
unfolding field_refs
AllFound-field_refs exists [] vs = (λ h. tt, λ h. tt)
AllFound-field_refs exists (f ∷ fs) vs =
    let ih = AllFound-field_refs exists fs vs in
    let value = value_of f.proto_name vs in
    elim (Bool-cases (length value == 0)) [
      | inl empty ↦ rw empty (λ h. (inl (ground arith), ih.0 h), λ h. ih.1 h.1)
      | inr set ↦
          let refs =
            AllFound-target_refs exists f.proto_name value f.fk_targets (field_refs fs vs)
              (ground arith) in
          rw set (
            λ h. (inr (refs.0 h).0, ih.0 (refs.0 h).1),
            λ h. elim h.0 [
              | inl empty ↦ absurd (ground (arith, empty))
              | inr found ↦ refs.1 (found, ih.1 h.1)
            ],
          )
    ]

-- The references that the validation collects are all found in a message that it accepts.
pub validate_full_found :
    (e : EntityInfo) (vs : Values) (exists : Text → Bool)
    → (valid (validate_full e vs exists) ≡ true)
      ↔ (AllPresent e.required_fields vs × AllFound exists (field_refs e.fk_fields vs))
unfolding valid validate_full validate
validate_full_found e vs exists =
    let required = required_errors e.required_fields vs in
    let missing = missing_errors exists (field_refs e.fk_fields vs) in
    let p = AllPresent-required_errors e.required_fields vs in
    let f = AllFound-missing_errors exists (field_refs e.fk_fields vs) in
    (
      λ h. (
        p.0 (ground (arith, length-append required missing, h)),
        f.0 (ground (arith, length-append required missing, h)),
      ),
      λ h. ground (arith, length-append required missing, p.1 h.0, f.1 h.1),
    )

-- The generated validation accepts a message exactly if no required field is empty and every
-- foreign key field that is set leads, for each of its targets, to an existing key: the prefix of
-- the target's keys, a slash and the value of the field.
pub validate_full_lem :
    (e : EntityInfo) (vs : Values) (exists : Text → Bool)
    → (valid (validate_full e vs exists) ≡ true)
      ↔ (AllPresent e.required_fields vs × AllResolved exists e.fk_fields vs)
validate_full_lem e vs exists =
    let found = validate_full_found e vs exists in
    let refs = AllFound-field_refs exists e.fk_fields vs in
    (λ h. ((found.0 h).0, refs.0 (found.0 h).1), λ h. found.1 (h.0, refs.1 h.1))
