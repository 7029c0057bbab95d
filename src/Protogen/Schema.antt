-- ===== src/Protogen/Schema.antt =====
-- The entities that src/entity_parser.cpp of the code generator reads from the descriptors of the
-- .proto files, and the source text of their key functions.
use a_social.Base.{
  ℕ, zero, suc, ◌+◌, Bool, true, false, not, ◌&&◌, ◌||◌, Option, none, some, List, [], ◌∷◌, ◌++◌,
  map, Text, text_eq, length, take, drop, ◌==◌, if◌then◌else◌, split_nonempty, codes, join,
}
use a_social.Protogen.Names.{
  Cases, to_snake_case, to_upper_case, to_camel_case, to_pascal_case, pluralize,
}
use a_social.Protogen.Descriptors.{
  FkTarget, FieldInfo, KeySegment, PrefixOverload, EntityInfo, FieldType, string_type, bytes_type,
  timestamp_type, FieldDescriptor, EntityConfigData, MessageDescriptor, EntityMap,
}

unfoldable pub get_entity_key_prefix : Text → EntityMap → Text
get_entity_key_prefix entity [] = []
get_entity_key_prefix entity ((n, e) ∷ m) =
    if text_eq n entity then e.key_prefix else get_entity_key_prefix entity m

-- The index of the first `.`, or `none`.
abbrev pub index_of_dot : Text → Option ℕ
index_of_dot [] = none
index_of_dot (c ∷ t) =
    if c == b'.' then some 0 else elim (index_of_dot t) [ none ↦ none | some i ↦ some (suc i) ]

abbrev drop_spaces : Cases → Text → Text
drop_spaces u [] = []
drop_spaces u (c ∷ t) = if u.is_space c then drop_spaces u t else c ∷ t

abbrev reverse_onto : Text → Text → Text
reverse_onto [] acc = acc
reverse_onto (c ∷ t) acc = reverse_onto t (c ∷ acc)

-- `part.trimmed()`
abbrev pub trimmed : Cases → Text → Text
trimmed u t = reverse_onto (drop_spaces u (reverse_onto (drop_spaces u t) [])) []

abbrev target_at : Text → EntityMap → Option ℕ → List FkTarget → List FkTarget
target_at part m none rest = rest
target_at part m (some dot) rest =
    (record {
      entity = take dot part;
      field = drop (dot + 1) part;
      key_prefix = get_entity_key_prefix (take dot part) m;
    })
    ∷ rest

unfoldable pub parse_targets : Cases → List Text → EntityMap → List FkTarget
parse_targets u [] m = []
parse_targets u (part ∷ parts) m =
    target_at (trimmed u part) m (index_of_dot (trimmed u part)) (parse_targets u parts m)

unfoldable pub parse_fk_annotation : Cases → Text → EntityMap → List FkTarget
parse_fk_annotation u fk m = parse_targets u (split_nonempty b',' [] fk) m

abbrev is_string_type : FieldType → Bool
is_string_type string_type = true
is_string_type _ = false

abbrev is_bytes_type : FieldType → Bool
is_bytes_type bytes_type = true
is_bytes_type _ = false

abbrev is_timestamp_type : FieldType → Bool
is_timestamp_type timestamp_type = true
is_timestamp_type _ = false

unfoldable pub field_info : Cases → EntityMap → FieldDescriptor → FieldInfo
field_info u m fd = record {
  proto_name = fd.name;
  getter = to_camel_case u fd.name;
  setter = codes "set" ++ to_pascal_case u fd.name;
  is_string = is_string_type fd.type;
  is_bytes = is_bytes_type fd.type;
  is_timestamp = is_timestamp_type fd.type;
  is_optional = fd.has_optional_keyword;
  is_repeated = fd.is_repeated;
  fk_targets = if length fd.fk == 0 then [] else parse_fk_annotation u fd.fk m;
}

unfoldable pub is_required : FieldInfo → Bool
is_required f =
    not f.is_optional && (not f.is_repeated && (not f.is_timestamp && (f.is_string || f.is_bytes)))

abbrev has_target : FieldInfo → Bool
has_target f = not (length f.fk_targets == 0)

abbrev append_if : Bool → FieldInfo → List FieldInfo → List FieldInfo
append_if b f fs = if b then fs ++ f ∷ [] else fs

-- One round of the loop over the fields of a message.
unfoldable pub add_field : FieldInfo → EntityInfo → EntityInfo
add_field f e = record e {
  has_uid = e.has_uid || text_eq f.proto_name (codes "uid");
  has_key = e.has_key || text_eq f.proto_name (codes "key");
  has_created_at = e.has_created_at || text_eq f.proto_name (codes "created_at");
  has_updated_at = e.has_updated_at || text_eq f.proto_name (codes "updated_at");
  all_fields = e.all_fields ++ f ∷ [];
  required_fields = append_if (is_required f) f e.required_fields;
  fk_fields = append_if (has_target f) f e.fk_fields;
}

unfoldable pub add_fields : Cases → EntityMap → List FieldDescriptor → EntityInfo → EntityInfo
add_fields u m [] e = e
add_fields u m (fd ∷ fds) e = add_fields u m fds (add_field (field_info u m fd) e)

-- The segments `{…}` of a key pattern, with the one that is being read.
abbrev in_braces : Text → Option Text → List Text
in_braces [] part = []
in_braces (c ∷ t) none = in_braces t (if c == b'{' then some [] else none)
in_braces (c ∷ t) (some part) =
    let next = in_braces t none in
    let more = in_braces t (some (part ++ c ∷ [])) in
    if c == b'}' then (if length part == 0 then next else part ∷ next) else more

abbrev is_timestamp_field : Text → List FieldInfo → Bool
is_timestamp_field seg [] = false
is_timestamp_field seg (f ∷ fs) =
    (text_eq f.proto_name seg && f.is_timestamp) || is_timestamp_field seg fs

unfoldable pub key_segments : Cases → Text → List FieldInfo → List KeySegment
key_segments u pattern fields =
    map
      (λ (seg : Text). record {
        name = seg;
        param_name = to_camel_case u seg;
        is_timestamp = is_timestamp_field seg fields;
      })
      (in_braces pattern none)

-- The name of a parameter: a timestamp is given as ISO text.
abbrev pub param_name : KeySegment → Text
param_name ks = if ks.is_timestamp then ks.param_name ++ codes "Iso" else ks.param_name

abbrev pub param_decl : KeySegment → Text
param_decl ks = codes "const QString& " ++ param_name ks

unfoldable pub param_list : List KeySegment → Text
param_list segs = join (codes ", ") (map param_decl segs)

unfoldable pub body_text : List KeySegment → Text
body_text segs = join (codes " + '/' + ") (map param_name segs)

-- The round `i` of the loop over the prefixes.
unfoldable pub prefix_overload : Text → List KeySegment → ℕ → PrefixOverload
prefix_overload const segs zero = record {
  param_count = 0;
  params = [];
  body = codes "return " ++ (const ++ codes "_PFX");
}
prefix_overload const segs (suc i) = record {
  param_count = suc i;
  params = param_list (take (suc i) segs);
  body =
      codes "return "
      ++ (const ++ (codes "_PFX + " ++ (body_text (take (suc i) segs) ++ codes " + '/'")));
}

abbrev overloads_from : Text → List KeySegment → ℕ → ℕ → List PrefixOverload
overloads_from const segs zero i = []
overloads_from const segs (suc rounds) i =
    prefix_overload const segs i ∷ overloads_from const segs rounds (i + 1)

unfoldable pub prefix_overloads : Text → List KeySegment → List PrefixOverload
prefix_overloads const segs = overloads_from const segs (length segs + 1) 0

unfoldable pub build_key_functions : Cases → EntityInfo → EntityInfo
build_key_functions u e =
    let named : EntityInfo = record e { const_name = e.name_upper; fn_name = e.name_snake } in
    let segs = key_segments u e.key_pattern e.all_fields in
    if e.singleton then named else record named {
      key_fn_params = param_list segs;
      key_fn_body = body_text segs;
      prefix_overloads = prefix_overloads e.name_upper segs;
    }

-- The entity of a message with this configuration, before its fields are read.
unfoldable pub new_entity : Cases → MessageDescriptor → EntityConfigData → EntityInfo
new_entity u msg ec = record {
  proto_source_file = msg.file;
  name = msg.name;
  name_snake = to_snake_case u msg.name;
  name_upper = to_upper_case u msg.name;
  name_plural = pluralize msg.name;
  cpp_type = codes "asocial::v1::" ++ msg.name;
  key_prefix = ec.key_prefix;
  key_pattern = ec.key_pattern;
  singleton = ec.singleton;
  persona_scoped = ec.persona_scoped;
  sort_field = ec.sort_field;
  sort_descending = ec.sort_descending;
  has_uid = false;
  has_created_at = false;
  has_updated_at = false;
  has_key = false;
  all_fields = [];
  required_fields = [];
  fk_fields = [];
  key_fn_params = [];
  key_fn_body = [];
  prefix_overloads = [];
  const_name = [];
  fn_name = [];
}

-- `entityMap[name] = e`
abbrev insert_entity : Text → EntityInfo → EntityMap → EntityMap
insert_entity n e [] = (n, e) ∷ []
insert_entity n e ((k, x) ∷ m) = if text_eq k n then (k, e) ∷ m else (k, x) ∷ insert_entity n e m

abbrev find_entity : Text → EntityMap → Option EntityInfo
find_entity n [] = none
find_entity n ((k, x) ∷ m) = if text_eq k n then some x else find_entity n m

abbrev insert_configured :
    Cases → MessageDescriptor → Option EntityConfigData → EntityMap → EntityMap
insert_configured u msg none m = m
insert_configured u msg (some ec) m = insert_entity msg.name (new_entity u msg ec) m

-- The first loop of buildEntities, over the messages of all files.
unfoldable pub first_pass : Cases → List MessageDescriptor → EntityMap → EntityMap
first_pass u [] m = m
first_pass u (msg ∷ msgs) m = first_pass u msgs (insert_configured u msg msg.config m)

abbrev fill_entity : Cases → MessageDescriptor → Option EntityInfo → EntityMap → EntityMap
fill_entity u msg none m = m
fill_entity u msg (some e) m =
    insert_entity msg.name (build_key_functions u (add_fields u m msg.fields e)) m

-- The second loop: the fields and the key functions of each entity.
unfoldable pub second_pass : Cases → List MessageDescriptor → EntityMap → EntityMap
second_pass u [] m = m
second_pass u (msg ∷ msgs) m = second_pass u msgs (fill_entity u msg (find_entity msg.name m) m)

-- The entities of the messages, in the order that the code's last `std::sort` gives them.
unfoldable pub build_entities :
    Cases → (List EntityInfo → List EntityInfo) → List MessageDescriptor → List EntityInfo
build_entities u sort msgs =
    sort (map (λ (e : Text × EntityInfo). e.1) (second_pass u msgs (first_pass u msgs [])))

unfoldable pub entities_in_file : List EntityInfo → Text → List EntityInfo
entities_in_file [] path = []
entities_in_file (e ∷ es) path =
    let rest = entities_in_file es path in
    if text_eq e.proto_source_file path then e ∷ rest else rest
