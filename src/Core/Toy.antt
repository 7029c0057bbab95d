-- ===== src/Core/Toy.antt =====
-- A host in memory, on which the operations of src/core.cpp run: one database, containers that are
-- numbered as they are opened.
pub mod Codecs
pub mod Laws
use a_social.Base.{
  ℕ, ◌+◌, Bool, true, false, Option, none, some, List, [], ◌∷◌, ◌++◌, Text, text_eq, length, get_or,
  set, ltb, leb, if◌then◌else◌, codes, starts_with,
}
use a_social.Base.Bytes.{Bytes}
use a_social.Core.Entities.{Message, no_group, no_message, no_event}
use a_social.Core.Host.{Codec, Host}
use a_social.Core.State.{Core}
use a_social.Core.Toy.Codecs.{profile_codec, persona_codec, contact_codec, param_codec}

pub record World : Type 0 where
  pub containers : List Bool
  pub running : Bool
  pub objects : List (Text × Bytes)

unfoldable pub lookup : Text → List (Text × Bytes) → Option Bytes
lookup j [] = none
lookup j ((k, b) ∷ os) = let rest = lookup j os in if text_eq k j then some b else rest

unfoldable pub remove : Text → List (Text × Bytes) → List (Text × Bytes)
remove j [] = []
remove j ((k, b) ∷ os) = let rest = remove j os in if text_eq k j then rest else (k, b) ∷ rest

unfoldable pub keys_under : Text → List (Text × Bytes) → List Text
keys_under p [] = []
keys_under p ((k, b) ∷ os) =
    let rest = keys_under p os in if starts_with k p then k ∷ rest else rest

unfoldable pub same_order : {A : Type 0} → (A → A → Bool) → List A → List A
same_order before xs = xs

abbrev pub toy : Host
toy = record {
  World = World;
  Container = ℕ;
  Device = ℕ;
  Variant = Text;
  file_exists = λ path w. true;
  open_container = λ path pw n w.
      (some (length w.containers), record w { containers = w.containers ++ (true ∷ []) });
  container_is_open = λ k w. get_or w.containers k false;
  list_files = λ k w. codes "dbkv-rocksdb.dat" ∷ [];
  open_file = λ k name w. (some 0, w);
  delete_file = λ k name w. w;
  close_container = λ k w. record w { containers = set w.containers k false };
  delete_container = λ k w. w;
  close_device = λ d w. w;
  delete_device = λ d w. w;
  db_name = some (codes "dbkv-rocksdb");
  db_open = λ d w. (record w { running = true }, true);
  db_is_open = λ w. w.running;
  db_flush = λ w. w;
  db_close = λ w. record w { running = false };
  list_objects = λ p w. keys_under p w.objects;
  put_object = λ k b w. (record w { objects = (k, b) ∷ w.objects }, true);
  get_object = λ k w. lookup k w.objects;
  delete_object = λ k w. (record w { objects = remove k w.objects }, true);
  profile_codec = profile_codec;
  param_codec = param_codec;
  persona_codec = persona_codec;
  contact_codec = contact_codec;
  group_codec = record { encode = λ g. g.uid; decode = λ b. some (record no_group { uid = b }) };
  member_codec = record { encode = λ m. []; decode = λ b. none };
  message_codec = record {
    encode = λ m. m.body;
    decode = λ b. some (record no_message { body = b });
  };
  event_codec = record {
    encode = λ e. e.title;
    decode = λ b. some (record no_event { title = b });
  };
  profile_json = λ p. p.display_name;
  param_json = λ p. p.value;
  read_import = λ b. none;
  setting = λ k w. [];
  set_setting = λ k v w. w;
  list_settings = λ w. [];
  setting_text = λ k w. [];
  now = λ n. n;
  new_id = λ n. n ∷ [];
  iso_key = λ t. t ∷ [];
  iso = λ t. t ∷ [];
  read_date = λ t. none;
  less = λ a b. ltb (length a) (length b);
  to_lower = λ t. t;
  has_part = starts_with;
  sort = same_order;
  progress = λ n w. w;
  app_exit = λ w. w;
}

-- A core as it starts, with the plugins and the path of a container.
abbrev pub started : Core toy
started = record {
  world = record { containers = []; running = false; objects = [] };
  vfs = true;
  dbkv_profile = true;
  container = none;
  db_device = none;
  container_path = codes "profile.vfs";
  current_profile_id = [];
  active_persona_id = [];
  draws = 0;
  changes = 0;
}
