-- ===== src/Core/State.antt =====
-- The state of Core (src/core.h), and the helpers that its operations share.
use a_social.Base.{
  ℕ, ◌+◌, Bool, true, false, not, ◌&&◌, ◌||◌, Option, none, some, List, [], ◌∷◌, Text, length, ◌==◌,
  if◌then◌else◌, codes,
}
use a_social.Base.Bytes.{Bytes}
use a_social.Protogen.Generated.{key, prefix, Values, validate_full, valid}
use a_social.Core.Schema.{entity}
use a_social.Core.Host.{Codec, Host}

-- `vfs` and `dbkv_profile` say whether the plugin is loaded; `draws` counts what was taken from the
-- clock and the identifiers, `changes` the emissions of profileChanged.
pub record Core (h : Host) : Type 0 where
  pub world : h.World
  pub vfs : Bool
  pub dbkv_profile : Bool
  pub container : Option h.Container
  pub db_device : Option h.Device
  pub container_path : Text
  pub current_profile_id : Text
  pub active_persona_id : Text
  pub draws : ℕ
  pub changes : ℕ

abbrev pub is_empty : Text → Bool
is_empty t = length t == 0

-- The keys: `p`, `a/<uid>`, and so on.
abbrev pub profile_key : Text
profile_key = codes "p"

abbrev pub key_of : Text → List Text → Text
key_of name args = key (entity name) args

abbrev pub prefix_of : Text → List Text → Text
prefix_of name args = prefix (entity name) args

module _ (h : Host) where
  abbrev pub open_in : Option h.Container → h.World → Bool
  open_in none w = false
  open_in (some k) w = h.container_is_open k w

  abbrev pub has_device : Option h.Device → Bool
  has_device none = false
  has_device (some d) = true

  unfoldable pub is_profile_open : Core h → Bool
  is_profile_open c =
      open_in c.container c.world
      && (c.dbkv_profile && (h.db_is_open c.world && has_device c.db_device))

  unfoldable pub is_container_initialized : Core h → Bool
  is_container_initialized c =
      not (is_empty c.container_path) && h.file_exists c.container_path c.world

  unfoldable pub flush_profile : Core h → Core h
  flush_profile c =
      if c.dbkv_profile && h.db_is_open c.world then record c { world = h.db_flush c.world } else c

  -- `listObjects(key)` finds every key that `key` begins.
  unfoldable pub key_exists : Core h → Text → Bool
  key_exists c k =
      if not c.dbkv_profile || not (h.db_is_open c.world)
      then false
      else not (length (h.list_objects k c.world) == 0)

  -- `retrieveObject(key, message)`: it fails too where the bytes do not decode.
  abbrev pub decoded : {A : Type 0} → Codec A → Option Bytes → Option A
  decoded codec none = none
  decoded codec (some b) = codec.decode b

  abbrev pub retrieve : {A : Type 0} → Codec A → Text → h.World → Option A
  retrieve codec k w = decoded codec (h.get_object k w)

  abbrev prepend : {A : Type 0} → Option A → List A → List A
  prepend none xs = xs
  prepend (some x) xs = x ∷ xs

  -- The loop over keys that skips what cannot be retrieved.
  unfoldable pub retrieve_all : {A : Type 0} → Codec A → List Text → h.World → List A
  retrieve_all codec [] w = []
  retrieve_all codec (k ∷ ks) w = prepend (retrieve codec k w) (retrieve_all codec ks w)

  abbrev pub flush_if : Bool → Core h → Core h × Bool
  flush_if true c = (flush_profile c, true)
  flush_if false c = (c, false)

  -- `ok = storeObject(key, message); if( ok ) flushProfile(); return ok;`
  unfoldable pub put_and_flush : Text → Bytes → Core h → Core h × Bool
  put_and_flush k b c =
      let (w, ok) = h.put_object k b c.world in flush_if ok (record c { world = w })

  -- `ok = deleteObject(key); if( ok ) flushProfile(); return ok;`
  unfoldable pub delete_and_flush : Text → Core h → Core h × Bool
  delete_and_flush k c =
      let (w, ok) = h.delete_object k c.world in flush_if ok (record c { world = w })

  -- `for( key : keys ) deleteObject(key);`
  unfoldable pub delete_keys : List Text → h.World → h.World
  delete_keys [] w = w
  delete_keys (k ∷ ks) w = delete_keys ks (h.delete_object k w).0

  -- `db::validate…Full` on the values of a message
  abbrev pub accepts : Text → Values → Core h → Bool
  accepts name values c = valid (validate_full (entity name) values (key_exists c))

  abbrev pub take_time : Core h → ℕ × Core h
  take_time c = (h.now c.draws, record c { draws = c.draws + 1 })
