-- ===== src/Access/Examples.antt =====
-- Plugins in front of a core that counts the changes made to it.
use a_social.Base.{ℕ, suc, ◌≡◌, refl, ap, true, ◌||◌, List, [], ◌∷◌, if◌then◌else◌}
use a_social.Access.Permissions.{
  permission_names, plugin_access, container_write, container_read, profile_write, profile_read,
  profile_delete, data_read, data_write, profile_export, profile_import, settings_read,
  settings_write, app_lifecycle, test_flag, implied, expand_implied_permissions,
  expand_implied_permissions_lem,
}
use a_social.Access.Calls.{
  Types, Call, Reply, is_const, bool, people, messaging, profiles, delete_contact, list_groups,
  close_profile,
}
use a_social.Access.Proxy.{core_access_proxy}
use a_social.Access.Gated.{IsDefault}
use a_social.Access.Gate.{
  run, ConstMethods, ReadOnly, core_access_proxy_lem, core_access_proxy_all, run-core_access_proxy,
}

abbrev numbers : Types
numbers = record {
  Profile = ℕ;
  ProfileParameter = ℕ;
  Persona = ℕ;
  Contact = ℕ;
  Group = ℕ;
  GroupMember = ℕ;
  Message = ℕ;
  Event = ℕ;
  Variant = ℕ;
  Pointer = ℕ;
  Callback = ℕ;
  default_profile = 0;
  default_profile_parameter = 0;
  default_persona = 0;
  default_contact = 0;
  default_group = 0;
  default_message = 0;
  default_event = 0;
  no_variant = 0;
}

abbrev done : Reply numbers
done = bool true

abbrev counting : Call numbers → ℕ → ℕ × Reply numbers
counting c n = ((if is_const numbers c then n else suc n), done)

counting-ConstMethods : ConstMethods numbers ℕ counting
counting-ConstMethods c h n = ap (λ b. if b then n else suc n) h

abbrev session : List (Call numbers)
session = messaging list_groups ∷ people (delete_contact (b'a' ∷ [])) ∷ profiles close_profile ∷ []

-- 20 is `DataRead | SettingsRead`.
reader-ReadOnly : ReadOnly 20
reader-ReadOnly settings_read h = cc
reader-ReadOnly settings_write h = refl
reader-ReadOnly container_read h = cc
reader-ReadOnly container_write h = refl
reader-ReadOnly profile_read h = cc
reader-ReadOnly profile_write h = refl
reader-ReadOnly profile_delete h = refl
reader-ReadOnly profile_export h = refl
reader-ReadOnly profile_import h = refl
reader-ReadOnly data_read h = cc
reader-ReadOnly data_write h = refl
reader-ReadOnly plugin_access h = refl
reader-ReadOnly app_lifecycle h = refl

run-core_access_proxy_example : run (core_access_proxy numbers 20 counting) session 7 ≡ 7
run-core_access_proxy_example =
    run-core_access_proxy numbers ℕ 20 counting session 7 reader-ReadOnly counting-ConstMethods

core_access_proxy_lem_example :
    (reply : Reply numbers) × IsDefault numbers reply
    × (core_access_proxy numbers 20 counting (people (delete_contact (b'a' ∷ []))) 7 ≡ (
        if test_flag data_write 20 || implied data_write 20
        then counting (people (delete_contact (b'a' ∷ []))) 7
        else (7, reply)))
core_access_proxy_lem_example =
    core_access_proxy_lem numbers ℕ 20 counting (people (delete_contact (b'a' ∷ []))) 7

core_access_proxy_all_example :
    core_access_proxy numbers 2047 counting (profiles close_profile) 7
    ≡ counting (profiles close_profile) 7
core_access_proxy_all_example = core_access_proxy_all numbers ℕ counting (profiles close_profile) 7

-- 8 is `DataWrite`.
expand_implied_permissions_lem_example :
    test_flag data_read (expand_implied_permissions 8)
    ≡ (test_flag data_read 8 || implied data_read 8)
expand_implied_permissions_lem_example = expand_implied_permissions_lem data_read 8

-- 12 is `DataRead | DataWrite`.
names_of_12 :
    permission_names 12
    ≡ (b'D' ∷ b'a' ∷ b't' ∷ b'a' ∷ b'R' ∷ b'e' ∷ b'a' ∷ b'd' ∷ [])
      ∷ (b'D' ∷ b'a' ∷ b't' ∷ b'a' ∷ b'W' ∷ b'r' ∷ b'i' ∷ b't' ∷ b'e' ∷ [])
      ∷ []
names_of_12 = refl

names_of_0 : permission_names 0 ≡ (b'N' ∷ b'o' ∷ b'n' ∷ b'e' ∷ []) ∷ []
names_of_0 = refl
