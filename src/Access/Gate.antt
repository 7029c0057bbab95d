-- ===== src/Access/Gate.antt =====
-- What the gate of src/CoreAccessProxy.cpp lets through, over all methods of the interface.
use a_social.Base.{
  ℕ, ◌≡◌, inl, inr, refl, ap, ap₂, ◌∙◌, Bool, true, false, ◌||◌, List, [], ◌∷◌, if◌then◌else◌,
  Bool-cases,
}
use a_social.Access.Permissions.{
  Permission, plugin_access, container_write, container_read, profile_write, profile_read,
  profile_delete, data_read, data_write, profile_export, profile_import, settings_read,
  settings_write, app_lifecycle, test_flag, implied, expand_implied_permissions,
  expand_implied_permissions_lem,
}
use a_social.Access.Calls.{Types, Call, Reply, is_const}
use a_social.Access.Proxy.{core_access_proxy}
use a_social.Access.Gated.{is_write, IsDefault}
use a_social.Access.Methods.{Gated_lem}
use a_social.Access.Rights.{permission_of}

-- A plugin's session: its calls one after the other.
abbrev pub run : {t : Types} {S : Type 0} → (Call t → S → S × Reply t) → List (Call t) → S → S
run call [] s = s
run call (c ∷ cs) s = run call cs (call c s).0

-- The interface's `const` methods leave the core as it is.
abbrev pub ConstMethods : (t : Types) (S : Type 0) → (Call t → S → S × Reply t) → Type 0
ConstMethods t S real = (c : Call t) → is_const t c ≡ true → (s : S) → (real c s).0 ≡ s

-- None of the permissions that allow a change is granted.
abbrev pub ReadOnly : ℕ → Type 0
ReadOnly granted = (p : Permission) → is_write p ≡ true → test_flag p granted ≡ false

or_false : (b : Bool) → (b || false) ≡ b
or_false true = refl
or_false false = refl

implied-write : (p : Permission) (m : ℕ) → is_write p ≡ true → implied p m ≡ false
implied-write settings_read m h = cc
implied-write settings_write m h = refl
implied-write container_read m h = cc
implied-write container_write m h = refl
implied-write profile_read m h = refl
implied-write profile_write m h = refl
implied-write profile_delete m h = refl
implied-write profile_export m h = refl
implied-write profile_import m h = refl
implied-write data_read m h = cc
implied-write data_write m h = refl
implied-write plugin_access m h = refl
implied-write app_lifecycle m h = refl

all_flags : (p : Permission) → test_flag p (expand_implied_permissions 2047) ≡ true
all_flags settings_read = expand_implied_permissions_lem settings_read 2047
all_flags settings_write = expand_implied_permissions_lem settings_write 2047
all_flags container_read = expand_implied_permissions_lem container_read 2047
all_flags container_write = expand_implied_permissions_lem container_write 2047
all_flags profile_read = expand_implied_permissions_lem profile_read 2047
all_flags profile_write = expand_implied_permissions_lem profile_write 2047
all_flags profile_delete = expand_implied_permissions_lem profile_delete 2047
all_flags profile_export = expand_implied_permissions_lem profile_export 2047
all_flags profile_import = expand_implied_permissions_lem profile_import 2047
all_flags data_read = expand_implied_permissions_lem data_read 2047
all_flags data_write = expand_implied_permissions_lem data_write 2047
all_flags plugin_access = expand_implied_permissions_lem plugin_access 2047
all_flags app_lifecycle = expand_implied_permissions_lem app_lifecycle 2047

ReadOnly-expand : (granted : ℕ) → ReadOnly granted → ReadOnly (expand_implied_permissions granted)
ReadOnly-expand granted r p w =
    expand_implied_permissions_lem p granted
    ∙ ap₂ (λ a b. a || b) (r p w) (implied-write p granted w)

-- Every call acts on the core as a direct call would where the permission that the table names for
-- its method is among the granted ones or implied by one of them; otherwise it leaves the core as
-- it is and answers with a value that tells nothing.
pub core_access_proxy_lem :
    (t : Types) (S : Type 0) (granted : ℕ) (real : Call t → S → S × Reply t) (c : Call t) (s : S)
    → (reply : Reply t) × IsDefault t reply
      × (core_access_proxy t granted real c s ≡ (
          if test_flag (permission_of t c) granted || implied (permission_of t c) granted
          then real c s
          else (s, reply)))
unfolding core_access_proxy
core_access_proxy_lem t S granted real c s =
    let g = Gated_lem t S c in
    (
      g.reply,
      g.reply_is_default,
      g.acts (expand_implied_permissions granted) real s
          ∙ ap (λ b. if b then real c s else (s, g.reply))
              (expand_implied_permissions_lem (permission_of t c) granted),
    )

-- A plugin that was granted all eleven flags sees the core itself.
pub core_access_proxy_all :
    (t : Types) (S : Type 0) (real : Call t → S → S × Reply t) (c : Call t) (s : S)
    → core_access_proxy t 2047 real c s ≡ real c s
unfolding core_access_proxy
core_access_proxy_all t S real c s =
    let g = Gated_lem t S c in
    g.acts (expand_implied_permissions 2047) real s
    ∙ ap (λ b. if b then real c s else (s, g.reply)) (all_flags (permission_of t c))

core_access_proxy-unchanged :
    (t : Types) (S : Type 0) (granted : ℕ) (real : Call t → S → S × Reply t) (c : Call t) (s : S)
    → ReadOnly granted
    → ConstMethods t S real
    → (core_access_proxy t granted real c s).0 ≡ s
unfolding core_access_proxy
core_access_proxy-unchanged t S granted real c s r const =
    let g = Gated_lem t S c in
    let choose = λ (b : Bool). (if b then real c s else (s, g.reply)).0 in
    let e : (core_access_proxy t granted real c s).0
        ≡ choose (test_flag (permission_of t c) (expand_implied_permissions granted)) =
      ap (λ q. q.0) (g.acts (expand_implied_permissions granted) real s) in
    let off : test_flag (permission_of t c) (expand_implied_permissions granted) ≡ false
        → (core_access_proxy t granted real c s).0 ≡ s =
      λ h. e ∙ ap choose h in
    elim g.covers [
      | inr write ↦ off (ReadOnly-expand granted r (permission_of t c) write)
      | inl reads ↦
          elim (Bool-cases (test_flag (permission_of t c) (expand_implied_permissions granted))) [
            | inl on ↦ e ∙ ap choose on ∙ const c reads s
            | inr h ↦ off h
          ]
    ]

-- A plugin without a permission that allows a change, PluginAccess among them, cannot change the
-- core, whatever it calls, provided that the core's const methods change nothing.
pub run-core_access_proxy :
    (t : Types) (S : Type 0) (granted : ℕ) (real : Call t → S → S × Reply t) (cs : List (Call t))
    (s : S)
    → ReadOnly granted
    → ConstMethods t S real
    → run (core_access_proxy t granted real) cs s ≡ s
run-core_access_proxy t S granted real [] s r const = refl
run-core_access_proxy t S granted real (c ∷ cs) s r const =
    ap (run (core_access_proxy t granted real) cs)
      (core_access_proxy-unchanged t S granted real c s r const)
    ∙ run-core_access_proxy t S granted real cs s r const
