-- ===== src/Access/Methods/Profile.antt =====
-- The methods of src/CoreAccessProxy.cpp that ProfileCall holds, with their permissions and defaults.
use a_social.Base.{inl, inr, refl, false, none, []}
use a_social.Access.Permissions.{
  container_read, container_write, profile_read, profile_write, data_read, data_write,
  plugin_access, test_flag,
}
use a_social.Access.Calls.{
  Types, profiles, nothing, pointer, bool, text, profile, param, params, ProfileCall, get_dbkv,
  get_dbkv_profile, get_vfs, create_container, is_container_initialized, container_path,
  open_profile, create_profile, close_profile, is_profile_open, delete_current_profile, get_profile,
  store_profile, get_current_profile_id, current_persona_name, list_params, create_param, get_param,
  store_param, delete_param,
}
use a_social.Access.Proxy.{profile_call}
use a_social.Access.Gated.{Gated, if_not}

module _ (t : Types) (S : Type 0) where
  pub profile_call-Gated : (c : ProfileCall t) → Gated t S (profiles c)
  unfolding profile_call
  profile_call-Gated get_dbkv = record {
    reply = pointer none;
    reply_is_default = refl;
    covers = inl refl;
    acts = λ granted real s.
        if_not t S (test_flag plugin_access granted) (s, pointer none) (real (profiles get_dbkv) s);
  }
  profile_call-Gated get_dbkv_profile = record {
    reply = pointer none;
    reply_is_default = refl;
    covers = inl refl;
    acts = λ granted real s.
        if_not t S (test_flag plugin_access granted) (s, pointer none)
          (real (profiles get_dbkv_profile) s);
  }
  profile_call-Gated get_vfs = record {
    reply = pointer none;
    reply_is_default = refl;
    covers = inl refl;
    acts = λ granted real s.
        if_not t S (test_flag plugin_access granted) (s, pointer none) (real (profiles get_vfs) s);
  }
  profile_call-Gated (create_container path max_size_bytes) = record {
    reply = bool false;
    reply_is_default = refl;
    covers = inr refl;
    acts = λ granted real s.
        if_not t S (test_flag container_write granted) (s, bool false)
          (real (profiles (create_container path max_size_bytes)) s);
  }
  profile_call-Gated is_container_initialized = record {
    reply = bool false;
    reply_is_default = refl;
    covers = inl refl;
    acts = λ granted real s.
        if_not t S (test_flag container_read granted) (s, bool false)
          (real (profiles is_container_initialized) s);
  }
  profile_call-Gated container_path = record {
    reply = text [];
    reply_is_default = refl;
    covers = inl refl;
    acts = λ granted real s.
        if_not t S (test_flag container_read granted) (s, text [])
          (real (profiles container_path) s);
  }
  profile_call-Gated (open_profile password) = record {
    reply = bool false;
    reply_is_default = refl;
    covers = inr refl;
    acts = λ granted real s.
        if_not t S (test_flag profile_write granted) (s, bool false)
          (real (profiles (open_profile password)) s);
  }
  profile_call-Gated (create_profile password display_name) = record {
    reply = bool false;
    reply_is_default = refl;
    covers = inr refl;
    acts = λ granted real s.
        if_not t S (test_flag profile_write granted) (s, bool false)
          (real (profiles (create_profile password display_name)) s);
  }
  profile_call-Gated close_profile = record {
    reply = nothing;
    reply_is_default = tt;
    covers = inr refl;
    acts = λ granted real s.
        if_not t S (test_flag profile_write granted) (s, nothing) (real (profiles close_profile) s);
  }
  profile_call-Gated is_profile_open = record {
    reply = bool false;
    reply_is_default = refl;
    covers = inl refl;
    acts = λ granted real s.
        if_not t S (test_flag profile_read granted) (s, bool false)
          (real (profiles is_profile_open) s);
  }
  profile_call-Gated (delete_current_profile progress) = record {
    reply = bool false;
    reply_is_default = refl;
    covers = inr refl;
    acts = λ granted real s.
        if_not t S (test_flag profile_write granted) (s, bool false)
          (real (profiles (delete_current_profile progress)) s);
  }
  profile_call-Gated get_profile = record {
    reply = profile t.default_profile;
    reply_is_default = refl;
    covers = inl refl;
    acts = λ granted real s.
        if_not t S (test_flag profile_read granted) (s, profile t.default_profile)
          (real (profiles get_profile) s);
  }
  profile_call-Gated (store_profile new_profile) = record {
    reply = bool false;
    reply_is_default = refl;
    covers = inr refl;
    acts = λ granted real s.
        if_not t S (test_flag profile_write granted) (s, bool false)
          (real (profiles (store_profile new_profile)) s);
  }
  profile_call-Gated get_current_profile_id = record {
    reply = text [];
    reply_is_default = refl;
    covers = inl refl;
    acts = λ granted real s.
        if_not t S (test_flag profile_read granted) (s, text [])
          (real (profiles get_current_profile_id) s);
  }
  profile_call-Gated current_persona_name = record {
    reply = text [];
    reply_is_default = refl;
    covers = inl refl;
    acts = λ granted real s.
        if_not t S (test_flag profile_read granted) (s, text [])
          (real (profiles current_persona_name) s);
  }
  profile_call-Gated list_params = record {
    reply = params [];
    reply_is_default = refl;
    covers = inl refl;
    acts = λ granted real s.
        if_not t S (test_flag data_read granted) (s, params []) (real (profiles list_params) s);
  }
  profile_call-Gated (create_param param_key) = record {
    reply = param t.default_profile_parameter;
    reply_is_default = refl;
    covers = inr refl;
    acts = λ granted real s.
        if_not t S (test_flag data_write granted) (s, param t.default_profile_parameter)
          (real (profiles (create_param param_key)) s);
  }
  profile_call-Gated (get_param param_key) = record {
    reply = param t.default_profile_parameter;
    reply_is_default = refl;
    covers = inl refl;
    acts = λ granted real s.
        if_not t S (test_flag data_read granted) (s, param t.default_profile_parameter)
          (real (profiles (get_param param_key)) s);
  }
  profile_call-Gated (store_param new_param) = record {
    reply = bool false;
    reply_is_default = refl;
    covers = inr refl;
    acts = λ granted real s.
        if_not t S (test_flag data_write granted) (s, bool false)
          (real (profiles (store_param new_param)) s);
  }
  profile_call-Gated (delete_param param_key) = record {
    reply = bool false;
    reply_is_default = refl;
    covers = inr refl;
    acts = λ granted real s.
        if_not t S (test_flag data_write granted) (s, bool false)
          (real (profiles (delete_param param_key)) s);
  }
