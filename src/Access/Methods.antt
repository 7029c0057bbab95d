-- ===== src/Access/Methods.antt =====
-- All methods of src/CoreAccessProxy.cpp are gated.
mod Profile
mod People
mod Messaging
use Profile.{profile_call-Gated}
use People.{people_call-Gated}
use Messaging.{messaging_call-Gated}
use a_social.Access.Calls.{Types, Call, profiles, people, messaging}
use a_social.Access.Gated.{Gated}

module _ (t : Types) (S : Type 0) where
  -- Every method has a permission and a default.
  pub Gated_lem : (c : Call t) → Gated t S c
  Gated_lem (profiles c) = profile_call-Gated t S c
  Gated_lem (people c) = people_call-Gated t S c
  Gated_lem (messaging c) = messaging_call-Gated t S c
