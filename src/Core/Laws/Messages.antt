-- ===== src/Core/Laws/Messages.antt =====
-- The newest messages of src/core.cpp.
use a_social.Base.{
  ℕ, zero, suc, ◌≡◌, inl, inr, refl, ap, ◌∙◌, false, List, [], ◌∷◌, Text, take, reverse,
  Option-cases, if-false,
}
use a_social.Core.Host.{Host}
use a_social.Core.State.{Core, retrieve, retrieve_all}
use a_social.Core.Records.{idle}
use a_social.Core.Records.Messages.{newest, list_messages, message_keys}

module _ (h : Host) where
  newest-take :
      (ks : List Text) (n : ℕ) (w : h.World)
      → newest h ks n w ≡ take n (retrieve_all h h.message_codec ks w)
  unfolding newest retrieve_all
  newest-take [] zero w = refl
  newest-take [] (suc n) w = refl
  newest-take (k ∷ ks) zero w = refl
  newest-take (k ∷ ks) (suc n) w = elim (Option-cases (retrieve h h.message_codec k w)) [
    | inl lost ↦ rw (lost, newest, retrieve_all) (newest-take ks (suc n) w)
    | inr (m, found) ↦ rw (found, newest, retrieve_all) (ap (λ ms. m ∷ ms) (newest-take ks n w))
  ]

  -- With a profile open and a persona active, listMessages gives the first messages, as many as the
  -- limit says, of all that can be read in the reverse order of their keys: a message that cannot
  -- be read takes no place of another.
  pub list_messages-take :
      (c : Core h) (limit : ℕ)
      → idle h c ≡ false
      → list_messages h limit c
        ≡ take limit (retrieve_all h h.message_codec (reverse (message_keys h c)) c.world)
  unfolding list_messages
  list_messages-take c limit busy =
      if-false _ _ _ busy ∙ newest-take (reverse (message_keys h c)) limit c.world
