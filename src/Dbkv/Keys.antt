-- ===== src/Dbkv/Keys.antt =====
-- listKeys of RocksDBStore.cpp: a seek, and a loop that stops at the first key without the prefix.
use a_social.Base.{
  ◌≡◌, inl, inr, refl, sym, ap, ◌∙◌, arith, true, false, not, ◌&&◌, Option, none, some, List, [],
  ◌∷◌, Text, length, ◌==◌, if◌then◌else◌, if-true, if-false, Bool-cases, starts_with,
}
use a_social.Base.Bytes.{Bytes}
use a_social.Dbkv.Engine.{Entry, Engine, key_less}

module _ (e : Engine) where
  -- The loop, from where the iterator stands.
  unfoldable pub keys_from : Bytes → List Entry → List Text
  keys_from prefix [] = []
  keys_from prefix ((k, v) ∷ es) =
      let rest = keys_from prefix es in
      if not (length prefix == 0) && not (starts_with k prefix) then [] else e.from_utf8 k ∷ rest

  unfoldable pub list_keys : Text → Option e.Db → List Text
  list_keys prefix none = []
  list_keys prefix (some d) =
      let bytes = e.to_utf8 prefix in
      keys_from bytes (if length bytes == 0 then e.entries d else e.entries_from bytes d)

  -- The keys with the prefix, wherever they stand.
  unfoldable pub keys_with : Bytes → List Entry → List Text
  keys_with prefix [] = []
  keys_with prefix ((k, v) ∷ es) =
      let rest = keys_with prefix es in if starts_with k prefix then e.from_utf8 k ∷ rest else rest

-- Where a seek stands: at the first key that is not before.
unfoldable pub drop_before : Bytes → List Entry → List Entry
drop_before p [] = []
drop_before p ((k, v) ∷ es) =
    let rest = drop_before p es in if key_less k p then rest else (k, v) ∷ es

-- In the order of their keys.
abbrev pub AllAfter : Bytes → List Entry → Type 0
AllAfter k [] = Unit
AllAfter k ((j, v) ∷ es) = (key_less k j ≡ true) × AllAfter k es

abbrev pub IsSorted : List Entry → Type 0
IsSorted [] = Unit
IsSorted ((k, v) ∷ es) = AllAfter k es × IsSorted es

-- A key before the prefix does not begin with it.
less-starts_with : (k p : Bytes) → key_less k p ≡ true → starts_with k p ≡ false
unfolding key_less starts_with
less-starts_with [] [] e = absurd (cc e)
less-starts_with [] (b ∷ p) e = refl
less-starts_with (a ∷ k) [] e = absurd (cc e)
less-starts_with (a ∷ k) (b ∷ p) e = ground (arith, e, less-starts_with k p)

-- Behind a key that is past the prefix no key begins with it.
past-starts_with :
    (k j p : Bytes)
    → key_less k p ≡ false
    → starts_with k p ≡ false
    → key_less k j ≡ true
    → starts_with j p ≡ false
unfolding key_less starts_with
past-starts_with k j [] e f g = absurd (cc f)
past-starts_with [] j (b ∷ p) e f g = absurd (cc e)
past-starts_with (a ∷ k) [] (b ∷ p) e f g = absurd (cc g)
past-starts_with (a ∷ k) (d ∷ j) (b ∷ p) e f g = ground (arith, e, f, g, past-starts_with k j p)

-- A key behind one that is past the prefix is past it.
past_after : (k j p : Bytes) → key_less k p ≡ false → key_less k j ≡ true → key_less j p ≡ false
unfolding key_less
past_after [] [] [] f g = refl
past_after [] (d ∷ j) [] f g = refl
past_after [] j (b ∷ p) f g = absurd (cc f)
past_after (a ∷ k) [] p f g = absurd (cc g)
past_after (a ∷ k) (d ∷ j) [] f g = refl
past_after (a ∷ k) (d ∷ j) (b ∷ p) f g = ground (arith, f, g, past_after k j p)

abbrev AllPast : Bytes → List Entry → Type 0
AllPast p [] = Unit
AllPast p ((k, v) ∷ es) = (key_less k p ≡ false) × AllPast p es

all_past : (p k : Bytes) (es : List Entry) → key_less k p ≡ false → AllAfter k es → AllPast p es
all_past p k [] past after = tt
all_past p k ((j, v) ∷ es) past after =
    (past_after k j p past after.0, all_past p k es past after.1)

module _ (e : Engine) where
  none_after :
      (p k : Bytes) (es : List Entry)
      → key_less k p ≡ false
      → starts_with k p ≡ false
      → AllAfter k es
      → keys_with e p es ≡ []
  unfolding keys_with
  none_after p k [] past out after = refl
  none_after p k ((j, v) ∷ es) past out after =
      if-false _ _ _ (past-starts_with k j p past out after.0) ∙ none_after p k es past out after.1

  keys_from-past :
      (p : Bytes) (es : List Entry)
      → (length p == 0) ≡ false
      → IsSorted es
      → AllPast p es
      → keys_from e p es ≡ keys_with e p es
  unfolding keys_from keys_with
  keys_from-past p [] full sorted past = refl
  keys_from-past p ((k, v) ∷ es) full sorted past = elim (Bool-cases (starts_with k p)) [
    | inl under ↦
        rw (full, under) (ap (λ ks. e.from_utf8 k ∷ ks) (keys_from-past p es full sorted.1 past.1))
    | inr out ↦ rw (full, out) (sym (none_after p k es past.0 out sorted.0))
  ]

  -- The loop from a seek on.
  keys_from-drop_before :
      (p : Bytes) (es : List Entry)
      → (length p == 0) ≡ false
      → IsSorted es
      → keys_from e p (drop_before p es) ≡ keys_with e p es
  unfolding drop_before keys_with
  keys_from-drop_before p [] full sorted = keys_from-past p [] full sorted tt
  keys_from-drop_before p ((k, v) ∷ es) full sorted = elim (Bool-cases (key_less k p)) [
    | inl before ↦
        ap (keys_from e p) (if-true _ _ _ before)
        ∙ keys_from-drop_before p es full sorted.1
        ∙ sym (if-false _ _ _ (less-starts_with k p before))
    | inr past ↦
        ap (keys_from e p) (if-false _ _ _ past)
        ∙ keys_from-past p ((k, v) ∷ es) full sorted (past, all_past p k es past sorted.0)
  ]

  keys_from-all :
      (p : Bytes) (es : List Entry) → (length p == 0) ≡ true → keys_from e p es ≡ keys_with e p es
  unfolding keys_from keys_with starts_with
  keys_from-all [] [] empty = refl
  keys_from-all [] ((k, v) ∷ es) empty = ap (λ ks. e.from_utf8 k ∷ ks) (keys_from-all [] es empty)
  keys_from-all (b ∷ p) es empty = absurd (ground (arith, empty))

  -- listKeys gives exactly the keys that begin with the prefix, in their order, although it stops at
  -- the first key that does not; where the iterator gives the entries in the bytewise order of
  -- their keys and a seek goes to the first key that is not before the prefix.
  pub list_keys-keys_with :
      (prefix : Text) (d : e.Db)
      → IsSorted (e.entries d)
      → e.entries_from (e.to_utf8 prefix) d ≡ drop_before (e.to_utf8 prefix) (e.entries d)
      → list_keys e prefix (some d) ≡ keys_with e (e.to_utf8 prefix) (e.entries d)
  unfolding list_keys
  list_keys-keys_with prefix d sorted seeks =
      let p = e.to_utf8 prefix in
      elim (Bool-cases (length p == 0)) [
        | inl empty ↦ ap (keys_from e p) (if-true _ _ _ empty) ∙ keys_from-all p (e.entries d) empty
        | inr full ↦
            ap (keys_from e p) (if-false _ _ _ full ∙ seeks)
            ∙ keys_from-drop_before p (e.entries d) full sorted
      ]
