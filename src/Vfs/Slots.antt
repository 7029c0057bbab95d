-- ===== src/Vfs/Slots.antt =====
-- The searches of EncryptedVFSContainer over m_files: findFileSlot, findFreeSlot and the loop at
-- the head of writeFileData.
use a_social.Base.{
  ℕ, zero, suc, ◌+◌, ◌<◌, ◌≡◌, ◌≢◌, refl, arith, Bool, false, not, ◌||◌, Option, none, some, List,
  [], ◌∷◌, get_elem?, set, ◌==◌, if◌then◌else◌, Bool-cases, inl, inr, Text, text_eq, text_eq_sound,
  some-injective,
}
use a_social.Vfs.Layout.{FilePointer, slot_count}
use a_social.Vfs.Layout.Blocks.{SlotFree}

-- `none` stands for -1; the entry comes with its index.
abbrev pub Found : Type 0
Found = Option (ℕ × FilePointer)

abbrev pub shift : Found → Found
shift none = none
shift (some (i, fp)) = some (suc i, fp)

unfoldable pub find_file_slot : Text → List FilePointer → Found
find_file_slot name [] = none
find_file_slot name (fp ∷ fs) =
    if text_eq fp.filename name then some (0, fp) else shift (find_file_slot name fs)

unfoldable pub find_slot : ℕ → List FilePointer → Found
find_slot slot [] = none
find_slot slot (fp ∷ fs) = if fp.slot_index == slot then some (0, fp) else shift (find_slot slot fs)

unfoldable pub is_used : ℕ → List FilePointer → Bool
is_used i [] = false
is_used i (fp ∷ fs) = fp.slot_index == i || is_used i fs

-- The loop over `i < SLOT_COUNT`, with the rounds that are left.
unfoldable pub free_slot_from : ℕ → ℕ → List FilePointer → Option ℕ
free_slot_from zero i fs = none
free_slot_from (suc rounds) i fs =
    let rest = free_slot_from rounds (i + 1) fs in if not (is_used i fs) then some i else rest

unfoldable pub find_free_slot : List FilePointer → Option ℕ
find_free_slot fs = free_slot_from slot_count 0 fs

-- What a search finds stands at the index that it returns.
shift-some :
    (r : Found) (i : ℕ) (fp : FilePointer)
    → shift r ≡ some (i, fp)
    → (j : ℕ) × (i ≡ suc j) × (r ≡ some (j, fp))
shift-some none i fp e = cc
shift-some (some (j, g)) i fp e = (j, cc, cc)

found_here :
    (g fp : FilePointer) (i : ℕ)
    → (let r : Found = some (zero, g) in r ≡ some (i, fp))
    → (i ≡ zero) × (g ≡ fp)
found_here g fp i e = (cc, cc)

pub get_elem?-find_file_slot :
    (name : Text) (fs : List FilePointer) (i : ℕ) (fp : FilePointer)
    → find_file_slot name fs ≡ some (i, fp)
    → (get_elem? fs i ≡ some fp) × (fp.filename ≡ name)
unfolding find_file_slot
get_elem?-find_file_slot name [] i fp e = cc
get_elem?-find_file_slot name (g ∷ gs) i fp e = elim (Bool-cases (text_eq g.filename name)) [
  | inl here ↦
      let (ei, eg) = found_here g fp i (rw here at e) in
      rw (ei, ← eg) (refl, text_eq_sound g.filename name here)
  | inr there ↦
      let (j, ei, er) = shift-some (find_file_slot name gs) i fp (rw there at e) in
      rw ei (get_elem?-find_file_slot name gs j fp er)
]

pub get_elem?-find_slot :
    (slot : ℕ) (fs : List FilePointer) (i : ℕ) (fp : FilePointer)
    → find_slot slot fs ≡ some (i, fp)
    → (get_elem? fs i ≡ some fp) × (fp.slot_index ≡ slot)
unfolding find_slot
get_elem?-find_slot slot [] i fp e = cc
get_elem?-find_slot slot (g ∷ gs) i fp e = elim (Bool-cases (g.slot_index == slot)) [
  | inl here ↦ let (ei, eg) = found_here g fp i (rw here at e) in rw (ei, ← eg) (refl, ground arith)
  | inr there ↦
      let (j, ei, er) = shift-some (find_slot slot gs) i fp (rw there at e) in
      rw ei (get_elem?-find_slot slot gs j fp er)
]

SlotFree-is_used : (i : ℕ) (fs : List FilePointer) → is_used i fs ≡ false → SlotFree i fs
unfolding is_used
SlotFree-is_used i [] e = tt
SlotFree-is_used i (g ∷ gs) e = (ground arith, SlotFree-is_used i gs (ground arith))

free_slot_from_lem :
    (rounds i : ℕ) (fs : List FilePointer) (s : ℕ)
    → free_slot_from rounds i fs ≡ some s
    → (s < i + rounds) × SlotFree s fs
unfolding free_slot_from
free_slot_from_lem zero i fs s e = cc
free_slot_from_lem (suc rounds) i fs s e = elim (Bool-cases (is_used i fs)) [
  | inl used ↦
      let later = free_slot_from_lem rounds (i + 1) fs s (rw used at e) in
      (omega (arith, later.0), later.1)
  | inr free ↦
      let same : i ≡ s = some-injective (rw free at e) in
      rw (← same) (omega arith, SlotFree-is_used i fs free)
]

-- A slot that findFreeSlot returns lies in the header and belongs to no file.
pub find_free_slot_lem :
    (fs : List FilePointer) (s : ℕ) → find_free_slot fs ≡ some s → (s < slot_count) × SlotFree s fs
unfolding find_free_slot
find_free_slot_lem fs s e = free_slot_from_lem slot_count 0 fs s e

-- A search by name after the entry at `idx` was replaced by one of the same name: the same index,
-- with the new entry where that index is `idx`.
pub find_file_slot-set :
    (name : Text) (fs : List FilePointer) (idx : ℕ) (old new : FilePointer)
    → get_elem? fs idx ≡ some old
    → new.filename ≡ old.filename
    → (find_file_slot name fs ≡ some (idx, old)
        → find_file_slot name (set fs idx new) ≡ some (idx, new))
      × (old.filename ≢ name → find_file_slot name (set fs idx new) ≡ find_file_slot name fs)
unfolding find_file_slot
find_file_slot-set name [] idx old new at_idx same = cc
find_file_slot-set name (g ∷ gs) zero old new at_idx same =
    let eg : g ≡ old = some-injective at_idx in
    let test : text_eq new.filename name ≡ text_eq g.filename name = rw (same, eg) in
    (
      λ found. elim (Bool-cases (text_eq g.filename name)) [
        | inl here ↦ rw (test, here)
        | inr there ↦
            let (j, ej, er) = shift-some (find_file_slot name gs) zero old (rw there at found) in
            absurd (omega (arith, ej))
      ],
      λ ne. elim (Bool-cases (text_eq g.filename name)) [
        | inl here ↦ absurd (ne (rw eg at (text_eq_sound g.filename name here)))
        | inr there ↦ rw (test, there)
      ],
    )
find_file_slot-set name (g ∷ gs) (suc idx) old new at_idx same =
    let ih = find_file_slot-set name gs idx old new at_idx same in
    (
      λ found. elim (Bool-cases (text_eq g.filename name)) [
        | inl here ↦ absurd (omega (arith, (found_here g old (suc idx) (rw here at found)).0))
        | inr there ↦
            let (j, ej, er) =
              shift-some (find_file_slot name gs) (suc idx) old (rw there at found) in
            let e : j ≡ idx = omega arith in rw (there, ih.0 (rw e at er))
      ],
      λ ne. elim (Bool-cases (text_eq g.filename name)) [
        | inl here ↦ rw here
        | inr there ↦ rw (there, ih.1 ne)
      ],
    )
