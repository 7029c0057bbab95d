-- ===== src/Vfs/Layout/Blocks.antt =====
-- The blocks of the data area: where allocateBlock of
-- plugins/vfs-cake/src/EncryptedVFSContainer.cpp places a new one, and the invariant of m_files.
use native.Mathlib.Nat.{le_trans}
use a_social.Base.{
  ℕ, zero, suc, ◌+◌, ◌%◌, ◌≤◌, ◌<◌, ◌≡◌, ◌≢◌, ◌⊎◌, inl, inr, refl, sym, ap, arith, List, [], ◌∷◌,
  ◌++◌, ltb, some, get_elem?, set, remove_at, some-injective, if◌then◌else◌,
}
use a_social.Vfs.Layout.{
  FilePointer, data_start, data_alignment, slot_count, u64, add64, align_up, end_of_data,
  new_offset,
}

abbrev pub block_end : FilePointer → ℕ
block_end f = f.data_offset + f.allocated_size

-- The block lies behind the header, starts at an alignment unit and does not wrap round.
pub record InData (f : FilePointer) : Type 0 where
  pub behind_header : data_start ≤ f.data_offset
  pub aligned : f.data_offset % data_alignment ≡ 0
  pub no_wrap : block_end f < u64
  pub slot_in_range : f.slot_index < slot_count

-- Two files have their own slots, and blocks that share no byte.
pub record Apart (f g : FilePointer) : Type 0 where
  pub slots : f.slot_index ≢ g.slot_index
  pub blocks : (block_end f ≤ g.data_offset) ⊎ (block_end g ≤ f.data_offset)

abbrev pub ApartFromAll : FilePointer → List FilePointer → Type 0
ApartFromAll f [] = Unit
ApartFromAll f (g ∷ gs) = Apart f g × ApartFromAll f gs

abbrev pub WellFormed : List FilePointer → Type 0
WellFormed [] = Unit
WellFormed (f ∷ fs) = InData f × ApartFromAll f fs × WellFormed fs

abbrev pub AllInData : List FilePointer → Type 0
AllInData [] = Unit
AllInData (f ∷ fs) = InData f × AllInData fs

-- Every block of the list ends at or before `o`, and no file of the list has slot `s`.
abbrev pub EndBefore : ℕ → List FilePointer → Type 0
EndBefore o [] = Unit
EndBefore o (g ∷ gs) = (block_end g ≤ o) × EndBefore o gs

abbrev pub SlotFree : ℕ → List FilePointer → Type 0
SlotFree s [] = Unit
SlotFree s (g ∷ gs) = (g.slot_index ≢ s) × SlotFree s gs

pub WellFormed-AllInData : (fs : List FilePointer) → WellFormed fs → AllInData fs
WellFormed-AllInData [] w = tt
WellFormed-AllInData (f ∷ fs) w = (w.0, WellFormed-AllInData fs w.2)

pub align_up_lem :
    (x : ℕ)
    → x + data_alignment ≤ u64
    → (x ≤ align_up x) × (align_up x < x + data_alignment) × (align_up x % data_alignment ≡ 0)
unfolding align_up
align_up_lem x h = (omega arith, omega arith, omega arith)

larger : ℕ → ℕ → ℕ
larger acc end = if ltb acc end then end else acc

le-larger : (acc end : ℕ) → (acc ≤ larger acc end) × (end ≤ larger acc end)
unfolding larger
le-larger acc end = (ground arith, ground arith)

le-end_of_data : (acc : ℕ) (fs : List FilePointer) → acc ≤ end_of_data acc fs
unfolding end_of_data larger
le-end_of_data acc [] = omega arith
le-end_of_data acc (f ∷ fs) =
    let end : ℕ = add64 f.data_offset f.allocated_size in
    le_trans (le-larger acc end).0 (le-end_of_data (larger acc end) fs)

EndBefore-mono : (o o' : ℕ) (fs : List FilePointer) → o ≤ o' → EndBefore o fs → EndBefore o' fs
EndBefore-mono o o' [] h e = tt
EndBefore-mono o o' (f ∷ fs) h e = (omega arith, EndBefore-mono o o' fs h e.1)

EndBefore-end_of_data :
    (acc : ℕ) (fs : List FilePointer) → AllInData fs → EndBefore (end_of_data acc fs) fs
unfolding end_of_data larger
EndBefore-end_of_data acc [] w = tt
EndBefore-end_of_data acc (f ∷ fs) w =
    let end : ℕ = add64 f.data_offset f.allocated_size in
    let here : block_end f ≤ end = omega (arith, w.0.no_wrap) in
    let next : end ≤ end_of_data (larger acc end) fs =
      le_trans (le-larger acc end).1 (le-end_of_data (larger acc end) fs) in
    (le_trans here next, EndBefore-end_of_data (larger acc end) fs w.1)

-- Where every block in use lies in the data area and the end of the data leaves an alignment unit
-- below 2 ^ 64, the offset that allocateBlock returns is aligned, lies behind the header and behind
-- every block in use, and wastes less than one alignment unit.
pub new_offset_lem :
    (fs : List FilePointer)
    → AllInData fs
    → end_of_data data_start fs + data_alignment ≤ u64
    → (data_start ≤ new_offset fs)
      × (new_offset fs % data_alignment ≡ 0)
      × EndBefore (new_offset fs) fs
      × (new_offset fs < end_of_data data_start fs + data_alignment)
unfolding new_offset
new_offset_lem fs w room =
    let a = align_up_lem (end_of_data data_start fs) room in
    (
      omega (arith, le-end_of_data data_start fs),
      a.2,
      EndBefore-mono _ _ fs a.0 (EndBefore-end_of_data data_start fs w),
      a.1,
    )

-- A file in a free slot whose block lies behind all others is apart from them.
ApartFromAll-fresh :
    (f : FilePointer) (fs : List FilePointer)
    → EndBefore f.data_offset fs
    → SlotFree f.slot_index fs
    → ApartFromAll f fs
ApartFromAll-fresh f [] e s = tt
ApartFromAll-fresh f (g ∷ gs) e s =
    (record { slots = λ p. s.0 (sym p); blocks = inr e.0 }, ApartFromAll-fresh f gs e.1 s.1)

Apart-sym : {f g : FilePointer} → Apart f g → Apart g f
Apart-sym a = record { slots = λ p. a.slots (sym p); blocks = flip a.blocks }
  where
    flip : {A B : Type 0} → A ⊎ B → B ⊎ A
    flip (inl x) = inr x
    flip (inr y) = inl y

ApartFromAll-append :
    (f g : FilePointer) (fs : List FilePointer)
    → ApartFromAll f fs
    → Apart f g
    → ApartFromAll f (fs ++ g ∷ [])
ApartFromAll-append f g [] a b = (b, tt)
ApartFromAll-append f g (h ∷ hs) a b = (a.0, ApartFromAll-append f g hs a.1 b)

-- A new file at the end of m_files.
pub WellFormed-append :
    (f : FilePointer) (fs : List FilePointer)
    → WellFormed fs
    → InData f
    → EndBefore f.data_offset fs
    → SlotFree f.slot_index fs
    → WellFormed (fs ++ f ∷ [])
WellFormed-append f [] w d e s = (d, tt, tt)
WellFormed-append f (g ∷ gs) w d e s = (
  w.0,
  ApartFromAll-append g f gs w.1 (record { slots = s.0; blocks = inl e.0 }),
  WellFormed-append f gs w.2 d e.1 s.1,
)

-- `f` may take the place of `g`: it has its slot, and its block, or a block behind all of `fs`.
pub record Moved (f g : FilePointer) (fs : List FilePointer) : Type 0 where
  pub slot : f.slot_index ≡ g.slot_index
  pub place :
      ((f.data_offset ≡ g.data_offset) × (f.allocated_size ≡ g.allocated_size))
      ⊎ EndBefore f.data_offset fs

Apart-Moved :
    {f g h : FilePointer} {fs : List FilePointer} → Apart h g → Moved f g (h ∷ fs) → Apart h f
Apart-Moved a m = record {
  slots = ground (arith, m.slot, a.slots);
  blocks = ground (arith, m.place, a.blocks);
}

Moved-tail : {f g h : FilePointer} {fs : List FilePointer} → Moved f g (h ∷ fs) → Moved f g fs
Moved-tail m = record { slot = m.slot; place = ground (arith, m.place) }

ApartFromAll-Moved :
    (f g : FilePointer) (hs : List FilePointer)
    → ApartFromAll g hs
    → Moved f g hs
    → ApartFromAll f hs
ApartFromAll-Moved f g [] a m = tt
ApartFromAll-Moved f g (h ∷ hs) a m =
    (Apart-sym (Apart-Moved (Apart-sym a.0) m), ApartFromAll-Moved f g hs a.1 (Moved-tail m))

ApartFromAll-set :
    (h f g : FilePointer) (fs : List FilePointer) (i : ℕ)
    → get_elem? fs i ≡ some g
    → ApartFromAll h fs
    → Moved f g (h ∷ fs)
    → ApartFromAll h (set fs i f)
ApartFromAll-set h f g [] i e a m = tt
ApartFromAll-set h f g (k ∷ ks) zero e a m =
    let same : k ≡ g = some-injective e in
    (
      Apart-Moved {fs = ks} (rw same at a.0)
          (record { slot = m.slot; place = ground (arith, m.place) }),
      a.1,
    )
ApartFromAll-set h f g (k ∷ ks) (suc i) e a m = (
  a.0,
  ApartFromAll-set h f g ks i e a.1 (record { slot = m.slot; place = ground (arith, m.place) }),
)

-- A file that is written in place or moved behind all others keeps the list well formed.
pub WellFormed-set :
    (f g : FilePointer) (fs : List FilePointer) (i : ℕ)
    → get_elem? fs i ≡ some g
    → WellFormed fs
    → InData f
    → Moved f g fs
    → WellFormed (set fs i f)
WellFormed-set f g [] i e w d m = tt
WellFormed-set f g (h ∷ hs) zero e w d m =
    let same : h ≡ g = some-injective e in
    (d, ApartFromAll-Moved f g hs (rw same at w.1) (Moved-tail m), w.2)
WellFormed-set f g (h ∷ hs) (suc i) e w d m =
    (w.0, ApartFromAll-set h f g hs i e w.1 m, WellFormed-set f g hs i e w.2 d (Moved-tail m))

ApartFromAll-remove_at :
    (f : FilePointer) (fs : List FilePointer) (i : ℕ)
    → ApartFromAll f fs
    → ApartFromAll f (remove_at fs i)
ApartFromAll-remove_at f [] i a = tt
ApartFromAll-remove_at f (g ∷ gs) zero a = a.1
ApartFromAll-remove_at f (g ∷ gs) (suc i) a = (a.0, ApartFromAll-remove_at f gs i a.1)

pub WellFormed-remove_at :
    (fs : List FilePointer) (i : ℕ) → WellFormed fs → WellFormed (remove_at fs i)
WellFormed-remove_at [] i w = tt
WellFormed-remove_at (f ∷ fs) zero w = w.2
WellFormed-remove_at (f ∷ fs) (suc i) w =
    (w.0, ApartFromAll-remove_at f fs i w.1, WellFormed-remove_at fs i w.2)

-- Two files of a well-formed list at different places are apart.
ApartFromAll-get_elem? :
    (f g : FilePointer) (fs : List FilePointer) (j : ℕ)
    → ApartFromAll f fs
    → get_elem? fs j ≡ some g
    → Apart f g
ApartFromAll-get_elem? f g [] j a e = cc
ApartFromAll-get_elem? f g (h ∷ hs) zero a e = rw (some-injective e) at a.0
ApartFromAll-get_elem? f g (h ∷ hs) (suc j) a e = ApartFromAll-get_elem? f g hs j a.1 e

pub Apart-get_elem? :
    (f g : FilePointer) (fs : List FilePointer) (i j : ℕ)
    → WellFormed fs
    → get_elem? fs i ≡ some f
    → get_elem? fs j ≡ some g
    → i ≢ j
    → Apart f g
Apart-get_elem? f g [] i j w p q ne = cc
Apart-get_elem? f g (h ∷ hs) zero zero w p q ne = absurd (ne refl)
Apart-get_elem? f g (h ∷ hs) zero (suc j) w p q ne =
    let a : ApartFromAll f hs = rw (some-injective p) at w.1 in ApartFromAll-get_elem? f g hs j a q
Apart-get_elem? f g (h ∷ hs) (suc i) zero w p q ne =
    let a : ApartFromAll g hs = rw (some-injective q) at w.1 in
    Apart-sym (ApartFromAll-get_elem? g f hs i a p)
Apart-get_elem? f g (h ∷ hs) (suc i) (suc j) w p q ne =
    Apart-get_elem? f g hs i j w.2 p q (λ e. ne (ap suc e))

pub InData-get_elem? :
    (f : FilePointer) (fs : List FilePointer) (i : ℕ)
    → AllInData fs
    → get_elem? fs i ≡ some f
    → InData f
InData-get_elem? f [] i w e = cc
InData-get_elem? f (h ∷ hs) zero w e = rw (some-injective e) at w.0
InData-get_elem? f (h ∷ hs) (suc i) w e = InData-get_elem? f hs i w.1 e
