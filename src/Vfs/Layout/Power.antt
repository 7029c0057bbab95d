-- ===== src/Vfs/Layout/Power.antt =====
-- nextPowerOf2 of plugins/vfs-cake/src/EncryptedVFSContainer.cpp against powers of two.
use native.Mathlib.Nat.{div-div-eq-div-mul, pow-suc}
use a_social.Base.{
  ℕ, zero, suc, ◌+◌, ◌-◌, ◌*◌, ◌/◌, ◌^◌, ◌≤◌, ◌<◌, min, ◌≡◌, ◌⊎◌, inl, inr, refl, sym, arith,
  bit_or, ◌∙◌, ap, Bool-cases, leb,
}
use a_social.Base.Bits.{
  le-bit_or, bit_or-lt_pow, bit_or_ones, bit_or-div_pow, div-pow_suc, pow-add, pow_pos,
}
use a_social.Vfs.Layout.{data_alignment, add64, fill, next_power_of_2}

div-pow_add : (w a b : ℕ) → w / 2 ^ a / 2 ^ b ≡ w / 2 ^ (a + b)
div-pow_add w a b = rw (div-div-eq-div-mul w (2 ^ a) (2 ^ b), pow-add a b)

ones-div_pow : (a t : ℕ) → (2 ^ (a + t) - 1) / 2 ^ a ≡ 2 ^ t - 1
ones-div_pow zero t = let e : zero + t ≡ t = omega arith in rw e (omega arith)
ones-div_pow (suc a) t =
    let e : suc a + t ≡ suc (a + t) = omega arith in
    let half : (2 ^ suc (a + t) - 1) / 2 ≡ 2 ^ (a + t) - 1 =
      omega (arith, pow-suc 2 (a + t), pow_pos (a + t)) in
    rw (e, div-pow_suc a (2 ^ suc (a + t) - 1), half) (ones-div_pow a t)

-- `w` has `n` bits, and the highest `j` of them are ones.
abbrev Top : ℕ → ℕ → ℕ → Type 0
Top j n w = (w < 2 ^ n) × (w / 2 ^ (n - j) ≡ 2 ^ j - 1)

shift-lt : (w s n : ℕ) → w < 2 ^ n → w / s < 2 ^ n
shift-lt w s n h = grind arith

grow : (j t n w : ℕ) → j + t ≤ n → t ≤ j → Top j n w → Top (j + t) n (bit_or w (w / 2 ^ j))
grow j t n w fits less h = (
  bit_or-lt_pow n w (w / 2 ^ j) h.0 (shift-lt w (2 ^ j) n h.0),
  rw (bit_or-div_pow s w (w / 2 ^ j)) (bit_or_ones t j (w / 2 ^ s) (w / 2 ^ j / 2 ^ s) high low),
)
  where
    s : ℕ
    s = n - (j + t)

    high : w / 2 ^ (n - (j + t)) / 2 ^ t ≡ 2 ^ j - 1
    high =
        let e : n - (j + t) + t ≡ n - j = omega arith in rw (div-pow_add w (n - (j + t)) t, e) h.1

    low : w / 2 ^ j / 2 ^ (n - (j + t)) ≡ 2 ^ t - 1
    low =
        let e : j + (n - (j + t)) ≡ n - j + (j - t) = omega arith in
        let back : j - t + t ≡ j = omega arith in
        div-pow_add w j (n - (j + t))
        ∙ ap (λ k. w / 2 ^ k) e
        ∙ sym (div-pow_add w (n - j) (j - t))
        ∙ ap (λ x. x / 2 ^ (j - t)) h.1
        ∙ ap (λ x. (2 ^ x - 1) / 2 ^ (j - t)) (sym back)
        ∙ ones-div_pow (j - t) t

-- One line of the code, `v |= v >> p`, with the `p` highest bits filled before it.
round : (p n w : ℕ) → Top (min p n) n w → Top (min (p + p) n) n (bit_or w (w / 2 ^ p))
round p n w h = elim (Bool-cases (leb n p)) [
  | inl small ↦
      let e : min p n ≡ n = ground arith in
      let e' : min (p + p) n ≡ n = ground arith in
      let full : Top n n w = rw e at h in
      let same : n - n ≡ 0 = omega arith in
      let value : w / 2 ^ 0 ≡ 2 ^ n - 1 = rw same at full.1 in
      let up = le-bit_or w (w / 2 ^ p) in
      let down = bit_or-lt_pow n w (w / 2 ^ p) h.0 (shift-lt w (2 ^ p) n h.0) in
      rw (e', same) (down, omega (arith, value, up, down))
  | inr large ↦
      let e : min p n ≡ p = ground arith in
      let e' : min (p + p) n ≡ p + min p (n - p) = ground arith in
      rw e' (grow p (min p (n - p)) n w (omega arith) (omega arith) (rw e at h))
]

div_one : (v m : ℕ) → m ≤ v → v < m * 2 → v / m ≡ 1
div_one v m lo hi = grind arith

-- The six rounds fill every bit below the highest one of a number of at most 64 bits.
fill_ones : (m v : ℕ) → m < 64 → 2 ^ m ≤ v → v < 2 ^ suc m → fill v ≡ 2 ^ suc m - 1
unfolding fill
fill_ones m v wide lo hi =
    let n : ℕ = suc m in
    let v1 : ℕ = bit_or v (v / 2 ^ 1) in
    let v2 : ℕ = bit_or v1 (v1 / 2 ^ 2) in
    let v3 : ℕ = bit_or v2 (v2 / 2 ^ 4) in
    let v4 : ℕ = bit_or v3 (v3 / 2 ^ 8) in
    let v5 : ℕ = bit_or v4 (v4 / 2 ^ 16) in
    let e : min 1 n ≡ 1 = omega arith in
    let e' : n - 1 ≡ m = omega arith in
    let top : v / 2 ^ m ≡ 1 = div_one v (2 ^ m) lo (omega (arith, pow-suc 2 m)) in
    let first : Top (min 1 n) n v = rw (e, e') (hi, top) in
    let last : min 64 n ≡ n = omega arith in
    let same : n - n ≡ 0 = omega arith in
    let r3 = round 4 n v2 (round 2 n v1 (round 1 n v first)) in
    let r6 = round 32 n v5 (round 16 n v4 (round 8 n v3 r3)) in
    let full : Top n n (bit_or v5 (v5 / 2 ^ 32)) = rw last at r6 in
    let value : bit_or v5 (v5 / 2 ^ 32) / 2 ^ 0 ≡ 2 ^ n - 1 = rw same at full.1 in
    omega (arith, value)

-- The position of the highest bit.
highest_bit : (fuel v : ℕ) → 0 < v → v ≤ fuel → (m : ℕ) × (2 ^ m ≤ v) × (v < 2 ^ suc m)
highest_bit zero v pos h = absurd (omega arith)
highest_bit (suc fuel) v pos h = elim (Bool-cases (leb v 1)) [
  | inl small ↦ (0, ground arith, ground arith)
  | inr large ↦
      let (m, lo, hi) = highest_bit fuel (v / 2) (ground arith) (ground arith) in
      (suc m, omega (arith, lo, pow-suc 2 m), omega (arith, hi, pow-suc 2 (suc m), pow-suc 2 m))
]

pow_mono : (a b : ℕ) → a ≤ b → 2 ^ a ≤ 2 ^ b
pow_mono a zero h = let e : a ≡ 0 = omega arith in rw e (omega arith)
pow_mono a (suc b) h = elim (Bool-cases (leb a b)) [
  | inl below ↦ omega (arith, pow-suc 2 b, pow_mono a b (ground arith))
  | inr above ↦ let e : a ≡ suc b = ground arith in rw e (omega arith)
]

above_unit :
    (v m : ℕ)
    → data_alignment < v
    → v ≤ 2 ^ 63
    → 2 ^ m ≤ v - 1
    → v - 1 < 2 ^ suc m
    → (add64 (fill (v - 1)) 1 ≡ 2 ^ suc m) × (v ≤ 2 ^ suc m) × (2 ^ suc m < 2 * v)
above_unit v m large h lo hi = elim (Bool-cases (leb 63 m)) [
  | inl wide ↦ absurd (omega (arith, pow_mono 63 m (ground arith)))
  | inr narrow ↦
      let bound : 2 ^ suc m ≤ 2 ^ 63 = pow_mono (suc m) 63 (ground arith) in
      let filled = fill_ones m (v - 1) (ground arith) lo hi in
      (omega (arith, filled, bound, pow_pos (suc m)), omega arith, omega (arith, pow-suc 2 m))
]

-- For a size of at most 2 ^ 63 the result is a power of two that holds the size, at least one
-- alignment unit, and, above that unit, less than twice the size: the least such power.
pub next_power_of_2_lem :
    (v : ℕ)
    → v ≤ 2 ^ 63
    → (k : ℕ) × (next_power_of_2 v ≡ 2 ^ k)
      × (v ≤ 2 ^ k)
      × (data_alignment ≤ 2 ^ k)
      × ((k ≡ 12) ⊎ (2 ^ k < 2 * v))
unfolding next_power_of_2
next_power_of_2_lem v h = elim (Bool-cases (leb v data_alignment)) [
  | inl small ↦ (12, rw small refl, ground arith, omega arith, inl refl)
  | inr large ↦
      let (m, lo, hi) = highest_bit v (v - 1) (ground arith) (omega arith) in
      let (value, holds, least) = above_unit v m (ground arith) h lo hi in
      (suc m, rw large value, holds, ground arith, inr least)
]

-- A size of at most 2 ^ 31 is rounded up to at most that.
pub next_power_of_2_small : (v : ℕ) → v ≤ 2 ^ 31 → next_power_of_2 v ≤ 2 ^ 31
next_power_of_2_small v h =
    let (k, e, above, unit, least) = next_power_of_2_lem v (omega arith) in
    elim (Bool-cases (leb 32 k)) [
      | inl wide ↦ elim least [
        | inl twelve ↦ absurd (ground arith)
        | inr less ↦ absurd (omega (arith, less, pow_mono 32 k (ground arith)))
      ]
      | inr narrow ↦ omega (arith, e, pow_mono k 31 (ground arith))
    ]
