-- ===== src/Vfs/Layout/Narrow.antt =====
-- The narrowing of a quint64 to an int in plugins/vfs-cake/src/EncryptedVFSContainer.cpp.
use a_social.Base.{
  ℕ, ◌%◌, ◌^◌, ◌≤◌, ◌<◌, ◌≡◌, refl, ap, arith, List, [], ◌∷◌, take, length, ltb, Bool-cases, inl,
  inr,
}
use a_social.Vfs.Layout.{to_int}

pub to_int_le : (n : ℕ) → to_int n ≤ n
to_int_le n = elim (Bool-cases (ltb (n % 2 ^ 32) (2 ^ 31))) [
  | inl fits ↦ rw fits (omega arith)
  | inr over ↦ rw over (omega arith)
]

pub to_int_small : (n : ℕ) → n < 2 ^ 31 → to_int n ≡ n
to_int_small n h = elim (Bool-cases (ltb (n % 2 ^ 32) (2 ^ 31))) [
  | inl fits ↦ rw fits (omega arith)
  | inr over ↦ rw over (ground arith)
]

pub take-length : {A : Type 0} (xs : List A) → take (length xs) xs ≡ xs
take-length [] = refl
take-length (x ∷ xs) = ap (λ ys. x ∷ ys) (take-length xs)
