-- ===== src/Base/Bytes.antt =====
-- Byte strings: writes into a buffer at an offset (`memcpy`), slices, little-endian numbers.
use Prim.Native.Nat.{ℕ, zero, suc, ◌+◌, ◌*◌, ◌/◌, ◌%◌, ◌^◌, ◌≤◌, ◌<◌}
use mathlib.Core.Path.{◌≡◌, refl, ap}
use mathlib.Core.List.{List, [], ◌∷◌}
use native.Mathlib.Omega.{arith}
use native.Mathlib.Nat.{pow-suc}
use a_social.Base.Lists.{length, take, drop}

abbrev pub Bytes : Type 0
Bytes = List ℕ

-- `memcpy(buf + off, src, src.size())`; a byte past the end of the buffer is not written.
unfoldable pub overwrite : Bytes → ℕ → Bytes → Bytes
overwrite [] off src = []
overwrite (b ∷ bs) (suc off) src = b ∷ overwrite bs off src
overwrite (b ∷ bs) zero [] = b ∷ bs
overwrite (b ∷ bs) zero (x ∷ src) = x ∷ overwrite bs zero src

-- `buf.mid(off, n)`
abbrev pub slice : Bytes → ℕ → ℕ → Bytes
slice buf off n = take n (drop off buf)

pub length-overwrite :
    (buf : Bytes) (off : ℕ) (src : Bytes) → length (overwrite buf off src) ≡ length buf
unfolding overwrite
length-overwrite [] off src = refl
length-overwrite (b ∷ bs) (suc off) src = ap suc (length-overwrite bs off src)
length-overwrite (b ∷ bs) zero [] = refl
length-overwrite (b ∷ bs) zero (x ∷ src) = ap suc (length-overwrite bs zero src)

pub slice-overwrite_self :
    (buf : Bytes) (off : ℕ) (src : Bytes) (n : ℕ)
    → length src ≡ n
    → off + n ≤ length buf
    → slice (overwrite buf off src) off n ≡ src
unfolding overwrite
slice-overwrite_self [] zero [] zero e h = refl
slice-overwrite_self [] (suc off) src n e h = absurd (omega arith)
slice-overwrite_self [] zero (x ∷ src) n e h = absurd (omega arith)
slice-overwrite_self [] zero [] (suc n) e h = absurd (omega arith)
slice-overwrite_self (b ∷ bs) (suc off) src n e h =
    slice-overwrite_self bs off src n e (omega arith)
slice-overwrite_self (b ∷ bs) zero [] zero e h = refl
slice-overwrite_self (b ∷ bs) zero [] (suc n) e h = absurd (omega arith)
slice-overwrite_self (b ∷ bs) zero (x ∷ src) zero e h = absurd (omega arith)
slice-overwrite_self (b ∷ bs) zero (x ∷ src) (suc n) e h =
    ap (λ t. x ∷ t) (slice-overwrite_self bs zero src n (omega arith) (omega arith))

-- A write before the slice, or behind it, leaves the slice as it is.
pub slice-overwrite_after :
    (buf : Bytes) (off : ℕ) (src : Bytes) (o n : ℕ)
    → o + n ≤ off
    → slice (overwrite buf off src) o n ≡ slice buf o n
unfolding overwrite
slice-overwrite_after [] off src o n h = refl
slice-overwrite_after (b ∷ bs) zero src zero zero h = refl
slice-overwrite_after (b ∷ bs) zero src zero (suc n) h = absurd (omega arith)
slice-overwrite_after (b ∷ bs) zero src (suc o) n h = absurd (omega arith)
slice-overwrite_after (b ∷ bs) (suc off) src zero zero h = refl
slice-overwrite_after (b ∷ bs) (suc off) src zero (suc n) h =
    ap (λ t. b ∷ t) (slice-overwrite_after bs off src zero n (omega arith))
slice-overwrite_after (b ∷ bs) (suc off) src (suc o) n h =
    slice-overwrite_after bs off src o n (omega arith)

pub drop-overwrite_before :
    (buf : Bytes) (off : ℕ) (src : Bytes) (o : ℕ)
    → off + length src ≤ o
    → drop o (overwrite buf off src) ≡ drop o buf
unfolding overwrite
drop-overwrite_before [] off src o h = refl
drop-overwrite_before (b ∷ bs) (suc off) src zero h = absurd (omega arith)
drop-overwrite_before (b ∷ bs) (suc off) src (suc o) h =
    drop-overwrite_before bs off src o (omega arith)
drop-overwrite_before (b ∷ bs) zero [] o h = refl
drop-overwrite_before (b ∷ bs) zero (x ∷ src) zero h = absurd (omega arith)
drop-overwrite_before (b ∷ bs) zero (x ∷ src) (suc o) h =
    drop-overwrite_before bs zero src o (omega arith)

-- The `k` low bytes of a number, the lowest first, and the number that bytes stand for.
unfoldable pub le_bytes : ℕ → ℕ → Bytes
le_bytes zero v = []
le_bytes (suc k) v = v % 256 ∷ le_bytes k (v / 256)

unfoldable pub of_le : Bytes → ℕ
of_le [] = 0
of_le (b ∷ bs) = b + 256 * of_le bs

pub length-le_bytes : (k v : ℕ) → length (le_bytes k v) ≡ k
unfolding le_bytes
length-le_bytes zero v = refl
length-le_bytes (suc k) v = ap suc (length-le_bytes k (v / 256))

pub of_le-le_bytes : (k v : ℕ) → v < 256 ^ k → of_le (le_bytes k v) ≡ v
unfolding le_bytes of_le
of_le-le_bytes zero v h = omega arith
of_le-le_bytes (suc k) v h =
    let e : 256 ^ suc k ≡ 256 * 256 ^ k = grind (arith, pow-suc) in
    let below : v / 256 < 256 ^ k = omega (arith, e) in
    omega (arith, of_le-le_bytes k (v / 256) below)
