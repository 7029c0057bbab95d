-- ===== src/Vfs/Toy.antt =====
-- A platform that keeps the promises of Lawful: a disk held in memory, which writes everything,
-- and a cipher that appends its tag. It shows that they can be kept, and runs the examples.
use a_social.Base.{
  ℕ, zero, suc, ◌+◌, ◌-◌, ◌≤◌, ◌<◌, ◌≡◌, refl, ap, ap₂, sym, ◌∙◌, arith, true, ◌||◌, ◌&&◌, some, [],
  ◌∷◌, ◌++◌, length, get_or, take, replicate, min, max, leb, ltb, if◌then◌else◌, length-append,
  length-replicate, take-append_length, some-injective, Option,
}
use a_social.Base.Bytes.{Bytes}
use a_social.Vfs.Platform.{Platform, Lawful, IsHealthy}

pub record Disk : Type 0 where
  pub size : ℕ
  pub byte : ℕ → ℕ

abbrev bytes_at : (ℕ → ℕ) → ℕ → ℕ → Bytes
bytes_at f off zero = []
bytes_at f off (suc n) = f off ∷ bytes_at f (off + 1) n

abbrev patched : (ℕ → ℕ) → ℕ → Bytes → ℕ → ℕ
patched f off b i = if leb off i && ltb i (off + length b) then get_or b (i - off) 0 else f i

abbrev pub disk_read : Disk → ℕ → ℕ → Bytes
disk_read d off n = bytes_at d.byte off (min n (d.size - off))

abbrev pub disk_write : Disk → ℕ → Bytes → Disk
disk_write d off b = record { size = max d.size (off + length b); byte = patched d.byte off b }

abbrev pub toy : Platform
toy = record {
  File = Disk;
  size = λ d. d.size;
  read = disk_read;
  write = λ d off b. (disk_write d off b, true);
  resize = λ d n. record d { size = n };
  to_utf8 = λ s. s;
  from_utf8 = λ b. b;
  encrypt = λ key nonce ad pt. some (pt ++ replicate 16 0);
  decrypt = λ key nonce ad ct. some (take (length ct - 16) ct);
  random = λ t n. replicate n t;
  create_uuid = λ t. replicate 16 t;
  buffer_opens = λ reads writes. reads || writes;
}

bytes_at-same :
    (f g : ℕ → ℕ) (o n : ℕ)
    → ((i : ℕ) → o ≤ i → i < o + n → f i ≡ g i)
    → bytes_at f o n ≡ bytes_at g o n
bytes_at-same f g o zero h = refl
bytes_at-same f g o (suc n) h =
    ap₂ (λ (x : ℕ) (xs : Bytes). x ∷ xs) (h o (omega arith) (omega arith))
      (bytes_at-same f g (o + 1) n (λ i a b. h i (omega arith) (omega arith)))

bytes_at-list :
    (f : ℕ → ℕ) (off : ℕ) (b : Bytes)
    → ((k : ℕ) → k < length b → f (off + k) ≡ get_or b k 0)
    → bytes_at f off (length b) ≡ b
bytes_at-list f off [] h = refl
bytes_at-list f off (x ∷ xs) h =
    ap₂ (λ (y : ℕ) (ys : Bytes). y ∷ ys)
      (let e : off + 0 ≡ off = omega arith in rw e at (h 0 (omega arith)))
      (bytes_at-list f (off + 1) xs
        (λ k a. let e : off + 1 + k ≡ off + suc k = omega arith in rw e (h (suc k) (omega arith))))

bytes_at-append :
    (f : ℕ → ℕ) (o a b : ℕ) → bytes_at f o (a + b) ≡ bytes_at f o a ++ bytes_at f (o + a) b
bytes_at-append f o zero b =
    let e : o + 0 ≡ o = omega arith in let e' : 0 + b ≡ b = omega arith in rw (e, e')
bytes_at-append f o (suc a) b =
    let e : suc a + b ≡ suc (a + b) = omega arith in
    let e' : o + suc a ≡ o + 1 + a = omega arith in
    rw (e, e') (ap (λ (xs : Bytes). f o ∷ xs) (bytes_at-append f (o + 1) a b))

length-bytes_at : (f : ℕ → ℕ) (o n : ℕ) → length (bytes_at f o n) ≡ n
length-bytes_at f o zero = refl
length-bytes_at f o (suc n) = ap suc (length-bytes_at f (o + 1) n)

-- A read that stays inside the disk gets all its bytes.
disk_read_all : (d : Disk) (o n : ℕ) → o + n ≤ d.size → disk_read d o n ≡ bytes_at d.byte o n
disk_read_all d o n h = let e : min n (d.size - o) ≡ n = omega arith in rw e

patched_in :
    (f : ℕ → ℕ) (off : ℕ) (b : Bytes) (k : ℕ)
    → k < length b
    → patched f off b (off + k) ≡ get_or b k 0
patched_in f off b k h = let e : off + k - off ≡ k = omega arith in rw e (ground arith)

read-write_self :
    (d : Disk) (off n : ℕ) (b : Bytes) → length b ≡ n → disk_read (disk_write d off b) off n ≡ b
read-write_self d off n b e =
    disk_read_all (disk_write d off b) off n (omega (arith, e))
    ∙ rw (← e) (bytes_at-list (patched d.byte off b) off b (patched_in d.byte off b))

read-write_out :
    (d : Disk) (off : ℕ) (b : Bytes) (o n : ℕ)
    → ((i : ℕ) → o ≤ i → i < o + n → patched d.byte off b i ≡ d.byte i)
    → o + n ≤ d.size
    → disk_read (disk_write d off b) o n ≡ disk_read d o n
read-write_out d off b o n h held =
    disk_read_all (disk_write d off b) o n (omega arith)
    ∙ bytes_at-same (patched d.byte off b) d.byte o n h
    ∙ sym (disk_read_all d o n held)

pub toy-Lawful : Lawful toy
toy-Lawful = record {
  read-write_self = λ f off n b e w. read-write_self f off n b e;
  read-write_before = λ f off b o n h s. read-write_out f off b o n (λ i x y. ground arith) s;
  read-write_after = λ f off b o n h s. read-write_out f off b o n (λ i x y. ground arith) s;
  le-size-write = λ f off b. omega arith;
  size-write = λ f off b h w. omega arith;
  length-read = λ f off n h. rw (disk_read_all f off n h) (length-bytes_at f.byte off n);
  read-append = λ f off a b h.
      disk_read_all f off (a + b) h
      ∙ bytes_at-append f.byte off a b
      ∙ ap₂ (λ (x y : Bytes). x ++ y) (sym (disk_read_all f off a (omega arith)))
          (sym (disk_read_all f (off + a) b (omega arith)));
  le-size-resize = λ f n h. h;
  read-resize = λ f n o k h s.
      disk_read_all (record f { size = n }) o k (omega arith) ∙ sym (disk_read_all f o k s);
  decrypt-encrypt = λ key nonce ad pt ct e. untag pt ct (some-injective e);
  length-encrypt = λ key nonce ad pt ct e. tagged pt ct (some-injective e);
  length-random = λ t n. length-replicate n t;
  length-create_uuid = λ t. length-replicate 16 t;
}
  where
    tagged : (pt ct : Bytes) → pt ++ replicate 16 0 ≡ ct → length ct ≡ length pt + 16
    tagged pt ct e = rw (← e) (length-append pt (replicate 16 0))

    untag :
        (pt ct : Bytes)
        → pt ++ replicate 16 0 ≡ ct
        → (let r : Option Bytes = some (take (length ct - 16) ct) in r ≡ some pt)
    untag pt ct e =
        let len : length (pt ++ replicate 16 0) - 16 ≡ length pt =
          omega (arith, length-append pt (replicate 16 0)) in
        rw (← e, len) (ap some (take-append_length pt (replicate 16 0) (length pt) refl))

pub toy-IsHealthy : IsHealthy toy
toy-IsHealthy f off b = refl
