-- ===== src/Vfs/Platform.antt =====
-- What the container uses and does not implement: QFile, libsodium, QUuid and the UTF-8 codec of
-- QString, as a record of operations, and the documented behaviour that the proofs rely on.
use a_social.Base.{ℕ, ◌+◌, ◌≤◌, ◌<◌, ◌≡◌, Bool, true, Option, some, Text, length, ◌++◌}
use a_social.Base.Bytes.{Bytes}

pub record Platform : Type 1 where
  pub File : Type 0
  pub size : File → ℕ
  -- `seek(off)` and `read(n)`: fewer bytes than `n` at the end of the file
  pub read : File → ℕ → ℕ → Bytes
  -- `seek(off)` and `write(data)`, with whether every byte was written
  pub write : File → ℕ → Bytes → File × Bool
  pub resize : File → ℕ → File
  -- the code units of a name, to UTF-8 and back
  pub to_utf8 : Text → Bytes
  pub from_utf8 : Bytes → Text
  -- crypto_aead_xchacha20poly1305_ietf_encrypt and _decrypt: key, nonce, additional data, text
  pub encrypt : Bytes → Bytes → Bytes → Bytes → Option Bytes
  pub decrypt : Bytes → Bytes → Bytes → Bytes → Option Bytes
  -- `randombytes_buf`: the bytes of the draw with this number
  pub random : ℕ → ℕ → Bytes
  -- `QUuid::createUuid` at the draw with this number, as its 16 RFC 4122 bytes
  pub create_uuid : ℕ → Bytes
  -- `QBuffer::open`, for a mode that reads or not and writes or not
  pub buffer_opens : Bool → Bool → Bool

pub record Lawful (p : Platform) : Type 0 where
  pub read-write_self :
      (f : p.File) (off n : ℕ) (b : Bytes)
      → length b ≡ n
      → (p.write f off b).1 ≡ true
      → p.read (p.write f off b).0 off n ≡ b
  -- what lies inside the file and outside the bytes written stays
  pub read-write_before :
      (f : p.File) (off : ℕ) (b : Bytes) (o n : ℕ)
      → o + n ≤ off
      → o + n ≤ p.size f
      → p.read (p.write f off b).0 o n ≡ p.read f o n
  pub read-write_after :
      (f : p.File) (off : ℕ) (b : Bytes) (o n : ℕ)
      → off + length b ≤ o
      → o + n ≤ p.size f
      → p.read (p.write f off b).0 o n ≡ p.read f o n
  pub le-size-write : (f : p.File) (off : ℕ) (b : Bytes) → p.size f ≤ p.size (p.write f off b).0
  pub size-write :
      (f : p.File) (off : ℕ) (b : Bytes)
      → 0 < length b
      → (p.write f off b).1 ≡ true
      → off + length b ≤ p.size (p.write f off b).0
  pub length-read : (f : p.File) (off n : ℕ) → off + n ≤ p.size f → length (p.read f off n) ≡ n
  -- a long read is two reads, one behind the other
  pub read-append :
      (f : p.File) (off a b : ℕ)
      → off + (a + b) ≤ p.size f
      → p.read f off (a + b) ≡ p.read f off a ++ p.read f (off + a) b
  -- growing a file keeps what it holds
  pub le-size-resize : (f : p.File) (n : ℕ) → p.size f ≤ n → p.size f ≤ p.size (p.resize f n)
  pub read-resize :
      (f : p.File) (n o k : ℕ)
      → p.size f ≤ n
      → o + k ≤ p.size f
      → p.read (p.resize f n) o k ≡ p.read f o k
  pub decrypt-encrypt :
      (key nonce ad pt ct : Bytes)
      → p.encrypt key nonce ad pt ≡ some ct
      → p.decrypt key nonce ad ct ≡ some pt
  pub length-encrypt :
      (key nonce ad pt ct : Bytes)
      → p.encrypt key nonce ad pt ≡ some ct
      → length ct ≡ length pt + 16
  pub length-random : (t n : ℕ) → length (p.random t n) ≡ n
  pub length-create_uuid : (t : ℕ) → length (p.create_uuid t) ≡ 16

-- The disk writes every byte that it is given.
abbrev pub IsHealthy : Platform → Type 0
IsHealthy p = (f : p.File) (off : ℕ) (b : Bytes) → (p.write f off b).1 ≡ true
