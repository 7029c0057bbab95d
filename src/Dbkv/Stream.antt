-- ===== src/Dbkv/Stream.antt =====
-- The stream that serialiseToDevice and deserialiseFromDevice of RocksDBStore.cpp write and read.
use a_social.Base.{
  ℕ, zero, suc, ◌+◌, ◌^◌, ◌%◌, ◌<◌, ◌≡◌, refl, ap, ◌∙◌, arith, true, not, Option, none, some, List,
  [], ◌∷◌, ◌++◌, append_assoc, length, length-append, ◌==◌, if◌then◌else◌,
}
use a_social.Base.Bytes.{Bytes}
use a_social.Dbkv.Engine.{Entry, Engine, Format}

abbrev pub stream_version : ℕ
stream_version = 1

module _ (e : Engine) where
  unfoldable pub write_entries : List Entry → Bytes
  write_entries [] = []
  write_entries ((k, v) ∷ es) = e.put_bytes k ++ (e.put_bytes v ++ write_entries es)

  -- The version, the count, and the entries.
  unfoldable pub stream_of : List Entry → Bytes
  stream_of es = e.put_u32 stream_version ++ (e.put_u32 (length es % 2 ^ 32) ++ write_entries es)

  abbrev cons_entry : Entry → Option (List Entry) → Option (List Entry)
  cons_entry x none = none
  cons_entry x (some es) = some (x ∷ es)

  -- The loop that fills the batch; it gives up on a bad status.
  unfoldable pub read_entries : ℕ → e.Reader → Option (List Entry)
  read_entries zero r = some []
  read_entries (suc n) r =
      let (k, r1) = e.get_bytes r in
      let (v, r2) = e.get_bytes r1 in
      let rest = read_entries n r2 in if not (e.ok r2) then none else cons_entry (k, v) rest

  -- The batch of what a device holds; none where it is refused.
  unfoldable pub read_stream : Bytes → Option (List Entry)
  read_stream raw =
      let (version, r1) = e.get_u32 (e.reader raw) in
      let (count, r2) = e.get_u32 r1 in
      let batch = read_entries count r2 in if not (version == stream_version) then none else batch

  -- Keys and values that QDataStream can write.
  abbrev pub AllShort : List Entry → Type 0
  AllShort [] = Unit
  AllShort ((k, v) ∷ es) = (length k + 1 < 2 ^ 32) × ((length v + 1 < 2 ^ 32) × AllShort es)

  module _ (f : Format e) where
    read_entries-step :
        (n : ℕ) (k v : Bytes) (r r1 r2 : e.Reader)
        → e.get_bytes r ≡ (k, r1)
        → e.get_bytes r1 ≡ (v, r2)
        → e.ok r2 ≡ true
        → read_entries (suc n) r ≡ cons_entry (k, v) (read_entries n r2)
    unfolding read_entries
    read_entries-step n k v r r1 r2 p q good = rw (p, q, good) refl

    -- The entries come back, whatever follows them.
    read_entries-write_entries :
        (es : List Entry) (tail : Bytes)
        → AllShort es
        → read_entries (length es) (e.reader (write_entries es ++ tail)) ≡ some es
    unfolding read_entries write_entries
    read_entries-write_entries [] tail short = refl
    read_entries-write_entries ((k, v) ∷ es) tail short =
        let rest = write_entries es ++ tail in
        ap (λ b. read_entries (suc (length es)) (e.reader b)) (regroup k v es tail)
        ∙ read_entries-step (length es) k v _ _ _
            (f.get-put_bytes k (e.put_bytes v ++ rest) short.0) (f.get-put_bytes v rest short.1.0)
            (f.ok-reader rest)
        ∙ ap (cons_entry (k, v)) (read_entries-write_entries es tail short.1.1)
      where
        regroup :
            (k v : Bytes) (es : List Entry) (tail : Bytes)
            → (e.put_bytes k ++ (e.put_bytes v ++ write_entries es)) ++ tail
              ≡ e.put_bytes k ++ (e.put_bytes v ++ (write_entries es ++ tail))
        regroup k v es tail =
            append_assoc (e.put_bytes k) _ tail
            ∙ ap (λ b. e.put_bytes k ++ b) (append_assoc (e.put_bytes v) (write_entries es) tail)

    read_stream-step :
        (raw : Bytes) (c : ℕ) (r1 r2 : e.Reader)
        → e.get_u32 (e.reader raw) ≡ (stream_version, r1)
        → e.get_u32 r1 ≡ (c, r2)
        → read_stream raw ≡ read_entries c r2
    unfolding read_stream
    read_stream-step raw c r1 r2 p q = rw (p, q) refl

    pub length-stream_of : (es : List Entry) → 0 < length (stream_of es)
    unfolding stream_of
    length-stream_of es = ground (
      arith,
      length-append (e.put_u32 stream_version) (e.put_u32 (length es % 2 ^ 32) ++ write_entries es),
      f.length-put_u32 stream_version,
    )

    -- Reading the stream of fewer than 2 ^ 32 short entries gives the entries back, also when other
    -- bytes follow on the device, such as what is left of a longer stream before it; where
    -- QDataStream reads back what it wrote.
    pub read_stream-stream_of :
        (es : List Entry) (tail : Bytes)
        → AllShort es
        → length es < 2 ^ 32
        → read_stream (stream_of es ++ tail) ≡ some es
    unfolding read_stream stream_of
    read_stream-stream_of es tail short few =
        let body = write_entries es ++ tail in
        let counted : length es % 2 ^ 32 ≡ length es = ground (arith, few) in
        ap read_stream (
          append_assoc (e.put_u32 stream_version) _ tail
          ∙ ap (λ b. e.put_u32 stream_version ++ b)
              (append_assoc (e.put_u32 (length es % 2 ^ 32)) (write_entries es) tail)
          ∙ ap (λ n. e.put_u32 stream_version ++ (e.put_u32 n ++ body)) counted)
        ∙ read_stream-step _ (length es) _ _ (f.get-put_u32 stream_version _ (ground arith))
            (f.get-put_u32 (length es) body few)
        ∙ read_entries-write_entries es tail short
