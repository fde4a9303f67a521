-- ===== src/Codec/RoundTrip.antt =====
-- internal/codec/codec.go: `Decode` takes back what `Encode` makes, and what no blob can make it
-- return.
use openbackup.Prelude.{
  ℕ, ◌≤◌, ◌≡◌, ◌⊎◌, inl, inr, refl, sym, ap, subst, ◌∙◌, Bool, true, false, Bytes, ◌∷◌, ◌++◌,
  Option, none, some, arith, ltb, ◌==◌, Bool-cases, Option-cases, if_cases, length, take, drop,
  append_assoc, take-length_append, drop-length_append, length-append,
}
use openbackup.Prelude.Result.{Result, ok, err, ◌>>=◌, ok-injective, err-ne-ok}
use openbackup.Codec.{
  Codec, CodecError, Zstd, ZstdRestores, CipherOpens, max_plaintext_len, nonce, validate, header,
  flags_byte, payload_of, encode, unpack, decrypt, decode_body, decode, is_compressed,
  has_encrypted, malformed,
}
use openbackup.Codec.Keys.{Primitives, Key, nonce_size}
use openbackup.Codec.Varint.{
  append_uvarint, read_uvarint, append_uvarint-cons, read_uvarint-append_uvarint,
}

abbrev behind_flags : Codec → ℕ → Bytes → Result CodecError Bytes
behind_flags c flags s = elim (read_uvarint s) [
  | none ↦ err malformed
  | some (len, n) ↦ decode_body c flags len (1 ∷ flags ∷ take n s) (drop n s)
]

decode-flags :
    (c : Codec) (flags : ℕ) (w rest : Bytes)
    → (b : ℕ) × (s : Bytes) × (w ≡ b ∷ s)
    → decode c (1 ∷ flags ∷ (w ++ rest)) ≡ behind_flags c flags (w ++ rest)
unfolding decode
decode-flags c flags w rest (b, s, e) =
    subst (λ w. decode c (1 ∷ flags ∷ (w ++ rest)) ≡ behind_flags c flags (w ++ rest)) (sym e) refl

-- What `Decode` finds behind a header
decode-header :
    (c : Codec) (compressed encrypted : Bool) (plain rest : Bytes)
    → length plain ≤ max_plaintext_len
    → decode c (header compressed encrypted plain ++ rest)
      ≡ decode_body c
          (flags_byte compressed encrypted)
          (length plain)
          (header compressed encrypted plain)
          rest
decode-header c compressed encrypted plain rest short =
    let w = append_uvarint (length plain) in
    let flags = flags_byte compressed encrypted in
    let read = read_uvarint-append_uvarint (length plain) rest (omega (arith, short)) in
    decode-flags c flags w rest (append_uvarint-cons (length plain))
    ∙ rw (read, behind_flags)
        (ap (λ s. decode_body c flags (length plain) (1 ∷ flags ∷ s) (drop (length w) (w ++ rest)))
            (take-length_append w rest)
          ∙ ap (decode_body c flags (length plain) (1 ∷ flags ∷ w)) (drop-length_append w rest))

flags-compressed : (b e : Bool) → is_compressed (flags_byte b e) ≡ b
flags-compressed true true = refl
flags-compressed true false = refl
flags-compressed false true = refl
flags-compressed false false = refl

flags-encrypted : (b e : Bool) → has_encrypted (flags_byte b e) ≡ e
flags-encrypted true true = refl
flags-encrypted true false = refl
flags-encrypted false true = refl
flags-encrypted false false = refl

==_refl : (n : ℕ) → (n == n) ≡ true
==_refl n = ground arith

unpack-payload :
    (z : Zstd) (plain : Bytes) (e : Bool)
    → ZstdRestores z
    → let (payload, compressed) = payload_of z plain in
      unpack z (flags_byte compressed e) (length plain) payload ≡ ok plain
unpack-payload z plain e r = at (Bool-cases (ltb (length (z.compress plain)) (length plain)))
  where
    at :
        (ltb (length (z.compress plain)) (length plain) ≡ true)
          ⊎ (ltb (length (z.compress plain)) (length plain) ≡ false)
        → let (payload, compressed) = payload_of z plain in
          unpack z (flags_byte compressed e) (length plain) payload ≡ ok plain
    at (inl h) =
        rw h
          (rw (flags-compressed true e) (rw (r.restores plain) (rw (==_refl (length plain)) refl)))
    at (inr h) = rw h (rw (flags-compressed false e) (rw (==_refl (length plain)) refl))

decode_body-plain :
    (c : Codec) (compressed : Bool) (len : ℕ) (front rest : Bytes)
    → ltb max_plaintext_len len ≡ false
    → decode_body c (flags_byte compressed false) len front rest
      ≡ unpack c.zstd (flags_byte compressed false) len rest
decode_body-plain c compressed len front rest fits =
    rw fits (rw (flags-encrypted compressed false) refl)

decrypt-seal :
    (a : Primitives) (k : Key) (front n payload : Bytes)
    → CipherOpens a
    → length n ≡ nonce_size
    → decrypt a (some k) front (n ++ a.seal k.bytes n payload (front ++ n)) ≡ ok payload
decrypt-seal a k front n payload opens len =
    let sealed = a.seal k.bytes n payload (front ++ n) in
    let long : ltb (length (n ++ sealed)) nonce_size ≡ false =
      ground (arith, length-append n sealed, len) in
    let first : take nonce_size (n ++ sealed) ≡ n =
      subst (λ l. take l (n ++ sealed) ≡ n) len (take-length_append n sealed) in
    let second : drop nonce_size (n ++ sealed) ≡ sealed =
      subst (λ l. drop l (n ++ sealed) ≡ sealed) len (drop-length_append n sealed) in
    rw long (rw (first, second) (rw (opens.opens k.bytes n payload (front ++ n)) refl))

nonce-length :
    (a : Primitives) (k : Key) (digest n : Bytes)
    → CipherOpens a
    → nonce a k digest ≡ ok n
    → length n ≡ nonce_size
unfolding nonce
nonce-length a k digest n opens h =
    if_cases (λ (r : Result CodecError Bytes). r ≡ ok n → length n ≡ nonce_size) (validate digest) _
      _
      (λ v q.
        subst (λ x. length x ≡ nonce_size) (ok-injective q) (opens.nonce_length k.nonce_key digest))
      (λ v q. absurd (err-ne-ok q)) h

-- A blob that is sealed can only be opened under its key, any other by every codec.
abbrev pub CanOpen : Codec → Option Key → Type 0
CanOpen c none = Unit
CanOpen c (some k) = c.key ≡ some k

module _ (c d : Codec) (plain digest blob : Bytes) (short : length plain ≤ max_plaintext_len)
    (zstd : d.zstd ≡ c.zstd) (cipher : d.cipher ≡ c.cipher) (restores : ZstdRestores c.zstd)
    (opens : CipherOpens c.cipher) where
  fits : ltb max_plaintext_len (length plain) ≡ false
  fits = ground arith

  unpacked :
      (encrypted : Bool)
      → let (payload, compressed) = payload_of c.zstd plain in
        unpack d.zstd (flags_byte compressed encrypted) (length plain) payload ≡ ok plain
  unpacked encrypted =
      let (payload, compressed) = payload_of c.zstd plain in
      subst (λ z. unpack z (flags_byte compressed encrypted) (length plain) payload ≡ ok plain)
        (sym zstd) (unpack-payload c.zstd plain encrypted restores)

  plain_blob :
      let (payload, compressed) = payload_of c.zstd plain in
      decode d (header compressed false plain ++ payload) ≡ ok plain
  plain_blob =
      let (payload, compressed) = payload_of c.zstd plain in
      decode-header d compressed false plain payload short
      ∙ decode_body-plain d compressed (length plain) (header compressed false plain) payload fits
      ∙ unpacked false

  sealed_blob :
      (k : Key) (n : Bytes)
      → d.key ≡ some k
      → length n ≡ nonce_size
      → let (payload, compressed) = payload_of c.zstd plain in
        let front = header compressed true plain in
        decode d ((front ++ n) ++ c.cipher.seal k.bytes n payload (front ++ n)) ≡ ok plain
  sealed_blob k n same len =
      let (payload, compressed) = payload_of c.zstd plain in
      let front = header compressed true plain in
      let sealed = c.cipher.seal k.bytes n payload (front ++ n) in
      let opened : decrypt d.cipher d.key front (n ++ sealed) ≡ ok payload =
        rw (cipher, same) (decrypt-seal c.cipher k front n payload opens len) in
      ap (decode d) (append_assoc front n sealed)
      ∙ decode-header d compressed true plain (n ++ sealed) short
      ∙ rw fits (rw (flags-encrypted compressed true) (rw opened (unpacked true)))

  -- What `Encode` makes of a chunk of at most 64 MiB, with a key or without, `Decode` takes back to
  -- the chunk, under any codec with the same key and, where the blob was not sealed, under any codec
  -- at all: a repository can hold both kinds. Zstandard and the cipher are relied on to restore
  -- what they made.
  pub decode-encode : encode c plain digest ≡ ok blob → CanOpen d c.key → decode d blob ≡ ok plain
  unfolding encode
  decode-encode h k = at (Option-cases c.key)
    where
      with_nonce :
          (key : Key) (r : Result CodecError Bytes)
          → nonce c.cipher key digest ≡ r
          → d.key ≡ some key
          → let (payload, compressed) = payload_of c.zstd plain in
            let front = header compressed true plain in
            (r >>= λ n. ok ((front ++ n) ++ c.cipher.seal key.bytes n payload (front ++ n)))
              ≡ ok blob
            → decode d blob ≡ ok plain
      with_nonce key (err e) q same h = absurd (err-ne-ok h)
      with_nonce key (ok n) q same h =
          subst (λ b. decode d b ≡ ok plain) (ok-injective h)
            (sealed_blob key n same (nonce-length c.cipher key digest n opens q))

      at : (c.key ≡ none) ⊎ ((key : Key) × (c.key ≡ some key)) → decode d blob ≡ ok plain
      at (inl q) = subst (λ b. decode d b ≡ ok plain) (ok-injective (rw q at h)) plain_blob
      at (inr (key, q)) = with_nonce key (nonce c.cipher key digest) refl (rw q at k) (rw q at h)
