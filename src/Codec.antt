-- ===== src/Codec.antt =====
-- internal/codec/codec.go and internal/hash/hash.go: chunks as the blobs that the server stores.
-- `Varint` has the calls of encoding/binary, `Keys` the master key. Zstandard, XChaCha20-Poly1305,
-- BLAKE3 and Argon2 are the records `Zstd` and `Primitives`, with what is relied on of them in
-- `ZstdRestores` and `CipherOpens`. A byte is a number below 256.
pub mod Varint
pub mod RoundTrip
pub mod Bounds
pub mod Base32
pub mod Keys
use openbackup.Prelude.{
  ℕ, zero, suc, ◌+◌, ◌*◌, ◌/◌, ◌%◌, ◌≡◌, Bool, true, false, not, ◌&&◌, ◌||◌, Bytes, String, [], ◌∷◌,
  ◌++◌, Option, none, some, ltb, leb, ◌==◌, if◌then◌else◌, length, take, drop,
}
use openbackup.Prelude.Result.{Result, ok, err, ◌>>=◌}
use openbackup.Codec.Keys.{Primitives, Key, nonce_size}
use openbackup.Codec.Varint.{append_uvarint, read_uvarint}

abbrev pub format_version : ℕ
format_version = 1

abbrev pub max_plaintext_len : ℕ
max_plaintext_len = 67108864

abbrev pub hex_len : ℕ
hex_len = 64

-- hash.Validate
abbrev pub is_hex : ℕ → Bool
is_hex c = leb b'0' c && leb c b'9' || leb b'a' c && leb c b'f'

abbrev pub all_hex : Bytes → Bool
all_hex [] = true
all_hex (c ∷ s) = is_hex c && all_hex s

unfoldable pub validate : Bytes → Bool
validate s = length s == hex_len && all_hex s

pub data CodecError : Type 0 where
  malformed need_key unknown_version invalid_digest cannot_decrypt cannot_decompress : CodecError

pub record Zstd : Type 0 where
  pub compress : Bytes → Bytes
  pub decompress : Bytes → Option Bytes

pub record ZstdRestores (z : Zstd) : Type 0 where
  pub restores : (p : Bytes) → z.decompress (z.compress p) ≡ some p

-- What the seal, the keyed digest and the key derivation are relied on for
pub record CipherOpens (a : Primitives) : Type 0 where
  pub opens :
      (key nonce p associated : Bytes)
      → a.unseal key nonce (a.seal key nonce p associated) associated ≡ some p
  pub nonce_length : (key text : Bytes) → length (a.keyed_digest key text) ≡ nonce_size

-- `Key.Nonce`
unfoldable pub nonce : Primitives → Key → Bytes → Result CodecError Bytes
unfolding validate
nonce a k digest =
    if validate digest then ok (a.keyed_digest k.nonce_key digest) else err invalid_digest

-- The struct `Codec`
pub record Codec : Type 0 where
  pub zstd : Zstd
  pub cipher : Primitives
  pub key : Option Key

-- The flags, bit 0 and bit 1
abbrev pub flags_byte : Bool → Bool → ℕ
flags_byte compressed encrypted = (if compressed then 1 else 0) + (if encrypted then 2 else 0)

abbrev pub is_compressed : ℕ → Bool
is_compressed flags = flags % 2 == 1

abbrev pub has_encrypted : ℕ → Bool
has_encrypted flags = flags / 2 % 2 == 1

-- What is stored of the plaintext, and whether it is compressed
abbrev pub payload_of : Zstd → Bytes → Bytes × Bool
payload_of z plain =
    let packed = z.compress plain in
    if ltb (length packed) (length plain) then (packed, true) else (plain, false)

abbrev pub header : Bool → Bool → Bytes → Bytes
header compressed encrypted plain =
    format_version ∷ flags_byte compressed encrypted ∷ append_uvarint (length plain)

unfoldable pub encode : Codec → Bytes → Bytes → Result CodecError Bytes
encode c plain digest =
    let (payload, compressed) = payload_of c.zstd plain in
    elim c.key [
      | none ↦ ok (header compressed false plain ++ payload)
      | some k ↦ nonce c.cipher k digest >>= λ n.
          let associated = header compressed true plain ++ n in
          ok (associated ++ c.cipher.seal k.bytes n payload associated)
    ]

abbrev pub of_option : {A : Type 0} → CodecError → Option A → Result CodecError A
of_option e none = err e
of_option e (some a) = ok a

-- The end of `Decode`: the payload back to plaintext of the length that the header says
abbrev pub unpack : Zstd → ℕ → ℕ → Bytes → Result CodecError Bytes
unpack z flags len rest =
    if is_compressed flags
    then (of_option cannot_decompress (z.decompress rest) >>= λ out.
        if length out == len then ok out else err malformed)
    else if length rest == len
    then ok rest
    else err malformed

-- The sealed part of a blob. `front` is the header without the nonce.
abbrev pub decrypt : Primitives → Option Key → Bytes → Bytes → Result CodecError Bytes
decrypt a none front rest = err need_key
decrypt a (some k) front rest =
    if ltb (length rest) nonce_size
    then err malformed
    else let n = take nonce_size rest in
      of_option cannot_decrypt (a.unseal k.bytes n (drop nonce_size rest) (front ++ n))

-- `Decode` behind the version and the flags; `rest` is what follows the length.
abbrev pub decode_body : Codec → ℕ → ℕ → Bytes → Bytes → Result CodecError Bytes
decode_body c flags len front rest =
    if ltb max_plaintext_len len
    then err malformed
    else (if has_encrypted flags then decrypt c.cipher c.key front rest else ok rest)
      >>= unpack c.zstd flags len

unfoldable pub decode : Codec → Bytes → Result CodecError Bytes
decode c [] = err malformed
decode c (v ∷ []) = err malformed
decode c (v ∷ flags ∷ []) = err malformed
decode c (v ∷ flags ∷ x ∷ s) =
    if v == format_version
    then elim (read_uvarint (x ∷ s)) [
      | none ↦ err malformed
      | some (len, n) ↦ decode_body c flags len (v ∷ flags ∷ take n (x ∷ s)) (drop n (x ∷ s))
    ]
    else err unknown_version

unfoldable pub is_encrypted : Bytes → Bool
is_encrypted [] = false
is_encrypted (v ∷ []) = false
is_encrypted (v ∷ flags ∷ s) = has_encrypted flags
