-- ===== src/Codec/Keys.antt =====
-- internal/codec/key.go: the master key, its recovery code, and the copy that the server keeps under
-- a passphrase. Fresh random bytes are an argument, and so is strings.ToUpper.
pub mod Kept
use openbackup.Prelude.{
  ℕ, zero, suc, ◌+◌, ◌%◌, ◌<◌, ◌≡◌, Bool, true, false, ◌&&◌, ◌||◌, Bytes, String, [], ◌∷◌, ◌++◌,
  Option, none, some, ltb, ◌==◌, if◌then◌else◌, length, take, drop,
}
use openbackup.Prelude.Result.{Result, ok, err, ◌>>=◌}
use openbackup.Text.{bytes_eq}
use openbackup.Codec.Base32.{encode32, decode32}

pub data KeyError : Type 0 where
  bad_key_length short_passphrase short_salt malformed wrong_passphrase invalid_code : KeyError

-- blake3.DeriveKey under a context, a digest under a key, Argon2id, and the cipher's Seal and Open under a key, a nonce
-- and associated data
pub record Primitives : Type 0 where
  pub derive_key : String → Bytes → Bytes
  pub keyed_digest : Bytes → Bytes → Bytes
  pub argon2 : Bytes → Bytes → Bytes
  pub seal : Bytes → Bytes → Bytes → Bytes → Bytes
  pub unseal : Bytes → Bytes → Bytes → Bytes → Option Bytes

abbrev pub key_size : ℕ
key_size = 32

abbrev pub salt_size : ℕ
salt_size = 16

abbrev pub nonce_size : ℕ
nonce_size = 24

pub record Key : Type 0 where
  pub bytes : Bytes
  pub nonce_key : Bytes

unfoldable pub key_from_bytes : Primitives → Bytes → Result KeyError Key
key_from_bytes a raw =
    if length raw == key_size
    then ok (record { bytes = raw; nonce_key = a.derive_key "openbackup 2024 chunk-nonce" raw })
    else err bad_key_length

abbrev pub or_fresh : Option Bytes → Bytes → Bytes
or_fresh none fresh = fresh
or_fresh (some salt) fresh = salt

-- No salt is the nil salt.
unfoldable pub derive_key_from_passphrase :
    Primitives → Bytes → Option Bytes → Bytes → Result KeyError (Key × Bytes)
unfolding key_from_bytes
derive_key_from_passphrase a passphrase given fresh =
    let salt = or_fresh given fresh in
    if ltb (length passphrase) 8
    then err short_passphrase
    else if ltb (length salt) salt_size
    then err short_salt
    else (key_from_bytes a (a.argon2 passphrase salt) >>= λ k. ok (k, salt))

unfoldable pub id : Primitives → Key → Bytes
id a k = a.derive_key "openbackup 2024 key-id" k.bytes

-- A dash before each group of eight but the first
unfoldable pub group : ℕ → Bytes → Bytes
group i [] = []
group i (c ∷ s) =
    let rest = group (suc i) s in if ltb 0 i && i % 8 == 0 then b'-' ∷ c ∷ rest else c ∷ rest

unfoldable pub recovery_code : Key → Bytes
unfolding group
recovery_code k = group 0 (encode32 k.bytes)

abbrev pub is_separator : ℕ → Bool
is_separator c = c == b'-' || c == b' ' || c == 10 || c == 13

unfoldable pub without_separators : Bytes → Bytes
without_separators [] = []
without_separators (c ∷ s) =
    let rest = without_separators s in if is_separator c then rest else c ∷ rest

abbrev pub decoded : Option Bytes → Result KeyError Bytes
decoded none = err invalid_code
decoded (some raw) = ok raw

unfoldable pub key_from_recovery_code : (Bytes → Bytes) → Primitives → Bytes → Result KeyError Key
unfolding without_separators
key_from_recovery_code to_upper a code =
    decoded (decode32 (to_upper (without_separators code))) >>= key_from_bytes a

abbrev pub wrap_context : String
wrap_context = "openbackup 2024 key-wrap"

-- The context as the associated data
abbrev pub wrap_data : Bytes
wrap_data = openbackup.Prelude.codes wrap_context

-- The wrapped key behind its nonce, and the salt
unfoldable pub wrap : Primitives → Key → Bytes → Bytes → Bytes → Result KeyError (Bytes × Bytes)
wrap a k passphrase fresh_salt nonce =
    derive_key_from_passphrase a passphrase none fresh_salt >>= λ (kek, salt).
    ok (nonce ++ a.seal (a.derive_key wrap_context kek.bytes) nonce k.bytes wrap_data, salt)

abbrev pub opened : Option Bytes → Result KeyError Bytes
opened none = err wrong_passphrase
opened (some raw) = ok raw

unfoldable pub unwrap_key : Primitives → Bytes → Option Bytes → Bytes → Bytes → Result KeyError Key
unwrap_key a wrapped salt passphrase fresh =
    derive_key_from_passphrase a passphrase salt fresh >>= λ (kek, _).
    if ltb (length wrapped) nonce_size
    then err malformed
    else (opened (
          a.unseal (a.derive_key wrap_context kek.bytes) (take nonce_size wrapped)
            (drop nonce_size wrapped) wrap_data)
        >>= key_from_bytes a)

-- `Equal`; a nil key is none.
unfoldable pub equal : Option Key → Option Key → Bool
equal none none = true
equal none (some l) = false
equal (some k) none = false
equal (some k) (some l) = bytes_eq k.bytes l.bytes
