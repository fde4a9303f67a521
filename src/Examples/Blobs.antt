-- ===== src/Examples/Blobs.antt =====
-- internal/codec: a chunk of zeros that is packed and sealed, and a master key on its way through a
-- recovery code and a passphrase. The compressor knows two zeros in front, the cipher adds up bytes.
use openbackup.Prelude.{
  ℕ, zero, suc, ◌+◌, ◌≡◌, ◌≤◌, ◌<◌, ltb→lt, All, refl, true, Bytes, [], ◌∷◌, ◌++◌, Option, none,
  some, arith, ◌==◌, if◌then◌else◌, length, codes, leb→le, leb, ◌&&◌, ◌-◌, map,
}
use openbackup.Prelude.Result.{ok}
use openbackup.Codec.{
  Zstd, Codec, encode, decode, max_plaintext_len, format_version, nonce, validate,
}
use openbackup.Codec.Varint.{append_uvarint, groups, read_uvarint, read_loop}
use openbackup.Codec.Base32.{IsByte, encode32}
use openbackup.Codec.RoundTrip.{decode-encode}
use openbackup.Codec.Bounds.{decode-bounded}
use openbackup.Codec.Keys.{
  Primitives, Key, derive_key_from_passphrase, recovery_code, key_from_recovery_code, wrap,
  wrap_data, unwrap_key, key_from_bytes,
}
use openbackup.Codec.Keys.Kept.{IsKey, unwrap_key-wrap, key_from_recovery_code-recovery_code}

abbrev squeeze : Bytes → Bytes
squeeze [] = 0 ∷ []
squeeze (zero ∷ []) = 0 ∷ 0 ∷ []
squeeze (zero ∷ zero ∷ s) = 1 ∷ s
squeeze (zero ∷ suc c ∷ s) = 0 ∷ 0 ∷ suc c ∷ s
squeeze (suc c ∷ s) = 0 ∷ suc c ∷ s

abbrev expand : Bytes → Option Bytes
expand [] = none
expand (zero ∷ s) = some s
expand (suc c ∷ s) = some (0 ∷ 0 ∷ s)

abbrev packer : Zstd
packer = record { compress = squeeze; decompress = expand }

expand-squeeze : (p : Bytes) → expand (squeeze p) ≡ some p
expand-squeeze [] = refl
expand-squeeze (zero ∷ []) = refl
expand-squeeze (zero ∷ zero ∷ s) = refl
expand-squeeze (zero ∷ suc c ∷ s) = refl
expand-squeeze (suc c ∷ s) = refl

abbrev total : Bytes → ℕ
total [] = 0
total (c ∷ s) = c + total s

abbrev tag : Bytes → Bytes → Bytes → ℕ
tag key nonce associated = total (key ++ nonce ++ associated)

abbrev open_tagged : ℕ → Bytes → Option Bytes
open_tagged t [] = none
open_tagged t (c ∷ s) = if c == t then some s else none

abbrev repeat : ℕ → ℕ → Bytes
repeat zero c = []
repeat (suc n) c = c ∷ repeat n c

abbrev adder : Primitives
adder = record {
  derive_key = λ context key. key;
  keyed_digest = λ key text. repeat 24 7;
  argon2 = λ passphrase salt. repeat 32 3;
  seal = λ key nonce p associated. tag key nonce associated ∷ p;
  unseal = λ key nonce s associated. open_tagged (tag key nonce associated) s;
}

open_tagged-tag : (t : ℕ) (p : Bytes) → open_tagged t (t ∷ p) ≡ some p
open_tagged-tag t p = let same : (t == t) ≡ true = ground arith in rw same refl

adder-opens :
    (key nonce p associated : Bytes)
    → open_tagged (tag key nonce associated) (tag key nonce associated ∷ p) ≡ some p
adder-opens key nonce p associated = open_tagged-tag (tag key nonce associated) p

abbrev master : Key
master = record { bytes = repeat 32 200; nonce_key = repeat 32 200 }

abbrev sealing : Codec
sealing = record { zstd = packer; cipher = adder; key = some master }

abbrev zeros : Bytes
zeros = 0 ∷ 0 ∷ 0 ∷ 0 ∷ 5 ∷ []

abbrev digest : Bytes
digest = repeat 64 b'a'

abbrev blob : Bytes
blob = 1 ∷ 3 ∷ 5 ∷ (repeat 24 7 ++ 6745 ∷ 1 ∷ 0 ∷ 0 ∷ 5 ∷ [])

decode-encode_example : decode sealing blob ≡ ok zeros
unfolding encode nonce validate append_uvarint groups
decode-encode_example =
    decode-encode sealing sealing zeros digest blob (leb→le 5 67108864 refl) refl refl
      (record { restores = expand-squeeze })
      (record { opens = adder-opens; nonce_length = λ key text. refl }) refl refl

blob-decoded : decode sealing blob ≡ ok zeros
unfolding decode read_uvarint read_loop
blob-decoded = refl

decode-bounded_example :
    (length zeros ≤ max_plaintext_len) × (s : Bytes) × (blob ≡ format_version ∷ s)
decode-bounded_example = decode-bounded sealing blob zeros blob-decoded

repeat-IsByte : (n c : ℕ) → c < 256 → All IsByte (repeat n c)
repeat-IsByte zero c h = tt
repeat-IsByte (suc n) c h = (h, repeat-IsByte n c h)

master-IsKey : IsKey adder master
master-IsKey = record {
  size = refl;
  of_bytes = repeat-IsByte 32 200 (ltb→lt 200 256 refl);
  subkey = refl;
}

abbrev upper : ℕ → ℕ
upper c = if leb b'a' c && leb c b'z' then c - 32 else c

abbrev to_upper : Bytes → Bytes
to_upper = map upper

key_from_recovery_code-recovery_code_example :
    key_from_recovery_code to_upper adder (recovery_code master) ≡ ok master
unfolding encode32
key_from_recovery_code-recovery_code_example =
    key_from_recovery_code-recovery_code to_upper adder master master-IsKey refl

abbrev salt : Bytes
salt = repeat 16 9

-- The key that the passphrase gives is 32 threes.
abbrev sealed_master : Bytes
sealed_master = repeat 24 8 ++ tag (repeat 32 3) (repeat 24 8) wrap_data ∷ repeat 32 200

unwrap_key-wrap_example :
    unwrap_key adder sealed_master (some salt) (codes "passphrase") [] ≡ ok master
unfolding wrap derive_key_from_passphrase key_from_bytes
unwrap_key-wrap_example =
    unwrap_key-wrap adder master (codes "passphrase") salt [] (repeat 24 8) sealed_master salt
      master-IsKey refl adder-opens refl
