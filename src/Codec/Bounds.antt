-- ===== src/Codec/Bounds.antt =====
-- internal/codec/codec.go, `Decode`: what no blob can make it return, whoever wrote the blob.
use openbackup.Prelude.{
  ℕ, ◌≤◌, ◌≡◌, ◌⊎◌, inl, inr, ap, subst, true, false, Bytes, [], ◌∷◌, Option, none, some, arith,
  ltb, ◌==◌, if◌then◌else◌, if_cases, Bool-cases, length, take, drop, ltb-false→le, ==_iff,
}
use openbackup.Prelude.Result.{Result, ok, err, ◌>>=◌, ok-injective, err-ne-ok}
use openbackup.Codec.{
  Codec, CodecError, Zstd, max_plaintext_len, nonce, encode, of_option, unpack, decrypt,
  decode_body, decode, is_encrypted, is_compressed, has_encrypted, malformed, need_key,
  unknown_version, format_version, payload_of, header,
}
use openbackup.Codec.Varint.{read_uvarint}

unpack-length :
    (z : Zstd) (flags len : ℕ) (rest p : Bytes) → unpack z flags len rest ≡ ok p → length p ≡ len
unpack-length z flags len rest p h =
    if_cases (λ (r : Result CodecError Bytes). r ≡ ok p → length p ≡ len) (is_compressed flags) _ _
      (λ e q. packed (z.decompress rest) q) (λ e q. checked rest q) h
  where
    checked :
        (x : Bytes)
        → ◌≡◌ {A = Result CodecError Bytes} (if length x == len then ok x else err malformed) (ok p)
        → length p ≡ len
    checked x q =
        if_cases (λ (r : Result CodecError Bytes). r ≡ ok p → length p ≡ len) (length x == len) _ _
          (λ e k. subst (λ y. length y ≡ len) (ok-injective k) ((==_iff (length x) len).0 e))
          (λ e k. absurd (err-ne-ok k)) q

    packed :
        (o : Option Bytes)
        → (of_option openbackup.Codec.cannot_decompress o >>= λ out.
            if length out == len then ok out else err malformed)
          ≡ ok p
        → length p ≡ len
    packed none q = absurd (err-ne-ok q)
    packed (some x) q = checked x q

decode_body-bounded :
    (c : Codec) (flags len : ℕ) (front rest p : Bytes)
    → decode_body c flags len front rest ≡ ok p
    → length p ≤ max_plaintext_len
decode_body-bounded c flags len front rest p h =
    if_cases (λ (r : Result CodecError Bytes). r ≡ ok p → length p ≤ max_plaintext_len)
      (ltb max_plaintext_len len) _ _ (λ e q. absurd (err-ne-ok q))
      (λ e q.
        opened (if has_encrypted flags then decrypt c.cipher c.key front rest else ok rest) q
          (ltb-false→le max_plaintext_len len e))
      h
  where
    opened :
        (r : Result CodecError Bytes)
        → (r >>= unpack c.zstd flags len) ≡ ok p
        → len ≤ max_plaintext_len
        → length p ≤ max_plaintext_len
    opened (err e) q k = absurd (err-ne-ok q)
    opened (ok x) q k = omega (arith, unpack-length c.zstd flags len x p q, k)

-- Whatever bytes the server sends, `Decode` returns at most 64 MiB, and only for a blob of the
-- format's version.
pub decode-bounded :
    (c : Codec) (blob p : Bytes)
    → decode c blob ≡ ok p
    → (length p ≤ max_plaintext_len) × (s : Bytes) × (blob ≡ format_version ∷ s)
unfolding decode
decode-bounded c [] p h = absurd (err-ne-ok h)
decode-bounded c (v ∷ []) p h = absurd (err-ne-ok h)
decode-bounded c (v ∷ f ∷ []) p h = absurd (err-ne-ok h)
decode-bounded c (v ∷ f ∷ x ∷ s) p h = at (Bool-cases (v == format_version))
  where
    read :
        (o : Option (ℕ × ℕ))
        → (elim o as (λ x. Result CodecError Bytes) [
          | none ↦ err malformed
          | some (len, n) ↦ decode_body c f len (v ∷ f ∷ take n (x ∷ s)) (drop n (x ∷ s))
        ])
          ≡ ok p
        → length p ≤ max_plaintext_len
    read none q = absurd (err-ne-ok q)
    read (some (len, n)) q =
        decode_body-bounded c f len (v ∷ f ∷ take n (x ∷ s)) (drop n (x ∷ s)) p q

    at :
        ((v == format_version) ≡ true) ⊎ ((v == format_version) ≡ false)
        → (length p ≤ max_plaintext_len) × (t : Bytes) × (v ∷ f ∷ x ∷ s ≡ format_version ∷ t)
    at (inr e) = absurd (err-ne-ok (rw e at h))
    at (inl e) = (
      read (read_uvarint (x ∷ s)) (rw e at h),
      f ∷ x ∷ s,
      ap (λ w. w ∷ f ∷ x ∷ s) ((==_iff v format_version).0 e),
    )
