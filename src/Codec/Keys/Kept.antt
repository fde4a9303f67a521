-- ===== src/Codec/Keys/Kept.antt =====
-- internal/codec/key.go: a key comes back from its recovery code and from its wrapped copy.
use openbackup.Prelude.{
  ℕ, suc, ◌%◌, ◌<◌, ◌≡◌, refl, ap, subst, ◌∙◌, Bool, true, false, ◌&&◌, Bytes, [], ◌∷◌, ◌++◌, none,
  some, arith, ltb, ◌==◌, if◌then◌else◌, if_cases, length, length-append, take-length_append,
  drop-length_append, take, drop, All,
}
use openbackup.Prelude.Result.{Result, ok, err, ◌>>=◌, ok-injective, err-ne-ok}
use openbackup.Codec.Base32.{
  IsByte, values, values-small, encode_chars, encode32, decode32, char_of, decode32-encode32,
}
use openbackup.Codec.Keys.{
  KeyError, Primitives, Key, key_size, nonce_size, salt_size, key_from_bytes,
  derive_key_from_passphrase, group, recovery_code, is_separator, without_separators, decoded,
  key_from_recovery_code, wrap_context, wrap_data, wrap, opened, unwrap_key,
}

-- A key as `KeyFromBytes` makes it
pub record IsKey (a : Primitives) (k : Key) : Type 0 where
  pub size : length k.bytes ≡ key_size
  pub of_bytes : All IsByte k.bytes
  pub subkey : k.nonce_key ≡ a.derive_key "openbackup 2024 chunk-nonce" k.bytes

key_from_bytes-IsKey : (a : Primitives) (k : Key) → IsKey a k → key_from_bytes a k.bytes ≡ ok k
unfolding key_from_bytes
key_from_bytes-IsKey a k w =
    let same : (length k.bytes == key_size) ≡ true = ground (arith, w.size) in
    ground (arith, w.subkey)

abbrev IsPlain : ℕ → Type 0
IsPlain c = is_separator c ≡ false

char_of-IsPlain : (v : ℕ) → v < 32 → IsPlain (char_of v)
char_of-IsPlain v h = ground arith

encode_chars-IsPlain : (vs : Bytes) → All (λ v. v < 32) vs → All IsPlain (encode_chars vs)
unfolding encode_chars
encode_chars-IsPlain [] h = tt
encode_chars-IsPlain (v ∷ vs) (h, hs) = (char_of-IsPlain v h, encode_chars-IsPlain vs hs)

without_separators-group : (i : ℕ) (s : Bytes) → All IsPlain s → without_separators (group i s) ≡ s
unfolding without_separators group
without_separators-group i [] h = refl
without_separators-group i (c ∷ s) (h, hs) =
    at (ltb 0 i && i % 8 == 0) (without_separators-group (suc i) s hs)
  where
    kept :
        without_separators (group (suc i) s) ≡ s → without_separators (c ∷ group (suc i) s) ≡ c ∷ s
    kept ih = rw h (ap (λ t. c ∷ t) ih)

    at :
        (b : Bool)
        → without_separators (group (suc i) s) ≡ s
        → without_separators (if b then b'-' ∷ c ∷ group (suc i) s else c ∷ group (suc i) s) ≡ c ∷ s
    at true ih = kept ih
    at false ih = kept ih

-- The recovery code of a key, as it is printed, gives the key again. Upper case is relied on to
-- leave the code's letters and digits alone.
pub key_from_recovery_code-recovery_code :
    (to_upper : Bytes → Bytes) (a : Primitives) (k : Key)
    → IsKey a k
    → to_upper (encode32 k.bytes) ≡ encode32 k.bytes
    → key_from_recovery_code to_upper a (recovery_code k) ≡ ok k
unfolding key_from_recovery_code recovery_code encode32
key_from_recovery_code-recovery_code to_upper a k w upper =
    ap (λ s. decoded (decode32 (to_upper s)) >>= key_from_bytes a)
      (without_separators-group 0 (encode32 k.bytes)
        (encode_chars-IsPlain (values k.bytes) (values-small k.bytes w.of_bytes)))
    ∙ rw upper (rw (decode32-encode32 k.bytes w.of_bytes) (key_from_bytes-IsKey a k w))

-- The salt that comes back is the one that the key was derived with.
derive-salt :
    (a : Primitives) (passphrase fresh : Bytes) (kek : Key) (salt : Bytes)
    → derive_key_from_passphrase a passphrase none fresh ≡ ok (kek, salt)
    → fresh ≡ salt
unfolding derive_key_from_passphrase
derive-salt a passphrase fresh kek salt h =
    if_cases Gives (ltb (length passphrase) 8) _ _ (λ e q. absurd (err-ne-ok q))
      (λ e q.
        if_cases Gives (ltb (length fresh) salt_size) _ _ (λ e q. absurd (err-ne-ok q))
          (λ e q. at (key_from_bytes a (a.argon2 passphrase fresh)) q) q)
      h
  where
    Gives : Result KeyError (Key × Bytes) → Type 0
    Gives r = r ≡ ok (kek, salt) → fresh ≡ salt

    at : (r : Result KeyError Key) → Gives (r >>= λ k. ok (k, fresh))
    at (err e) q = absurd (err-ne-ok q)
    at (ok k) q = ap (λ (p : Key × Bytes). p.1) (ok-injective q)

derive-again :
    (a : Primitives) (passphrase fresh other : Bytes) (kek : Key) (salt : Bytes)
    → derive_key_from_passphrase a passphrase none fresh ≡ ok (kek, salt)
    → derive_key_from_passphrase a passphrase (some salt) other ≡ ok (kek, salt)
unfolding derive_key_from_passphrase
derive-again a passphrase fresh other kek salt h =
    subst (λ s. derive_key_from_passphrase a passphrase (some s) other ≡ ok (kek, salt))
      (derive-salt a passphrase fresh kek salt h) h

module _ (a : Primitives) (k : Key) (passphrase fresh other nonce wrapped salt : Bytes)
    (w : IsKey a k) (len : length nonce ≡ nonce_size)
    (opens : (key n p associated : Bytes)
      → a.unseal key n (a.seal key n p associated) associated ≡ some p) where
  opened_key :
      (kek : Key)
      → let front = nonce ++ a.seal (a.derive_key wrap_context kek.bytes) nonce k.bytes wrap_data in
        (if ltb (length front) nonce_size
          then err openbackup.Codec.Keys.malformed
          else (opened (
                a.unseal
                  (a.derive_key wrap_context kek.bytes)
                  (take nonce_size front)
                  (drop nonce_size front)
                  wrap_data)
              >>= key_from_bytes a))
        ≡ ok k
  opened_key kek =
      let key = a.derive_key wrap_context kek.bytes in
      let sealed = a.seal key nonce k.bytes wrap_data in
      let long : ltb (length (nonce ++ sealed)) nonce_size ≡ false =
        ground (arith, length-append nonce sealed, len) in
      let first : take nonce_size (nonce ++ sealed) ≡ nonce =
        subst (λ l. take l (nonce ++ sealed) ≡ nonce) len (take-length_append nonce sealed) in
      let second : drop nonce_size (nonce ++ sealed) ≡ sealed =
        subst (λ l. drop l (nonce ++ sealed) ≡ sealed) len (drop-length_append nonce sealed) in
      rw long
        (rw (first, second) (rw (opens key nonce k.bytes wrap_data) (key_from_bytes-IsKey a k w)))

  -- A key that was wrapped under a passphrase is unwrapped again with that passphrase and the salt
  -- that came with it, where the cipher opens what it sealed.
  pub unwrap_key-wrap :
      wrap a k passphrase fresh nonce ≡ ok (wrapped, salt)
      → unwrap_key a wrapped (some salt) passphrase other ≡ ok k
  unfolding wrap unwrap_key
  unwrap_key-wrap h = at (derive_key_from_passphrase a passphrase none fresh) refl h
    where
      at :
          (r : Result KeyError (Key × Bytes))
          → derive_key_from_passphrase a passphrase none fresh ≡ r
          → ◌>>=◌ {B = Bytes × Bytes} r (λ (kek, s).
            ok (nonce ++ a.seal (a.derive_key wrap_context kek.bytes) nonce k.bytes wrap_data, s))
            ≡ ok (wrapped, salt)
          → unwrap_key a wrapped (some salt) passphrase other ≡ ok k
      at (err e) q h = absurd (err-ne-ok h)
      at (ok (kek, s)) q h =
          let both = ok-injective h in
          let front : nonce ++ a.seal (a.derive_key wrap_context kek.bytes) nonce k.bytes wrap_data
              ≡ wrapped =
            ap (λ (p : Bytes × Bytes). p.0) both in
          let same : s ≡ salt = ap (λ (p : Bytes × Bytes). p.1) both in
          subst (λ x. unwrap_key a x (some salt) passphrase other ≡ ok k) front
            (subst
              (λ t.
                unwrap_key a
                  (nonce ++ a.seal (a.derive_key wrap_context kek.bytes) nonce k.bytes wrap_data)
                  (some t) passphrase other
                ≡ ok k)
              same (rw (derive-again a passphrase fresh other kek s q) (opened_key kek)))
