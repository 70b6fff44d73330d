-- ===== src/Webauthntest/Reader.antt =====
-- A reader of authenticator data, by the layout that the comment on buildAuthData gives
-- (internal/testutil/webauthntest/authenticator.go).
use go_passkey_auth.Prelude.{
  ℕ, zero, suc, ◌+◌, ◌*◌, ◌/◌, ◌%◌, ◌^◌, ◌<◌, ◌≡◌, refl, sym, ap, ◌∙◌, arith, Bool, true, false,
  Bytes, Option, none, some, [], ◌∷◌, ◌++◌, length, nat_beq,
}
use mathlib.Core.List.{append_assoc}
use go_passkey_auth.Webauthntest.{◌>>=◌, uint32_bytes, uint16_bytes, flags_of}

-- The first n bytes and the others, if there are so many.
unfoldable pub split_at : ℕ → Bytes → Option (Bytes × Bytes)
split_at zero xs = some ([], xs)
split_at (suc n) [] = none
split_at (suc n) (x ∷ xs) = do (first, others) ← split_at n xs; some (x ∷ first, others)

-- The bytes of a number, the highest first.
unfoldable pub big_endian : ℕ → Bytes → ℕ
big_endian acc [] = acc
big_endian acc (x ∷ xs) = big_endian (acc * 256 + x) xs

-- Bit k of a number.
abbrev pub has_bit : ℕ → ℕ → Bool
has_bit k n = nat_beq (n / 2 ^ k % 2) 1

-- The parts of authenticator data.
pub record AuthData : Type 0 where
  pub rp_id_hash : Bytes
  pub user_present : Bool
  pub user_verified : Bool
  pub backup_eligible : Bool
  pub backup_state : Bool
  pub sign_count : ℕ
  -- the AAGUID, the credential id and the public key
  pub attested : Option (Bytes × Bytes × Bytes)

abbrev pub auth_data : Bytes → ℕ → ℕ → Option (Bytes × Bytes × Bytes) → AuthData
auth_data hash flags count attested = record {
  rp_id_hash = hash;
  user_present = has_bit 0 flags;
  user_verified = has_bit 2 flags;
  backup_eligible = has_bit 3 flags;
  backup_state = has_bit 4 flags;
  sign_count = count;
  attested = attested;
}

abbrev with_id : Bytes → Option (Bytes × Bytes) → Option (Bytes × Bytes × Bytes)
with_id aaguid none = none
with_id aaguid (some (id, key)) = some (aaguid, id, key)

abbrev with_size : Bytes → Option (Bytes × Bytes) → Option (Bytes × Bytes × Bytes)
with_size aaguid none = none
with_size aaguid (some (size, rest)) = with_id aaguid (split_at (big_endian 0 size) rest)

abbrev with_aaguid : Option (Bytes × Bytes) → Option (Bytes × Bytes × Bytes)
with_aaguid none = none
with_aaguid (some (aaguid, rest)) = with_size aaguid (split_at 2 rest)

abbrev pub some_block : Option (Bytes × Bytes × Bytes) → Option (Option (Bytes × Bytes × Bytes))
some_block none = none
some_block (some block) = some (some block)

-- The block that the AT flag announces; without it nothing follows.
abbrev pub read_rest : Bool → Bytes → Option (Option (Bytes × Bytes × Bytes))
read_rest true rest = some_block (with_aaguid (split_at 16 rest))
read_rest false [] = some none
read_rest false (x ∷ rest) = none

abbrev pub with_rest : Bytes → ℕ → ℕ → Option (Option (Bytes × Bytes × Bytes)) → Option AuthData
with_rest hash flags count none = none
with_rest hash flags count (some block) = some (auth_data hash flags count block)

abbrev with_counter : Bytes → ℕ → Option (Bytes × Bytes) → Option AuthData
with_counter hash flags none = none
with_counter hash flags (some (counter, rest)) =
    with_rest hash flags (big_endian 0 counter) (read_rest (has_bit 6 flags) rest)

abbrev with_flags : Bytes → Option (Bytes × Bytes) → Option AuthData
with_flags hash none = none
with_flags hash (some (flag_byte, rest)) =
    with_counter hash (big_endian 0 flag_byte) (split_at 4 rest)

abbrev with_hash : Option (Bytes × Bytes) → Option AuthData
with_hash none = none
with_hash (some (hash, rest)) = with_flags hash (split_at 1 rest)

abbrev pub read_auth_data : Bytes → Option AuthData
read_auth_data raw = with_hash (split_at 32 raw)

pub split_at-append :
    (n : ℕ) (xs ys : Bytes) → length xs ≡ n → split_at n (xs ++ ys) ≡ some (xs, ys)
unfolding split_at
split_at-append zero [] ys e = refl
split_at-append zero (x ∷ xs) ys e = ground arith
split_at-append (suc n) [] ys e = ground arith
split_at-append (suc n) (x ∷ xs) ys e = ground (arith, split_at-append n xs ys)

uint32_bytes_round : (n : ℕ) → n < 2 ^ 32 → big_endian 0 (uint32_bytes n) ≡ n
unfolding big_endian uint32_bytes
uint32_bytes_round n lt = omega arith

uint16_bytes_round : (n : ℕ) → n < 2 ^ 16 → big_endian 0 (uint16_bytes n) ≡ n
unfolding big_endian uint16_bytes
uint16_bytes_round n lt = omega arith

length-uint32_bytes : (n : ℕ) → length (uint32_bytes n) ≡ 4
unfolding uint32_bytes
length-uint32_bytes n = refl

length-uint16_bytes : (n : ℕ) → length (uint16_bytes n) ≡ 2
unfolding uint16_bytes
length-uint16_bytes n = refl

big_endian_one : (n : ℕ) → big_endian 0 (n ∷ []) ≡ n
unfolding big_endian
big_endian_one n = omega arith

-- The reader on data whose parts are in place.
pub read_auth_data_parts :
    (hash rest : Bytes) (flags count : ℕ)
    → length hash ≡ 32
    → count < 2 ^ 32
    → read_auth_data (hash ++ flags ∷ (uint32_bytes count ++ rest))
      ≡ with_rest hash flags count (read_rest (has_bit 6 flags) rest)
read_auth_data_parts hash rest flags count whole lt =
    ap with_hash (split_at-append 32 hash (flags ∷ (uint32_bytes count ++ rest)) whole)
    ∙ ap (with_flags hash) (split_at-append 1 (flags ∷ []) (uint32_bytes count ++ rest) refl)
    ∙ ap (with_counter hash (big_endian 0 (flags ∷ [])))
        (split_at-append 4 (uint32_bytes count) rest (length-uint32_bytes count))
    ∙ ap (λ f. with_rest hash f (big_endian 0 (uint32_bytes count)) (read_rest (has_bit 6 f) rest))
        (big_endian_one flags)
    ∙ ap (λ n. with_rest hash flags n (read_rest (has_bit 6 flags) rest))
        (uint32_bytes_round count lt)

read_attested_block :
    (aaguid id key : Bytes)
    → length aaguid ≡ 16
    → length id < 2 ^ 16
    → with_aaguid (split_at 16 (aaguid ++ (uint16_bytes (length id % 2 ^ 16) ++ (id ++ key))))
      ≡ some (aaguid, id, key)
read_attested_block aaguid id key whole lt =
    ap with_aaguid
      (split_at-append 16 aaguid (uint16_bytes (length id % 2 ^ 16) ++ (id ++ key)) whole)
    ∙ ap (with_size aaguid)
        (split_at-append 2 (uint16_bytes (length id % 2 ^ 16)) (id ++ key) (length-uint16_bytes _))
    ∙ ap (with_id aaguid)
        (split_at-append (big_endian 0 (uint16_bytes (length id % 2 ^ 16))) id key size)
  where
    small : length id % 2 ^ 16 ≡ length id
    small = omega arith

    size : length id ≡ big_endian 0 (uint16_bytes (length id % 2 ^ 16))
    size = sym (ap (λ n. big_endian 0 (uint16_bytes n)) small ∙ uint16_bytes_round (length id) lt)

pub flags_of_bits :
    (eligible state attested : Bool)
    → let flags = flags_of eligible state attested in
      (has_bit 0 flags ≡ true)
      × (has_bit 2 flags ≡ true)
      × (has_bit 3 flags ≡ eligible)
      × (has_bit 4 flags ≡ state)
      × (has_bit 6 flags ≡ attested)
      × (flags < 256)
unfolding flags_of
flags_of_bits true true true = (refl, refl, refl, refl, refl, omega arith)
flags_of_bits true true false = (refl, refl, refl, refl, refl, omega arith)
flags_of_bits true false true = (refl, refl, refl, refl, refl, omega arith)
flags_of_bits true false false = (refl, refl, refl, refl, refl, omega arith)
flags_of_bits false true true = (refl, refl, refl, refl, refl, omega arith)
flags_of_bits false true false = (refl, refl, refl, refl, refl, omega arith)
flags_of_bits false false true = (refl, refl, refl, refl, refl, omega arith)
flags_of_bits false false false = (refl, refl, refl, refl, refl, omega arith)

-- The same block as it is appended, part by part.
pub attested_rest :
    (aaguid id key : Bytes)
    → length aaguid ≡ 16
    → length id < 2 ^ 16
    → with_aaguid (split_at 16 (aaguid ++ uint16_bytes (length id % 2 ^ 16) ++ id ++ key))
      ≡ some (aaguid, id, key)
attested_rest aaguid id key whole lt =
    let size = uint16_bytes (length id % 2 ^ 16) in
    ap (λ block. with_aaguid (split_at 16 block))
      (append_assoc (aaguid ++ size) id key ∙ append_assoc aaguid size (id ++ key))
    ∙ read_attested_block aaguid id key whole lt
