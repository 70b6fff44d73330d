-- ===== src/Webauthntest/Layout.antt =====
-- The authenticator data that internal/testutil/webauthntest builds, against the reader of its
-- layout.
use go_passkey_auth.Prelude.{
  ◌%◌, ◌^◌, ◌<◌, ◌≡◌, refl, sym, ap, ◌∙◌, arith, Bool, true, false, Bytes, Option, none, some, [],
  ◌∷◌, ◌++◌, length, Option-cases, inl, inr,
}
use mathlib.Core.List.{append_assoc, append-nil}
use mathlib.Core.Option.{some-injective}
use go_passkey_auth.Webauthntest.{
  uint32_bytes, uint16_bytes, flags_of, Toolkit, Authenticator, build_auth_data, attested_data,
  cose_public_key,
}
use go_passkey_auth.Webauthntest.Reader.{
  read_auth_data, AuthData, with_rest, read_rest, some_block, has_bit, read_auth_data_parts,
  attested_rest, flags_of_bits,
}

-- What an authenticator holds: fields of the sizes that the layout has room for.
pub record IsSound {K : Toolkit} (a : Authenticator K) : Type 0 where
  pub aaguid : length a.aaguid ≡ 16
  pub cred_id : length a.cred_id < 2 ^ 16
  pub sign_count : a.sign_count < 2 ^ 32

abbrev pub described : (K : Toolkit) → Authenticator K → Option (Bytes × Bytes × Bytes) → AuthData
described K a block = record {
  rp_id_hash = K.sha256 (K.to_bytes a.rp_id);
  user_present = true;
  user_verified = true;
  backup_eligible = a.backup_eligible;
  backup_state = a.backup_state;
  sign_count = a.sign_count;
  attested = block;
}

abbrev described_all :
    (K : Toolkit) → Authenticator K → Option (Option (Bytes × Bytes × Bytes)) → Option AuthData
described_all K a none = none
described_all K a (some block) = some (described K a block)

-- The block of a registration, and none of an assertion.
abbrev pub Announces :
    (K : Toolkit) → Authenticator K → Bool → Option (Bytes × Bytes × Bytes) → Type 0
Announces K a true block =
    (key : Bytes) × (cose_public_key K a ≡ some key) × (block ≡ some (a.aaguid, a.cred_id, key))
Announces K a false block = block ≡ none

module _ (K : Toolkit) (hashes : (b : Bytes) → length (K.sha256 b) ≡ 32) where
  read_parts :
      (a : Authenticator K) (attested : Bool) (rest : Bytes)
      → IsSound a
      → read_auth_data (
          K.sha256 (K.to_bytes a.rp_id)
          ++ flags_of a.backup_eligible a.backup_state attested
            ∷ (uint32_bytes a.sign_count ++ rest))
        ≡ described_all K a (read_rest attested rest)
  read_parts a attested rest sound =
      let (up, uv, be, bs, at, _) = flags_of_bits a.backup_eligible a.backup_state attested in
      read_auth_data_parts (K.sha256 (K.to_bytes a.rp_id)) rest
        (flags_of a.backup_eligible a.backup_state attested) a.sign_count (hashes _)
        sound.sign_count
      ∙ ap
          (λ b.
            with_rest (K.sha256 (K.to_bytes a.rp_id))
              (flags_of a.backup_eligible a.backup_state attested) a.sign_count (read_rest b rest))
          at
      ∙ whole (read_rest attested rest) up uv be bs
    where
      whole :
          (o : Option (Option (Bytes × Bytes × Bytes)))
          → let flags = flags_of a.backup_eligible a.backup_state attested in
            has_bit 0 flags ≡ true
            → has_bit 2 flags ≡ true
            → has_bit 3 flags ≡ a.backup_eligible
            → has_bit 4 flags ≡ a.backup_state
            → with_rest (K.sha256 (K.to_bytes a.rp_id)) flags a.sign_count o ≡ described_all K a o
      whole none up uv be bs = refl
      whole (some block) up uv be bs = rw (up, uv, be, bs) refl

  -- For fields of the sizes that the layout has room for and 32-byte hashes, the authenticator data
  -- that is built reads back, by the layout: the hash of the relying party's id, UP and UV, the two
  -- backup flags and the counter as they are, and, for a registration alone, the AAGUID, the
  -- credential id and the encoded public key.
  pub read_auth_data-build_auth_data :
      (a : Authenticator K) (attested : Bool) (raw : Bytes)
      → IsSound a
      → build_auth_data K attested a ≡ some raw
      → (block : Option (Bytes × Bytes × Bytes)) × (read_auth_data raw ≡ some (described K a block))
        × Announces K a attested block
  unfolding build_auth_data attested_data
  read_auth_data-build_auth_data a false raw sound e =
      let flags = flags_of a.backup_eligible a.backup_state false in
      let laid : raw
          ≡ K.sha256 (K.to_bytes a.rp_id) ++ (flags ∷ (uint32_bytes a.sign_count ++ [])) =
        sym (some-injective _ _ e)
        ∙ ap (λ tail. K.sha256 (K.to_bytes a.rp_id) ++ (flags ∷ tail)) (sym (append-nil _)) in
      (none, ap read_auth_data laid ∙ read_parts a false [] sound, refl)
  read_auth_data-build_auth_data a true raw sound e = elim (Option-cases (cose_public_key K a)) [
    | inl failed ↦ ground (arith, failed, e)
    | inr (key, made) ↦
        let block = a.aaguid ++ uint16_bytes (length a.cred_id % 2 ^ 16) ++ a.cred_id ++ key in
        let flags = flags_of a.backup_eligible a.backup_state true in
        let flat : raw
            ≡ K.sha256 (K.to_bytes a.rp_id) ++ flags ∷ uint32_bytes a.sign_count ++ block =
          ground (arith, e, made) in
        let laid : raw
            ≡ K.sha256 (K.to_bytes a.rp_id) ++ (flags ∷ (uint32_bytes a.sign_count ++ block)) =
          flat
          ∙ append_assoc (K.sha256 (K.to_bytes a.rp_id)) (flags ∷ uint32_bytes a.sign_count)
              block in
        (
          some (a.aaguid, a.cred_id, key),
          ap read_auth_data laid
              ∙ read_parts a true block sound
              ∙ ap (λ o. described_all K a (some_block o))
                  (attested_rest a.aaguid a.cred_id key sound.aaguid sound.cred_id),
          (key, made, refl),
        )
  ]
