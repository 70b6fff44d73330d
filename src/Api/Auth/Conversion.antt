-- ===== src/Api/Auth/Conversion.antt =====
-- internal/api/handler/auth.go: a credential survives its way into the tables and back.
use go_passkey_auth.Prelude.{
  ℕ, ◌<◌, ◌^◌, ◌%◌, ◌≡◌, Bytes, [], ◌∷◌, Option, none, some, arith, ap, sym, ◌∙◌, Option-cases, inl,
  inr, refl, false, find, find-append, bytes_beq_iff,
}
use go_passkey_auth.Domain.{Credential, ok}
use go_passkey_auth.Platform.{Platform, IsUuid, World}
use go_passkey_auth.Platform.Library.{LibCredential}
use go_passkey_auth.Store.Postgres.Run.{run_sql}
use go_passkey_auth.Store.Postgres.Credentials.{
  scanned, insert, get_by_credential_id, select_live, is_live_with,
}
use go_passkey_auth.Store.Postgres.Effects.{new_row, insert-ok}
use go_passkey_auth.Api.Auth.Convert.{
  domain_credential_from_lib, lib_credential_from_domain, aaguid_of, aaguid_bytes, with_aaguid,
}

-- What is kept of the library's credential: all but how it was attested, by which kind of device,
-- whether the user was present and verified, and the warning about a clone.
abbrev pub remembered : LibCredential → LibCredential
remembered c = record c {
  attestation_type = "";
  attestation_format = "";
  user_present = false;
  user_verified = false;
  clone_warning = false;
  attachment = "";
  attestation = [];
}

module _ {P : Platform} (U : IsUuid P) where
  aaguid_round_trip : (b : Bytes) (id : Option ℕ) → aaguid_of P b ≡ some id → aaguid_bytes P id ≡ b
  aaguid_round_trip [] id h = let same : id ≡ none = ground arith in ap (aaguid_bytes P) same
  aaguid_round_trip (x ∷ xs) id h = elim (Option-cases (P.uuid_from_bytes (x ∷ xs))) [
    | inl e ↦ ground (arith, e)
    | inr (u, e) ↦
        let same : id ≡ some u = ground (arith, e) in
        ap (aaguid_bytes P) same ∙ U.bytes (x ∷ xs) u e
  ]

  converted_back :
      (user_id : ℕ) (handle : Bytes) (c : LibCredential) (d : Credential)
      → c.sign_count < 2 ^ 32
      → domain_credential_from_lib P user_id handle c ≡ some d
      → (lib_credential_from_domain P (scanned d) ≡ remembered c) × (d.credential_id ≡ c.id)
  unfolding domain_credential_from_lib lib_credential_from_domain
  converted_back user_id handle c d small h = elim (Option-cases (aaguid_of P c.aaguid)) [
    | inl e ↦ (ground (arith, e), ground (arith, e))
    | inr (a, e) ↦
        let stored : with_aaguid user_id handle c (some a) ≡ some d =
          ap (with_aaguid user_id handle c) (sym e) ∙ h in
        let fits : c.sign_count % 2 ^ 32 ≡ c.sign_count = omega arith in
        let bytes = aaguid_round_trip c.aaguid a e in
        (ground (arith, stored, fits, bytes), ground (arith, stored))
  ]

  -- The row of a successful INSERT is the one that its credential id finds.
  insert_found :
      (d s f : Credential) (w v : World P)
      → (insert {P = P} d w).0 ≡ ok s
      → v.db ≡ (insert {P = P} d w).1.db
      → (get_by_credential_id {P = P} d.credential_id v).0 ≡ ok f
      → f ≡ scanned (new_row (P.new_uuid w.calls) w.now d).columns
  unfolding get_by_credential_id run_sql select_live
  insert_found d s f w v inserted same found =
      let (_, free, _, db) = insert-ok w d s inserted in
      let r = new_row (P.new_uuid w.calls) w.now d in
      let held : find (is_live_with d.credential_id) v.db.credentials ≡ some r =
        ap (λ x. find (is_live_with d.credential_id) x.credentials) (same ∙ db)
        ∙ find-append (is_live_with d.credential_id) w.db.credentials (r ∷ [])
        ∙ rw (free, (bytes_beq_iff d.credential_id d.credential_id).1 refl) refl in
      ground (arith, held)

  -- A credential that registration converts for the tables and stores, that is read back by its
  -- credential id with no other statement in between, and that a login converts back, is the
  -- library's credential again, but for its attestation and attestation format and type, the
  -- attachment, the two user flags and the clone warning, which are empty or false. Its sign count
  -- must be a uint32.
  pub lib_credential_from_domain-domain_credential_from_lib :
      (user_id : ℕ) (handle : Bytes) (c : LibCredential) (d s f : Credential) (w : World P)
      → c.sign_count < 2 ^ 32
      → domain_credential_from_lib P user_id handle c ≡ some d
      → (insert {P = P} d w).0 ≡ ok s
      → (get_by_credential_id {P = P} c.id (insert {P = P} d w).1).0 ≡ ok f
      → lib_credential_from_domain P f ≡ remembered c
  unfolding lib_credential_from_domain
  lib_credential_from_domain-domain_credential_from_lib user_id handle c d s f w small h inserted
        found =
      let (back, id) = converted_back user_id handle c d small h in
      let row =
        insert_found d s f w (insert {P = P} d w).1 inserted refl
          (ap (λ i. (get_by_credential_id {P = P} i (insert {P = P} d w).1).0) id ∙ found) in
      ap (lib_credential_from_domain P) row ∙ back
