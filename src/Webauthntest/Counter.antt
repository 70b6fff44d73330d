-- ===== src/Webauthntest/Counter.antt =====
-- The sign counter of internal/testutil/webauthntest, over any number of assertions.
use go_passkey_auth.Prelude.{
  ℕ, ◌+◌, ◌%◌, ◌^◌, ◌<◌, ◌≡◌, ap, ◌∙◌, arith, Bool, String, Bytes, some, List, [], ◌∷◌, length,
  count, is_some, Option-cases, inl, inr, if◌then◌else◌,
}
use go_passkey_auth.Webauthntest.{Toolkit, Authenticator, new, authenticate, build_client_data_json}
use go_passkey_auth.Webauthntest.Layout.{IsSound}

-- The arguments of a call of Authenticate, and the number of its random call.
pub record Login : Type 0 where
  pub random_call : ℕ
  pub challenge : String
  pub user_handle : Bytes

module _ (K : Toolkit) where
  -- The authenticator after a sequence of calls, whatever they return.
  abbrev pub after_logins : List Login → Authenticator K → Authenticator K
  after_logins [] a = a
  after_logins (c ∷ cs) a =
      after_logins cs (authenticate K c.random_call c.challenge c.user_handle a).1

  -- Whether the client data of the call is encoded.
  abbrev pub encodes : String → Login → Bool
  encodes origin c = is_some (build_client_data_json K "webauthn.get" c.challenge origin)

  authenticate-count :
      (c : Login) (a : Authenticator K)
      → a.sign_count < 2 ^ 32
      → let b = (authenticate K c.random_call c.challenge c.user_handle a).1 in
        (b.sign_count ≡ (a.sign_count + (if encodes a.origin c then 1 else 0)) % 2 ^ 32)
        × (b.origin ≡ a.origin)
        × (b.aaguid ≡ a.aaguid)
        × (b.cred_id ≡ a.cred_id)
  unfolding authenticate
  authenticate-count c a lt =
      elim (Option-cases (build_client_data_json K "webauthn.get" c.challenge a.origin)) [
        | inl failed ↦ ground (arith, failed)
        | inr (text, made) ↦ ground (arith, made)
      ]

  -- After any calls of Authenticate, the counter has gone up by the number of those whose client data
  -- was encoded, whether or not they returned an assertion, modulo 2^32.
  pub sign_count-after_logins :
      (cs : List Login) (a : Authenticator K)
      → a.sign_count < 2 ^ 32
      → (after_logins cs a).sign_count ≡ (a.sign_count + count (encodes a.origin) cs) % 2 ^ 32
  sign_count-after_logins [] a lt = omega arith
  sign_count-after_logins (c ∷ cs) a lt =
      let (counted, same, _, _) = authenticate-count c a lt in
      let b = (authenticate K c.random_call c.challenge c.user_handle a).1 in
      let small : b.sign_count < 2 ^ 32 = omega (arith, counted) in
      let tests : count (encodes b.origin) cs ≡ count (encodes a.origin) cs =
        ap (λ (o : String). count (encodes o) cs) same in
      omega (arith, counted, tests, sign_count-after_logins cs b small)

  logins_keep : (cs : List Login) (a : Authenticator K) → IsSound a → IsSound (after_logins cs a)
  logins_keep [] a s = s
  logins_keep (c ∷ cs) a s =
      let (counted, _, aaguid, id) = authenticate-count c a s.sign_count in
      logins_keep cs (authenticate K c.random_call c.challenge c.user_handle a).1 (record {
        aaguid = ap length aaguid ∙ s.aaguid;
        cred_id = let small : length a.cred_id < 2 ^ 16 = s.cred_id in omega (arith, ap length id);
        sign_count = omega (arith, counted);
      })

  -- An authenticator that New makes, with a random source that fills its buffers, has after any calls
  -- of Authenticate fields of the sizes that the layout has room for.
  pub after_logins-IsSound :
      (n : ℕ) (rp_id origin : String) (cs : List Login) (a : Authenticator K)
      → ((m size : ℕ) (b : Bytes) → K.rand_read m size ≡ some b → length b ≡ size)
      → new K n rp_id origin ≡ some a
      → IsSound (after_logins cs a)
  unfolding new
  after_logins-IsSound n rp_id origin cs a fills made =
      logins_keep cs a (elim (Option-cases (K.generate_key n)) [
        | inl failed ↦ ground (arith, failed)
        | inr (priv, keyed) ↦ elim (Option-cases (K.rand_read (n + 1) 16)) [
          | inl failed ↦ ground (arith, failed)
          | inr (id, drawn) ↦ elim (Option-cases (K.rand_read (n + 2) 16)) [
            | inl failed ↦ ground (arith, failed)
            | inr (aaguid, read) ↦ record {
              aaguid =
                  let size = fills (n + 2) 16 aaguid read in
                  ground (arith, made, keyed, drawn, read, size);
              cred_id =
                  let size = fills (n + 1) 16 id drawn in
                  ground (arith, made, keyed, drawn, read, size);
              sign_count = ground (arith, made, keyed, drawn, read);
            }
          ]
        ]
      ])
