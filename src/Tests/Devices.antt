-- ===== src/Tests/Devices.antt =====
-- A software authenticator over concrete tools.
use go_passkey_auth.Prelude.{
  ℕ, zero, suc, ◌+◌, ◌%◌, ◌^◌, ◌≡◌, refl, ap, arith, true, false, Bytes, Option, some, [], ◌∷◌,
  ◌++◌, length, count,
}
use go_passkey_auth.Webauthntest.{
  Toolkit, Authenticator, new, authenticate, build_client_data_json, build_auth_data, attested_data,
  cose_public_key, encode_cbor, assertion, register, flags_of, uint32_bytes, uint16_bytes,
}
use go_passkey_auth.Webauthntest.Reader.{read_auth_data}
use go_passkey_auth.Webauthntest.Layout.{
  IsSound, described, Announces, read_auth_data-build_auth_data,
}
use go_passkey_auth.Webauthntest.Counter.{
  Login, after_logins, encodes, sign_count-after_logins, after_logins-IsSound,
}

abbrev zeros : ℕ → Bytes
zeros zero = []
zeros (suc n) = 0 ∷ zeros n

length-zeros : (n : ℕ) → length (zeros n) ≡ n
length-zeros zero = refl
length-zeros (suc n) = ap suc (length-zeros n)

abbrev tools : Toolkit
tools = record {
  PrivateKey = Unit;
  EncMode = Unit;
  generate_key = λ _. some tt;
  rand_read = λ _ n. some (zeros n);
  public_bytes = λ _. some (0x04 ∷ zeros 64);
  sign_asn1 = λ _ _ _. some (3 ∷ []);
  sha256 = λ _. zeros 32;
  to_bytes = λ _. [];
  raw_url_encode = λ _. "AA";
  enc_mode = some tt;
  marshal_cbor = λ _ _. some (0xa5 ∷ []);
  marshal_object = λ _. some (1 ∷ 2 ∷ []);
  marshal_credential = λ c. some c.id;
}

abbrev device : Authenticator tools
device = record {
  rp_id = "localhost";
  origin = "http://localhost";
  aaguid = zeros 16;
  cred_id = zeros 16;
  priv_key = tt;
  sign_count = 0xffff_ffff;
  backup_eligible = true;
  backup_state = false;
}

device-IsSound : IsSound device
device-IsSound = record { aaguid = refl; cred_id = omega arith; sign_count = omega arith }

-- The data of a registration: 32 + 1 + 4 bytes, and the block.
abbrev registered_data : Bytes
registered_data =
    zeros 32
    ++ 0x4d ∷ 255 ∷ 255 ∷ 255 ∷ 255 ∷ []
    ++ (zeros 16 ++ 0 ∷ 16 ∷ [] ++ zeros 16 ++ 0xa5 ∷ [])

build_test : build_auth_data tools true device ≡ some registered_data
unfolding build_auth_data attested_data cose_public_key encode_cbor flags_of uint32_bytes
    uint16_bytes
build_test = refl

read_auth_data-build_auth_data_example :
    (block : Option (Bytes × Bytes × Bytes)) × (read_auth_data registered_data
      ≡ some (described tools device block))
    × Announces tools device true block
read_auth_data-build_auth_data_example =
    read_auth_data-build_auth_data tools (λ b. length-zeros 32) device true registered_data
      device-IsSound build_test

abbrev login : Login
login = record { random_call = 5; challenge = "challenge"; user_handle = 9 ∷ [] }

sign_count-after_logins_example :
    (after_logins tools (login ∷ login ∷ []) device).sign_count
    ≡ (0xffff_ffff + count (encodes tools device.origin) (login ∷ login ∷ [])) % 2 ^ 32
sign_count-after_logins_example =
    sign_count-after_logins tools (login ∷ login ∷ []) device (omega arith)

abbrev fresh_device : Authenticator tools
fresh_device = record device { sign_count = 0; backup_state = true }

new_test : new tools 0 "localhost" "http://localhost" ≡ some fresh_device
unfolding new
new_test = refl

filled : (m size : ℕ) (b : Bytes) → tools.rand_read m size ≡ some b → length b ≡ size
filled m size b e = let whole = length-zeros size in ground (arith, e, whole)

after_logins-IsSound_example : IsSound (after_logins tools (login ∷ []) fresh_device)
after_logins-IsSound_example =
    after_logins-IsSound tools 0 "localhost" "http://localhost" (login ∷ []) fresh_device filled
      new_test

register_test : register tools "challenge" device ≡ some "AA"
unfolding register build_auth_data attested_data cose_public_key encode_cbor flags_of uint32_bytes
    uint16_bytes build_client_data_json
register_test = refl

-- The counter wraps.
wrap_test : (authenticate tools 5 "challenge" [] device).1.sign_count ≡ 0
unfolding authenticate assertion build_client_data_json
wrap_test = refl
