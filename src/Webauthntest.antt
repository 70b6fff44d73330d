-- ===== src/Webauthntest.antt =====
-- internal/testutil/webauthntest/authenticator.go: the software authenticator that the integration
-- tests drive the server with.
pub mod Reader
pub mod Layout
pub mod Counter
use Prim.Native.Nat.{bit_or}
use go_passkey_auth.Prelude.{
  ℕ, zero, suc, ◌+◌, ◌/◌, ◌%◌, ◌^◌, Bool, true, false, not, ◌||◌, String, Bytes, Option, none, some,
  List, [], ◌∷◌, ◌++◌, length, if◌then◌else◌, nat_beq,
}

-- A CBOR value and key of the maps that are encoded. `negative n` is the integer -n.
pub data CborValue : Type 0 where
  text : String → CborValue
  bytes : Bytes → CborValue
  number negative : ℕ → CborValue
  empty_map : CborValue

pub data CborKey : Type 0 where
  text_key : String → CborKey
  number_key negative_key : ℕ → CborKey

-- The JSON that a client would send: `response` is the inner object.
pub record CredentialJson : Type 0 where
  pub id : String
  pub raw_id : String
  pub type : String
  pub response : List (String × String)

-- What the authenticator calls: crypto/ecdsa, crypto/rand, crypto/sha256, encoding/base64,
-- encoding/json and fxamacker/cbor. `none` is an error; the number of a random call says which.
pub record Toolkit : Type 1 where
  pub PrivateKey : Type 0
  pub EncMode : Type 0
  pub generate_key : ℕ → Option PrivateKey
  pub rand_read : ℕ → ℕ → Option Bytes
  pub public_bytes : PrivateKey → Option Bytes
  pub sign_asn1 : ℕ → PrivateKey → Bytes → Option Bytes
  pub sha256 : Bytes → Bytes
  -- `[]byte(s)`
  pub to_bytes : String → Bytes
  pub raw_url_encode : Bytes → String
  pub enc_mode : Option EncMode
  pub marshal_cbor : EncMode → List (CborKey × CborValue) → Option Bytes
  pub marshal_object : List (String × String) → Option Bytes
  pub marshal_credential : CredentialJson → Option String

-- `Authenticator`
pub record Authenticator (K : Toolkit) : Type 0 where
  pub rp_id : String
  pub origin : String
  pub aaguid : Bytes
  pub cred_id : Bytes
  pub priv_key : K.PrivateKey
  pub sign_count : ℕ
  pub backup_eligible : Bool
  pub backup_state : Bool

infixl 5 ◌>>=◌
abbrev pub ◌>>=◌ : {A B : Type 0} → Option A → (A → Option B) → Option B
none >>= f = none
some a >>= f = f a

-- `binary.BigEndian.AppendUint32` and `AppendUint16`: what they append.
unfoldable pub uint32_bytes : ℕ → Bytes
uint32_bytes n = n / 2 ^ 24 % 256 ∷ n / 2 ^ 16 % 256 ∷ n / 2 ^ 8 % 256 ∷ n % 256 ∷ []

unfoldable pub uint16_bytes : ℕ → Bytes
uint16_bytes n = n / 2 ^ 8 % 256 ∷ n % 256 ∷ []

-- `raw[from:to]`, of a slice that is long enough
abbrev pub drop : ℕ → Bytes → Bytes
drop zero xs = xs
drop (suc n) [] = []
drop (suc n) (x ∷ xs) = drop n xs

abbrev pub take : ℕ → Bytes → Bytes
take zero xs = []
take (suc n) [] = []
take (suc n) (x ∷ xs) = x ∷ take n xs

abbrev pub starts_with : ℕ → Bytes → Bool
starts_with n [] = false
starts_with n (x ∷ xs) = nat_beq x n

-- The flags byte: UP and UV, and BE, BS and AT where they hold.
unfoldable pub flags_of : Bool → Bool → Bool → ℕ
flags_of eligible state attested =
    let flags = bit_or 0x01 0x04 in
    let flags = if eligible then bit_or flags 0x08 else flags in
    let flags = if state then bit_or flags 0x10 else flags in
    if attested then bit_or flags 0x40 else flags

module _ (K : Toolkit) where
  -- `New`, whose random calls have the numbers n, n + 1 and n + 2
  unfoldable pub new : ℕ → String → String → Option (Authenticator K)
  new n rp_id origin = do
    priv ← K.generate_key n
    cred_id ← K.rand_read (n + 1) 16
    aaguid ← K.rand_read (n + 2) 16
    some (record {
      rp_id = rp_id;
      origin = origin;
      aaguid = aaguid;
      cred_id = cred_id;
      priv_key = priv;
      sign_count = 0;
      backup_eligible = true;
      backup_state = true;
    })

  unfoldable pub encode_cbor : List (CborKey × CborValue) → Option Bytes
  encode_cbor v = do mode ← K.enc_mode; K.marshal_cbor mode v

  unfoldable pub cose_public_key : Authenticator K → Option Bytes
  unfolding encode_cbor
  cose_public_key a = do
    raw ← K.public_bytes a.priv_key
    if not (nat_beq (length raw) 65) || not (starts_with 0x04 raw)
        then none
        else encode_cbor (
            (number_key 1, number 2)
            ∷ (number_key 3, negative 7)
            ∷ (negative_key 1, number 1)
            ∷ (negative_key 2, bytes (take 32 (drop 1 raw)))
            ∷ (negative_key 3, bytes (take 32 (drop 33 raw)))
            ∷ [])

  -- What follows the counter in the data of a registration.
  unfoldable pub attested_data : Authenticator K → Option Bytes
  unfolding cose_public_key
  attested_data a = do
    pub_key ← cose_public_key a
    some (a.aaguid ++ uint16_bytes (length a.cred_id % 2 ^ 16) ++ a.cred_id ++ pub_key)

  unfoldable pub build_auth_data : Bool → Authenticator K → Option Bytes
  unfolding attested_data
  build_auth_data attested a =
      let buf =
        K.sha256 (K.to_bytes a.rp_id)
        ++ flags_of a.backup_eligible a.backup_state attested ∷ uint32_bytes a.sign_count in
      if attested then (attested_data a >>= λ block. some (buf ++ block)) else some buf

  unfoldable pub build_client_data_json : String → String → String → Option Bytes
  build_client_data_json type challenge origin =
      K.marshal_object (("type", type) ∷ ("challenge", challenge) ∷ ("origin", origin) ∷ [])

  unfoldable pub register : String → Authenticator K → Option String
  unfolding build_client_data_json build_auth_data encode_cbor
  register challenge a = do
    client_data ← build_client_data_json "webauthn.create" challenge a.origin
    auth_data ← build_auth_data true a
    att_obj ← encode_cbor (
        (text_key "fmt", text "none")
        ∷ (text_key "attStmt", empty_map)
        ∷ (text_key "authData", bytes auth_data)
        ∷ [])
    K.marshal_credential (record {
      id = K.raw_url_encode a.cred_id;
      raw_id = K.raw_url_encode a.cred_id;
      type = "public-key";
      response =
          ("clientDataJSON", K.raw_url_encode client_data)
          ∷ ("attestationObject", K.raw_url_encode att_obj)
          ∷ [];
    })

  -- `a.signCount.Add(1)`
  abbrev pub counted_up : Authenticator K → Authenticator K
  counted_up a = record a { sign_count = (a.sign_count + 1) % 2 ^ 32 }

  -- From the counter on: what is signed, with the random call n, and what is sent.
  unfoldable pub assertion : ℕ → Bytes → Bytes → Authenticator K → Option String
  unfolding build_auth_data
  assertion n client_data user_handle a = do
    auth_data ← build_auth_data false a
    sig ← K.sign_asn1 n a.priv_key (K.sha256 (auth_data ++ K.sha256 client_data))
    K.marshal_credential (record {
      id = K.raw_url_encode a.cred_id;
      raw_id = K.raw_url_encode a.cred_id;
      type = "public-key";
      response =
          ("clientDataJSON", K.raw_url_encode client_data)
          ∷ ("authenticatorData", K.raw_url_encode auth_data)
          ∷ ("signature", K.raw_url_encode sig)
          ∷ ("userHandle", K.raw_url_encode user_handle)
          ∷ [];
    })

  -- The response, and the authenticator after it.
  unfoldable pub authenticate :
      ℕ → String → Bytes → Authenticator K → Option String × Authenticator K
  unfolding build_client_data_json assertion
  authenticate n challenge user_handle a =
      elim (build_client_data_json "webauthn.get" challenge a.origin) [
        | none ↦ (none, a)
        | some client_data ↦ (assertion n client_data user_handle (counted_up a), counted_up a)
      ]
