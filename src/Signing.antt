-- ===== src/Signing.antt =====
-- src/signing.rs: the device signing key. The curve, the digest and the base64 alphabet are the
-- libraries': `Crypto` holds what the code calls, with the two laws that storing a key relies on.
pub mod Stored
use grindr_rs.Prelude.{
  ℕ, Bool, true, false, ◌||◌, Option, none, some, ◌++◌, Text, codes, and_then, map_option, contains,
  if◌then◌else◌, ◌≡◌,
}
use grindr_rs.Error.Show.{decimal}

-- `from_bytes` also checks the length; `sign` gives the DER bytes of the signature.
pub record Crypto : Type 1 where
  pub Key : Type 0
  pub from_bytes : Text → Option Key
  pub to_bytes : Key → Text
  pub spki : Key → Text
  pub sign : Key → Text → Text
  pub sha256 : Text → Text
  pub encode : Text → Text
  pub decode : Text → Option Text
  pub from_bytes-to_bytes : (k : Key) → from_bytes (to_bytes k) ≡ some k
  pub decode-encode : (s : Text) → decode (encode s) ≡ some s

-- A stored key, for one account.
pub record DeviceSigningKey : Type 0 where
  pub key : Text
  pub user_id : Text

pub record UploadSignature : Type 0 where
  pub key_id : Text
  pub signature : Text
  pub timestamp : ℕ
  pub nonce : Text

pub data SigningReject : Type 0 where
  retryable : SigningReject
  fatal : SigningReject

-- `signing_reject`, from the `type` that its decoder found in the body.
unfoldable pub signing_reject : Option Text → Option SigningReject
unfolding codes contains
signing_reject kind =
    map_option
      (λ k.
        if contains (codes "timestamp_drift") k || contains (codes "nonce_replayed") k
        then retryable
        else fatal)
      kind

module _ (crypto : Crypto) where
  open crypto use {Key, from_bytes, to_bytes, spki, sign, sha256, encode, decode}

  pub record DeviceKey : Type 0 where
    pub key : Key
    pub key_id : Text
    pub public_key : Text
    pub user_id : Text

  unfoldable pub from_key : Key → Text → DeviceKey
  from_key key user_id = record {
    key = key;
    key_id = encode (sha256 (spki key));
    public_key = encode (spki key);
    user_id = user_id;
  }

  unfoldable pub from_stored : DeviceSigningKey → Option DeviceKey
  unfolding from_key
  from_stored stored =
      and_then (decode stored.key)
        λ bytes. map_option (λ key. from_key key stored.user_id) (from_bytes bytes)

  unfoldable pub export : DeviceKey → DeviceSigningKey
  export k = record { key = encode (to_bytes k.key); user_id = k.user_id }

  -- `DeviceKey::sign`.
  sign_text : DeviceKey → Text → Text
  sign_text k message = encode (sign k.key message)

  unfoldable pub registration_signature : DeviceKey → Text → Text → Text
  unfolding sign_text codes
  registration_signature k android_id challenge = sign_text k (
      k.user_id
      ++ (codes "|"
          ++ (k.key_id
              ++ (codes "|"
                  ++ (k.public_key ++ (codes "|" ++ (android_id ++ (codes "|" ++ challenge))))))))

  -- `fresh` is the random nonce of 32 bytes.
  unfoldable pub upload_headers : DeviceKey → Text → Text → ℕ → Text → UploadSignature
  unfolding sign_text codes decimal
  upload_headers k android_id body timestamp fresh =
      let nonce = encode fresh in
      let body_hash = encode (sha256 body) in
      record {
        key_id = k.key_id;
        signature = sign_text k (
            body_hash
            ++ (codes "|"
                ++ (decimal timestamp
                    ++ (codes "|"
                        ++ (k.user_id ++ (codes "|" ++ (android_id ++ (codes "|" ++ nonce))))))));
        timestamp = timestamp;
        nonce = nonce;
      }
