-- ===== src/Signing/Stored.antt =====
-- src/signing.rs: storing a key and reading it back.
use grindr_rs.Prelude.{some, Text, ◌≡◌, refl, and_then, map_option}
use package.grindr_rs.Signing.{Crypto, from_key, from_stored, export}

module _ (crypto : Crypto) where
  -- A key that was made for an account comes back from its stored form, with the same id, public
  -- key and account.
  pub from_stored-export :
      (key : crypto.Key) (user_id : Text)
      → from_stored crypto (export crypto (from_key crypto key user_id))
        ≡ some (from_key crypto key user_id)
  unfolding from_stored export
  from_stored-export key user_id =
      rw (crypto.decode-encode (crypto.to_bytes key), and_then)
        (rw (crypto.from_bytes-to_bytes key, map_option) refl)
