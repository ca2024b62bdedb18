-- ===== src/Am/Tests.antt =====
-- A concrete cipher, chain and database, for the code of am. Sealing appends the 16 bytes of the tag.
use agents_go.Prelude.{
  ℕ, ◌-◌, ◌≡◌, refl, Option, none, some, [], ◌∷◌, ◌++◌, Text, codes, text_eq, length, length-append,
  take, take-append, replicate, if◌then◌else◌, arith, ap, ◌∙◌, subst, ok, err, ok_path,
}
use agents_go.Am.Encryption.{Cipher, encrypt, decrypt, chacha_encrypt}
use agents_go.Am.Encryption.RoundTrip.{IsCipher, decrypt-encrypt}
use agents_go.Am.Server.{
  Account, Chain, found, not_found, Db, AccountResponse, create_account, create_with,
  encrypted_keys, account_of, sign_payload, get_account,
}
use agents_go.Am.Server.Signing.{Stores, sign_payload-create_account}

abbrev pub tag : Text
tag = replicate 16 7

abbrev pub cipher_of : {E : Type 0} → E → Cipher E
cipher_of e = record {
  derive_key = λ key salt. key;
  new_x = λ key. none;
  seal = λ key nonce plain. plain ++ tag;
  unseal = λ key nonce sealed. ok (take (length sealed - 16) sealed);
  invalid_data = e;
}

abbrev pub cipher : Cipher ℕ
cipher = cipher_of 1

cut_lem : (plain : Text) (n : ℕ) → n ≡ length plain → take n (plain ++ tag) ≡ plain
cut_lem plain n e = ap (λ k. take k (plain ++ tag)) e ∙ take-append plain tag

pub cipher_of-IsCipher : {E : Type 0} (e : E) → IsCipher (cipher_of e)
cipher_of-IsCipher e = record {
  accepts = λ key salt. refl;
  overhead = λ key nonce plain. length-append plain tag;
  opens = λ key nonce plain.
      ap ok (cut_lem plain (length (plain ++ tag) - 16) (omega (arith, length-append plain tag)));
}

pub cipher-IsCipher : IsCipher cipher
cipher-IsCipher = cipher_of-IsCipher 1

decrypt-encrypt_example :
    (sealed : Text) × (encrypt cipher (codes "k") (replicate 16 1) (replicate 24 2) (codes "secret")
      ≡ ok sealed)
    × (decrypt cipher (codes "k") sealed ≡ ok (codes "secret"))
decrypt-encrypt_example =
    decrypt-encrypt cipher (codes "k") (replicate 16 1) (replicate 24 2) (codes "secret")
      cipher-IsCipher refl refl

-- A chain whose address is the private key behind an `a`, and whose signature is the payload before the private key.
abbrev pub chain : Chain ℕ
chain = record {
  recover_address = λ key. ok (b'a' ∷ key);
  public_from_private_key = λ key. ok (b'p' ∷ key);
  generated = err 2;
  sign = λ payload key. ok (payload ++ key);
}

-- The database holds the account that was saved last.
abbrev pub db : Db ℕ (Option Account)
db = record {
  save = λ d a. ok (some a);
  first_by_name = λ d name. not_found;
  first_by_address = λ d address. elim d [ none ↦ not_found | some a ↦ found a ];
  record_not_found = 3;
  invalid_chain_id = 4;
}

abbrev pub chains : Text → Option (Chain ℕ)
chains t = if text_eq t (codes "E") then some chain else none

db-Stores : Stores db
db-Stores d d' a h = subst (λ o. db.first_by_address o a.address ≡ found a) (ok_path h) refl

abbrev stored : Account
stored = record {
  name = none;
  network_type = codes "E";
  address = codes "as";
  private_key = replicate 16 1 ++ (replicate 24 2 ++ (codes "s" ++ tag));
  public_key = codes "ps";
}

abbrev reply : AccountResponse
reply = record { address = codes "as"; name = []; public_key = codes "ps" }

sign_payload-create_account_example :
    (sign_payload cipher db chains
        (codes "k")
        (codes "E")
        []
        (codes "as")
        (codes "data")
        (some stored)
      ≡ ok (codes "datas"))
    × (get_account cipher db chains (codes "k") [] (codes "as") (some stored) ≡ ok reply)
unfolding create_account create_with encrypted_keys account_of encrypt chacha_encrypt
sign_payload-create_account_example =
    sign_payload-create_account cipher db chains (codes "k") chain (replicate 16 1) (replicate 24 2)
      (codes "E") [] (codes "s") (codes "data") none (some stored) reply cipher-IsCipher db-Stores
      refl refl refl refl
