-- ===== src/Cmd/Accounts/Tests.antt =====
-- A concrete database and cipher, for the commands of cmd/am.
use agents_go.Prelude.{
  ◌≡◌, refl, ap, ◌∙◌, true, false, Option, none, some, List, [], ◌∷◌, ◌++◌, Text, codes, Has, inl,
  replicate, arith, Result, ok, err, ok_path, ℕ,
}
use agents_go.Conv.Hex.{
  hex_value, decode_pair, decode_string, has_0x_prefix, hex2bytes, from_hex, bytes2hex,
}
use agents_go.Am.Encryption.{decrypt}
use agents_go.Am.Server.{Account, create_account}
use agents_go.Am.Tests.{cipher, cipher-IsCipher, chain, chains, db, tag}
use agents_go.Cmd.Accounts.{pk_required, no_addresses, import_account, delete, list}
use agents_go.Cmd.Accounts.Export.{Finds, line, list-import_account}

-- The query finds what the database holds.
abbrev where_name_like : Option Account → Text → Result ℕ (List Account)
where_name_like none pattern = ok []
where_name_like (some a) pattern = ok (a ∷ [])

abbrev encode : Text → Text
encode pk = codes "0x" ++ bytes2hex pk

found_saved : Finds db.save where_name_like
found_saved d d' a name accounts plain named h found = holds accounts found'
  where
    found' : ◌≡◌ {A = Result ℕ (List Account)} (ok (a ∷ [])) (ok accounts)
    found' = ap (λ (o : Option Account). where_name_like o (name ++ b'%' ∷ [])) (ok_path h) ∙ found

    holds :
        (others : List Account)
        → ◌≡◌ {A = Result ℕ (List Account)} (ok (a ∷ [])) (ok others)
        → Has a others
    holds [] e = cc
    holds (b ∷ others) e = inl cc

abbrev named_account : Account
named_account = record {
  name = some (codes "n");
  network_type = codes "E";
  address = codes "a" ++ 171 ∷ [];
  private_key = replicate 16 1 ++ (replicate 24 2 ++ (171 ∷ tag));
  public_key = codes "p" ++ 171 ∷ [];
}

abbrev output : List Text
output = codes "Name: n" ∷ (codes "Address: a" ++ 171 ∷ []) ∷ []

imported :
    import_account cipher db chains
      (codes "k")
      (replicate 16 1)
      (replicate 24 2)
      (codes "E")
      (codes "n")
      (ok none)
      (codes "0xAB" ∷ [])
    ≡ ok (some named_account, output)
unfolding import_account create_account from_hex hex2bytes decode_string has_0x_prefix decode_pair
    hex_value
imported = refl

no_argument :
    import_account cipher db chains
      (codes "k")
      (replicate 16 1)
      (replicate 24 2)
      (codes "E")
      (codes "n")
      (ok none)
      []
    ≡ err pk_required
unfolding import_account
no_argument = refl

delete_refused : delete {E = ℕ} (λ (d : ℕ). 0) (λ addresses d. d) (ok 3) false [] ≡ err no_addresses
unfolding delete
delete_refused = refl

decrypted : decrypt cipher (codes "k") named_account.private_key ≡ ok (171 ∷ [])
unfolding decrypt
decrypted = refl

list-import_account_example :
    (lines : List Text) × (address : Text) × (list cipher encode
        (codes "k")
        true
        where_name_like
        (ok (some named_account))
        (codes "n")
      ≡ (codes "Address,Name,PK" ∷ lines, none))
    × (output ≡ (codes "Name: " ++ codes "n") ∷ (codes "Address: " ++ address) ∷ [])
    × Has (line encode address (codes "n") (from_hex (codes "0xAB"))) lines
    × (import_account cipher db chains
          (codes "k")
          (replicate 16 1)
          (replicate 24 2)
          (codes "E")
          (codes "n")
          (ok none)
          (encode (from_hex (codes "0xAB")) ∷ [])
        ≡ ok (some named_account, output))
list-import_account_example =
    list-import_account cipher db chains (codes "k") (replicate 16 1) (replicate 24 2) (codes "E")
      (codes "n") encode where_name_like chain (ok none) (codes "0xAB") [] (some named_account)
      output (named_account ∷ []) cipher-IsCipher (λ pk. refl) found_saved refl refl refl refl
      (omega arith, tt) imported refl ((codes "n", 171 ∷ [], refl, decrypted), tt)
