-- ===== src/Cmd/Accounts/Export.antt =====
-- What `list` of cmd/am/main.go exports of an account that `import` has stored.
use agents_go.Prelude.{
  ◌≡◌, refl, sym, ap, ◌∙◌, true, false, Option, none, some, List, [], ◌∷◌, ◌++◌, Text, codes, All,
  Has, Lacks, is_empty, length, inl, inr, if◌then◌else◌, Result, ok, ok_path, ◌>>=◌, >>=-eq-ok,
  map_err, map_err-ok, Fault,
}
use agents_go.Conv.Hex.{from_hex, bytes2hex}
use agents_go.Conv.Hex.Laws.{from_hex-bytes2hex, from_hex-AreBytes}
use agents_go.Am.Encryption.{Cipher, decrypt}
use agents_go.Am.Encryption.RoundTrip.{IsCipher}
use agents_go.Am.Server.{Account, Chain, Db, AccountResponse, create_account, account_of}
use agents_go.Am.Server.Signing.{keys-decrypt, create_account-saved}
use agents_go.Cmd.Accounts.{
  CommandError, panicked, returned, printed, first_arg, created, import_account, exported, row,
  before_rows, rows, listed, list,
}

-- An account that was saved under a name is among those that the query for the name finds. A backslash has a meaning of
-- its own in a pattern.
abbrev pub Finds :
    {E D : Type 0} → (D → Account → Result E D) → (D → Text → Result E (List Account)) → Type 0
Finds {E} {D} save where_name_like =
    (d d' : D) (a : Account) (name : Text) (accounts : List Account)
    → Lacks b'\\' name
    → a.name ≡ some name
    → save d a ≡ ok d'
    → where_name_like d' (name ++ b'%' ∷ []) ≡ ok accounts
    → Has a accounts

abbrev pub line : (Text → Text) → Text → Text → Text → Text
line encode address name pk = address ++ b',' ∷ name ++ b',' ∷ encode pk

module _ {E : Type 0} (cipher : Cipher E) (encode : Text → Text) (enckey : Text) where
  -- An account with a name, whose private key can be decrypted.
  abbrev pub IsExportable : Account → Type 0
  IsExportable a =
      (name : Text) × (pk : Text) × (a.name ≡ some name)
      × (decrypt cipher enckey a.private_key ≡ ok pk)

  row_exported :
      (a : Account) (name pk : Text)
      → a.name ≡ some name
      → decrypt cipher enckey a.private_key ≡ ok pk
      → row cipher encode enckey true a a.name ≡ (line encode a.address name pk ∷ [], none)
  unfolding row exported
  row_exported a name pk e opened = rw e (rw opened refl)

  rows-cons :
      (b : Account) (name pk : Text) (accounts : List Account) (lines : List Text)
      → b.name ≡ some name
      → decrypt cipher enckey b.private_key ≡ ok pk
      → rows cipher encode enckey true accounts ≡ (lines, none)
      → rows cipher encode enckey true (b ∷ accounts)
        ≡ (line encode b.address name pk ∷ lines, none)
  unfolding rows before_rows
  rows-cons b name pk accounts lines e opened h = rw (row_exported b name pk e opened) (rw h refl)

  rows-All :
      (accounts : List Account)
      → All IsExportable accounts
      → (lines : List Text) × (rows cipher encode enckey true accounts ≡ (lines, none))
  unfolding rows
  rows-All [] all = ([], refl)
  rows-All (b ∷ accounts) ((name, pk, e, opened), all) =
      let (lines, h) = rows-All accounts all in
      (line encode b.address name pk ∷ lines, rows-cons b name pk accounts lines e opened h)

  rows-line :
      (a : Account) (name pk : Text) (accounts : List Account)
      → a.name ≡ some name
      → decrypt cipher enckey a.private_key ≡ ok pk
      → All IsExportable accounts
      → Has a accounts
      → (lines : List Text) × (rows cipher encode enckey true accounts ≡ (lines, none))
        × Has (line encode a.address name pk) lines
  rows-line a name pk [] e opened all has = elim has [ ]
  rows-line a name pk (b ∷ accounts) e opened (_, all) (inl same) =
      let (lines, h) = rows-All accounts all in
      (
        line encode b.address name pk ∷ lines,
        rows-cons b name pk accounts lines (ap (λ (x : Account). x.name) (sym same) ∙ e)
            (ap (λ (x : Account). decrypt cipher enckey x.private_key) (sym same) ∙ opened) h,
        inl (ap (λ (x : Account). line encode x.address name pk) same),
      )
  rows-line a name pk (b ∷ accounts) e opened ((other, q, eb, openedb), all) (inr later) =
      let (lines, h, has) = rows-line a name pk accounts e opened all later in
      (
        line encode b.address other q ∷ lines,
        rows-cons b other q accounts lines eb openedb h,
        inr has,
      )

  list-rows :
      {D : Type 0} (where_name_like : D → Text → Result E (List Account)) (d : D) (name : Text)
      (accounts : List Account) (lines : List Text)
      → where_name_like d (name ++ b'%' ∷ []) ≡ ok accounts
      → rows cipher encode enckey true accounts ≡ (lines, none)
      → list cipher encode enckey true where_name_like (ok d) name
        ≡ (codes "Address,Name,PK" ∷ lines, none)
  unfolding list listed
  list-rows where_name_like d name accounts lines found h = rw found (rw h refl)

-- A name that is not empty is stored.
stored_name :
    (name : Text) → is_empty name ≡ false → (if is_empty name then none else some name) ≡ some name
stored_name name h = rw h refl

module _ {E D : Type 0} (cipher : Cipher E) (db : Db E D) (chains : Text → Option (Chain E))
    (enckey salt nonce chain name : Text) where
  -- An `import` that succeeds has created an account with the private key.
  import_account-created :
      (opened : Result (Fault E) D) (pk_hex : Text) (args : List Text) (d' : D) (out : List Text)
      → import_account cipher db chains enckey salt nonce chain name opened (pk_hex ∷ args)
        ≡ ok (d', out)
      → (d : D) × (reply : AccountResponse) × (create_account cipher db chains enckey salt nonce
            chain name
            (some (from_hex pk_hex))
            d
          ≡ ok (d', reply))
        × (printed name reply ≡ out)
  unfolding import_account first_arg created
  import_account-created opened pk_hex args d' out h =
      let finish : D × AccountResponse → Result (CommandError E) (D × List Text) =
        λ r. ok (r.0, printed name r.1) in
      let made : D → Result E (D × AccountResponse) = λ d.
        create_account cipher db chains enckey salt nonce chain name (some (from_hex pk_hex)) d in
      let next : D → Result (CommandError E) (D × List Text) =
        λ d. map_err returned (made d) >>= finish in
      let (d, is_open, h1) = >>=-eq-ok (map_err (λ e. panicked) opened) next (d', out) h in
      let (r, is_made, h2) = >>=-eq-ok (map_err returned (made d)) finish (d', out) h1 in
      let same = ok_path h2 in
      (
        d,
        r.1,
        map_err-ok returned (made d) r is_made ∙ ap (λ (x : D × List Text). ok (x.0, r.1)) same,
        ap (λ (x : D × List Text). x.1) same,
      )

  -- Only the bytes matter, not how they are written.
  import_account_same :
      (opened : Result (Fault E) D) (s t : Text) (args : List Text)
      → from_hex s ≡ from_hex t
      → import_account cipher db chains enckey salt nonce chain name opened (s ∷ args)
        ≡ import_account cipher db chains enckey salt nonce chain name opened (t ∷ args)
  unfolding import_account first_arg
  import_account_same opened s t args h =
      let store : Text → D → Result (CommandError E) (D × List Text) =
        λ pk. created cipher db chains enckey salt nonce chain name (some pk) in
      ap (λ pk. map_err (λ e. panicked) opened >>= store pk) h

  -- An account that `import` stores under a name is exported by `list` for the name, with the address that `import`
  -- printed and the private key that it was given, and with the exported text instead `import` ends with the same database
  -- and output. `hexutil.Encode` puts `0x` before the digits, the query finds the account, and all the accounts that it
  -- finds have names and private keys that the encryption key decrypts.
  pub list-import_account :
      (encode : Text → Text) (where_name_like : D → Text → Result E (List Account)) (bc : Chain E)
      (opened : Result (Fault E) D) (pk_hex : Text) (args : List Text) (d' : D) (out : List Text)
      (accounts : List Account)
      → IsCipher cipher
      → ((pk : Text) → encode pk ≡ codes "0x" ++ bytes2hex pk)
      → Finds db.save where_name_like
      → length salt ≡ 16
      → length nonce ≡ 24
      → chains chain ≡ some bc
      → is_empty name ≡ false
      → Lacks b'\\' name
      → import_account cipher db chains enckey salt nonce chain name opened (pk_hex ∷ args)
        ≡ ok (d', out)
      → where_name_like d' (name ++ b'%' ∷ []) ≡ ok accounts
      → All (IsExportable cipher encode enckey) accounts
      → (lines : List Text) × (address : Text) × (list cipher encode enckey true where_name_like
            (ok d')
            name
          ≡ (codes "Address,Name,PK" ∷ lines, none))
        × (out ≡ (codes "Name: " ++ name) ∷ (codes "Address: " ++ address) ∷ [])
        × Has (line encode address name (from_hex pk_hex)) lines
        × (import_account cipher db chains enckey salt nonce chain name opened
              (encode (from_hex pk_hex) ∷ args)
            ≡ ok (d', out))
  unfolding account_of printed
  list-import_account encode where_name_like bc opened pk_hex args d' out accounts laws encodes
        finds hs hn hc named plain h found all =
      let pk = from_hex pk_hex in
      let (d, reply, created_with, is_out) = import_account-created opened pk_hex args d' out h in
      let (keys, is_keys, is_saved, answered) =
        create_account-saved cipher db chains enckey bc salt nonce chain name (some pk) d d' reply
          hc created_with in
      let account = account_of cipher db chains enckey chain name keys in
      let has_name : account.name ≡ some name = stored_name name named in
      let has = finds d d' account name accounts plain has_name is_saved found in
      let decrypted =
        keys-decrypt cipher db chains enckey bc salt nonce pk keys laws hs hn is_keys in
      let (lines, h1, there) =
        rows-line cipher encode enckey account name pk accounts has_name decrypted all has in
      let again : from_hex (encode pk) ≡ pk =
        ap from_hex (encodes pk) ∙ (from_hex-bytes2hex pk (from_hex-AreBytes pk_hex)).1 in
      (
        lines,
        keys.address,
        list-rows cipher encode enckey where_name_like d' name accounts lines found h1,
        sym is_out
            ∙ ap
                (λ (r : AccountResponse).
                  (codes "Name: " ++ name) ∷ (codes "Address: " ++ r.address) ∷ [])
                (sym answered),
        there,
        import_account_same opened (encode pk) pk_hex args again ∙ h,
      )
