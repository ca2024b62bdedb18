-- ===== src/Cmd/Accounts.antt =====
-- cmd/am/main.go: the actions of `gen`, `import`, `delete` and `list`. The opened database, or the error of opening it, and
-- the random bytes are arguments, and the printed lines are values; `-enckey` is the encryption key.
pub mod Export
pub mod Tests
use agents_go.Prelude.{
  Bool, true, false, Option, none, some, List, [], ◌∷◌, ◌++◌, Text, codes, if◌then◌else◌, Result,
  ok, err, ◌>>=◌, map_err, Fault,
}
use agents_go.Conv.Hex.{from_hex}
use agents_go.Am.Encryption.{Cipher, decrypt}
use agents_go.Am.Server.{Account, Chain, Db, AccountResponse, create_account}

-- How an action fails: a panic, an error that it returns, and its own errors.
pub data CommandError (E : Type 0) : Type 0 where
  panicked : CommandError E
  returned : E → CommandError E
  pk_required no_addresses : CommandError E

-- What `gen` and `import` print.
unfoldable pub printed : Text → AccountResponse → List Text
printed name reply = (codes "Name: " ++ name) ∷ (codes "Address: " ++ reply.address) ∷ []

unfoldable pub first_arg : {E : Type 0} → List Text → Result (CommandError E) Text
first_arg [] = err pk_required
first_arg (pk ∷ args) = ok pk

module _ {E D : Type 0} (cipher : Cipher E) (db : Db E D) (chains : Text → Option (Chain E))
    (enckey salt nonce chain name : Text) where
  -- `CreateAccount` with the flags of the command.
  unfoldable pub created : Option Text → D → Result (CommandError E) (D × List Text)
  unfolding printed
  created private_key d = do
    (d', reply) ←
        map_err returned
          (create_account cipher db chains enckey salt nonce chain name private_key d)
    ok (d', printed name reply)

  -- `gen`; `InitAMServer` panics if the database cannot be opened.
  unfoldable pub gen : Result (Fault E) D → Result (CommandError E) (D × List Text)
  unfolding created
  gen opened = do d ← map_err (λ e. panicked) opened; created none d

  -- `import`, of the private key in hexadecimal that is its first argument.
  unfoldable pub import_account :
      Result (Fault E) D → List Text → Result (CommandError E) (D × List Text)
  unfolding created first_arg
  import_account opened args = do
    d ← map_err (λ e. panicked) opened
    pk_hex ← first_arg args
    created (some (from_hex pk_hex)) d

-- `delete`; what `Exec` answers is not looked at, so the two statements are functions on databases.
unfoldable pub delete :
    {E D : Type 0}
    → (D → D)
    → (List Text → D → D)
    → Result E D
    → Bool
    → List Text
    → Result (CommandError E) D
delete delete_all delete_in (err e) all args = err (returned e)
delete delete_all delete_in (ok d) true [] = ok (delete_all d)
delete delete_all delete_in (ok d) false [] = err no_addresses
delete delete_all delete_in (ok d) all (arg ∷ args) = ok (delete_in (arg ∷ args) d)

module _ {E : Type 0} (cipher : Cipher E) (encode : Text → Text) (enckey : Text)
    (export : Bool) where
  -- The line of an account, and the error that ends the command; `encode` is `hexutil.Encode`.
  exported : Text → Result E Text → List Text × Option (CommandError E)
  exported start (ok pk) = ((start ++ b',' ∷ encode pk) ∷ [], none)
  exported start (err e) = (start ∷ [], some (returned e))

  row : Account → Option Text → List Text × Option (CommandError E)
  unfolding exported
  row acc none = ([], some panicked)
  row acc (some name) =
      let start = acc.address ++ b',' ∷ name in
      if export then exported start (decrypt cipher enckey acc.private_key) else (start ∷ [], none)

  -- A line, then what the later accounts print, unless the line ended the command.
  before_rows :
      List Text × Option (CommandError E)
      → List Text × Option (CommandError E)
      → List Text × Option (CommandError E)
  before_rows (lines, some e) later = (lines, some e)
  before_rows (lines, none) (later, o) = (lines ++ later, o)

  unfoldable pub rows : List Account → List Text × Option (CommandError E)
  unfolding row before_rows
  rows [] = ([], none)
  rows (acc ∷ accounts) = before_rows (row acc acc.name) (rows accounts)

  listed : Result E (List Account) → List Text × Option (CommandError E)
  unfolding rows
  listed (err e) = ([], some (returned e))
  listed (ok accounts) = let (lines, o) = rows accounts in (codes "Address,Name,PK" ∷ lines, o)

  -- `list`, with the query `name LIKE`.
  unfoldable pub list :
      {D : Type 0}
      → (D → Text → Result E (List Account))
      → Result E D
      → Text
      → List Text × Option (CommandError E)
  unfolding listed
  list where_name_like (err e) name = ([], some (returned e))
  list where_name_like (ok d) name = listed (where_name_like d (name ++ b'%' ∷ []))
