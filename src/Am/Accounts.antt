-- ===== src/Am/Accounts.antt =====
-- am/server.go: `ListAccounts`, and `GormOpenRetry` with `InitAMServer`. The query `name like` of the database and the
-- attempts to open it, numbered from 0, are arguments.
use agents_go.Prelude.{
  ℕ, zero, suc, Option, none, some, List, [], ◌∷◌, ◌++◌, Text, Result, ok, err, ◌>>=◌, map_err,
  Fault, panics, failed,
}
use agents_go.Am.Server.{Account}

module _ {E : Type 0} where
  -- A round of the loop of `ListAccounts`: a nil name panics.
  listed_name : Option Text → Result (Fault E) Text
  listed_name none = err panics
  listed_name (some name) = ok name

  listed_accounts : List Account → Result (Fault E) (List (Text × Text))
  unfolding listed_name
  listed_accounts [] = ok []
  listed_accounts (a ∷ accounts) = do
    name ← listed_name a.name
    rest ← listed_accounts accounts
    ok ((name, a.address) ∷ rest)

  -- `ListAccounts`: name and address of each account whose name the pattern matches.
  unfoldable pub list_stored_accounts :
      {D : Type 0}
      → (D → Text → Result E (List Account))
      → Text
      → D
      → Result (Fault E) (List (Text × Text))
  unfolding listed_accounts
  list_stored_accounts where_name_like name_filter d = do
    accounts ← map_err failed (where_name_like d (name_filter ++ b'%' ∷ []))
    listed_accounts accounts

module _ {E D : Type 0} (open_db : ℕ → Result E D) (migrate : D → D) where
  -- What an attempt gives, if `rest` is what the later ones give.
  opened : Result E D → Result E D → Result E D
  opened (ok db) rest = ok (migrate db)
  opened (err e) rest = rest

  -- The loop of `GormOpenRetry` from round `i` on, with `more` rounds after it.
  open_rounds : ℕ → ℕ → Result E D
  unfolding opened
  open_rounds zero i = opened (open_db i) (open_db i)
  open_rounds (suc more) i = let rest = open_rounds more (suc i) in opened (open_db i) rest

  gorm_open_retry : Result E D
  unfolding open_rounds
  gorm_open_retry = open_rounds 9 0

  -- `InitAMServer`: the database of the server.
  unfoldable pub init_am_server : Result (Fault E) D
  unfolding gorm_open_retry
  init_am_server = map_err (λ e. panics) gorm_open_retry
