-- ===== src/Cmd/Pkcs.antt =====
-- cmd/am-pkcs/main.go: `readConfig`, `initPKCSContext`, and the actions of `gen` and `list`. Files, YAML and crypto11 are
-- arguments; the texts of a key pair and of the context are functions, and the printed lines are
-- values; what was printed before a failure is left out.
use agents_go.Prelude.{
  ℕ, List, [], ◌∷◌, ◌++◌, map, Text, codes, is_empty, if◌then◌else◌, length, Result, ok, ◌>>=◌,
  map_err,
}

-- How an action ends early: `log.Fatalf`, or the error that it returns.
pub data PkcsFailure (E : Type 0) : Type 0 where
  fatal returned : E → PkcsFailure E

-- `os.ReadFile`, `yaml.Unmarshal` and `crypto11.Configure`, `GenerateECDSAKeyPairWithLabel` and `FindAllKeyPairs`, and the
-- texts that are printed.
pub record PkcsLib (E C D S : Type 0) : Type 0 where
  pub read_file : Text → Result E Text
  pub unmarshal : Text → Result E C
  pub configure : C → Result E D
  pub generate : Text → Text → D → Result E S
  pub find_all : D → Result E (List S)
  pub show_context : D → Text
  pub show_pair : S → Text
  pub show_number : ℕ → Text

module _ {E C D S : Type 0} (lib : PkcsLib E C D S) where
  unfoldable pub read_config : Text → Result (PkcsFailure E) C
  read_config config_location = do
    data_read ←
        map_err fatal (
          lib.read_file (if is_empty config_location then codes "config.yaml" else config_location))
    map_err fatal (lib.unmarshal data_read)

  -- `initPKCSContext`: the context, with the line that is printed.
  unfoldable pub init_pkcs_context : Text → Result (PkcsFailure E) (D × Text)
  unfolding read_config
  init_pkcs_context config_location = do
    conf ← read_config config_location
    ctx ← map_err fatal (lib.configure conf)
    ok (ctx, codes "PKCS11 context initialized: " ++ lib.show_context ctx)

  -- `gen`, with the 32 bytes of `randomBytes` as the identifier.
  unfoldable pub gen_pair : Text → Result (PkcsFailure E) (List Text)
  unfolding init_pkcs_context
  gen_pair random_bytes = do
    (ctx, line) ← init_pkcs_context []
    s ← map_err returned (lib.generate random_bytes (codes "test") ctx)
    ok (line ∷ lib.show_pair s ∷ [])

  unfoldable pub list_pairs : Result (PkcsFailure E) (List Text)
  unfolding init_pkcs_context
  list_pairs = do
    (ctx, line) ← init_pkcs_context []
    keys ← map_err returned (lib.find_all ctx)
    ok (
        codes "list"
        ∷ line
        ∷ (codes "keys: " ++ lib.show_number (length keys))
        ∷ map lib.show_pair keys)
