-- ===== src/Eth/Info.antt =====
-- agents/eth/server/server.go: `Info`, with `AnyCall` of commons/jsonrpc/jsonrpc.go. The error of a call is not looked at:
-- the field keeps its zero value. The printed JSON is left out.
use agents_go.Prelude.{ℕ, Bool, false, none, [], Text, codes, Result, ok, err}
use agents_go.Rpc.Calls.{Client, new_rpc_call, call_typed}

pub record NodeSyncInfo : Type 0 where
  pub starting_block : ℕ
  pub current_block : ℕ
  pub highest_block : ℕ

pub record NodeInfo : Type 0 where
  pub listening : Bool
  pub chain_id : Text
  pub version : Text
  pub sync_info : NodeSyncInfo
  pub peer_count : ℕ
  pub genesis_block_hash : Text

-- `json.Unmarshal` into the types of the fields.
pub record InfoDecoders (E J : Type 0) : Type 0 where
  pub read_text : J → Result E Text
  pub read_flag : J → Result E Bool
  pub read_sync : J → Result E NodeSyncInfo
  pub read_number : J → Result E ℕ

module _ {E F J : Type 0} (client : Client E F J) where
  -- What a call leaves in the variable that its response is read into.
  left_by : {A : Type 0} → A → Result E A → A
  left_by old (ok a) = a
  left_by old (err e) = old

  -- `AnyCall` without parameters, called.
  unfoldable pub any_call : {A : Type 0} → Text → (J → Result E A) → A → A
  unfolding left_by call_typed
  any_call method read old =
      left_by old (call_typed client (new_rpc_call method [] read (λ a. a) none))

  unfoldable pub info : InfoDecoders E J → NodeInfo
  unfolding any_call
  info decoders = record {
    version = any_call (codes "web3_clientVersion") decoders.read_text [];
    listening = any_call (codes "net_listening") decoders.read_flag false;
    sync_info =
        any_call (codes "eth_syncing") decoders.read_sync
          (record { starting_block = 0; current_block = 0; highest_block = 0 });
    chain_id = any_call (codes "eth_chainId") decoders.read_text [];
    peer_count = any_call (codes "net_peerCount") decoders.read_number 0;
    genesis_block_hash = any_call (codes "net_version") decoders.read_text [];
  }
