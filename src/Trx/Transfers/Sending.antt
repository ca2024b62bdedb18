-- ===== src/Trx/Transfers/Sending.antt =====
-- What `Send` of agents/trx/server.go broadcasts.
use agents_go.Prelude.{
  ◌≡◌, refl, Bool, true, false, Option, none, some, List, [], ◌∷◌, map, Text, Result, ok, err,
  ok_path, if◌then◌else◌,
}
use agents_go.Eth.Construct.{Intent}
use agents_go.Trx.Api.{CallResult}
use agents_go.Trx.Transfers.{
  TrxApiClient, TrxLib, TransferError, rejected, broadcast_request, broadcasted, send,
}

module _ {E A : Type 0} (lib : TrxLib E A) where
  accepted :
      (intent : Intent) (res : CallResult) (id : Text) (result : Bool)
      → ◌≡◌ {A = Result (TransferError E) Text}
          (if result then ok intent.id else err (rejected res.code res.message))
          (ok id)
      → (result ≡ true) × (intent.id ≡ id)
  accepted intent res id true h = (refl, ok_path h)
  accepted intent res id false h = cc

  broadcasted-ok :
      (intent : Intent) (r : Result E CallResult) (id : Text)
      → broadcasted lib intent r ≡ ok id
      → (res : CallResult) × (r ≡ ok res) × (res.result ≡ true) × (intent.id ≡ id)
  unfolding broadcasted
  broadcasted-ok intent (err e) id h = cc
  broadcasted-ok intent (ok res) id h =
      let (fine, same) = accepted intent res id res.result h in (res, refl, fine, same)

map_inverse :
    (f g : Text → Text) (ts : List Text) → ((t : Text) → g (f t) ≡ t) → map g (map f ts) ≡ ts
map_inverse f g [] h = refl
map_inverse f g (t ∷ ts) h = rw (h t, map_inverse f g ts h) refl

module _ {E A : Type 0} (lib : TrxLib E A)
    (codec : (t : Text) → lib.hex2bytes (lib.bytes2hex t) ≡ t) where
  -- `Send` gives an identifier only if there is a client whose node has accepted the intent's raw data with texts that
  -- are the signatures in hexadecimal, in order, and gives that of the intent, if go-ethereum reads back the hexadecimal
  -- text that it writes.
  pub send_lem :
      (client : Option (TrxApiClient E)) (intent : Intent) (signatures : List Text) (id : Text)
      → send lib client intent signatures ≡ ok id
      → (c : TrxApiClient E) × (texts : List Text) × (res : CallResult) × (client ≡ some c)
        × (map lib.hex2bytes texts ≡ signatures)
        × (c.broadcast (record { visible = true; raw_data = intent.raw_data; signature = texts })
            ≡ ok res)
        × (res.result ≡ true)
        × (intent.id ≡ id)
  unfolding send broadcast_request
  send_lem none intent signatures id h = cc
  send_lem (some c) intent signatures id h =
      let (res, answered, fine, same) =
        broadcasted-ok lib intent (c.broadcast (broadcast_request lib intent signatures)) id h in
      (
        c,
        map lib.bytes2hex signatures,
        res,
        refl,
        map_inverse lib.bytes2hex lib.hex2bytes signatures codec,
        answered,
        fine,
        same,
      )
