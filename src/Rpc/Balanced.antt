-- ===== src/Rpc/Balanced.antt =====
-- commons/jsonrpc/client/balancedclient.go: `ClientConfig` and `BalancedClient`. `Dial`, which registers metrics by their
-- labels, and the log are left out. An
-- `Upstream` is its client; what a call reads into its variables is the raw result that the chosen upstream gives.
use agents_go.Prelude.{
  ℕ, ◌%◌, ◌^◌, Bool, false, Option, none, some, List, [], Text, length, get_elem?, Result, ok, err,
}
use agents_go.Balancer.{Balancer, new_balancer}
use agents_go.Balancer.Calls.{Reply, call_wait, call_every_upstream, close}
use agents_go.Rpc.Calls.{RawCall, Client}

pub record ClientConfig : Type 0 where
  pub url : Text
  pub limit_rps : ℕ

-- `GetLimitRps`: a uint cut to a uint32.
unfoldable pub get_limit_rps : ClientConfig → ℕ
get_limit_rps c = c.limit_rps % 2 ^ 32

abbrev limit_of : Option ClientConfig → ℕ
limit_of none = 0
limit_of (some c) = get_limit_rps c

-- The error of a call, nil where it succeeds.
abbrev pub error_of {ℓ κ} : {E : Type ℓ} {A : Type κ} → Result E A → Option E
error_of (ok a) = none
error_of (err e) = some e

-- The zero `Upstream`, and the comparison with rpc.ErrClientQuit.
pub record Upstreams (E F J : Type 0) : Type 0 where
  pub no_upstream : Client E F J
  pub is_client_quit : E → Bool

module _ {E F J : Type 0} (upstreams : Upstreams E F J) where
  -- `IsConnectionError`.
  unfoldable pub is_connection_error : Option E → Bool
  is_connection_error none = false
  is_connection_error (some e) = upstreams.is_client_quit e

  -- `NewBalancedClient`: a balancer with the observations of the status gauge.
  unfoldable pub new_balanced_client : List ClientConfig → Balancer (Client E F J)
  new_balanced_client clients =
      new_balancer upstreams.no_upstream (length clients) (λ i. limit_of (get_elem? clients i))
        (some [])

  -- `CallContext`, with the clock's and the context's readings of `CallW`.
  unfoldable pub balanced_call :
      RawCall F → List (ℕ × Option E) → Balancer (Client E F J) → Balancer (Client E F J) × Reply E
  unfolding is_connection_error call_wait
  balanced_call raw =
      call_wait is_connection_error
        (λ (us : Client E F J). error_of (us.call_context raw.method raw.params))

  -- `BatchCallContext`.
  unfoldable pub balanced_batch_call :
      List (RawCall F)
      → List (ℕ × Option E)
      → Balancer (Client E F J)
      → Balancer (Client E F J) × Reply E
  unfolding is_connection_error call_wait
  balanced_batch_call calls =
      call_wait is_connection_error (λ (us : Client E F J). error_of (us.batch_call_context calls))

module _ {E F J : Type 0} where
  -- `CallEveryUpstream`.
  unfoldable pub balanced_call_every : RawCall F → Balancer (Client E F J) → List ℕ × Option E
  balanced_call_every raw =
      call_every_upstream (λ (us : Client E F J). error_of (us.call_context raw.method raw.params))

  -- `Close`: the upstreams that are closed.
  unfoldable pub close_balanced : Balancer (Client E F J) → List (Client E F J)
  close_balanced b = close b
