-- ===== src/Cmd/Agents/Rounds.antt =====
-- What the rounds of `InitServerProxy` of cmd/agent-eth leave in the table of agents.
use agents_go.Prelude.{
  ◌≡◌, ◌≢◌, refl, sym, ap, ◌∙◌, Option, none, some, List, [], ◌∷◌, ◌++◌, Text, text_eq, text_eq_iff,
  if◌then◌else◌, Bool-cases, inl, inr, All, arith, Result, ok, ok_path, >>=-eq-ok, map_err,
  map_err-ok,
}
use agents_go.Config.{ChainConfig, ChainTypeConfig}
use agents_go.Proxy.{lookup}
use agents_go.Commons.{put}
use agents_go.Cmd.Agents.{
  StartFault, panicked, AgentFactory, named, server_key, found_agent, found_agents, start_agents,
  some_found, start_type, start_types, init_server_proxy,
}

lookup-put {ℓ} :
    {A : Type ℓ} (k j : Text) (a : A) (m : List (Text × A))
    → lookup j (put k a m) ≡ (if text_eq k j then some a else lookup j m)
unfolding lookup put
lookup-put k j a [] = refl
lookup-put k j a ((i, b) ∷ m) =
    ground (arith, text_eq_iff i k, text_eq_iff i j, text_eq_iff k j, lookup-put k j a m)

module _ {ℓ} {A : Type ℓ} where
  lookup-put_self : (k : Text) (a : A) (m : List (Text × A)) → lookup k (put k a m) ≡ some a
  lookup-put_self k a m = lookup-put k k a m ∙ ground (arith, text_eq_iff k k)

  lookup-put_ne :
      (k j : Text) (a : A) (m : List (Text × A)) → k ≢ j → lookup j (put k a m) ≡ lookup j m
  lookup-put_ne k j a m h = elim (Bool-cases (text_eq k j)) [
    | inl e ↦ absurd (h ((text_eq_iff k j).0 e))
    | inr e ↦ lookup-put k j a m ∙ rw e
  ]

module _ {E A : Type 0} (factories : Text → Option (AgentFactory E A)) where
  -- The agent of another key stays in the table.
  start_agents-keeps :
      (found : List (AgentFactory E A × ChainConfig)) (key : Text) (a : A) (s t : List (Text × A))
      → All (λ r. server_key r.1 ≢ key) found
      → lookup key s ≡ some a
      → start_agents factories found s ≡ ok t
      → lookup key t ≡ some a
  unfolding start_agents
  start_agents-keeps [] key a s t others there h = ap (lookup key) (sym (ok_path h)) ∙ there
  start_agents-keeps ((factory, config) ∷ rest) key a s t (differs, others) there h =
      let next : A → Result E (List (Text × A)) =
        λ agent. start_agents factories rest (put (server_key config) agent s) in
      let (agent, made, h1) = >>=-eq-ok (factory config) next t h in
      start_agents-keeps rest key a (put (server_key config) agent s) t others
        (lookup-put_ne (server_key config) key agent s differs ∙ there) h1

  -- An agent that was found is made, and stays in the table unless a later one has its key.
  start_agents-starts :
      (before after : List (AgentFactory E A × ChainConfig)) (factory : AgentFactory E A)
      (config : ChainConfig) (s t : List (Text × A))
      → All (λ r. server_key r.1 ≢ server_key config) after
      → start_agents factories (before ++ (factory, config) ∷ after) s ≡ ok t
      → (a : A) × (factory config ≡ ok a) × (lookup (server_key config) t ≡ some a)
  unfolding start_agents
  start_agents-starts [] after factory config s t others h =
      let next : A → Result E (List (Text × A)) =
        λ agent. start_agents factories after (put (server_key config) agent s) in
      let (agent, made, h1) = >>=-eq-ok (factory config) next t h in
      (
        agent,
        made,
        start_agents-keeps after (server_key config) agent (put (server_key config) agent s) t
            others (lookup-put_self (server_key config) agent s) h1,
      )
  start_agents-starts ((f, c) ∷ before) after factory config s t others h =
      let next : A → Result E (List (Text × A)) = λ agent.
        start_agents factories (before ++ (factory, config) ∷ after) (put (server_key c) agent s) in
      let (agent, made, h1) = >>=-eq-ok (f c) next t h in
      start_agents-starts before after factory config (put (server_key c) agent s) t others h1

  -- With a factory for the type, every network is found, in order.
  found_agents-append :
      (k : Text) (factory : AgentFactory E A) (xs ys : List (Text × ChainConfig))
      → factories k ≡ some factory
      → found_agents factories k (xs ++ ys)
        ≡ found_agents factories k xs ++ found_agents factories k ys
  unfolding found_agents found_agent
  found_agents-append k factory [] ys e = refl
  found_agents-append k factory ((nk, nv) ∷ xs) ys e = rw (e, found_agents-append k factory xs ys e)

  pub found_agents-here :
      (k nk : Text) (nv : ChainConfig) (after : List (Text × ChainConfig))
      (factory : AgentFactory E A)
      → factories k ≡ some factory
      → found_agents factories k ((nk, nv) ∷ after)
        ≡ (factory, named k nk nv) ∷ found_agents factories k after
  unfolding found_agents found_agent
  found_agents-here k nk nv after factory e = rw e

  found_agent-keys :
      (k key : Text) (config : ChainConfig) (o : Option (AgentFactory E A))
      (later : List (AgentFactory E A × ChainConfig))
      → server_key config ≢ key
      → All (λ r. server_key r.1 ≢ key) later
      → All (λ r. server_key r.1 ≢ key) (found_agent factories o config later)
  unfolding found_agent
  found_agent-keys k key config none later differs fine = fine
  found_agent-keys k key config (some factory) later differs fine = (differs, fine)

  found_agents-keys :
      (k key : Text) (networks : List (Text × ChainConfig))
      → All (λ r. server_key (named k r.0 r.1) ≢ key) networks
      → All (λ r. server_key r.1 ≢ key) (found_agents factories k networks)
  unfolding found_agents
  found_agents-keys k key [] others = tt
  found_agents-keys k key ((nk, nv) ∷ networks) (differs, others) =
      found_agent-keys k key (named k nk nv) (factories k) (found_agents factories k networks)
        differs (found_agents-keys k key networks others)

  some_found-ok :
      (k : Text) (found others : List (AgentFactory E A × ChainConfig))
      → some_found factories k found ≡ ok others
      → found ≡ others
  unfolding some_found
  some_found-ok k [] others h = cc
  some_found-ok k (a ∷ found) others h = ok_path h

  -- A round that ends has made the agents that it found.
  pub start_type-ok :
      (k : Text) (v : ChainTypeConfig) (s t : List (Text × A))
      → start_type factories k v s ≡ ok t
      → start_agents factories (found_agents factories k v.networks) s ≡ ok t
  unfolding start_type
  start_type-ok k v s t h =
      let next : List (AgentFactory E A × ChainConfig) → Result (StartFault E) (List (Text × A)) =
        λ found. map_err panicked (start_agents factories found s) in
      let (found, is_found, h1) =
        >>=-eq-ok (some_found factories k (found_agents factories k v.networks)) next t h in
      ap (λ x. start_agents factories x s)
        (some_found-ok k (found_agents factories k v.networks) found is_found)
      ∙ map_err-ok panicked (start_agents factories found s) t h1

  start_types-keeps :
      (configs : List (Text × ChainTypeConfig)) (key : Text) (a : A) (s t : List (Text × A))
      → All (λ r. All (λ n. server_key (named r.0 n.0 n.1) ≢ key) r.1.networks) configs
      → lookup key s ≡ some a
      → start_types factories configs s ≡ ok t
      → lookup key t ≡ some a
  unfolding start_types
  start_types-keeps [] key a s t others there h = ap (lookup key) (sym (ok_path h)) ∙ there
  start_types-keeps ((k, v) ∷ rest) key a s t (differs, others) there h =
      let (u, first, h1) =
        >>=-eq-ok (start_type factories k v s) (start_types factories rest) t h in
      start_types-keeps rest key a u t others
        (start_agents-keeps (found_agents factories k v.networks) key a s u
          (found_agents-keys k key v.networks differs) there (start_type-ok k v s u first))
        h1

  start_types-append :
      (before after : List (Text × ChainTypeConfig)) (s t : List (Text × A))
      → start_types factories (before ++ after) s ≡ ok t
      → (u : List (Text × A)) × (start_types factories after u ≡ ok t)
  unfolding start_types
  start_types-append [] after s t h = (s, h)
  start_types-append ((k, v) ∷ before) after s t h =
      let (u, first, h1) =
        >>=-eq-ok (start_type factories k v s) (start_types factories (before ++ after)) t h in
      start_types-append before after u t h1

  -- The agent of a network whose key no later network has.
  pub init_server_proxy-lookup :
      (types_before types_after : List (Text × ChainTypeConfig)) (k default nk : Text)
      (before after : List (Text × ChainConfig)) (nv : ChainConfig) (factory : AgentFactory E A)
      (servers : List (Text × A))
      → factories k ≡ some factory
      → All (λ n. server_key (named k n.0 n.1) ≢ server_key (named k nk nv)) after
      → All
          (λ r. All (λ n. server_key (named r.0 n.0 n.1) ≢ server_key (named k nk nv)) r.1.networks)
          types_after
      → init_server_proxy factories (
          types_before
          ++ (k, record { networks = before ++ (nk, nv) ∷ after; default_network = default })
            ∷ types_after)
        ≡ ok servers
      → (a : A) × (factory (named k nk nv) ≡ ok a)
        × (lookup (server_key (named k nk nv)) servers ≡ some a)
  unfolding init_server_proxy start_types
  init_server_proxy-lookup types_before types_after k default nk before after nv factory servers e
        later types_later h =
      let v : ChainTypeConfig = record {
        networks = before ++ (nk, nv) ∷ after;
        default_network = default;
      } in
      let (s, h1) = start_types-append types_before ((k, v) ∷ types_after) [] servers h in
      let (t, first, h2) =
        >>=-eq-ok (start_type factories k v s) (start_types factories types_after) servers h1 in
      let found = found_agents-append k factory before ((nk, nv) ∷ after) e in
      let rounds = start_type-ok k v s t first in
      let split : start_agents factories
            (found_agents factories k before
              ++ (factory, named k nk nv) ∷ found_agents factories k after)
            s
          ≡ ok t =
        ap (λ x. start_agents factories x s)
          (sym (
            found
            ∙ ap (λ x. found_agents factories k before ++ x)
                (found_agents-here k nk nv after factory e)))
        ∙ rounds in
      let (a, made, there) =
        start_agents-starts (found_agents factories k before) (found_agents factories k after)
          factory (named k nk nv) s t (found_agents-keys k (server_key (named k nk nv)) after later)
          split in
      (
        a,
        made,
        start_types-keeps types_after (server_key (named k nk nv)) a t servers types_later there h2,
      )
