-- ===== src/Cmd/Agents/Starting.antt =====
-- Which configurations `InitServerProxy` of cmd/agent-eth starts with.
use agents_go.Prelude.{
  ◌≡◌, ◌≢◌, ◌↔◌, refl, sym, ap, ◌∙◌, subst, Option, none, some, List, [], ◌∷◌, Text, All,
  Option-cases, inl, inr, Result, ok, err-ok, ◌>>=◌, >>=-eq-ok, map_err,
}
use agents_go.Config.{ChainConfig, ChainTypeConfig}
use agents_go.Commons.{put}
use agents_go.Cmd.Agents.{
  StartFault, panicked, AgentFactory, named, server_key, found_agent, found_agents, start_agents,
  some_found, start_type, start_types, init_server_proxy,
}
use agents_go.Cmd.Agents.Rounds.{start_type-ok, found_agents-here}

module _ {E A : Type 0} (factories : Text → Option (AgentFactory E A)) where
  -- The factory makes an agent of each network.
  abbrev pub AllStart : Text → AgentFactory E A → List (Text × ChainConfig) → Type 0
  AllStart k factory = All (λ n. (a : A) × (factory (named k n.0 n.1) ≡ ok a))

  -- The type has a network, a factory, and the factory makes an agent of each of its networks.
  abbrev pub IsServed : Text → List (Text × ChainConfig) → Type 0
  IsServed k networks =
      (networks ≢ [])
      × ((factory : AgentFactory E A) × (factories k ≡ some factory) × AllStart k factory networks)

  start_agents_total :
      (k : Text) (factory : AgentFactory E A) (networks : List (Text × ChainConfig))
      (s : List (Text × A))
      → factories k ≡ some factory
      → AllStart k factory networks
      → (t : List (Text × A)) × (start_agents factories (found_agents factories k networks) s
          ≡ ok t)
  unfolding start_agents found_agents found_agent
  start_agents_total k factory [] s e all = (s, refl)
  start_agents_total k factory ((nk, nv) ∷ networks) s e ((a, made), all) =
      let (t, rest) =
        start_agents_total k factory networks (put (server_key (named k nk nv)) a s) e all in
      (t, rw e (rw made rest))

  start_agents-AllStart :
      (k : Text) (factory : AgentFactory E A) (networks : List (Text × ChainConfig))
      (s t : List (Text × A))
      → factories k ≡ some factory
      → start_agents factories (found_agents factories k networks) s ≡ ok t
      → AllStart k factory networks
  unfolding start_agents
  start_agents-AllStart k factory [] s t e h = tt
  start_agents-AllStart k factory ((nk, nv) ∷ networks) s t e h =
      let found = found_agents-here factories k nk nv networks factory e in
      let next : A → Result E (List (Text × A)) = λ agent.
        start_agents factories (found_agents factories k networks)
          (put (server_key (named k nk nv)) agent s) in
      let (a, made, h1) =
        >>=-eq-ok (factory (named k nk nv)) next t
          (ap (λ x. start_agents factories x s) (sym found) ∙ h) in
      (
        (a, made),
        start_agents-AllStart k factory networks (put (server_key (named k nk nv)) a s) t e h1,
      )

  -- A type without a factory has no agents.
  found_agents-none :
      (k : Text) (networks : List (Text × ChainConfig))
      → factories k ≡ none
      → found_agents factories k networks ≡ []
  unfolding found_agents found_agent
  found_agents-none k [] e = refl
  found_agents-none k ((nk, nv) ∷ networks) e = rw e (found_agents-none k networks e)

  found_agents_empty : (k : Text) → found_agents factories k [] ≡ []
  unfolding found_agents
  found_agents_empty k = refl

  start_type_empty :
      (k : Text) (v : ChainTypeConfig) (s t : List (Text × A))
      → found_agents factories k v.networks ≡ []
      → start_type factories k v s ≢ ok t
  unfolding start_type some_found
  start_type_empty k v s t e h =
      let next : List (AgentFactory E A × ChainConfig) → Result (StartFault E) (List (Text × A)) =
        λ found. map_err panicked (start_agents factories found s) in
      err-ok (subst (λ x. (some_found factories k x >>= next) ≡ ok t) e h)

  pub start_type-IsServed :
      (k : Text) (v : ChainTypeConfig) (s t : List (Text × A))
      → start_type factories k v s ≡ ok t
      → IsServed k v.networks
  start_type-IsServed k v s t h = elim (Option-cases (factories k)) [
    | inl e ↦ absurd (start_type_empty k v s t (found_agents-none k v.networks e) h)
    | inr (factory, e) ↦ (
      (λ no_network.
          start_type_empty k v s t (ap (found_agents factories k) no_network ∙ found_agents_empty k)
            h),
      (
        factory,
        e,
        start_agents-AllStart k factory v.networks s t e (start_type-ok factories k v s t h),
      ),
    )
  ]

  found_agents_ne :
      (k : Text) (factory : AgentFactory E A) (networks : List (Text × ChainConfig))
      → factories k ≡ some factory
      → networks ≢ []
      → found_agents factories k networks ≢ []
  found_agents_ne k factory [] e has h = has refl
  found_agents_ne k factory ((nk, nv) ∷ networks) e has h =
      let here = found_agents-here factories k nk nv networks factory e in cc

  some_found_all :
      (k : Text) (found : List (AgentFactory E A × ChainConfig))
      → found ≢ []
      → some_found factories k found ≡ ok found
  unfolding some_found
  some_found_all k [] has = absurd (has refl)
  some_found_all k (a ∷ found) has = refl

  start_type_total :
      (k : Text) (v : ChainTypeConfig) (s : List (Text × A))
      → IsServed k v.networks
      → (t : List (Text × A)) × (start_type factories k v s ≡ ok t)
  unfolding start_type
  start_type_total k v s (has, served) =
      let (factory, e, all) = served in
      let (t, started) = start_agents_total k factory v.networks s e all in
      let found = found_agents factories k v.networks in
      (
        t,
        rw (some_found_all k found (found_agents_ne k factory v.networks e has)) (rw started refl),
      )

  start_types_iff :
      (configs : List (Text × ChainTypeConfig)) (s : List (Text × A))
      → All (λ r. IsServed r.0 r.1.networks) configs
        ↔ ((t : List (Text × A)) × (start_types factories configs s ≡ ok t))
  unfolding start_types
  start_types_iff [] s = ((λ _. (s, refl)), (λ _. tt))
  start_types_iff ((k, v) ∷ rest) s = (
    (λ (served, others).
        let (u, first) = start_type_total k v s served in
        let (t, started) = (start_types_iff rest u).0 others in (t, rw first started)),
    (λ (t, h).
        let (u, first, h1) =
          >>=-eq-ok (start_type factories k v s) (start_types factories rest) t h in
        (start_type-IsServed k v s u first, (start_types_iff rest u).1 (t, h1))),
  )

  -- `InitServerProxy` ends with a table of agents exactly if every chain type of the configuration has a network and a
  -- factory, and the factory makes an agent of each of the type's networks: a type that is not supported stops the
  -- start of all others.
  pub init_server_proxy_iff :
      (configs : List (Text × ChainTypeConfig))
      → All (λ r. IsServed r.0 r.1.networks) configs
        ↔ ((servers : List (Text × A)) × (init_server_proxy factories configs ≡ ok servers))
  unfolding init_server_proxy
  init_server_proxy_iff configs = start_types_iff configs []
