-- ===== src/Cmd/Agents/Table.antt =====
-- The whole table of agents that `InitServerProxy` of cmd/agent-eth ends with.
use agents_go.Prelude.{
  ◌≡◌, ◌≢◌, refl, sym, ap, ◌∙◌, subst, Option, some, List, [], ◌∷◌, ◌++◌, append_assoc, append-nil,
  Text, text_eq_iff, arith, All, All-append, Result, ok, ok_path, >>=-eq-ok,
}
use agents_go.Commons.{put}
use agents_go.Config.{ChainConfig, ChainTypeConfig}
use agents_go.Cmd.Agents.{
  AgentFactory, named, server_key, found_agents, start_agents, start_type, start_types,
  init_server_proxy,
}
use agents_go.Cmd.Agents.Rounds.{start_type-ok, found_agents-here}
use agents_go.Cmd.Agents.Starting.{start_type-IsServed}

-- The configurations of a type's networks, and of all types, in order, with their names set.
abbrev pub named_networks : Text → List (Text × ChainConfig) → List ChainConfig
named_networks k [] = []
named_networks k ((nk, nv) ∷ rest) = named k nk nv ∷ named_networks k rest

abbrev pub named_configs : List (Text × ChainTypeConfig) → List ChainConfig
named_configs [] = []
named_configs ((k, v) ∷ rest) = named_networks k v.networks ++ named_configs rest

-- No two configurations have the same key.
abbrev pub HasDistinctKeys : List ChainConfig → Type 0
HasDistinctKeys [] = Unit
HasDistinctKeys (c ∷ cs) = All (λ d. server_key c ≢ server_key d) cs × HasDistinctKeys cs

module _ {A : Type 0} where
  -- No entry of the table has the key of a configuration.
  abbrev IsFresh : List (Text × A) → List ChainConfig → Type 0
  IsFresh s = All (λ c. All (λ r. r.0 ≢ server_key c) s)

  put-new :
      (k : Text) (a : A) (s : List (Text × A)) → All (λ r. r.0 ≢ k) s → put k a s ≡ s ++ (k, a) ∷ []
  unfolding put
  put-new k a [] fresh = refl
  put-new k a ((j, b) ∷ s) (differs, fresh) =
      ground (arith, text_eq_iff j k, put-new k a s fresh, differs)

  IsFresh-put :
      (s : List (Text × A)) (k : Text) (a : A) (cs : List ChainConfig)
      → All (λ d. k ≢ server_key d) cs
      → IsFresh s cs
      → IsFresh (s ++ (k, a) ∷ []) cs
  IsFresh-put s k a [] others fresh = tt
  IsFresh-put s k a (c ∷ cs) (differs, others) (here, fresh) = (
    All-append (λ r. r.0 ≢ server_key c) s ((k, a) ∷ []) here (differs, tt),
    IsFresh-put s k a cs others fresh,
  )

empty-IsFresh : (A : Type 0) (cs : List ChainConfig) → IsFresh {A = A} [] cs
empty-IsFresh A [] = tt
empty-IsFresh A (c ∷ cs) = (tt, empty-IsFresh A cs)

module _ {E A : Type 0} (factories : Text → Option (AgentFactory E A)) where
  -- The table has an entry for each configuration, in order: its key and the agent that its factory made.
  abbrev pub IsTableOf : List ChainConfig → List (Text × A) → Type 0
  IsTableOf [] [] = Unit
  IsTableOf [] (r ∷ rs) = ⊥
  IsTableOf (c ∷ cs) [] = ⊥
  IsTableOf (c ∷ cs) ((key, a) ∷ rs) =
      (server_key c ≡ key)
      × ((factory : AgentFactory E A) × (factories c.chain_type ≡ some factory)
          × (factory c ≡ ok a))
      × IsTableOf cs rs

  IsTableOf-append :
      (cs ds : List ChainConfig) (rs ts : List (Text × A))
      → IsTableOf cs rs
      → IsTableOf ds ts
      → IsTableOf (cs ++ ds) (rs ++ ts)
  IsTableOf-append [] ds [] ts _ later = later
  IsTableOf-append [] ds (r ∷ rs) ts none later = absurd none
  IsTableOf-append (c ∷ cs) ds [] ts none later = absurd none
  IsTableOf-append (c ∷ cs) ds (r ∷ rs) ts (key, made, rest) later =
      (key, made, IsTableOf-append cs ds rs ts rest later)

  -- What a step adds to the table.
  abbrev Adds : List ChainConfig → List ChainConfig → List (Text × A) → List (Text × A) → Type 0
  Adds cs later s t =
      ((added : List (Text × A)) × (s ++ added ≡ t) × IsTableOf cs added)
      × IsFresh t later
      × HasDistinctKeys later

  start_agents-Adds :
      (k : Text) (factory : AgentFactory E A) (networks : List (Text × ChainConfig))
      (later : List ChainConfig) (s t : List (Text × A))
      → factories k ≡ some factory
      → HasDistinctKeys (named_networks k networks ++ later)
      → IsFresh s (named_networks k networks ++ later)
      → start_agents factories (found_agents factories k networks) s ≡ ok t
      → Adds (named_networks k networks) later s t
  unfolding start_agents found_agents
  start_agents-Adds k factory [] later s t e distinct fresh h =
      (([], append-nil s ∙ ok_path h, tt), subst (λ x. IsFresh x later) (ok_path h) fresh, distinct)
  start_agents-Adds k factory ((nk, nv) ∷ networks) later s t e (others, distinct) (here, fresh) h =
      let config = named k nk nv in
      let found = found_agents factories k networks in
      let next : A → Result E (List (Text × A)) =
        λ agent. start_agents factories found (put (server_key config) agent s) in
      let (a, made, h1) = >>=-eq-ok (factory config) next t (
        ap (λ x. start_agents factories x s)
          (sym (found_agents-here factories k nk nv networks factory e))
        ∙ h) in
      let s' = s ++ (server_key config, a) ∷ [] in
      let ((added, same, table), fresh', distinct') =
        start_agents-Adds k factory networks later s' t e distinct
          (IsFresh-put s (server_key config) a (named_networks k networks ++ later) others fresh)
          (ap (start_agents factories found) (sym (put-new (server_key config) a s here)) ∙ h1) in
      (
        (
          (server_key config, a) ∷ added,
          sym (append_assoc s ((server_key config, a) ∷ []) added) ∙ same,
          (refl, (factory, e, made), table),
        ),
        fresh',
        distinct',
      )

  start_types-Adds :
      (configs : List (Text × ChainTypeConfig)) (s t : List (Text × A))
      → HasDistinctKeys (named_configs configs)
      → IsFresh s (named_configs configs)
      → start_types factories configs s ≡ ok t
      → (added : List (Text × A)) × (s ++ added ≡ t) × IsTableOf (named_configs configs) added
  unfolding start_types
  start_types-Adds [] s t distinct fresh h = ([], append-nil s ∙ ok_path h, tt)
  start_types-Adds ((k, v) ∷ rest) s t distinct fresh h =
      let (u, first, h1) =
        >>=-eq-ok (start_type factories k v s) (start_types factories rest) t h in
      let (has, (factory, e, all)) = start_type-IsServed factories k v s u first in
      let ((added, same, table), fresh', distinct') =
        start_agents-Adds k factory v.networks (named_configs rest) s u e distinct fresh
          (start_type-ok factories k v s u first) in
      let (more, same', table') = start_types-Adds rest u t distinct' fresh' h1 in
      (
        added ++ more,
        sym (append_assoc s added more) ∙ ap (λ x. x ++ more) same ∙ same',
        IsTableOf-append (named_networks k v.networks) (named_configs rest) added more table table',
      )

  -- If no two networks of the configuration have the same key, the table that `InitServerProxy` ends with is that of all
  -- the configured networks, in order: each key once, with the agent that the factory of the type made.
  pub init_server_proxy-IsTableOf :
      (configs : List (Text × ChainTypeConfig)) (servers : List (Text × A))
      → HasDistinctKeys (named_configs configs)
      → init_server_proxy factories configs ≡ ok servers
      → IsTableOf (named_configs configs) servers
  unfolding init_server_proxy
  init_server_proxy-IsTableOf configs servers distinct h =
      let (added, same, table) =
        start_types-Adds configs [] servers distinct (empty-IsFresh A (named_configs configs)) h in
      subst (IsTableOf (named_configs configs)) same table
