-- ===== src/Cmd/Agents/Serving/Walks.antt =====
-- The table of agents that `InitServerProxy` of cmd/agent-eth makes, in the order of a walk of the map.
use agents_go.Prelude.{◌≡◌, refl, subst, Option, some, List, [], ◌∷◌, Text, ok}
use mathlib.Core.List.{Permᴰ}
use agents_go.Config.{ChainConfig}
use agents_go.Cmd.Agents.{AgentFactory, server_key}
use agents_go.Cmd.Agents.Table.{IsTableOf}

module _ {E A : Type 0} where
  -- The entry has the key of the configuration and the agent that its factory made.
  abbrev IsEntryOf : (Text → Option (AgentFactory E A)) → ChainConfig → Text × A → Type 0
  IsEntryOf factories c (key, a) =
      (server_key c ≡ key)
      × ((factory : AgentFactory E (A)) × (factories c.chain_type ≡ some factory)
          × (factory c ≡ ok a))

  -- In any other order, the table is that of the configurations in that order.
  pub IsTableOf-walk :
      (factories : Text → Option (AgentFactory E A)) (configs : List ChainConfig)
      {servers walk : List (Text × A)}
      → Permᴰ servers walk
      → IsTableOf factories configs servers
      → (walked : List ChainConfig) × Permᴰ configs walked × IsTableOf factories walked walk
  IsTableOf-walk factories [] Permᴰ.nil h = ([], Permᴰ.nil, tt)
  IsTableOf-walk factories (c ∷ cs) Permᴰ.nil h = absurd h
  IsTableOf-walk factories [] (Permᴰ.cons e d) h = absurd h
  IsTableOf-walk factories (c ∷ cs) (Permᴰ.cons e d) (named, made, rest) =
      let (walked, moved, of_walk) = IsTableOf-walk factories cs d rest in
      let (named', made') = subst (IsEntryOf factories c) e (named, made) in
      (c ∷ walked, Permᴰ.cons refl moved, (named', made', of_walk))
  IsTableOf-walk factories [] (Permᴰ.swap e e') h = absurd h
  IsTableOf-walk factories (c ∷ []) (Permᴰ.swap e e') h = absurd (h.2)
  IsTableOf-walk factories (c ∷ d ∷ cs) (Permᴰ.swap e e') (named, made, (named', made', rest)) =
      let (first, first_made) = subst (IsEntryOf factories d) e' (named', made') in
      let (second, second_made) = subst (IsEntryOf factories c) e (named, made) in
      (d ∷ c ∷ cs, Permᴰ.swap refl refl, (first, first_made, (second, second_made, rest)))
  IsTableOf-walk factories configs (Permᴰ.trans d d') h =
      let (between, moved, of_between) = IsTableOf-walk factories configs d h in
      let (walked, moved', of_walk) = IsTableOf-walk factories between d' of_between in
      (walked, Permᴰ.trans moved moved', of_walk)
