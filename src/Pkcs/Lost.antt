-- ===== src/Pkcs/Lost.antt =====
-- Accounts that pkcs/server.go creates and does not find again.
use agents_go.Prelude.{
  ◌≡◌, ◌≢◌, refl, ap, ◌∙◌, Option, [], ◌∷◌, ◌++◌, Text, codes, Lacks, arith, Result, ok, ok_path,
  ◌>>=◌, >>=-eq-ok, map_err, map_err-ok, Fault, panics,
}
use agents_go.Chain.{Curve}
use agents_go.Pkcs.{
  Token, PkcsError, fault, unimplemented, to_key_id, address_of, create_account, get_account,
}

-- The part before the first separator.
before_separator :
    (s t x y : Text) → Lacks b':' s → Lacks b':' t → s ++ b':' ∷ x ≡ t ++ b':' ∷ y → s ≡ t
before_separator [] [] x y ls lt h = refl
before_separator [] (b ∷ t) x y ls lt h = let e : b ≡ b':' = cc in absurd (lt.0 e)
before_separator (a ∷ s) [] x y ls lt h = let e : a ≡ b':' = cc in absurd (ls.0 e)
before_separator (a ∷ s) (b ∷ t) x y ls lt h =
    let e : a ≡ b = cc in
    let tails : s ++ b':' ∷ x ≡ t ++ b':' ∷ y = cc in
    let rest : s ≡ t = before_separator s t x y ls.1 lt.1 tails in cc

module _ {E D S K R : Type 0} (token : Token E D S) (curve : Curve E K R)
    (chains : Text → Option (Option Text → Option Text → Result (Fault E) Text))
    (keeps : (id other : Text) (d d' : D) (signer : S)
      → token.generate id d ≡ ok (signer, d')
      → id ≢ other
      → token.find other d' ≡ token.find other d) where
  -- What `CreateAccount` leaves on the token.
  created-generate :
      (chain_type name : Text) (d d' : D) (addr : Text) (e : PkcsError E)
      → create_account token curve chain_type name d ≡ ok (d', addr, e)
      → (signer : S) × (token.generate (to_key_id chain_type name) d ≡ ok (signer, d'))
  unfolding create_account
  created-generate chain_type name d d' addr e h =
      let finish : D → Text → Result (PkcsError E) (D × Text × PkcsError E) =
        λ t a. ok (t, a, unimplemented) in
      let step : S × D → Result (PkcsError E) (D × Text × PkcsError E) =
        λ r. address_of token curve r.0 >>= finish r.1 in
      let generated = token.generate (to_key_id chain_type name) d in
      let (r, made, h1) = >>=-eq-ok (map_err (λ x. fault panics) generated) step (d', addr, e) h in
      let (a, has_address, h2) =
        >>=-eq-ok (address_of token curve r.0) (finish r.1) (d', addr, e) h1 in
      let same : r.1 ≡ d' = ap (λ (q : D × Text × PkcsError E). q.0) (ok_path h2) in
      (r.0, map_err-ok (λ x. fault panics) generated r made ∙ ap (λ t. ok (r.0, t)) same)

  -- `CreateAccount` for a chain that is not called TBD does not change what `GetAccount` answers, for any name: an
  -- account that was not found before is not found after it was created. The chain's type has no separator, and the token
  -- finds the other key pairs as before when it generates one.
  pub get_account-create_account :
      (chain_type name other : Text) (d d' : D) (addr : Text) (e : PkcsError E)
      → Lacks b':' chain_type
      → chain_type ≢ codes "TBD"
      → create_account token curve chain_type name d ≡ ok (d', addr, e)
      → get_account token chains other d' ≡ get_account token chains other d
  unfolding get_account to_key_id
  get_account-create_account chain_type name other d d' addr e plain named h =
      let (signer, made) = created-generate chain_type name d d' addr e h in
      let apart : to_key_id chain_type name ≢ to_key_id (codes "TBD") other =
        λ same. named (before_separator chain_type (codes "TBD") name other plain letters same) in
      rw (keeps (to_key_id chain_type name) (to_key_id (codes "TBD") other) d d' signer made apart)
        refl
    where
      letters : Lacks b':' (codes "TBD")
      letters = (ground arith, (ground arith, (ground arith, tt)))
