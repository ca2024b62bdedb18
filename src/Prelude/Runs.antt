-- ===== src/Prelude/Runs.antt =====
-- A call on a state that ends with a value or an error, and leaves a state in both cases.
use mathlib.Core.Path.{◌≡◌, refl}
use mathlib.Core.Bool.{Bool, true, false}
use mathlib.Core.Option.{Option, none, some}
use agents_go.Prelude.Tests.{if◌then◌else◌}
use agents_go.Prelude.Results.{Result, ok, err, map_err}

abbrev pub Run : Type 0 → Type 0 → Type 0 → Type 0
Run S E A = S → Result E A × S

module _ {S E : Type 0} where
  -- A call that does not touch the state.
  abbrev pub lift : {A : Type 0} → Result E A → Run S E A
  lift m s = (m, s)

  abbrev pub call : {F A : Type 0} → (F → E) → Result F A → Run S E A
  call f m s = (map_err f m, s)

  abbrev pub and_then : {A B : Type 0} → (A → Run S E B) → Result E A × S → Result E B × S
  and_then f (ok a, s) = f a s
  and_then f (err e, s) = (err e, s)

  infixl 5 ◌>>=◌ ◌>>◌
  abbrev pub ◌>>=◌ : {A B : Type 0} → Run S E A → (A → Run S E B) → Run S E B
  ◌>>=◌ m f s = and_then f (m s)

  abbrev pub ◌>>◌ : {A B : Type 0} → Run S E A → Run S E B → Run S E B
  m >> k = m >>= λ _. k

  -- An error where there is no value.
  abbrev pub or_fail : {A : Type 0} → E → Option A → Run S E A
  or_fail e none s = (err e, s)
  or_fail e (some a) s = (ok a, s)

  -- An early return unless the test holds.
  abbrev pub ensure : Bool → E → Run S E Unit
  ensure c e s = (if c then ok tt else err e, s)

  -- A run that succeeds has succeeded in each call.
  pub >>=-eq-ok :
      {A B : Type 0} (m : Run S E A) (f : A → Run S E B) (b : B) (s t : S)
      → (m >>= f) s ≡ (ok b, t)
      → (a : A) × (u : S) × (m s ≡ (ok a, u)) × (f a u ≡ (ok b, t))
  >>=-eq-ok m f b s t h = inverted f b (m s) t h
    where
      inverted :
          {A B : Type 0} (f : A → Run S E B) (b : B) (r : Result E A × S) (t : S)
          → and_then f r ≡ (ok b, t)
          → (a : A) × (u : S) × (r ≡ (ok a, u)) × (f a u ≡ (ok b, t))
      inverted f b (ok a, u) t h = (a, u, refl, h)
      inverted f b (err e, u) t h = cc

  pub call->>= :
      {F A B : Type 0} (g : F → E) (m : Result F A) (f : A → Run S E B) (b : B) (s t : S)
      → (call g m >>= f) s ≡ (ok b, t)
      → (a : A) × (m ≡ ok a) × (f a s ≡ (ok b, t))
  call->>= g (ok a) f b s t h = (a, refl, h)
  call->>= g (err e) f b s t h = cc

  pub ensure->> :
      {B : Type 0} (c : Bool) (e : E) (k : Run S E B) (b : B) (s t : S)
      → (ensure c e >> k) s ≡ (ok b, t)
      → (c ≡ true) × (k s ≡ (ok b, t))
  ensure->> true e k b s t h = (refl, h)
  ensure->> false e k b s t h = cc

  pub or_fail->>= :
      {A B : Type 0} (e : E) (o : Option A) (f : A → Run S E B) (b : B) (s t : S)
      → (or_fail e o >>= f) s ≡ (ok b, t)
      → (a : A) × (o ≡ some a) × (f a s ≡ (ok b, t))
  or_fail->>= e (some a) f b s t h = (a, refl, h)
  or_fail->>= e none f b s t h = cc
