-- ===== src/Fixer/Paths.antt =====
-- Where `FixField` of commons/fixer.go writes.
use agents_go.Prelude.{
  ◌≡◌, ◌≢◌, refl, sym, ◌∙◌, Option, none, some, List, [], ◌∷◌, ◌++◌, Text, text_eq, text_eq_iff,
  if◌then◌else◌, Bool-cases, inl, inr, arith,
}
use agents_go.Fixer.{
  Json, str, obj, other, Fields, nil, field, Result, ok, lookup, set, fix_value, put_back, descend,
  walk, fix_field,
}

-- The value at a path that leads through objects.
unfoldable pub get_path : List Text → Fields → Option Json
get_path [] m = none
get_path (p ∷ []) m = lookup p m
get_path (p ∷ q ∷ rest) m = elim (lookup p m) [
  | some (obj inner) ↦ get_path (q ∷ rest) inner
  | _ ↦ none
]

pub lookup-set :
    (k j : Text) (v : Json) (m : Fields)
    → lookup j (set k v m) ≡ (if text_eq k j then some v else lookup j m)
unfolding lookup set
lookup-set k j v nil = refl
lookup-set k j v (field i w m) =
    ground (arith, text_eq_iff i k, text_eq_iff i j, text_eq_iff k j, lookup-set k j v m)

lookup-set_self : (k : Text) (v : Json) (m : Fields) → lookup k (set k v m) ≡ some v
lookup-set_self k v m = lookup-set k k v m ∙ ground (arith, text_eq_iff k k)

lookup-set_ne : (k j : Text) (v : Json) (m : Fields) → j ≢ k → lookup j (set k v m) ≡ lookup j m
lookup-set_ne k j v m h = elim (Bool-cases (text_eq k j)) [
  | inl e ↦ absurd (h (sym ((text_eq_iff k j).0 e)))
  | inr e ↦ lookup-set k j v m ∙ rw e
]

-- Along the path, no other key of any object has a new value.
abbrev pub Untouched : List Text → Fields → Fields → Type 0
Untouched [] m m' = Unit
Untouched (p ∷ []) m m' = (j : Text) → j ≢ p → lookup j m' ≡ lookup j m
Untouched (p ∷ q ∷ rest) m m' =
    ((j : Text) → j ≢ p → lookup j m' ≡ lookup j m)
    × ((inner : Fields) × (inner' : Fields) × (lookup p m ≡ some (obj inner))
        × (lookup p m' ≡ some (obj inner'))
        × Untouched (q ∷ rest) inner inner')

module _ {E : Type 0} (fix : Text → Result E Text) where
  -- A path of two names whose first value is a text, not an object, names no field. It is not
  -- refused: the fixed text is written under the second name beside the first.
  pub fix_field_through_text :
      (p q s s' : Text) (m : Fields)
      → lookup p m ≡ some (str s)
      → fix s ≡ ok s'
      → (get_path (p ∷ q ∷ []) m ≡ none) × (fix_field fix (p ∷ q ∷ []) m ≡ ok (set q (str s') m))
  unfolding get_path fix_field walk descend fix_value
  fix_field_through_text p q s s' m found fixed =
      (ground (arith, found), ground (arith, found, fixed))

  -- The fix of the text at a path: it gives an object that has the fixed text there and is untouched
  -- elsewhere.
  abbrev pub Fixes : List Text → Text → Fields → Result E Fields → Type 0
  Fixes path s' m r =
      (m' : Fields) × (r ≡ ok m') × (get_path path m' ≡ some (str s')) × Untouched path m m'

  object_below :
      (q : Text) (rest : List Text) (s : Text) (p : Text) (m : Fields) (o : Option Json)
      → lookup p m ≡ o
      → get_path (p ∷ q ∷ rest) m ≡ some (str s)
      → (inner : Fields) × (lookup p m ≡ some (obj inner))
        × (get_path (q ∷ rest) inner ≡ some (str s))
  object_below q rest s p m none e h = absurd (unfold get_path in ground (arith, e, h))
  object_below q rest s p m (some (str t)) e h = absurd (unfold get_path in ground (arith, e, h))
  object_below q rest s p m (some (other n)) e h = absurd (unfold get_path in ground (arith, e, h))
  object_below q rest s p m (some (obj inner)) e h =
      (inner, e, (unfold get_path in ground (arith, e, h)))

  inner_object :
      (p q : Text) (rest : List Text) (s : Text) (m : Fields)
      → get_path (p ∷ q ∷ rest) m ≡ some (str s)
      → (inner : Fields) × (lookup p m ≡ some (obj inner))
        × (get_path (q ∷ rest) inner ≡ some (str s))
  inner_object p q rest s m h = object_below q rest s p m (lookup p m) refl h

  get_path-set :
      (p q : Text) (rest : List Text) (s : Text) (m inner : Fields)
      → get_path (q ∷ rest) inner ≡ some (str s)
      → get_path (p ∷ q ∷ rest) (set p (obj inner) m) ≡ some (str s)
  unfolding get_path
  get_path-set p q rest s m inner got = ground (arith, lookup-set_self p (obj inner) m, got)

  walk-Fixes :
      (done path : List Text) (s s' : Text) (m : Fields)
      → get_path path m ≡ some (str s)
      → fix s ≡ ok s'
      → Fixes path s' m (walk fix done path m)
  unfolding walk descend fix_value put_back
  walk-Fixes done [] s s' m h fixed = unfold get_path in cc
  walk-Fixes done (p ∷ []) s s' m h fixed = (
    set p (str s') m,
    (unfold get_path in ground (arith, h, fixed)),
    (unfold get_path in lookup-set_self p (str s') m),
    (λ j ne. lookup-set_ne p j (str s') m ne),
  )
  walk-Fixes done (p ∷ q ∷ rest) s s' m h fixed =
      let (inner, found, below) = inner_object p q rest s m h in
      let (inner', made, got, kept) =
        walk-Fixes (done ++ p ∷ []) (q ∷ rest) s s' inner below fixed in
      (
        set p (obj inner') m,
        ground (arith, found, made),
        get_path-set p q rest s' m inner' got,
        (
          (λ j ne. lookup-set_ne p j (obj inner') m ne),
          (inner, inner', found, lookup-set_self p (obj inner') m, kept),
        ),
      )

  -- Where the path leads through objects to a text that the fix accepts, `FixField` replaces that text
  -- by the fixed one and changes no other value of any object on the way.
  pub fix_field-Fixes :
      (path : List Text) (s s' : Text) (m : Fields)
      → get_path path m ≡ some (str s)
      → fix s ≡ ok s'
      → Fixes path s' m (fix_field fix path m)
  unfolding fix_field
  fix_field-Fixes path s s' m h fixed = walk-Fixes [] path s s' m h fixed
