-- ===== src/Fixer/Textual.antt =====
-- The fields that a fix of commons/fixer.go changes, ignores or refuses, with no path but a name.
use agents_go.Prelude.{
  ℕ, Has, ◌≡◌, refl, sym, ap, ◌∙◌, ◌⊎◌, inl, inr, Bool, true, false, Option, none, some, List, [],
  ◌∷◌, Text, text_eq, text_eq_iff, subst, All, All-map, if◌then◌else◌, Bool-cases,
}
use agents_go.Fixer.{Json, Fields, str, obj, other, lookup}

-- The field is missing, or a text.
abbrev pub IsTextual : Option Json → Type 0
IsTextual o = (o ≡ none) ⊎ ((s : Text) × (o ≡ some (str s)))

-- The field is there, and no text.
abbrev pub IsRefused : Option Json → Type 0
IsRefused o = ((inner : Fields) × (o ≡ some (obj inner))) ⊎ ((n : ℕ) × (o ≡ some (other n)))

pub IsTextual-or : (o : Option Json) → IsTextual o ⊎ IsRefused o
IsTextual-or none = inl (inl refl)
IsTextual-or (some (str s)) = inl (inr (s, refl))
IsTextual-or (some (obj inner)) = inr (inl (inner, refl))
IsTextual-or (some (other n)) = inr (inr (n, refl))

-- All of the fields are texts or missing, or one is neither.
pub IsTextual-cases :
    (fields : List (Text × (Text → Text))) (m : Fields)
    → All (λ f. IsTextual (lookup f.0 m)) fields
      ⊎ ((name : Text) × (fix : Text → Text) × Has (name, fix) fields × IsRefused (lookup name m))
IsTextual-cases [] m = inl tt
IsTextual-cases ((name, fix) ∷ fields) m = elim (IsTextual-or (lookup name m)) [
  | inr bad ↦ inr (name, fix, inl refl, bad)
  | inl textual ↦ elim (IsTextual-cases fields m) [
    | inl all ↦ inl (textual, all)
    | inr (other_name, g, has, bad) ↦ inr (other_name, g, inr has, bad)
  ]
]

pub refused_textual : (o : Option Json) → IsTextual o → IsRefused o → ⊥
refused_textual o (inl e) (inl (inner, r)) = cc
refused_textual o (inl e) (inr (n, r)) = cc
refused_textual o (inr (s, e)) (inl (inner, r)) = cc
refused_textual o (inr (s, e)) (inr (n, r)) = cc

-- The fix of a value: of a text.
abbrev pub fixed_value : (Text → Text) → Option Json → Option Json
fixed_value fix (some (str s)) = some (str (fix s))
fixed_value fix o = o

-- What `key` has after the fixes, one after the other, if it had `o`.
abbrev pub value_after : List (Text × (Text → Text)) → Text → Option Json → Option Json
value_after [] key o = o
value_after ((name, fix) ∷ rest) key o =
    value_after rest key (if text_eq name key then fixed_value fix o else o)

fixed_value-IsTextual :
    (fix : Text → Text) (o : Option Json) → IsTextual o → IsTextual (fixed_value fix o)
fixed_value-IsTextual fix o (inl e) = inl (ap (fixed_value fix) e)
fixed_value-IsTextual fix o (inr (s, e)) = inr (fix s, ap (fixed_value fix) e)

pub at :
    (name key : Text) (m : Fields) (o : Option Json)
    → name ≡ key
    → lookup name m ≡ o
    → lookup key m ≡ o
at name key m o same e = ap (λ k. lookup k m) (sym same) ∙ e

-- The two sides need to agree under the name only.
pub same_key :
    (name key : Text) (a b c : Option Json)
    → (name ≡ key → a ≡ b)
    → (if text_eq name key then a else c) ≡ (if text_eq name key then b else c)
same_key name key a b c h = elim (Bool-cases (text_eq name key)) [
  | inl e ↦ rw e (h ((text_eq_iff name key).0 e))
  | inr e ↦ rw e refl
]

pub if_key :
    (name key : Text) (a b : Option Json)
    → (name ≡ key → a ≡ b)
    → a ≡ (if text_eq name key then b else a)
if_key name key a b h = elim (Bool-cases (text_eq name key)) [
  | inl e ↦ rw e (h ((text_eq_iff name key).0 e))
  | inr e ↦ rw e refl
]

if-IsTextual :
    (c : Bool) (fix : Text → Text) (o : Option Json)
    → IsTextual o
    → IsTextual (if c then fixed_value fix o else o)
if-IsTextual true fix o h = fixed_value-IsTextual fix o h
if-IsTextual false fix o h = h

pub IsTextual-still :
    (name : Text) (fix : Text → Text) (m m' : Fields)
    → ((key : Text)
        → lookup key m'
          ≡ (if text_eq name key then fixed_value fix (lookup key m) else lookup key m))
    → (fields : List (Text × (Text → Text))) → All (λ f. IsTextual (lookup f.0 m)) fields
    → All (λ f. IsTextual (lookup f.0 m')) fields
IsTextual-still name fix m m' h =
    All-map
      λ f t. subst IsTextual (sym (h f.0)) (if-IsTextual (text_eq name f.0) fix (lookup f.0 m) t)

-- A field that is there and is no text stays so while the others are fixed.
pub IsRefused-still :
    (name other_name : Text) (fix : Text → Text) (m m' : Fields)
    → IsTextual (lookup name m)
    → ((key : Text)
        → lookup key m'
          ≡ (if text_eq name key then fixed_value fix (lookup key m) else lookup key m))
    → IsRefused (lookup other_name m)
    → IsRefused (lookup other_name m')
IsRefused-still name other_name fix m m' textual h refused =
    elim (Bool-cases (text_eq name other_name)) [
      | inl e ↦ absurd (
          refused_textual (lookup name m) textual
            (subst (λ k. IsRefused (lookup k m)) (sym ((text_eq_iff name other_name).0 e)) refused))
      | inr e ↦
          subst IsRefused
            (sym (
              h other_name
              ∙ ap (λ c. if c then fixed_value fix (lookup other_name m) else lookup other_name m)
                  e))
            refused
    ]
