-- ===== src/Fixer.antt =====
-- commons/fixer.go: fixes of single fields in JSON objects. A `map[string]any` is `Fields`, in any
-- order; of the other JSON values only texts matter here, and `other` stands for the rest. A write to
-- a nested Go map, which the outer maps share, is the outer map with the new inner one.
-- `json.Unmarshal` and `json.Marshal`, before and after, are left out.
pub mod Paths
pub mod Zeros
pub mod Textual
pub mod Series
pub mod Tests
use agents_go.Prelude.{
  ℕ, ◌%◌, Bool, true, false, ◌&&◌, ◌||◌, Option, none, some, List, [], ◌∷◌, ◌++◌, Text, codes,
  text_eq, ◌==◌, leb, if◌then◌else◌, length, replicate, drop,
}

mutual
  pub data Json : Type 0 where
    str : Text → Json
    obj : Fields → Json
    other : ℕ → Json

  pub data Fields : Type 0 where
    nil : Fields
    field : Text → Json → Fields → Fields

-- `ErrFieldNotExist`, the two other errors of `FixField`, those of `FixJsonFields`, and a fix's own.
pub data FixError (E : Type 0) : Type 0 where
  field_not_exist : List Text → FixError E
  not_a_map invalid_type not_pairs not_a_path not_a_fix : FixError E
  fix_error : E → FixError E

pub data Result (E A : Type 0) : Type 0 where
  ok : A → Result E A
  err : FixError E → Result E A

unfoldable pub lookup : Text → Fields → Option Json
lookup k nil = none
lookup k (field j v m) = if text_eq j k then some v else lookup k m

unfoldable pub set : Text → Json → Fields → Fields
set k v nil = field k v nil
set k v (field j w m) = if text_eq j k then field k v m else field j w (set k v m)

module _ {E : Type 0} (fix : Text → Result E Text) where
  -- The end of `FixField`: the value that was reached is fixed and written under `key` of `m`.
  fix_value : Text → Json → Fields → Result E Fields
  fix_value key (str s) m = elim (fix s) [ ok s' ↦ ok (set key (str s') m) | err e ↦ err e ]
  fix_value key (obj inner) m = err invalid_type
  fix_value key (other n) m = err invalid_type

  -- The inner object is written back into its parent.
  put_back : Text → Fields → Result E Fields → Result E Fields
  put_back p m (ok inner) = ok (set p (obj inner) m)
  put_back p m (err e) = err e

  -- The value `v` that was found at `p` of `m`, with the rest of the path. A value that is no object is
  -- an error, but not in the last round, which then does nothing.
  descend : Text → Json → Fields → List Text → (Fields → Result E Fields) → Result E Fields
  unfolding fix_value put_back
  descend p v m [] inside = fix_value p v m
  descend p (obj inner) m (q ∷ rest) inside = put_back p m (inside inner)
  descend p (str s) m (q ∷ []) inside = fix_value q (str s) m
  descend p (other n) m (q ∷ []) inside = fix_value q (other n) m
  descend p (str s) m (q ∷ r ∷ rest) inside = err not_a_map
  descend p (other n) m (q ∷ r ∷ rest) inside = err not_a_map

  -- The rounds of `FixField` from object `m` on; `done` is the part of the path that lies behind.
  walk : List Text → List Text → Fields → Result E Fields
  unfolding lookup descend
  walk done [] m = err invalid_type
  walk done (p ∷ rest) m =
      let inside = walk (done ++ p ∷ []) rest in
      elim (lookup p m) [
        | none ↦ err (field_not_exist (done ++ p ∷ []))
        | some v ↦ descend p v m rest inside
      ]

  unfoldable pub fix_field : List Text → Fields → Result E Fields
  unfolding walk
  fix_field path raw = walk [] path raw

-- An argument of `FixJsonFields`, of type `any`.
pub data Arg (E : Type 0) : Type 0 where
  path_arg : List Text → Arg E
  fix_arg : (Text → Result E Text) → Arg E
  other_arg : Arg E

module _ {E : Type 0} where
  -- What a round of `FixJsonFields` goes on with.
  skip_missing : Bool → Fields → Result E Fields → Result E Fields
  skip_missing ignore raw (err (field_not_exist path)) =
      if ignore then ok raw else err (field_not_exist path)
  skip_missing ignore raw r = r

  and_then : Result E Fields → (Fields → Result E Fields) → Result E Fields
  and_then (ok raw) rest = rest raw
  and_then (err e) rest = err e

  fix_pairs : Bool → List (Arg E) → Fields → Result E Fields
  unfolding skip_missing and_then fix_field
  fix_pairs ignore [] raw = ok raw
  fix_pairs ignore (path_arg path ∷ fix_arg fix ∷ fixes) raw =
      and_then (skip_missing ignore raw (fix_field fix path raw)) (fix_pairs ignore fixes)
  fix_pairs ignore (path_arg path ∷ _) raw = err not_a_fix
  fix_pairs ignore (_ ∷ _) raw = err not_a_path

  -- The arguments that fix fields of the object itself, with fixes that do not fail.
  abbrev pub fixes_of : List (Text × (Text → Text)) → List (Arg E)
  fixes_of [] = []
  fixes_of ((name, fix) ∷ rest) = path_arg (name ∷ []) ∷ fix_arg (λ s. ok (fix s)) ∷ fixes_of rest

  -- `FixJsonFields` between the two conversions.
  unfoldable pub fix_json_fields : Bool → List (Arg E) → Fields → Result E Fields
  unfolding fix_pairs
  fix_json_fields ignore fixes raw =
      if length fixes % 2 == 0 then fix_pairs ignore fixes raw else err not_pairs

-- The fixers, on the text that the pointer names; none of them fails.
unfoldable pub fixer_zero_hash : Text → Text
fixer_zero_hash s =
    if text_eq s (codes "0x")
    then codes "0x0000000000000000000000000000000000000000000000000000000000000000"
    else s

pub fixer_zero_uint64 : Text → Text
fixer_zero_uint64 s = if text_eq s (codes "0x") then codes "0x0" else s

pub has_0x_prefix : Text → Bool
has_0x_prefix [] = false
has_0x_prefix (a ∷ []) = false
has_0x_prefix (a ∷ b ∷ s) = (a == b'0') && ((b == b'x') || (b == b'X'))

pub trim_left_str_zeros : Text → Text
trim_left_str_zeros [] = []
trim_left_str_zeros (c ∷ s) = if c == b'0' then trim_left_str_zeros s else c ∷ s

unfoldable pub fixer_hex_strip_leading_zeros : Text → Text
unfolding fixer_zero_uint64 has_0x_prefix trim_left_str_zeros
fixer_hex_strip_leading_zeros s =
    if has_0x_prefix s then fixer_zero_uint64 (codes "0x" ++ trim_left_str_zeros (drop 2 s)) else s
