-- ===== src/Prelude/Texts.antt =====
-- Go strings and byte slices as lists of bytes: literals, comparison, `strings.Split`,
-- `strings.ToUpper` on ASCII letters, and `sep`-free texts.
use Prim.Native.Nat.{ℕ, ◌-◌}
use Prim.Native.Char.{code}
use Prim.Native.String.{String}
use mathlib.Core.Path.{◌≡◌, refl}
use mathlib.Core.Logic.{◌≢◌, ◌↔◌}
use mathlib.Core.Bool.{Bool, true, false, ◌&&◌}
use mathlib.Core.List.{List, [], ◌∷◌, ◌++◌, append-nil, append_assoc}
use native.Mathlib.Omega.{arith}
use agents_go.Prelude.Tests.{◌==◌, leb, if◌then◌else◌}
use agents_go.Prelude.Lists.{All}

abbrev pub Text : Type 0
Text = List ℕ

-- The bytes of an ASCII literal.
abbrev pub codes : String → Text
codes String.[] = []
codes (String.◌∷◌ c s) = code c ∷ codes s

abbrev pub text_eq : Text → Text → Bool
text_eq [] [] = true
text_eq [] (y ∷ ys) = false
text_eq (x ∷ xs) [] = false
text_eq (x ∷ xs) (y ∷ ys) = (x == y) && text_eq xs ys

abbrev pub is_empty : Text → Bool
is_empty [] = true
is_empty (x ∷ xs) = false

pub text_eq_iff : (s t : Text) → (text_eq s t ≡ true) ↔ (s ≡ t)
text_eq_iff s t = (fwd s t, bwd s t)
  where
    fwd : (s t : Text) → text_eq s t ≡ true → s ≡ t
    fwd [] [] h = refl
    fwd [] (y ∷ ys) h = cc
    fwd (x ∷ xs) [] h = cc
    fwd (x ∷ xs) (y ∷ ys) h = ground (arith, fwd xs ys)

    self : (s : Text) → text_eq s s ≡ true
    self [] = refl
    self (x ∷ xs) = ground (arith, self xs)

    bwd : (s t : Text) → s ≡ t → text_eq s t ≡ true
    bwd s t h = rw h (self t)

-- No byte of the text is `sep`.
abbrev pub Lacks : ℕ → Text → Type 0
Lacks sep = All (λ c. c ≢ sep)

-- One round of `strings.ToUpper` on a byte.
abbrev pub upper : ℕ → ℕ
upper c = if leb b'a' c && leb c b'z' then c - 32 else c

abbrev pub to_upper : Text → Text
to_upper [] = []
to_upper (c ∷ s) = upper c ∷ to_upper s

-- `strings.Split(s, string(sep))` of a text whose current part is `cur` so far.
abbrev pub split_from : ℕ → Text → Text → List Text
split_from sep cur [] = cur ∷ []
split_from sep cur (c ∷ s) = elim (c == sep) [
  | true ↦ cur ∷ split_from sep [] s
  | false ↦ split_from sep (cur ++ c ∷ []) s
]

abbrev pub split : ℕ → Text → List Text
split sep s = split_from sep [] s

pub split_from-Lacks :
    (sep : ℕ) (cur p : Text) → Lacks sep p → split_from sep cur p ≡ (cur ++ p) ∷ []
split_from-Lacks sep cur [] h = rw append-nil
split_from-Lacks sep cur (c ∷ p) h =
    ground (arith, split_from-Lacks sep (cur ++ c ∷ []) p h.1, append_assoc cur (c ∷ []) p)

pub split_from-append :
    (sep : ℕ) (cur p rest : Text)
    → Lacks sep p
    → split_from sep cur (p ++ sep ∷ rest) ≡ (cur ++ p) ∷ split sep rest
split_from-append sep cur [] rest h = rw append-nil (ground arith)
split_from-append sep cur (c ∷ p) rest h =
    ground (arith, split_from-append sep (cur ++ c ∷ []) p rest h.1, append_assoc cur (c ∷ []) p)

pub to_upper-Lacks : (s : Text) → Lacks b':' s → Lacks b':' (to_upper s)
to_upper-Lacks [] h = tt
to_upper-Lacks (c ∷ s) h = (ground arith, to_upper-Lacks s h.1)

pub to_upper_twice : (s : Text) → to_upper (to_upper s) ≡ to_upper s
to_upper_twice [] = refl
to_upper_twice (c ∷ s) = ground (arith, to_upper_twice s)
