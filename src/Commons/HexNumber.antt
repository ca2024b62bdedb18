-- ===== src/Commons/HexNumber.antt =====
-- Numbers in the hexadecimal texts of commons/commons.go.
use agents_go.Prelude.{
  ℕ, zero, suc, ◌+◌, ◌*◌, ◌/◌, ◌%◌, ◌^◌, ◌≤◌, ◌<◌, ◌≡◌, ◌≢◌, refl, sym, ap, ◌∙◌, false, some, [],
  ◌∷◌, ◌++◌, Text, codes, ◌==◌, ==_iff, leb, arith, Lacks, All-append, Option-cases, Bool-cases,
  inl, inr,
}
use agents_go.Conv.Hex.{hex_value, hex_digit}
use agents_go.Commons.{
  remove_0x, parse_digits, parse_uint16, hex2int, emit_hex, format_hex, marshal_hex, unmarshal_hex,
}

digit_value : (n : ℕ) → n < 16 → hex_value (hex_digit n) ≡ some n
unfolding hex_value hex_digit
digit_value n h = ground arith

digit_no_x : (n : ℕ) → n < 16 → hex_digit n ≢ b'x'
unfolding hex_digit
digit_no_x n h = ground arith

-- A text without the letter x holds no `0x`.
remove-Lacks : (s : Text) → Lacks b'x' s → remove_0x s ≡ s
unfolding remove_0x
remove-Lacks [] h = refl
remove-Lacks (a ∷ []) h = refl
remove-Lacks (a ∷ b ∷ s) (ha, (hb, hs)) = ground (arith, remove-Lacks (b ∷ s) (hb, hs))

emit-Lacks : (fuel n : ℕ) (out : Text) → Lacks b'x' out → Lacks b'x' (emit_hex fuel n out)
unfolding emit_hex
emit-Lacks zero n out h = h
emit-Lacks (suc fuel) n out h = elim (Bool-cases (n == 0)) [
  | inl e ↦ rw e h
  | inr e ↦ rw e (emit-Lacks fuel (n / 16) _ (digit_no_x (n % 16) (omega arith), h))
]

-- Reading the last digit behind the others gives the number.
parse_last :
    (n : ℕ) (out : Text)
    → n < 2 ^ 64
    → parse_digits (n / 16) (hex_digit (n % 16) ∷ out) ≡ parse_digits n out
unfolding parse_digits
parse_last n out h =
    let below : leb (2 ^ 60) (n / 16) ≡ false = ground arith in
    let whole : n / 16 * 16 + n % 16 ≡ n = omega arith in
    ground (arith, digit_value (n % 16) (omega arith), below, ap (λ m. parse_digits m out) whole)

parse-emit :
    (fuel n : ℕ) (out : Text)
    → n ≤ fuel
    → n < 2 ^ 64
    → parse_digits 0 (emit_hex fuel n out) ≡ parse_digits n out
unfolding emit_hex
parse-emit zero n out h lt = ap (λ m. parse_digits m out) (omega arith)
parse-emit (suc fuel) n out h lt = elim (Bool-cases (n == 0)) [
  | inl e ↦ rw e (ap (λ m. parse_digits m out) (sym ((==_iff n 0).0 e)))
  | inr e ↦ rw e (parse-emit fuel (n / 16) _ (ground arith) (omega arith) ∙ parse_last n out lt)
]

format-Lacks : (v : ℕ) → Lacks b'x' (format_hex v)
unfolding format_hex
format-Lacks v = elim (Bool-cases (v == 0)) [
  | inl e ↦ rw e (λ z. ground arith, tt)
  | inr e ↦ rw e (emit-Lacks v v [] tt)
]

parse-format : (v : ℕ) → v < 2 ^ 64 → parse_digits 0 (format_hex v) ≡ some v
unfolding format_hex
parse-format v lt = elim (Bool-cases (v == 0)) [
  | inl e ↦ rw e (unfold parse_digits hex_value in ap some (sym ((==_iff v 0).0 e)))
  | inr e ↦ rw e (parse-emit v v [] (omega arith) lt ∙ (unfold parse_digits in refl))
]

-- An empty text would read as 0, whose text is not empty.
format-ne-nil : (v : ℕ) → v < 2 ^ 64 → format_hex v ≢ []
unfolding parse_digits
format-ne-nil v lt e =
    let zero_read : some 0 ≡ some v = ap (parse_digits 0) (sym e) ∙ parse-format v lt in
    zero_text v (cc) e
  where
    zero_text : (v : ℕ) → 0 ≡ v → format_hex v ≢ []
    zero_text v z = rw (← z) (unfold format_hex in λ h. cc)

parse_nonempty : (s : Text) → s ≢ [] → parse_uint16 s ≡ parse_digits 0 s
unfolding parse_uint16
parse_nonempty [] h = absurd (h refl)
parse_nonempty (c ∷ s) h = refl

-- Every uint64 survives `MarshalJSON` and `UnmarshalJSON`.
pub unmarshal-marshal : (v : ℕ) → v < 2 ^ 64 → unmarshal_hex (marshal_hex v) ≡ some v
unfolding unmarshal_hex marshal_hex hex2int
unmarshal-marshal v lt =
    ap parse_uint16 (prefix_removed (format_hex v) ∙ remove-Lacks _ (format-Lacks v))
    ∙ parse_nonempty _ (format-ne-nil v lt)
    ∙ parse-format v lt
  where
    prefix_removed : (t : Text) → remove_0x (codes "0x" ++ t) ≡ remove_0x t
    prefix_removed t = unfold remove_0x in refl

value-lt : (c : ℕ) {d : ℕ} → hex_value c ≡ some d → d < 16
unfolding hex_value
value-lt c e = ground arith

digits-lt : (s : Text) (n r : ℕ) → n < 2 ^ 64 → parse_digits n s ≡ some r → r < 2 ^ 64
unfolding parse_digits
digits-lt [] n r lt e = ground arith
digits-lt (c ∷ s) n r lt e = elim (Option-cases (hex_value c)) [
  | inl bad ↦ absurd (ground (arith, bad))
  | inr (d, good) ↦ ground (arith, good, value-lt c good, digits-lt s (n * 16 + d) r)
]

-- What `Hex2Int` accepts fits a uint64: no digit is lost to an overflow.
pub hex2int-lt : (s : Text) {r : ℕ} → hex2int s ≡ some r → r < 2 ^ 64
unfolding hex2int parse_uint16
hex2int-lt s e = parse-lt (remove_0x s) e
  where
    parse-lt : (t : Text) {r : ℕ} → parse_uint16 t ≡ some r → r < 2 ^ 64
    parse-lt [] h = cc
    parse-lt (c ∷ t) h = digits-lt (c ∷ t) 0 _ (omega arith) h

remove_inner :
    (s t : Text) → Lacks b'x' s → Lacks b'x' t → remove_0x (s ++ (codes "0x" ++ t)) ≡ s ++ t
unfolding remove_0x
remove_inner [] t hs ht = remove-Lacks t ht
remove_inner (a ∷ []) t (ha, hs) ht = ground (arith, remove-Lacks t ht)
remove_inner (a ∷ b ∷ s) t (ha, (hb, hs)) ht = ground (arith, remove_inner (b ∷ s) t (hb, hs) ht)

-- `0x` is dropped wherever it stands, not only at the start: a text with `0x` in the middle is read
-- as the text without it.
pub hex2int_inner :
    (s t : Text) → Lacks b'x' s → Lacks b'x' t → hex2int (s ++ (codes "0x" ++ t)) ≡ hex2int (s ++ t)
unfolding hex2int
hex2int_inner s t hs ht =
    ap parse_uint16 (remove_inner s t hs ht ∙ sym (remove-Lacks (s ++ t) (All-append _ s t hs ht)))
