-- ===== src/Eth/Types/Blocks.antt =====
-- What `UnmarshalJSON` of a block in agents/eth/types/block.go reads.
use agents_go.Prelude.{
  ◌≡◌, ◌↔◌, refl, sym, ap, ◌∙◌, subst, true, Option, none, some, List, [], ◌∷◌, Text, codes,
  text_eq, some_path, inl, inr, if◌then◌else◌, Result, ok, ok_path, err-ok, ◌>>=◌, >>=-eq-ok,
  map_err, map_err-ok,
}
use agents_go.Fixer.{Json, Fields, lookup, fix_json_fields, fixes_of, fixer_zero_hash}
use agents_go.Fixer as Fixer
use agents_go.Fixer.Textual.{IsTextual, fixed_value, IsTextual-cases}
use agents_go.Fixer.Series.{fix_json_fields-lookup, fix_json_fields_refused}
use agents_go.Eth.Types.{
  Decoders, RpcTx, HeaderWithBody, TypesError, json, fixed, block_fields, fixed_input, unmarshal_tx,
  unmarshal_element, unmarshal_elements, unmarshal_block,
}

-- The root of a state, which some nodes write as a number.
abbrev pub zero_fixed : Text → Option Json → Option Json
zero_fixed key o = if text_eq (codes "stateRoot") key then fixed_value fixer_zero_hash o else o

fixed-ok : {E : Type 0} (r : Fixer.Result E Fields) (m : Fields) → fixed r ≡ ok m → r ≡ Fixer.ok m
unfolding fixed
fixed-ok (Fixer.ok raw) m h = ap Fixer.ok (ok_path h)
fixed-ok (Fixer.err e) m h = absurd (err-ok h)

root_fixed :
    {E : Type 0} (m raw : Fields)
    → fix_json_fields {E = E} true (fixes_of block_fields) m ≡ Fixer.ok raw
    → IsTextual (lookup (codes "stateRoot") m)
      × ((key : Text) → lookup key raw ≡ zero_fixed key (lookup key m))
root_fixed {E} m raw h = elim (IsTextual-cases block_fields m) [
  | inl all ↦
      let (m', fixes, at_keys) = fix_json_fields-lookup {E = E} block_fields m all in
      (all.0, (λ key. ap (lookup key) (same_fields (sym h ∙ fixes)) ∙ at_keys key))
  | inr (name, fix, has, refused) ↦
      absurd (not_both (sym h ∙ fix_json_fields_refused block_fields m name fix has refused))
]
  where
    same_fields : {a b : Fields} → ◌≡◌ {A = Fixer.Result E Fields} (Fixer.ok a) (Fixer.ok b) → a ≡ b
    same_fields h = cc

    not_both :
        {a : Fields} {e : Fixer.FixError E}
        → ◌≡◌ {A = Fixer.Result E Fields} (Fixer.ok a) (Fixer.err e)
        → ⊥
    not_both h = cc

module _ {E H T X B : Type 0} (decoders : Decoders E H T X B) where
  -- A null is a nil pointer, and any other element is decoded as a transaction.
  abbrev IsElement : Option Text → Option (RpcTx H T X) → Type 0
  IsElement none none = Unit
  IsElement none (some tx) = ⊥
  IsElement (some input) none = ⊥
  IsElement (some input) (some tx) = unmarshal_tx decoders input ≡ ok tx

  -- The transactions are those of the elements, in order.
  abbrev pub AreElements : List (Option Text) → List (Option (RpcTx H T X)) → Type 0
  AreElements [] [] = Unit
  AreElements [] (tx ∷ txs) = ⊥
  AreElements (element ∷ elements) [] = ⊥
  AreElements (element ∷ elements) (tx ∷ txs) = IsElement element tx × AreElements elements txs

  unmarshal_element_iff :
      (element : Option Text) (tx : Option (RpcTx H T X))
      → (unmarshal_element decoders element ≡ ok tx) ↔ IsElement element tx
  unfolding unmarshal_element
  unmarshal_element_iff none none = ((λ h. tt), (λ h. refl))
  unmarshal_element_iff none (some tx) = ((λ h. cc), (λ h. absurd h))
  unmarshal_element_iff (some input) none = (
    (λ h.
        let (tx, read, same) = >>=-eq-ok (unmarshal_tx decoders input) pointer none h in
        absurd (no_pointer tx (ok_path same))),
    (λ h. absurd h),
  )
    where
      pointer : RpcTx H T X → Result (TypesError E) (Option (RpcTx H T X))
      pointer tx = ok (some tx)

      no_pointer : (tx : RpcTx H T X) → some tx ≡ none → ⊥
      no_pointer tx h = cc
  unmarshal_element_iff (some input) (some tx) = (
    (λ h.
        let (t, read, same) = >>=-eq-ok (unmarshal_tx decoders input) pointer (some tx) h in
        read ∙ ap ok (some_path (ok_path same))),
    (λ h. rw h refl),
  )
    where
      pointer : RpcTx H T X → Result (TypesError E) (Option (RpcTx H T X))
      pointer tx = ok (some tx)

  unmarshal_elements_iff :
      (elements : List (Option Text)) (txs : List (Option (RpcTx H T X)))
      → (unmarshal_elements decoders elements ≡ ok txs) ↔ AreElements elements txs
  unfolding unmarshal_elements
  unmarshal_elements_iff [] [] = ((λ h. tt), (λ h. refl))
  unmarshal_elements_iff [] (tx ∷ txs) = ((λ h. cc), (λ h. absurd h))
  unmarshal_elements_iff (element ∷ elements) txs =
      (read (unmarshal_elements_iff elements) txs, write (unmarshal_elements_iff elements) txs)
    where
      List' : Type 0
      List' = List (Option (RpcTx H T X))

      Each : Type 0
      Each =
          (txs : List') → (unmarshal_elements decoders elements ≡ ok txs) ↔ AreElements elements txs

      joined : Option (RpcTx H T X) → List' → Result (TypesError E) List'
      joined tx later = ok (tx ∷ later)

      next : Option (RpcTx H T X) → Result (TypesError E) List'
      next tx = unmarshal_elements decoders elements >>= joined tx

      read :
          Each
          → (txs : List') → (unmarshal_element decoders element >>= next) ≡ ok txs
          → AreElements (element ∷ elements) txs
      read each txs h =
          let (tx, here, h1) = >>=-eq-ok (unmarshal_element decoders element) next txs h in
          let (later, rest, same) =
            >>=-eq-ok (unmarshal_elements decoders elements) (joined tx) txs h1 in
          subst (AreElements (element ∷ elements)) (ok_path same)
            ((unmarshal_element_iff element tx).0 here, (each later).0 rest)

      write :
          Each
          → (txs : List') → AreElements (element ∷ elements) txs
          → (unmarshal_element decoders element >>= next) ≡ ok txs
      write each [] h = absurd h
      write each (tx ∷ txs) (here, rest) =
          rw ((unmarshal_element_iff element tx).1 here) (rw ((each txs).1 rest) refl)

  -- The parts of a block, as they are read of its text.
  abbrev pub IsReadAs : Text → HeaderWithBody H T X B → Type 0
  IsReadAs text block =
      (elements : List (Option Text)) × (decoders.hash_of text ≡ ok block.block_hash)
      × (decoders.header_of text ≡ ok block.header)
      × (decoders.elements_of text ≡ ok elements)
      × AreElements elements block.transactions

  fixed_input_iff :
      (input fixed_text : Text) (m : Fields)
      → decoders.unmarshal input ≡ ok m
      → (fixed_input decoders block_fields input ≡ ok fixed_text) ↔ (
          (raw : Fields) × (fix_json_fields {E = E} true (fixes_of block_fields) m ≡ Fixer.ok raw)
          × (decoders.marshal raw ≡ ok fixed_text))
  unfolding fixed_input
  fixed_input_iff input fixed_text m e =
      let fix : Fields → Fixer.Result E Fields = fix_json_fields true (fixes_of block_fields) in
      let write : Fields → Result (TypesError E) Text =
        λ raw. map_err json (decoders.marshal raw) in
      (
        (λ h.
            let (raw, is_fixed, written) = >>=-eq-ok (fixed (fix m)) write fixed_text (
              subst (λ r. (map_err json r >>= λ raw. fixed (fix raw) >>= write) ≡ ok fixed_text) e
                h) in
            (
              raw,
              fixed-ok (fix m) raw is_fixed,
              map_err-ok json (decoders.marshal raw) fixed_text written,
            )),
        (λ (raw, fixes, written). rw e (rw fixes (rw written refl))),
      )

  unmarshal_block_parts :
      (input : Text) (block : HeaderWithBody H T X B)
      → (unmarshal_block decoders input ≡ ok block) ↔ (
          (text : Text) × (fixed_input decoders block_fields input ≡ ok text) × IsReadAs text block)
  unfolding unmarshal_block
  unmarshal_block_parts input block = (read, write)
    where
      Block : Type 0
      Block = HeaderWithBody H T X B

      made : H → B → List (Option (RpcTx H T X)) → Result (TypesError E) Block
      made hash header txs = ok (record { block_hash = hash; header = header; transactions = txs })

      with_elements : H → B → List (Option Text) → Result (TypesError E) Block
      with_elements hash header elements = unmarshal_elements decoders elements >>= made hash header

      with_header : Text → H → B → Result (TypesError E) Block
      with_header text hash header =
          map_err json (decoders.elements_of text) >>= with_elements hash header

      with_hash : Text → H → Result (TypesError E) Block
      with_hash text hash = map_err json (decoders.header_of text) >>= with_header text hash

      with_text : Text → Result (TypesError E) Block
      with_text text = map_err json (decoders.hash_of text) >>= with_hash text

      Parts : Block → Type 0
      Parts b =
          (text : Text) × (fixed_input decoders block_fields input ≡ ok text) × IsReadAs text b

      read : (fixed_input decoders block_fields input >>= with_text) ≡ ok block → Parts block
      read h =
          let (text, h1, k1) =
            >>=-eq-ok (fixed_input decoders block_fields input) with_text block h in
          let (hash, h2, k2) =
            >>=-eq-ok (map_err json (decoders.hash_of text)) (with_hash text) block k1 in
          let (header, h3, k3) =
            >>=-eq-ok (map_err json (decoders.header_of text)) (with_header text hash) block k2 in
          let (elements, h4, k4) =
            >>=-eq-ok (map_err json (decoders.elements_of text)) (with_elements hash header) block
              k3 in
          let (txs, h5, k5) =
            >>=-eq-ok (unmarshal_elements decoders elements) (made hash header) block k4 in
          subst Parts (ok_path k5) (
            text,
            h1,
            (
              elements,
              map_err-ok json (decoders.hash_of text) hash h2,
              map_err-ok json (decoders.header_of text) header h3,
              map_err-ok json (decoders.elements_of text) elements h4,
              (unmarshal_elements_iff elements txs).0 h5,
            ),
          )

      write : Parts block → (fixed_input decoders block_fields input >>= with_text) ≡ ok block
      write (text, h1, (elements, h2, h3, h4, h5)) = rw h1 (
          rw h2
            (rw h3 (rw h4 (rw ((unmarshal_elements_iff elements block.transactions).1 h5) refl))))

  -- `UnmarshalJSON` gives a block exactly if `stateRoot` is a text or missing, and, of an object in which the fix made of
  -- it what it makes and every other field is as it was, the hash, the header and the elements are read, and the
  -- transactions are those of the elements, in order, a null among them a nil pointer.
  pub unmarshal_block_iff :
      (input : Text) (m : Fields) (block : HeaderWithBody H T X B)
      → decoders.unmarshal input ≡ ok m
      → (unmarshal_block decoders input ≡ ok block) ↔ (
          IsTextual (lookup (codes "stateRoot") m)
          × ((raw : Fields) × (fix_json_fields {E = E} true (fixes_of block_fields) m
                ≡ Fixer.ok raw)
              × ((key : Text) → lookup key raw ≡ zero_fixed key (lookup key m))
              × ((text : Text) × (decoders.marshal raw ≡ ok text) × IsReadAs text block)))
  unmarshal_block_iff input m block e = (
    (λ h.
        let (text, is_fixed, parts) = (unmarshal_block_parts input block).0 h in
        let (raw, fixes, written) = (fixed_input_iff input text m e).0 is_fixed in
        let (textual, at_keys) = root_fixed m raw fixes in
        (textual, (raw, fixes, at_keys, (text, written, parts)))),
    (λ (textual, (raw, fixes, at_keys, (text, written, parts))).
        (unmarshal_block_parts input block).1
          (text, (fixed_input_iff input text m e).1 (raw, fixes, written), parts)),
  )
