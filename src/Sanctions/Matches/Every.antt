-- ===== src/Sanctions/Matches/Every.antt =====
-- What `match_tx` of rpc/mempool_watch.py (under btc_parser_app) gives: every match, once, in order.
use bitcoin_data_exporter.Common.{
  ℕ, zero, suc, ◌+◌, ◌≡◌, refl, sym, ap, ◌∙◌, ◌⊎◌, inl, inr, Bool, true, false, Option, none, some,
  List, [], ◌∷◌, ◌++◌, append-nil, append_assoc, arith, if◌then◌else◌, or_else, nat_eq, string_eq,
}
use bitcoin_data_exporter.Common.{subst}
use bitcoin_data_exporter.BlockParser.{btc_to_sats}
use bitcoin_data_exporter.Sanctions.{Text, text_eq, SanctionedAddress, SanctionsList, lookup}
use bitcoin_data_exporter.Sanctions.Matches.{
  ScriptPubKey, Output, PrevoutKey, absent, null, inline, Input, TxOut, no_answer, spent, unspent,
  Lookups, Direction, input, output, Match, element, of_parent, of_tx_out, known_or, prevout_of,
  only_address, script_address, listed_output, add_match, match_prevout, match_inputs,
  match_outputs, match_tx,
}

-- The element with that index.
abbrev pub At : ℕ → List Output → Output → Type 0
At n [] o = ⊥
At zero (p ∷ ps) o = p ≡ o
At (suc n) (p ∷ ps) o = At n ps o

-- The output that an input spends: the one that comes with it; where none does, the one of the set of
-- unspent outputs; and where it is not in there, the output of the parent with the input's index.
abbrev pub IsPrevout : Lookups → Input → Output → Type 0
IsPrevout node vin o =
    (vin.prevout ≡ inline o)
    ⊎ ((vin.prevout ≡ absent)
        × ((node.tx_out vin.txid vin.vout ≡ unspent o)
            ⊎ ((node.tx_out vin.txid vin.vout ≡ spent)
                × ((os : List Output) × (node.parent vin.txid ≡ some os) × At vin.vout os o))))

-- The address of a script: `address`, or else the only one of `addresses`.
abbrev pub HasAddress : ScriptPubKey → Text → Type 0
HasAddress s a = (s.address ≡ some a) ⊎ ((s.address ≡ none) × (s.addresses ≡ a ∷ []))

-- The row of an output whose address is on the list.
pub record IsRow (s : SanctionsList) (direction : Direction) (index : ℕ) (o : Output) (m : Match)
    : Type 0 where
  pub has_address : (a : Text) × HasAddress o.script a × (m.address ≡ some a)
  pub is_listed : lookup m.address s ≡ some m.entry
  pub direction_same : m.direction ≡ direction
  pub index_same : m.io_index ≡ index
  pub value_same : m.value_sats ≡ btc_to_sats o.value

-- The row of an input that is no coinbase, for the output it spends.
abbrev pub IsInputRow : Lookups → SanctionsList → ℕ → Input → Match → Type 0
IsInputRow node s index vin m =
    (vin.is_coinbase ≡ false) × ((o : Output) × IsPrevout node vin o × IsRow s input index o m)

-- The rows for which a property holds: the only one, or none where it holds for no row.
abbrev pub OnlyIf : (Match → Type 0) → List Match → Type 0
OnlyIf P ms = ((m : Match) × (ms ≡ m ∷ []) × P m) ⊎ ((ms ≡ []) × ((m : Match) → P m → ⊥))

-- The rows of inputs, numbered from `index`, and of outputs.
abbrev pub InputRows : Lookups → SanctionsList → ℕ → List Input → List Match → Type 0
InputRows node s index [] ms = ms ≡ []
InputRows node s index (vin ∷ vins) ms =
    (now : List Match) × (rest : List Match) × (ms ≡ now ++ rest)
    × OnlyIf (IsInputRow node s index vin) now
    × InputRows node s (index + 1) vins rest

abbrev pub OutputRows : SanctionsList → List Output → List Match → Type 0
OutputRows s [] ms = ms ≡ []
OutputRows s (o ∷ os) ms =
    (now : List Match) × (rest : List Match) × (ms ≡ now ++ rest)
    × OnlyIf (IsRow s output o.n o) now
    × OutputRows s os rest

same_some : {A : Type 0} (a b : A) (o : Option A) → o ≡ some a → o ≡ some b → a ≡ b
same_some a b o p q = cc

element-At : (n : ℕ) (os : List Output) (o : Output) → element n os ≡ some o → At n os o
unfolding element
element-At n [] o h = absurd (ground (arith, h))
element-At zero (p ∷ ps) o h = same_some p o (some p) refl h
element-At (suc n) (p ∷ ps) o h = element-At n ps o h

At-element : (n : ℕ) (os : List Output) (o : Output) → At n os o → element n os ≡ some o
unfolding element
At-element n [] o h = absurd h
At-element zero (p ∷ ps) o h = ap (λ x. some x) h
At-element (suc n) (p ∷ ps) o h = At-element n ps o h

found_prevout :
    (p : PrevoutKey) (t : TxOut) (parent : Option (List Output)) (n : ℕ) (o : Output)
    → known_or p (of_tx_out t parent n) ≡ some o
    → (p ≡ inline o)
      ⊎ ((p ≡ absent)
          × ((t ≡ unspent o)
              ⊎ ((t ≡ spent) × ((os : List Output) × (parent ≡ some os) × At n os o))))
unfolding known_or of_tx_out of_parent
found_prevout null t parent n o h = absurd (ground (arith, h))
found_prevout (inline p) t parent n o h = inl (ap inline (same_some p o (some p) refl h))
found_prevout absent no_answer parent n o h = absurd (ground (arith, h))
found_prevout absent (unspent p) parent n o h =
    inr (refl, inl (ap unspent (same_some p o (some p) refl h)))
found_prevout absent spent none n o h = absurd (ground (arith, h))
found_prevout absent spent (some os) n o h = inr (refl, inr (refl, (os, refl, element-At n os o h)))

prevout_of-IsPrevout :
    (node : Lookups) (vin : Input) (o : Output)
    → prevout_of node vin ≡ some o
    → IsPrevout node vin o
unfolding prevout_of
prevout_of-IsPrevout node vin o h =
    found_prevout vin.prevout (node.tx_out vin.txid vin.vout) (node.parent vin.txid) vin.vout o h

IsPrevout-prevout_of :
    (node : Lookups) (vin : Input) (o : Output)
    → IsPrevout node vin o
    → prevout_of node vin ≡ some o
unfolding prevout_of known_or of_tx_out of_parent
IsPrevout-prevout_of node vin o (inl e) = simp e refl
IsPrevout-prevout_of node vin o (inr (e, inl f)) = simp (e, f) refl
IsPrevout-prevout_of node vin o (inr (e, inr (f, (os, g, h)))) =
    simp (e, f, g) (At-element vin.vout os o h)

found_address :
    (o : Option Text) (l : List Text) (a : Text)
    → or_else o (only_address l) ≡ some a
    → (o ≡ some a) ⊎ ((o ≡ none) × (l ≡ a ∷ []))
unfolding only_address
found_address (some b) l a h = inl h
found_address none [] a h = absurd (ground (arith, h))
found_address none (b ∷ []) a h = inr (refl, ap (λ x. x ∷ []) (same_some b a (some b) refl h))
found_address none (b ∷ c ∷ l) a h = absurd (ground (arith, h))

script_address-HasAddress :
    (s : ScriptPubKey) (a : Text) → script_address s ≡ some a → HasAddress s a
unfolding script_address
script_address-HasAddress s a h = found_address s.address s.addresses a h

HasAddress-script_address :
    (s : ScriptPubKey) (a : Text) → HasAddress s a → script_address s ≡ some a
unfolding script_address only_address
HasAddress-script_address s a (inl e) = simp e refl
HasAddress-script_address s a (inr (e, f)) = simp (e, f) refl

module _ (s : SanctionsList) where
  IsRow-listed :
      (direction : Direction) (index : ℕ) (o : Output) (m : Match)
      → IsRow s direction index o m
      → listed_output s o ≡ some m.entry
  unfolding listed_output
  IsRow-listed direction index o m r =
      let (a, h, q) = r.has_address in
      ap (λ x. lookup x s) (HasAddress-script_address o.script a h ∙ sym q) ∙ r.is_listed

  listed-address :
      (o : Output) (entry : SanctionedAddress) (address : Option Text)
      → script_address o.script ≡ address
      → lookup address s ≡ some entry
      → (a : Text) × HasAddress o.script a × (address ≡ some a)
  unfolding lookup
  listed-address o entry none q h = absurd (ground (arith, h))
  listed-address o entry (some a) q h = (a, script_address-HasAddress o.script a q, refl)

  -- What a match adds.
  abbrev Adds : (Match → Type 0) → List Match → List Match → Type 0
  Adds P before after = (now : List Match) × (after ≡ before ++ now) × OnlyIf P now

  nothing-Adds :
      (P : Match → Type 0) (before : List Match) → ((m : Match) → P m → ⊥) → Adds P before before
  nothing-Adds P before other = ([], sym (append-nil before), inr (refl, other))

  add_match-Adds :
      (direction : Direction) (index : ℕ) (o : Output) (e : Option SanctionedAddress)
      (matches : List Match)
      → listed_output s o ≡ e
      → Adds (IsRow s direction index o) matches (add_match direction index o e matches)
  unfolding add_match listed_output
  add_match-Adds direction index o none matches h =
      nothing-Adds (IsRow s direction index o) matches
        (λ m r. clash (listed_output s o) m.entry h (IsRow-listed direction index o m r))
    where
      clash : (x : Option SanctionedAddress) (e : SanctionedAddress) → x ≡ none → x ≡ some e → ⊥
      clash x e p q = absurd (ground (arith, p, q))
  add_match-Adds direction index o (some entry) matches h =
      let row : Match = record {
        direction = direction;
        io_index = index;
        address = script_address o.script;
        value_sats = btc_to_sats o.value;
        entry = entry;
      } in
      (
        row ∷ [],
        refl,
        inl (
          row,
          refl,
          record {
            has_address = listed-address o entry (script_address o.script) refl h;
            is_listed = h;
            direction_same = refl;
            index_same = refl;
            value_same = refl;
          },
        ),
      )

  module _ (node : Lookups) where
    match_prevout-Adds :
        (index : ℕ) (vin : Input) (p : Option Output) (matches : List Match)
        → vin.is_coinbase ≡ false
        → prevout_of node vin ≡ p
        → Adds (IsInputRow node s index vin) matches (match_prevout s index p matches)
    unfolding match_prevout
    match_prevout-Adds index vin none matches regular h =
        nothing-Adds (IsInputRow node s index vin) matches (λ m (c, (o, is, r)).
          clash (prevout_of node vin) o h (IsPrevout-prevout_of node vin o is))
      where
        clash : (x : Option Output) (o : Output) → x ≡ none → x ≡ some o → ⊥
        clash x o p q = absurd (ground (arith, p, q))
    match_prevout-Adds index vin (some o) matches regular h =
        let (now, q, only) = add_match-Adds input index o (listed_output s o) matches refl in
        (now, q, of_input only)
      where
        of_input :
            {now : List Match}
            → OnlyIf (IsRow s input index o) now
            → OnlyIf (IsInputRow node s index vin) now
        of_input (inl (m, q, r)) = inl (m, q, (regular, (o, prevout_of-IsPrevout node vin o h, r)))
        of_input (inr (q, other)) = inr (
          q,
          λ m (c, (p, is, r)). other m (
              subst (λ x. IsRow s input index x m)
                (same_some p o (prevout_of node vin) (IsPrevout-prevout_of node vin p is) h) r),
        )

    take_input-Adds :
        (index : ℕ) (vin : Input) (matches : List Match) (b : Bool)
        → vin.is_coinbase ≡ b
        → Adds
            (IsInputRow node s index vin)
            matches
            (if b then matches else match_prevout s index (prevout_of node vin) matches)
    take_input-Adds index vin matches true e =
        nothing-Adds (IsInputRow node s index vin) matches
          (λ m (c, rest). absurd (ground (arith, e, c)))
    take_input-Adds index vin matches false e =
        match_prevout-Adds index vin (prevout_of node vin) matches e refl

    match_inputs-InputRows :
        (index : ℕ) (vins : List Input) (matches : List Match)
        → (rows : List Match) × (match_inputs node s index vins matches ≡ matches ++ rows)
          × InputRows node s index vins rows
    unfolding match_inputs
    match_inputs-InputRows index [] matches = ([], sym (append-nil matches), refl)
    match_inputs-InputRows index (vin ∷ vins) matches =
        let (now, q, only) = take_input-Adds index vin matches vin.is_coinbase refl in
        let (rest, q', rows) = match_inputs-InputRows (index + 1) vins _ in
        (
          now ++ rest,
          q' ∙ ap (λ ms. ms ++ rest) q ∙ append_assoc matches now rest,
          (now, rest, refl, only, rows),
        )

  match_outputs-OutputRows :
      (os : List Output) (matches : List Match)
      → (rows : List Match) × (match_outputs s os matches ≡ matches ++ rows) × OutputRows s os rows
  unfolding match_outputs
  match_outputs-OutputRows [] matches = ([], sym (append-nil matches), refl)
  match_outputs-OutputRows (o ∷ os) matches =
      let (now, q, only) = add_match-Adds output o.n o (listed_output s o) matches refl in
      let (rest, q', rows) = match_outputs-OutputRows os _ in
      (
        now ++ rest,
        q' ∙ ap (λ ms. ms ++ rest) q ∙ append_assoc matches now rest,
        (now, rest, refl, only, rows),
      )

-- The matches of a transaction are the rows of its inputs in their order, then those of its outputs. An input
-- that is no coinbase has one row where the output that it spends has an address on the list, and else no
-- row: the output that comes with the input, or, where none does, the unspent one that the node knows, or,
-- where it knows none and answers so, the output of the parent. An output has one row where its address is on
-- the list, and else none. A row has its direction, the number of the input or of the output, the address,
-- the value and the entry of the list.
pub match_tx-IsEvery :
    (node : Lookups) (s : SanctionsList) (vins : List Input) (vouts : List Output)
    → (ins : List Match) × (outs : List Match) × (match_tx node s vins vouts ≡ ins ++ outs)
      × InputRows node s 0 vins ins
      × OutputRows s vouts outs
unfolding match_tx
match_tx-IsEvery node s vins vouts =
    let (ins, q, rows) = match_inputs-InputRows s node 0 vins [] in
    let (outs, q', rows') = match_outputs-OutputRows s vouts (match_inputs node s 0 vins []) in
    (ins, outs, q' ∙ ap (λ ms. ms ++ outs) q, rows, rows')
