-- ===== src/BlockParser/Pools/Precedence.antt =====
-- Which pool `match` of rpc/mining_pools.py (under btc_parser_app) picks.
use bitcoin_data_exporter.Common.{
  ℕ, String, ◌≡◌, refl, ap, inl, inr, true, false, Option, none, some, List, [], ◌∷◌, ◌++◌, arith,
  Bool-cases, Option-cases, nat_eq, string_eq, All,
}
use bitcoin_data_exporter.Common.Dict
use bitcoin_data_exporter.Common.Dict.{Dict, dict_laws}
use bitcoin_data_exporter.BlockParser.Pools.{
  PoolInfo, PoolMatch, PoolMatcher, MatchMethod, unknown_match, found, codes, is_in,
  coinbase_hex_to_ascii, match_tag, match_address, match,
}

-- The first tag of the index that the text has.
pub record IsFirstTag (text : List ℕ) (tags : List (String × PoolInfo)) (info : PoolInfo)
    : Type 0 where
  pub before : List (String × PoolInfo)
  pub tag : String
  pub after : List (String × PoolInfo)
  pub split : tags ≡ before ++ (tag, info) ∷ after
  pub absent : All (λ e. is_in (codes e.0) text ≡ false) before
  pub present : is_in (codes tag) text ≡ true

-- The first payout address that the index knows.
pub record IsFirstAddress (addresses : List String) (d : Dict String PoolInfo) (info : PoolInfo)
    : Type 0 where
  pub before : List String
  pub address : String
  pub after : List String
  pub split : addresses ≡ before ++ address ∷ after
  pub absent : All (λ a. Dict.get a d ≡ none) before
  pub present : Dict.get address d ≡ some info

-- What a match rests on.
pub data Picks (text : List ℕ) (addresses : List String) (m : PoolMatcher)
    : PoolMatch → Type 0 where
  tagged :
      (info : PoolInfo)
      → IsFirstTag text m.tag_index info
      → Picks text addresses m (found info MatchMethod.by_tag)
  paid :
      (info : PoolInfo)
      → All (λ e. is_in (codes e.0) text ≡ false) m.tag_index
      → IsFirstAddress addresses m.address_index info
      → Picks text addresses m (found info MatchMethod.by_address)
  none_known :
      All (λ e. is_in (codes e.0) text ≡ false) m.tag_index
      → All (λ a. Dict.get a m.address_index ≡ none) addresses
      → Picks text addresses m unknown_match

match_tag-none :
    (text : List ℕ) (tags : List (String × PoolInfo))
    → match_tag text tags ≡ none
    → All (λ e. is_in (codes e.0) text ≡ false) tags
unfolding match_tag
match_tag-none text [] h = tt
match_tag-none text ((t, info) ∷ rest) h = elim (Bool-cases (is_in (codes t) text)) [
  | inl e ↦ absurd (ground (arith, simp e at h))
  | inr e ↦ (e, match_tag-none text rest (simp e at h))
]

match_tag-some :
    (text : List ℕ) (tags : List (String × PoolInfo)) (i : PoolInfo)
    → match_tag text tags ≡ some i
    → IsFirstTag text tags i
unfolding match_tag
match_tag-some text [] i h = absurd (ground (arith, h))
match_tag-some text ((t, info) ∷ rest) i h = elim (Bool-cases (is_in (codes t) text)) [
  | inl e ↦ record {
    before = [];
    tag = t;
    after = rest;
    split = ap (λ j. (t, j) ∷ rest) (same (simp e at h));
    absent = tt;
    present = e;
  }
  | inr e ↦
      let w = match_tag-some text rest i (simp e at h) in
      record {
        before = (t, info) ∷ w.before;
        tag = w.tag;
        after = w.after;
        split = ap (λ l. (t, info) ∷ l) w.split;
        absent = (e, w.absent);
        present = w.present;
      }
]
  where
    same : some info ≡ some i → info ≡ i
    same p = cc

-- The pool of the addresses.
pick_address :
    (text : List ℕ) (m : PoolMatcher)
    → All (λ e. is_in (codes e.0) text ≡ false) m.tag_index
    → (addresses : List String) → Picks text addresses m (match_address addresses m.address_index)
unfolding match_address
pick_address text m h [] = none_known h tt
pick_address text m h (a ∷ rest) = elim (Option-cases (Dict.get a m.address_index)) [
  | inl e ↦ simp e (later e (pick_address text m h rest))
  | inr (i, e) ↦ simp e (
      paid i h
        (record { before = []; address = a; after = rest; split = refl; absent = tt; present = e }))
]
  where
    later :
        {r : PoolMatch}
        → Dict.get a m.address_index ≡ none
        → Picks text rest m r
        → Picks text (a ∷ rest) m r
    later e (tagged info t) = tagged info t
    later e (paid info u w) = paid info u (record {
      before = a ∷ w.before;
      address = w.address;
      after = w.after;
      split = ap (λ l. a ∷ l) w.split;
      absent = (e, w.absent);
      present = w.present;
    })
    later e (none_known u v) = none_known u (e, v)

-- The pool of a block is that of the first tag of the index that its coinbase text has; where it has none,
-- that of the first of its payout addresses that the index knows; else it is unknown.
pub match-Picks :
    (coinbase_hex : Option String) (addresses : List String) (m : PoolMatcher)
    → Picks (coinbase_hex_to_ascii coinbase_hex) addresses m (match coinbase_hex addresses m)
unfolding match
match-Picks coinbase_hex addresses m =
    let text = coinbase_hex_to_ascii coinbase_hex in
    elim (Option-cases (match_tag text m.tag_index)) [
      | inl e ↦ simp e (pick_address text m (match_tag-none text m.tag_index e) addresses)
      | inr (i, e) ↦ simp e (tagged i (match_tag-some text m.tag_index i e))
    ]
