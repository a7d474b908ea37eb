-- ===== src/LocalNode/Search/Rounds.antt =====
-- The rounds of a search end, and which replies they use.
use sniffdogsniff.Shared.{
  ℕ, zero, suc, ◌<◌, ◌≡◌, ◌≢◌, refl, sym, ap, subst, ◌∙◌, true, false, Option, none, some, List, [],
  ◌∷◌, length, leb, ltb, ◌==◌, arith, inl, inr, Bool-cases, Option-cases,
}
use sniffdogsniff.Kad.Id.{IsKadId, operator_lt, value}
use sniffdogsniff.Kad.Id.Value.{operator_lt-value}
use sniffdogsniff.Kad.Node.{KadNode, node_before}
use sniffdogsniff.Wire.Results.{FindResultsReply}
use sniffdogsniff.LocalNode.Search.{
  alpha, next_node, Futures, set_future, Search, collect, Searched, searched, crashed, out_of_fuel,
  go_on, rounds, rounds_from, all_rounds,
}

next_node-earlier :
    (cur n : KadNode) (ns : List KadNode) → next_node cur ns ≡ some n → n.last_seen < cur.last_seen
unfolding next_node node_before
next_node-earlier cur n [] e = cc
next_node-earlier cur n (m ∷ ns) e = elim (Bool-cases (ltb m.last_seen cur.last_seen)) [
  | inl l ↦
      let same : m ≡ n = injective (sym (rw l refl) ∙ e) in
      subst (λ (k : KadNode). k.last_seen < cur.last_seen) same (ground arith)
  | inr l ↦ next_node-earlier cur n ns (sym (rw l refl) ∙ e)
]
  where
    injective : {a b : KadNode} → some a ≡ some b → a ≡ b
    injective q = cc

searched_ends : (s : Search) → searched s ≢ out_of_fuel
searched_ends s q = cc

go_on_ends :
    (round : KadNode → Searched) (ikn : KadNode) (s : Search)
    → ((n : KadNode) → n.last_seen < ikn.last_seen → round n ≢ out_of_fuel)
    → go_on round ikn s ≢ out_of_fuel
unfolding go_on
go_on_ends round ikn s h = elim (Option-cases (next_node ikn s.target_nodes)) [
  | inl e ↦ λ q. searched_ends s (sym (rw (e, go_on) refl) ∙ q)
  | inr (n, e) ↦ λ q. h n (next_node-earlier ikn n s.target_nodes e) (sym (rw (e, go_on) refl) ∙ q)
]

crashed_ends : crashed ≢ out_of_fuel
crashed_ends q = cc

-- As many rounds as the time last seen of the first node, and one more, are enough.
rounds_end :
    (fuel : ℕ) (ask : KadNode → Option FindResultsReply) (ikn : KadNode) (fs : Futures) (s : Search)
    → ikn.last_seen < fuel
    → rounds fuel ask ikn fs s ≢ out_of_fuel
unfolding rounds
rounds_end zero ask ikn fs s lt = absurd (omega arith)
rounds_end (suc fuel) ask ikn fs s lt = elim (Option-cases (set_future ikn.id (ask ikn) fs)) [
  | inl e ↦ λ q. crashed_ends (sym (rw (e, rounds) refl) ∙ q)
  | inr (fs', e) ↦ elim (Bool-cases (leb alpha (length fs'))) [
    | inl full ↦ elim (Option-cases (collect fs' s)) [
      | inl f ↦ λ q. crashed_ends (sym (rw (e, full, f, rounds) refl) ∙ q)
      | inr (s', f) ↦ λ q.
          go_on_ends (λ n. rounds fuel ask n [] s') ikn s'
            (λ n l. rounds_end fuel ask n [] s' (omega arith))
            (sym (rw (e, full, f, rounds) refl) ∙ q)
    ]
    | inr few ↦ λ q.
        go_on_ends (λ n. rounds fuel ask n fs' s) ikn s
          (λ n l. rounds_end fuel ask n fs' s (omega arith)) (sym (rw (e, few, rounds) refl) ∙ q)
  ]
]

rounds_from_ends :
    (ask : KadNode → Option FindResultsReply) (s : Search) (ns : List KadNode)
    → rounds_from ask s ns ≢ out_of_fuel
unfolding rounds_from
rounds_from_ends ask s [] = λ q. searched_ends s q
rounds_from_ends ask s (n ∷ ns) = rounds_end (suc n.last_seen) ask n [] s (omega arith)

-- The loop over the target nodes ends, whatever the other nodes answer.
pub all_rounds_end :
    (ask : KadNode → Option FindResultsReply) (s : Search) → all_rounds ask s ≢ out_of_fuel
unfolding all_rounds
all_rounds_end ask s = rounds_from_ends ask s s.target_nodes

rounds_short :
    (fuel : ℕ) (ask : KadNode → Option FindResultsReply) (ikn : KadNode) (fs fs' : Futures)
    (s : Search)
    → ikn.last_seen < fuel
    → set_future ikn.id (ask ikn) fs ≡ some fs'
    → leb alpha (length fs') ≡ false
    → (k : ℕ) × (fuel ≡ suc k)
      × (rounds fuel ask ikn fs s ≡ go_on (λ n. rounds k ask n fs' s) ikn s)
unfolding rounds
rounds_short zero ask ikn fs fs' s lt e f = absurd (omega arith)
rounds_short (suc k) ask ikn fs fs' s lt e f = (k, refl, rw (rounds, e, f) refl)

go_on_last :
    (round : KadNode → Searched) (ikn : KadNode) (s : Search)
    → next_node ikn s.target_nodes ≡ none
    → go_on round ikn s ≡ searched s
unfolding go_on
go_on_last round ikn s e =
    ap (λ (o : Option KadNode). elim o [ none ↦ searched s | some n ↦ round n ]) e

go_on_next :
    (round : KadNode → Searched) (ikn n : KadNode) (s : Search)
    → next_node ikn s.target_nodes ≡ some n
    → go_on round ikn s ≡ round n
unfolding go_on
go_on_next round ikn n s e =
    ap (λ (o : Option KadNode). elim o [ none ↦ searched s | some n ↦ round n ]) e

-- A set of two nodes at most.
abbrev pub IsPair : List KadNode → Type 0
IsPair [] = Unit {0}
IsPair (n ∷ []) = Unit {0}
IsPair (n ∷ m ∷ []) =
    IsKadId n.id × IsKadId m.id × ((value n.id == value m.id) ≡ false) × (m.last_seen < n.last_seen)
IsPair (n ∷ m ∷ k ∷ ns) = ⊥

rounds_from_pair :
    (ask : KadNode → Option FindResultsReply) (s : Search) (ns : List KadNode)
    → s.target_nodes ≡ ns
    → IsPair ns
    → rounds_from ask s ns ≡ searched s
unfolding rounds_from set_future next_node node_before
rounds_from_pair ask s [] t h = refl
rounds_from_pair ask s (n ∷ []) t h =
    let (k, e, f) =
      rounds_short (suc n.last_seen) ask n [] ((n.id, ask n) ∷ []) s (omega arith) refl refl in
    let last : next_node n (n ∷ []) ≡ none = ground arith in
    f ∙ go_on_last _ n s (ap (next_node n) t ∙ last)
rounds_from_pair ask s (n ∷ m ∷ []) t (hn, hm, ne, lt) =
    let (k, e, f) =
      rounds_short (suc n.last_seen) ask n [] ((n.id, ask n) ∷ []) s (omega arith) refl refl in
    let next : next_node n (n ∷ m ∷ []) ≡ some m = ground arith in
    let last : next_node m (n ∷ m ∷ []) ≡ none = ground arith in
    let (fs, g, short) = two_futures in
    let (k', e', f') = rounds_short k ask m ((n.id, ask n) ∷ []) fs s (omega arith) g short in
    f
    ∙ go_on_next _ n m s (ap (next_node n) t ∙ next)
    ∙ f'
    ∙ go_on_last _ m s (ap (next_node m) t ∙ last)
  where
    two_futures :
        (fs : Futures) × (set_future m.id (ask m) ((n.id, ask n) ∷ []) ≡ some fs)
        × (leb alpha (length fs) ≡ false)
    two_futures = elim (Bool-cases (ltb (value n.id) (value m.id))) [
      | inl l ↦
          let test : operator_lt n.id m.id ≡ some true =
            operator_lt-value n.id m.id hn hm ∙ rw (ne, l) refl in
          ((n.id, ask n) ∷ (m.id, ask m) ∷ [], rw (set_future, test) refl, refl)
      | inr l ↦
          let test : operator_lt n.id m.id ≡ some false =
            operator_lt-value n.id m.id hn hm ∙ rw (ne, l) refl in
          ((m.id, ask m) ∷ (n.id, ask n) ∷ [], rw (set_future, test) refl, refl)
    ]
rounds_from_pair ask s (n ∷ m ∷ k ∷ ns) t h = elim h [ ]

-- With two target nodes at most, of different identifiers of 16 bytes and different times last seen, the
-- loop changes nothing, whatever they answer: their results are not collected, and neither failures
-- nor answers without results are noted.
pub all_rounds_pair :
    (ask : KadNode → Option FindResultsReply) (s : Search)
    → IsPair s.target_nodes
    → all_rounds ask s ≡ searched s
unfolding all_rounds
all_rounds_pair ask s h = rounds_from_pair ask s s.target_nodes refl h
