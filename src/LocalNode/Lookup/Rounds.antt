-- ===== src/LocalNode/Lookup/Rounds.antt =====
-- A lookup of nodes has two rounds at most.
use sniffdogsniff.Shared.{
  ℕ, ◌≡◌, ◌≢◌, refl, sym, ap, subst, ◌∙◌, Bool, true, ◌||◌, Option, none, some, List, [], ◌∷◌, ◌++◌,
  take, sort, sort-All, All, All-append, All-take, arith, inl, inr, Bool-cases, Option-cases,
}
use sniffdogsniff.Shared.Optional.{◌>>=◌}
use sniffdogsniff.Shared.Bytes.{bytes_eq}
use sniffdogsniff.Kad.Id.{KadId, operator_eq}
use sniffdogsniff.Kad.Node.{KadNode, new_node, node_before}
use sniffdogsniff.Kad.Table.{closer}
use sniffdogsniff.Wire.Messages.{FindNodeReply}
use sniffdogsniff.LocalNode.Search.{alpha, insert_node, insert_id}
use sniffdogsniff.LocalNode.Lookup.{
  found_node, discover, Probes, probe, repeated, sort_discovered, Looked, looked, crashed,
  out_of_fuel, after_probe, lookup_rounds,
}

abbrev IsNew : KadNode → Type 0
IsNew n = n.last_seen ≡ 0

-- Every new node counts as probed.
abbrev Full : List KadNode → Type 0
Full ns = (id : KadId) (address : List ℕ) → found_node (new_node id address) ns ≡ true

insert_new-Full : (kn : KadNode) (ns : List KadNode) → IsNew kn → Full (insert_node kn ns)
unfolding insert_node found_node node_before new_node
insert_new-Full kn [] h id address = ground arith
insert_new-Full kn (n ∷ ns) h id address = ground (arith, insert_new-Full kn ns h id address)

insert_node-found_node :
    (kn x : KadNode) (ns : List KadNode)
    → IsNew x
    → found_node x ns ≡ true
    → found_node x (insert_node kn ns) ≡ true
unfolding insert_node found_node node_before
insert_node-found_node kn x [] h f = cc
insert_node-found_node kn x (n ∷ ns) h f = ground (arith, insert_node-found_node kn x ns h)

insert_node-Full : (kn : KadNode) (ns : List KadNode) → Full ns → Full (insert_node kn ns)
unfolding new_node
insert_node-Full kn ns f id address =
    insert_node-found_node kn (new_node id address) ns refl (f id address)

discover-Full :
    (self_node : KadNode) (probed : List KadNode) (m : List (KadId × List ℕ)) (ds : List KadNode)
    → Full probed
    → discover self_node probed m ds ≡ ds
unfolding discover
discover-Full self_node probed [] ds f = refl
discover-Full self_node probed ((id, address) ∷ m) ds f =
    rw (f id address, discover) (discover-Full self_node probed m ds f)

new_node-IsNew : (id : KadId) (address : List ℕ) → IsNew (new_node id address)
unfolding new_node
new_node-IsNew id address = refl

discover-All :
    (self_node : KadNode) (probed : List KadNode) (m : List (KadId × List ℕ)) (ds : List KadNode)
    → All IsNew ds
    → All IsNew (discover self_node probed m ds)
unfolding discover
discover-All self_node probed [] ds h = h
discover-All self_node probed ((id, address) ∷ m) ds h =
    elim (Bool-cases (found_node (new_node id address) probed)) [
      | inl e ↦ rw (e, discover) (discover-All self_node probed m ds h)
      | inr e ↦
          elim (Bool-cases (operator_eq self_node.id id || bytes_eq self_node.address address)) [
            | inl o ↦ rw (e, o, discover) (discover-All self_node probed m ds h)
            | inr o ↦
                rw (e, o, discover)
                  (discover-All self_node probed m (ds ++ (new_node id address ∷ [])) (
                    All-append IsNew ds (new_node id address ∷ []) h
                      (new_node-IsNew id address, tt)))
          ]
    ]

-- What a probe makes of the discovered nodes, when it does not read outside of an array.
abbrev Leaves : (List KadNode → Type 0) → Option Probes → Type 0
Leaves P none = Unit {0}
Leaves P (some p) = P p.discovered

bind-Leaves :
    (P : List KadNode → Type 0) (o : Option (List KadId)) (f : List KadId → Option Probes)
    → ((ks : List KadId) → Leaves P (f ks))
    → Leaves P (o >>= f)
bind-Leaves P none f h = tt
bind-Leaves P (some ks) f h = h ks

probe-All :
    (self_node : KadNode) (ask : KadNode → Option FindNodeReply) (ns : List KadNode) (p : Probes)
    → All IsNew p.discovered
    → Leaves (All IsNew) (probe self_node ask ns p)
unfolding probe
probe-All self_node ask [] p h = h
probe-All self_node ask (n ∷ ns) p h = elim (Option-cases (ask n)) [
  | inl e ↦
      rw (e, probe)
        (bind-Leaves (All IsNew) (insert_id n.id p.failed) _ (λ ks.
          probe-All self_node ask ns
            (record { probed = insert_node n p.probed; failed = ks; discovered = p.discovered }) h))
  | inr (reply, e) ↦
      rw (e, probe)
        (probe-All self_node ask ns
          (record {
            probed = insert_node n p.probed;
            failed = p.failed;
            discovered = discover self_node (insert_node n p.probed) reply.nearest p.discovered;
          })
          (discover-All self_node (insert_node n p.probed) reply.nearest p.discovered h))
]

-- Nothing is discovered once every new node counts as probed.
abbrev Same : List KadNode → List KadNode → Type 0
Same ds es = es ≡ ds

probe-Full :
    (self_node : KadNode) (ask : KadNode → Option FindNodeReply) (ns : List KadNode) (n : KadNode)
    (p : Probes)
    → Full (insert_node n p.probed)
    → Leaves (Same p.discovered) (probe self_node ask (n ∷ ns) p)
unfolding probe
probe-Full self_node ask [] n p f = elim (Option-cases (ask n)) [
  | inl e ↦ rw (e, probe) (bind-Leaves (Same p.discovered) (insert_id n.id p.failed) _ (λ ks. refl))
  | inr (reply, e) ↦
      rw (e, probe) (discover-Full self_node (insert_node n p.probed) reply.nearest p.discovered f)
]
probe-Full self_node ask (m ∷ ns) n p f = elim (Option-cases (ask n)) [
  | inl e ↦
      rw (e, probe)
        (bind-Leaves (Same p.discovered) (insert_id n.id p.failed) _ (λ ks.
          probe-Full self_node ask ns m
            (record { probed = insert_node n p.probed; failed = ks; discovered = p.discovered })
            (insert_node-Full m (insert_node n p.probed) f)))
  | inr (reply, e) ↦
      let same = discover-Full self_node (insert_node n p.probed) reply.nearest p.discovered f in
      rw (e, probe)
        (subst
          (λ ds. Leaves (Same ds) (
            probe self_node ask (m ∷ ns) (record {
              probed = insert_node n p.probed;
              failed = p.failed;
              discovered = discover self_node (insert_node n p.probed) reply.nearest p.discovered;
            })))
          same
          (probe-Full self_node ask ns m
            (record {
              probed = insert_node n p.probed;
              failed = p.failed;
              discovered = discover self_node (insert_node n p.probed) reply.nearest p.discovered;
            })
            (insert_node-Full m (insert_node n p.probed) f)))
]

looked_ends : (p : Probes) → looked p ≢ out_of_fuel
looked_ends p q = cc

crashed_ends : crashed ≢ out_of_fuel
crashed_ends q = cc

after_probe_ends :
    (P : List KadNode → Type 0) (round : Probes → List KadNode → Looked) (target : KadId)
    (o : Option Probes)
    → Leaves P o
    → ((p : Probes) (sorted : List KadNode)
        → P p.discovered
        → sort_discovered target p.discovered ≡ some sorted
        → round p sorted ≢ out_of_fuel)
    → after_probe round target o ≢ out_of_fuel
unfolding after_probe
after_probe_ends P round target none l h = crashed_ends
after_probe_ends P round target (some p) l h =
    elim (Option-cases (sort_discovered target p.discovered)) [
      | inl e ↦ λ q. crashed_ends (sym (rw (e, after_probe) refl) ∙ q)
      | inr (sorted, e) ↦ λ q. h p sorted l e (sym (rw (e, after_probe) refl) ∙ q)
    ]

sort_discovered-All :
    (target : KadId) (ns sorted : List KadNode)
    → All IsNew ns
    → sort_discovered target ns ≡ some sorted
    → All IsNew sorted
unfolding sort_discovered
sort_discovered-All target ns sorted h e = elim (Bool-cases (repeated ns)) [
  | inl r ↦ absurd (apart (sym (rw r refl) ∙ e))
  | inr r ↦
      subst (All IsNew) (injective (sym (rw r refl) ∙ e)) (sort-All (closer target) IsNew ns h)
]
  where
    apart : ◌≡◌ {A = Option (List KadNode)} none (some sorted) → ⊥
    apart q = cc

    injective : {a b : List KadNode} → some a ≡ some b → a ≡ b
    injective q = cc

sort_discovered-nil :
    (target : KadId) (sorted : List KadNode) → sort_discovered target [] ≡ some sorted → sorted ≡ []
unfolding sort_discovered repeated sort
sort_discovered-nil target sorted e = cc

second_round :
    (late : ℕ → Bool) (self_node : KadNode) (ask : KadNode → Option FindNodeReply) (target : KadId)
    (ns : List KadNode) (p : Probes)
    → All IsNew ns
    → lookup_rounds 1 late self_node ask target ns p ≢ out_of_fuel
unfolding lookup_rounds
second_round late self_node ask target [] p h = looked_ends p
second_round late self_node ask target (n ∷ ns) p (h, hs) =
    after_probe_ends (Same []) _ target
      (probe self_node ask (n ∷ ns) (record p { discovered = [] }))
      (probe-Full self_node ask ns n (record p { discovered = [] }) (insert_new-Full n p.probed h))
      (λ p' sorted same e.
        let nothing : sorted ≡ [] =
          sort_discovered-nil target sorted (ap (sort_discovered target) (sym same) ∙ e) in
        elim (Bool-cases (late 0)) [
          | inl l ↦ λ q. looked_ends p' (sym (rw l refl) ∙ q)
          | inr l ↦ λ q. looked_ends p' (sym (rw (l, nothing) refl) ∙ q)
        ])

-- A lookup of nodes ends within two rounds, whatever the nodes answer and whether or not the minute is
-- over before.
pub lookup_rounds_end :
    (late : ℕ → Bool) (self_node : KadNode) (ask : KadNode → Option FindNodeReply) (target : KadId)
    (ns : List KadNode) (p : Probes)
    → lookup_rounds 2 late self_node ask target ns p ≢ out_of_fuel
unfolding lookup_rounds
lookup_rounds_end late self_node ask target [] p = looked_ends p
lookup_rounds_end late self_node ask target (n ∷ ns) p =
    after_probe_ends (All IsNew) _ target
      (probe self_node ask (n ∷ ns) (record p { discovered = [] }))
      (probe-All self_node ask (n ∷ ns) (record p { discovered = [] }) tt)
      (λ p' sorted new e. elim (Bool-cases (late 1)) [
        | inl l ↦ λ q. looked_ends p' (sym (rw l refl) ∙ q)
        | inr l ↦ λ q.
            second_round late self_node ask target (take alpha sorted) p'
              (All-take IsNew alpha sorted (sort_discovered-All target p'.discovered sorted new e))
              (sym (rw l refl) ∙ q)
      ])
