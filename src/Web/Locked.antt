-- ===== src/Web/Locked.antt =====
-- The handlers of the web interface on the local node, and the mutex of the node.
use sniffdogsniff.Shared.{◌⊎◌, inl, inr, Option-cases, none}
use sniffdogsniff.Shared.{ℕ, ◌≡◌, refl, ap, ◌∙◌, true, false, Option, some, List, []}
use sniffdogsniff.Shared.Codes.{codes}
use sniffdogsniff.Kad.Node.{KadNode}
use sniffdogsniff.Wire.Results.{FindResultsReply}
use sniffdogsniff.Http.{HttpRequest}
use sniffdogsniff.Entries.Entry.{SearchEntry, has_valid_size}
use sniffdogsniff.Entries.SimHash.Init.{of_text}
use sniffdogsniff.Entries.Db.{Database}
use sniffdogsniff.Run.{
  Run, Op, finished, raised, crashed, blocked, aborted, bind_finished, bind_crashed,
}
use sniffdogsniff.LocalNode.{LocalNode, store_result}
use sniffdogsniff.LocalNode.Search.Network.{hash_of, search_network}
use sniffdogsniff.P2p.Locked.{store_result_raises, store_result_blocks, then_blocks}
use sniffdogsniff.Web.{
  Web, WebNode, value_of, is_empty, on_node, error_box, entry_of_request, stored,
  insert_search_entry,
}

module _ (D : Database) (sha256 : List ℕ → List ℕ) (ask : KadNode → Option FindResultsReply)
    (crawl : List SearchEntry) (now now' : ℕ) where
  -- The calls of the local node that the handlers make.
  unfoldable pub local_web : WebNode (LocalNode D sha256)
  local_web = record {
    do_search = λ query. search_network D sha256 ask crawl query now [];
    store_result = λ se. store_result D sha256 se now now';
  }

  -- A search that waits for ever, or that reads outside of its query before it asks for the mutex.
  abbrev pub NeverSearches : List ℕ → LocalNode D sha256 → Type 0
  NeverSearches query n =
      (local_web.do_search query n ≡ blocked)
      ⊎ ((of_text query ≡ none) × (local_web.do_search query n ≡ crashed))

  search_blocks :
      (query : List ℕ) (n : LocalNode D sha256) → n.locked ≡ true → NeverSearches query n
  unfolding local_web search_network hash_of
  search_blocks query n l = elim (Option-cases (of_text query)) [
    | inl e ↦ inr (e, bind_crashed (hash_of D sha256 query) _ n (rw (e, hash_of) refl))
    | inr (id, e) ↦ inl (
        bind_finished (hash_of D sha256 query) _ n n id (rw (e, hash_of) refl)
        ∙ then_blocks D sha256 _ n l)
  ]

  on_node_raised :
      (m : Op (LocalNode D sha256) (Unit {0})) (w : Web (LocalNode D sha256))
      (n : LocalNode D sha256)
      → m w.node ≡ raised n
      → on_node m w ≡ raised (record w { node = n })
  unfolding on_node
  on_node_raised m w n e =
      ap
        (λ (r : Run (LocalNode D sha256) (Unit {0})). elim r [
          | finished b n' ↦ finished b (record w { node = n' })
          | raised n' ↦ raised (record w { node = n' })
          | crashed ↦ crashed
          | blocked ↦ blocked
          | aborted ↦ aborted
        ])
        e

  stored_raised :
      (what : List ℕ) (se : SearchEntry) (w w' : Web (LocalNode D sha256))
      → on_node (local_web.store_result se) w ≡ raised w'
      → stored sha256 local_web what se w ≡ finished (error_box what) w'
  unfolding stored
  stored_raised what se w w' e = rw (e, stored) refl

  -- A form with a title and a url, of which an entry can be made that is too large, on a node whose mutex
  -- is free and whose database is open: the handler writes the text of the error into the page, and the
  -- mutex of the local node stays locked. After that every insertion waits for ever, and so does every
  -- search, but for one whose query cannot be hashed without a read outside of it, which crashes.
  pub insert_search_entry_large :
      (what : List ℕ) (req : HttpRequest) (se : SearchEntry) (w : Web (LocalNode D sha256))
      (s : D.Store)
      → w.node.locked ≡ false
      → w.node.db.store ≡ some s
      → is_empty (value_of (codes "link_title") req.values) ≡ false
      → is_empty (value_of (codes "link_url") req.values) ≡ false
      → entry_of_request sha256 req ≡ some se
      → has_valid_size se ≡ false
      → (w' : Web (LocalNode D sha256)) × (insert_search_entry sha256 local_web what req w
          ≡ finished (error_box what) w')
        × ((query : List ℕ) → NeverSearches query w'.node)
        × ((other : SearchEntry) → local_web.store_result other w'.node ≡ blocked)
  unfolding insert_search_entry local_web
  insert_search_entry_large what req se w s free opened title url e large =
      let n : LocalNode D sha256 = record w.node { locked = true } in
      let w' : Web (LocalNode D sha256) = record w { node = n } in
      let told = stored_raised what se w w' (
        on_node_raised (local_web.store_result se) w n
          (store_result_raises D sha256 se now now' w.node s free opened large)) in
      (
        w',
        rw (title, url, e, insert_search_entry) told,
        λ query. search_blocks query n refl,
        λ other. store_result_blocks D sha256 other now now' n refl,
      )
