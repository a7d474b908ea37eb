-- ===== src/P2p/Locked.antt =====
-- The mutex of the local node and the calls of the server.
use sniffdogsniff.Shared.{ℕ, ◌≡◌, refl, ap, ◌∙◌, true, false, some, List}
use sniffdogsniff.Kad.Id.{KadId}
use sniffdogsniff.Wire.Buf.{new_buf}
use sniffdogsniff.Entries.Entry.{SearchEntry, has_valid_size}
use sniffdogsniff.Entries.Db.{Database, Db, Exit, returned, thrown, faulted}
use sniffdogsniff.Entries.Db.Insert.{insert_result_large}
use sniffdogsniff.Run.{
  Op, ◌>>=◌, ◌>>◌, bind_finished, bind_raised, bind_blocked, finished, raised, crashed, blocked,
}
use sniffdogsniff.LocalNode.{LocalNode, lock, unlock, insert, store_result, find_node, find_results}
use sniffdogsniff.P2p.{err_type_argument}
use sniffdogsniff.P2p.Server.{Call, caught}

module _ (D : Database) (sha256 : List ℕ → List ℕ) where
  lock_blocks : (n : LocalNode D sha256) → n.locked ≡ true → lock D sha256 n ≡ blocked
  unfolding lock
  lock_blocks n e = rw e refl

  pub then_blocks :
      {A : Type 0} (f : Unit {0} → Op (LocalNode D sha256) A) (n : LocalNode D sha256)
      → n.locked ≡ true
      → (lock D sha256 >>= f) n ≡ blocked
  then_blocks {A} f n e = bind_blocked (lock D sha256) f n (lock_blocks n e)

  find_node_blocks :
      (id : KadId) (n : LocalNode D sha256) → n.locked ≡ true → find_node D sha256 id n ≡ blocked
  unfolding find_node
  find_node_blocks id n e = then_blocks _ n e

  find_results_blocks :
      (query : List ℕ) (n : LocalNode D sha256)
      → n.locked ≡ true
      → find_results D sha256 query n ≡ blocked
  unfolding find_results
  find_results_blocks query n e = then_blocks _ n e

  pub store_result_blocks :
      (se : SearchEntry) (now now' : ℕ) (n : LocalNode D sha256)
      → n.locked ≡ true
      → store_result D sha256 se now now' n ≡ blocked
  unfolding store_result
  store_result_blocks se now now' n e = then_blocks _ n e

  lock_free :
      (n : LocalNode D sha256)
      → n.locked ≡ false
      → lock D sha256 n ≡ finished tt (record n { locked = true })
  unfolding lock
  lock_free n e = rw e refl

  insert_raises :
      (se : SearchEntry) (now now' : ℕ) (n : LocalNode D sha256) (s : D.Store)
      → n.db.store ≡ some s
      → has_valid_size se ≡ false
      → insert D sha256 se now now' n ≡ raised n
  unfolding insert
  insert_raises se now now' n s f v =
      ap
        (λ (r : Exit (Unit {0}) × Db D sha256). elim r.0 [
          | returned u ↦ finished tt (record n { db = r.1 })
          | thrown ↦ raised (record n { db = r.1 })
          | faulted ↦ crashed
        ])
        (insert_result_large D sha256 se now now' n.db s f v)

  pub store_result_raises :
      (se : SearchEntry) (now now' : ℕ) (n : LocalNode D sha256) (s : D.Store)
      → n.locked ≡ false
      → n.db.store ≡ some s
      → has_valid_size se ≡ false
      → store_result D sha256 se now now' n ≡ raised (record n { locked = true })
  unfolding store_result
  store_result_raises se now now' n s e f v =
      let n' : LocalNode D sha256 = record n { locked = true } in
      bind_finished (lock D sha256) (λ u. insert D sha256 se now now' >> unlock D sha256) n n' tt
        (lock_free n e)
      ∙ bind_raised (insert D sha256 se now now') (λ u. unlock D sha256) n' n'
          (insert_raises se now now' n' s f v)

  -- What the server's handler makes of the local node's storeResult, for an entry that is too large, on
  -- a node whose mutex is free and whose database is open: it catches the exception and gives the error
  -- code for wrong arguments, and afterwards no search for nodes, search for results or insertion of the
  -- node returns, since the mutex stays locked. A ping does not take the mutex.
  pub caught-store_result_large :
      (c : Call) (se : SearchEntry) (now now' : ℕ) (n : LocalNode D sha256) (s : D.Store)
      → n.locked ≡ false
      → n.db.store ≡ some s
      → has_valid_size se ≡ false
      → (n' : LocalNode D sha256) × (caught D sha256 c (store_result D sha256 se now now') n
          ≡ finished (err_type_argument, new_buf) n')
        × ((id : KadId) → find_node D sha256 id n' ≡ blocked)
        × ((query : List ℕ) → find_results D sha256 query n' ≡ blocked)
        × ((se' : SearchEntry) (t t' : ℕ) → store_result D sha256 se' t t' n' ≡ blocked)
  unfolding caught
  caught-store_result_large c se now now' n s e f v =
      let n' : LocalNode D sha256 = record n { locked = true } in
      (
        n',
        rw (store_result_raises se now now' n s e f v, caught) refl,
        λ id. find_node_blocks id n' refl,
        λ query. find_results_blocks query n' refl,
        λ se' t t'. store_result_blocks se' t t' n' refl,
      )
