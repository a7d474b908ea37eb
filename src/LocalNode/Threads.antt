-- ===== src/LocalNode/Threads.antt =====
-- The thread that a ping starts, and what the calls leave behind.
use sniffdogsniff.Shared.{
  ℕ, ◌≡◌, refl, ap, ◌∙◌, Bool, true, false, Option, none, some, List, inl, inr, Bool-cases, arith,
}
use sniffdogsniff.Kad.Id.{KadId, IsKadId}
use sniffdogsniff.Kad.Node.{new_node}
use sniffdogsniff.Kad.Bucket.Invariant.{IsFresh}
use sniffdogsniff.Kad.Table.{KadTable, has_node}
use sniffdogsniff.Kad.Table.Invariant.{IsTable, push_node-IsTable}
use sniffdogsniff.Entries.Db.{Database}
use sniffdogsniff.Run.{◌>>=◌, bind_finished, finished, crashed}
use sniffdogsniff.LocalNode.{LocalNode, lock, unlock, push, ping_thread}

-- A well-formed table, and a mutex that is free.
pub record IsLocalNode (D : Database) (sha256 : List ℕ → List ℕ) (n : LocalNode D sha256)
    : Type 0 where
  pub table : IsTable n.table
  pub free : n.locked ≡ false

module _ (D : Database) (sha256 : List ℕ → List ℕ) where
  new_node-IsFresh : (id : KadId) (address : List ℕ) → IsFresh (new_node id address)
  unfolding new_node
  new_node-IsFresh id address = omega arith

  push_lem :
      (now : ℕ) (id : KadId) (address : List ℕ) (n : LocalNode D sha256)
      → IsTable n.table
      → IsKadId id
      → (t : KadTable) × (push D sha256 now (new_node id address) n
          ≡ finished tt (record n { table = t }))
        × IsTable t
  unfolding push new_node
  push_lem now id address n v h =
      let (found, t, e, v') =
        push_node-IsTable now (new_node id address) n.table v h (new_node-IsFresh id address) in
      (
        t,
        ap
            (λ (o : Option (Bool × KadTable)). elim o [
              | none ↦ crashed
              | some r ↦ finished tt (record n { table = r.1 })
            ])
            e,
        v',
      )

  pushed_lem :
      (now : ℕ) (id : KadId) (address : List ℕ) (n : LocalNode D sha256)
      → IsLocalNode D sha256 n
      → IsKadId id
      → (n' : LocalNode D sha256) × ((lock D sha256 >>= λ u.
              push D sha256 now (new_node id address) >>= λ u. unlock D sha256)
            n
          ≡ finished tt n')
        × IsLocalNode D sha256 n'
  unfolding lock unlock
  pushed_lem now id address n v h =
      let n1 : LocalNode D sha256 = record n { locked = true } in
      let (t, e, v') = push_lem now id address n1 v.table h in
      (
        record { table = t; db = n.db; locked = false },
        bind_finished (lock D sha256)
              (λ u. push D sha256 now (new_node id address) >>= λ u. unlock D sha256) n n1 tt
              (rw (v.free, lock) refl)
            ∙ bind_finished (push D sha256 now (new_node id address)) (λ u. unlock D sha256) n1
                (record n1 { table = t }) tt e,
        record { table = v'; free = refl },
      )

  -- The thread of a ping, with an identifier of 16 bytes and whether or not the other node answers,
  -- finishes, and leaves a well-formed table and a free mutex when it found them.
  pub ping_thread-IsLocalNode :
      (answered : Bool) (now : ℕ) (id : KadId) (address : List ℕ) (n : LocalNode D sha256)
      → IsLocalNode D sha256 n
      → IsKadId id
      → (n' : LocalNode D sha256) × (ping_thread D sha256 answered now id address n
          ≡ finished tt n')
        × IsLocalNode D sha256 n'
  unfolding ping_thread
  ping_thread-IsLocalNode answered now id address n v h =
      elim (Bool-cases (has_node (new_node id address) n.table)) [
        | inl known ↦ (n, rw (ping_thread, known) refl, v)
        | inr unknown ↦ elim (Bool-cases answered) [
          | inl e ↦
              let (n', f, v') = pushed_lem now id address n v h in
              (n', rw (ping_thread, unknown, e) f, v')
          | inr e ↦ (n, rw (ping_thread, unknown, e) refl, v)
        ]
      ]
