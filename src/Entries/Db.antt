-- ===== src/Entries/Db.antt =====
-- sds_core/searchentriesdb.h and searchentriesdb.cpp. Berkeley DB is a parameter; creating the handle
-- and opening a cursor succeed, and the cursor ends with DB_NOTFOUND. Times are seconds, and those that
-- `time` returns are arguments.
pub mod Unread
pub mod Insert
use sniffdogsniff.Shared.{
  ℕ, zero, suc, ◌+◌, ◌-◌, ◌≡◌, Bool, true, false, ◌&&◌, Option, none, some, List, [], ◌∷◌, ◌++◌,
  length, take, replicate,
}
use sniffdogsniff.Shared.{ltb, leb, ◌==◌, if◌then◌else◌}
use sniffdogsniff.Kad.Id.{KadId}
use sniffdogsniff.Text.{tokenize}
use sniffdogsniff.Wire.Outcome.{Outcome, ok, fault, hang}
use sniffdogsniff.Wire.Buf.{Buf, new_buf, from_bytes, le_value, fetch, cells, rewind}
use sniffdogsniff.Entries.Entry.{
  SearchEntry, new_search_entry, has_valid_size, write_search_entry, read_search_entry,
}
use sniffdogsniff.Entries.Entry.Query.{matches_query}
use sniffdogsniff.Entries.SimHash.{SimHash, distance}
use sniffdogsniff.Entries.SimHash.Init.{init, delimiters, punctuation}

-- The handle of Berkeley DB, opened with DB_THREAD: `put` fails with an error code, `none`; the cursor
-- visits the entries of `scan`; `get` is what is stored, and `get_unflagged` what the call of that name
-- returns for a DBT without a flag for its memory.
pub record Database : Type 1 where
  pub Store : Type 0
  pub get : List ℕ → Store → Option (List ℕ)
  pub put : List ℕ → List ℕ → Store → Option Store
  pub get_unflagged : List ℕ → Store → Option (List ℕ)
  pub del : List ℕ → Store → Store
  pub scan : Store → List (List ℕ × List ℕ)
  -- An entry that was put is found.
  pub get-put :
      (key data' : List ℕ) (s s' : Store) → put key data' s ≡ some s' → get key s' ≡ some data'
  -- Such a DBT is refused on a handle that threads share.
  pub get_refused : (key : List ℕ) (s : Store) → get_unflagged key s ≡ none

abbrev pub unix_hour : ℕ
unix_hour = 3600

abbrev pub unix_day : ℕ
unix_day = 86400

abbrev pub minimum_simhash_distance : ℕ
minimum_simhash_distance = 48

-- How a method ends: what it returns, an exception, or an access outside of its memory.
pub data Exit (A : Type 0) : Type 0 where
  returned : A → Exit A
  thrown : Exit A
  faulted : Exit A

-- `Hash::operator<`: the first eight bytes as a number.
unfoldable pub hash_lt : List ℕ → List ℕ → Bool
hash_lt a b = ltb (le_value (take 8 a)) (le_value (take 8 b))

-- `timestamps[hash] = now`: hashes whose first eight bytes agree are the same key.
unfoldable pub set_time : List ℕ → ℕ → List (List ℕ × ℕ) → List (List ℕ × ℕ)
set_time hash now [] = (hash, now) ∷ []
set_time hash now ((h, t) ∷ m) =
    if hash_lt h hash
    then (h, t) ∷ set_time hash now m
    else if hash_lt hash h
    then (hash, now) ∷ (h, t) ∷ m
    else (h, now) ∷ m

-- The default constructor of an entry; the similarity hash of the empty text has no bit set.
abbrev pub default_entry : (List ℕ → List ℕ) → SearchEntry
default_entry sha256 = new_search_entry sha256 (record { id = replicate 16 0 }) [] [] 0 []

module _ (D : Database) (sha256 : List ℕ → List ℕ) where
  open D use {Store, get_unflagged, put, del, scan}

  -- `dbp` is null or an open handle.
  pub record Db : Type 0 where
    pub timestamps : List (List ℕ × ℕ)
    pub store : Option Store

  -- The first entry of the timestamps that is a day old.
  unfoldable pub first_expired : ℕ → List (List ℕ × ℕ) → Option (List ℕ)
  first_expired now [] = none
  first_expired now ((h, t) ∷ m) = if leb unix_day (now - t) then some h else first_expired now m

  -- The loop compares its iterator with the end after `erase` has made it invalid: a fault.
  unfoldable pub modified : ℕ → Db → Exit (Unit {0}) × Db
  modified now db = elim (first_expired now db.timestamps) [
    | none ↦ (returned tt, db)
    | some h ↦ (faulted, db)
  ]

  -- The timestamps of the keys that the cursor visits.
  unfoldable pub load_times : ℕ → List (List ℕ × List ℕ) → List (List ℕ × ℕ) → List (List ℕ × ℕ)
  load_times now [] times = times
  load_times now ((k, d) ∷ es) times = load_times now es (set_time k now times)

  unfoldable pub open_db : Store → ℕ → Db → Exit (Unit {0}) × Db
  open_db s now db =
      let r = modified now (record db { store = some s }) in
      elim r.0 [
        | returned u ↦ (
          returned tt,
          record { timestamps = load_times now (scan s) r.1.timestamps; store = r.1.store },
        )
        | thrown ↦ (thrown, r.1)
        | faulted ↦ (faulted, r.1)
      ]

  -- The bytes of a buffer, as `put` reads them.
  unfoldable pub written_entry : SearchEntry → Outcome (List ℕ)
  written_entry se = elim (write_search_entry se new_buf) [
    | ok (u, b) ↦ elim (fetch b.buffer_size (cells b.buffer)) [ none ↦ fault | some bs ↦ ok bs ]
    | fault ↦ fault
    | hang ↦ hang
  ]

  -- `put` of the written entry and `modified`, when the timestamp has been set.
  unfoldable pub put_entry : SearchEntry → ℕ → Store → Db → Exit (Unit {0}) × Db
  put_entry se now s db = elim (written_entry se) [
    | ok bs ↦ elim (put se.hash bs s) [
      | none ↦ (thrown, db)
      | some s' ↦ modified now (record db { store = some s' })
    ]
    | fault ↦ (faulted, db)
    | hang ↦ (faulted, db)
  ]

  -- `key.data` points into a temporary of `getHash` whose life is over; its bytes are taken to be still
  -- there when `put` reads them.
  unfoldable pub insert_result : SearchEntry → ℕ → ℕ → Db → Exit (Unit {0}) × Db
  insert_result se now now' db = elim db.store [
    | none ↦ (returned tt, db)
    | some s ↦
        if has_valid_size se
        then put_entry se now' s (record db { timestamps = set_time se.hash now db.timestamps })
        else (thrown, db)
  ]

  -- `SdsBytesBuf buf(data.data, data.size); se.read(buf);`
  unfoldable pub read_stored : List ℕ → Outcome SearchEntry
  read_stored d = elim (from_bytes d) [
    | ok b ↦ elim (read_search_entry sha256 (default_entry sha256) b) [
      | ok (se, b') ↦ ok se
      | fault ↦ fault
      | hang ↦ hang
    ]
    | fault ↦ fault
    | hang ↦ hang
  ]

  -- The loop over the cursor.
  unfoldable pub search_entries :
      List (List ℕ) → KadId → List (List ℕ × List ℕ) → List SearchEntry → Outcome (List SearchEntry)
  search_entries tokens query_hash [] entries = ok entries
  search_entries tokens query_hash ((k, d) ∷ es) entries = elim (read_stored d) [
    | ok se ↦ search_entries tokens query_hash es (
        if ltb (distance (record { id = se.sim_hash }) (record { id = query_hash }))
            minimum_simhash_distance
          && matches_query tokens se
        then entries ++ (se ∷ [])
        else entries)
    | fault ↦ fault
    | hang ↦ hang
  ]

  -- The handle is used without a test for null.
  unfoldable pub do_search : List SearchEntry → List ℕ → Db → Outcome (List SearchEntry)
  do_search entries query db = elim db.store [
    | none ↦ fault
    | some s ↦ elim (tokenize query delimiters punctuation) [
      | none ↦ fault
      | some tokens ↦ elim (init tokens) [
        | none ↦ fault
        | some query_hash ↦ search_entries tokens query_hash (scan s) entries
      ]
    ]
  ]

  unfoldable pub get_by_hash : List ℕ → Store → Outcome SearchEntry
  get_by_hash hash s = elim (get_unflagged hash s) [
    | none ↦ ok (default_entry sha256)
    | some d ↦ read_stored d
  ]

  -- The loop over the timestamps: what is due, and the timestamps afterwards.
  unfoldable pub collect_due :
      ℕ → Store → List (List ℕ × ℕ) → Outcome (List SearchEntry × List (List ℕ × ℕ))
  collect_due now s [] = ok ([], [])
  collect_due now s ((h, t) ∷ m) =
      let rest = collect_due now s m in
      if leb unix_hour (now - t)
      then elim (get_by_hash h s) [
        | ok se ↦ elim rest [
          | ok (ses, m') ↦ ok (se ∷ ses, (h, now) ∷ m')
          | fault ↦ fault
          | hang ↦ hang
        ]
        | fault ↦ fault
        | hang ↦ hang
      ]
      else elim rest [ ok (ses, m') ↦ ok (ses, (h, t) ∷ m') | fault ↦ fault | hang ↦ hang ]

  -- The entries are appended to the list of the caller.
  unfoldable pub get_entries_for_broadcast :
      List SearchEntry → ℕ → ℕ → Db → Exit (List SearchEntry) × Db
  get_entries_for_broadcast list now now' db = elim db.store [
    | none ↦ (returned list, db)
    | some s ↦ elim (collect_due now s db.timestamps) [
      | ok (ses, m) ↦
          (let r = modified now' (record db { timestamps = m }) in
            elim r.0 [
              | returned u ↦ (returned (list ++ ses), r.1)
              | thrown ↦ (thrown, r.1)
              | faulted ↦ (faulted, r.1)
            ])
      | fault ↦ (faulted, db)
      | hang ↦ (faulted, db)
    ]
  ]
