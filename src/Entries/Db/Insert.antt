-- ===== src/Entries/Db/Insert.antt =====
-- What `insertResult` stores.
use sniffdogsniff.Shared.{
  ℕ, ◌-◌, ◌^◌, ◌≤◌, ◌<◌, ◌≡◌, refl, ap, ◌∙◌, Bool, true, false, Option, none, some, List, [], ◌∷◌,
  length, All, arith, leb, if◌then◌else◌,
}
use sniffdogsniff.Wire.Outcome.{ok}
use sniffdogsniff.Wire.Buf.{new_buf}
use sniffdogsniff.Wire.Buf.Views.{new_buf-Writing}
use sniffdogsniff.Wire.Buf.Trips.{RoundTrip, fetch-Writing}
use sniffdogsniff.Entries.Entry.{SearchEntry, has_valid_size, write_search_entry, read_search_entry}
use sniffdogsniff.Entries.Entry.RoundTrip.{
  IsEntry, entry_bytes, entry-Writes, has_valid_size_lem, read_search_entry-write_search_entry,
}
use sniffdogsniff.Entries.Db.{
  Database, Db, returned, thrown, faulted, unix_day, set_time, first_expired, modified,
  written_entry, put_entry, insert_result,
}

-- Younger than a day.
abbrev pub IsYoung : ℕ → List ℕ × ℕ → Type 0
IsYoung now e = now - e.1 < unix_day

if_true : {A : Type 0} → {b : Bool} → (x y : A) → b ≡ true → (if b then x else y) ≡ x
if_true {A} {b} x y e = ap (λ (t : Bool). if t then x else y) e

if_false : {A : Type 0} → {b : Bool} → (x y : A) → b ≡ false → (if b then x else y) ≡ y
if_false {A} {b} x y e = ap (λ (t : Bool). if t then x else y) e

fits_size :
    (sha256 : List ℕ → List ℕ) (se : SearchEntry)
    → IsEntry sha256 se
    → has_valid_size se ≡ true
    → length (entry_bytes se) ≤ 2 ^ 63
fits_size sha256 se h v = omega (arith, has_valid_size_lem se h.sim_hash v, h.few)

module _ (D : Database) (sha256 : List ℕ → List ℕ) where
  written_entry-bytes :
      (se : SearchEntry)
      → IsEntry sha256 se
      → has_valid_size se ≡ true
      → written_entry D sha256 se ≡ ok (entry_bytes se)
  unfolding written_entry
  written_entry-bytes se h v =
      let (b, e, w) =
        entry-Writes se h.sim_hash new_buf [] new_buf-Writing
          (omega (arith, fits_size sha256 se h v)) in
      rw (e, fetch-Writing b (entry_bytes se) w, written_entry) refl

  none_expired :
      (now : ℕ) (m : List (List ℕ × ℕ)) → All (IsYoung now) m → first_expired D sha256 now m ≡ none
  unfolding first_expired
  none_expired now [] h = refl
  none_expired now ((k, t) ∷ m) (y, h) =
      let young : leb unix_day (now - t) ≡ false = ground arith in rw young (none_expired now m h)

  young_modified :
      (now : ℕ) (db : Db D sha256)
      → All (IsYoung now) db.timestamps
      → modified D sha256 now db ≡ (returned tt, db)
  unfolding modified
  young_modified now db y =
      ap (λ (o : Option (List ℕ)). elim o [ none ↦ (returned tt, db) | some h ↦ (faulted, db) ])
        (none_expired now db.timestamps y)

  young_put_entry :
      (se : SearchEntry) (now : ℕ) (s s' : D.Store) (db : Db D sha256)
      → IsEntry sha256 se
      → has_valid_size se ≡ true
      → D.put se.hash (entry_bytes se) s ≡ some s'
      → All (IsYoung now) db.timestamps
      → put_entry D sha256 se now s db
        ≡ (returned tt, record { timestamps = db.timestamps; store = some s' })
  unfolding put_entry
  young_put_entry se now s s' db h v p y =
      rw (written_entry-bytes se h v, put_entry, p)
        (young_modified now (record { timestamps = db.timestamps; store = some s' }) y)

  open_insert_result :
      (se : SearchEntry) (now now' : ℕ) (db : Db D sha256) (s : D.Store)
      → db.store ≡ some s
      → insert_result D sha256 se now now' db ≡ (
          if has_valid_size se
          then put_entry D sha256 se now' s
              (record { timestamps = set_time se.hash now db.timestamps; store = db.store })
          else (thrown, db))
  unfolding insert_result
  open_insert_result se now now' db s e =
      ap
        (λ (o : Option D.Store). elim o [
          | none ↦ (returned tt, db)
          | some s ↦
              if has_valid_size se
              then put_entry D sha256 se now' s
                  (record { timestamps = set_time se.hash now db.timestamps; store = db.store })
              else (thrown, db)
        ])
        e

  -- An entry of valid size that can be sent is inserted into an open database whose `put` succeeds, with
  -- no timestamp that is a day old: its timestamp is set, and the bytes that are stored under its hash
  -- are those that are read as the entry from a rewound buffer.
  pub insert_result_lem :
      (se : SearchEntry) (now now' : ℕ) (db : Db D sha256) (s s' : D.Store)
      → db.store ≡ some s
      → IsEntry sha256 se
      → has_valid_size se ≡ true
      → D.put se.hash (entry_bytes se) s ≡ some s'
      → All (IsYoung now') (set_time se.hash now db.timestamps)
      → (insert_result D sha256 se now now' db ≡ (
        returned tt,
        record { timestamps = set_time se.hash now db.timestamps; store = some s' },
      ))
        × (D.get se.hash s' ≡ some (entry_bytes se))
        × ((old : SearchEntry)
            → RoundTrip (write_search_entry se) (read_search_entry sha256 old) se)
  insert_result_lem se now now' db s s' e h v p y = (
    open_insert_result se now now' db s e
        ∙ if_true _ _ v
        ∙ young_put_entry se now' s s'
            (record { timestamps = set_time se.hash now db.timestamps; store = db.store }) h v p y,
    D.get-put se.hash (entry_bytes se) s s' p,
    λ old. read_search_entry-write_search_entry sha256 old se h (fits_size sha256 se h v),
  )

  -- An entry that is too large is refused with an exception, and nothing changes.
  pub insert_result_large :
      (se : SearchEntry) (now now' : ℕ) (db : Db D sha256) (s : D.Store)
      → db.store ≡ some s
      → has_valid_size se ≡ false
      → insert_result D sha256 se now now' db ≡ (thrown, db)
  insert_result_large se now now' db s e v = open_insert_result se now now' db s e ∙ if_false _ _ v
