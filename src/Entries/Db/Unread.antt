-- ===== src/Entries/Db/Unread.antt =====
-- The entries that a search reads from the database.
use sniffdogsniff.Shared.{
  ℕ, zero, suc, ◌+◌, ◌-◌, ◌^◌, ◌≤◌, ◌<◌, ◌≡◌, refl, ap, true, false, Option, none, some, List, [],
  ◌∷◌, ◌++◌, map, length, length-append, drop, replicate, length-replicate, arith, leb, ◌==◌,
}
use sniffdogsniff.Kad.Id.{kad_id_length}
use sniffdogsniff.Wire.Outcome.{ok, fault}
use sniffdogsniff.Wire.Buf.{
  Buf, ◌>>=◌, new_buf, cells, allocate, resize, store, write, write_at, from_bytes, available,
  fetch, scan, read, read_bytes, read_string,
}
use sniffdogsniff.Wire.Buf.Views.{length-cells}
use sniffdogsniff.Entries.Entry.{SearchEntry, read_search_entry}
use sniffdogsniff.Shared.{Option-cases, inl, inr}
use sniffdogsniff.Text.{tokenize}
use sniffdogsniff.Entries.SimHash.Init.{init, delimiters, punctuation}
use sniffdogsniff.Entries.Db.{Database, Db, default_entry, read_stored, search_entries, do_search}

-- The buffer that the constructor makes of a byte array: the position is at its end.
abbrev filled : List ℕ → Buf
filled d = record {
  buffer_size = 0 + length d;
  capacity = 0 + length d;
  pos = 0 + length d;
  buffer = some (map some d ++ []);
}

store_filled :
    (d : List ℕ) (n : ℕ) → n ≡ length d → store 0 d (replicate n none) ≡ some (map some d ++ [])
unfolding store
store_filled d n e =
    let room : leb (0 + length d) (length (replicate {A = Option ℕ} n none)) ≡ true =
      ground (arith, length-replicate {A = Option ℕ} n none) in
    rw room (ap (λ t. some (map some d ++ t)) (dropped (0 + length d) n (omega arith)))
  where
    dropped : (k n : ℕ) → n ≤ k → drop k (replicate {A = Option ℕ} n none) ≡ []
    dropped zero zero le = refl
    dropped zero (suc n) le = absurd (omega arith)
    dropped (suc k) zero le = refl
    dropped (suc k) (suc n) le = dropped k n (omega arith)

write-filled : (d : List ℕ) → write d new_buf ≡ ok (tt, filled d)
unfolding write resize allocate write_at new_buf
write-filled d =
    ap
      (λ (o : Option (List (Option ℕ))). elim o [
        | none ↦ fault
        | some cs ↦ ok (
          tt,
          record {
            buffer_size = 0 + length d;
            capacity = 0 + length d;
            pos = 0 + length d;
            buffer = some cs;
          },
        )
      ])
      (store_filled d (0 + length d) (omega arith))

from_bytes_lem : (d : List ℕ) → from_bytes d ≡ ok (filled d)
unfolding from_bytes
from_bytes_lem d = rw (write-filled d, from_bytes) refl

-- An identifier is not read at the end, a string there is empty, and the next one is read behind it.
read_at_end : (n : ℕ) (b : Buf) → 0 < n → available b ≡ 0 → read_bytes n b ≡ ok (none, b)
unfolding read_bytes read
read_at_end n b pos e =
    let some_bytes : (0 == n) ≡ false = ground arith in
    let short : leb n (available b) ≡ false = ground arith in rw (some_bytes, short) refl

read_string_at_end :
    (b : Buf) → available b ≡ 0 → read_string b ≡ ok ([], record b { pos = b.pos + 0 + 1 })
unfolding read_string scan fetch
read_string_at_end b e = rw (e, read_string, scan, fetch) refl

read_string_behind :
    (b : Buf) (k : ℕ)
    → available b ≡ suc k
    → drop (b.pos + 1) (cells b.buffer) ≡ []
    → read_string b ≡ fault
unfolding read_string scan
read_string_behind b k e f = rw (e, f, read_string, scan) refl

read_search_entry_faults :
    (sha256 : List ℕ → List ℕ) (old : SearchEntry) (b b' : Buf)
    → read_bytes kad_id_length b ≡ ok (none, b)
    → read_string b ≡ ok ([], b')
    → read_string b' ≡ fault
    → read_search_entry sha256 old b ≡ fault
unfolding read_search_entry
read_search_entry_faults sha256 old b b' e f g = rw (e, ◌>>=◌, f, g) refl

drop_end : {A : Type 0} (n : ℕ) (xs : List A) → length xs ≤ n → drop n xs ≡ []
drop_end zero [] le = refl
drop_end zero (x ∷ xs) le = absurd (omega arith)
drop_end (suc n) [] le = refl
drop_end (suc n) (x ∷ xs) le = drop_end n xs (omega arith)

-- The entry that a search or a broadcast reads from the database is read behind the end of its buffer,
-- whatever is stored: the buffer was not rewound.
pub read_stored_faults :
    (D : Database) (sha256 : List ℕ → List ℕ) (d : List ℕ) → read_stored D sha256 d ≡ fault
unfolding read_stored
read_stored_faults D sha256 d =
    let b : Buf = filled d in
    let b' : Buf = record b { pos = b.pos + 0 + 1 } in
    let none_left : available b ≡ 0 = omega arith in
    let wrapped : available b' ≡ suc (2 ^ 64 - 2) = omega arith in
    let behind : drop (b'.pos + 1) (cells b'.buffer) ≡ [] =
      drop_end (b'.pos + 1) (map some d ++ [])
        (omega (arith, length-append (map {B = Option ℕ} some d) [], length-cells d)) in
    let faults =
      read_search_entry_faults sha256 (default_entry sha256) b b'
        (read_at_end kad_id_length b (omega arith) none_left) (read_string_at_end b none_left)
        (read_string_behind b' (2 ^ 64 - 2) wrapped behind) in
    rw (from_bytes_lem d, faults, read_stored) refl

-- Every search in a database that has an entry reads behind the end of a buffer, or earlier outside of
-- a text of the query: it never ends well.
pub do_search_faults :
    (D : Database) (sha256 : List ℕ → List ℕ) (entries : List SearchEntry) (query k d : List ℕ)
    (es : List (List ℕ × List ℕ)) (db : Db D sha256) (s : D.Store)
    → db.store ≡ some s
    → D.scan s ≡ (k, d) ∷ es
    → do_search D sha256 entries query db ≡ fault
unfolding do_search search_entries
do_search_faults D sha256 entries query k d es db s e f =
    elim (Option-cases (tokenize query delimiters punctuation)) [
      | inl t ↦ rw (e, t, do_search) refl
      | inr (tokens, t) ↦ elim (Option-cases (init tokens)) [
        | inl h ↦ rw (e, t, h, do_search) refl
        | inr (hash, h) ↦
            rw (e, t, h, do_search, f, search_entries, read_stored_faults D sha256 d) refl
      ]
    ]
