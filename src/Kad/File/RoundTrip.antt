-- ===== src/Kad/File/RoundTrip.antt =====
-- The file of the routing table is read as it was written.
use sniffdogsniff.Shared.{
  ℕ, zero, suc, ◌^◌, ◌≤◌, ◌<◌, ◌≡◌, refl, sym, ap, ap₂, ◌∙◌, true, false, List, [], ◌∷◌, ◌++◌,
  append_assoc, append-nil, length, length-append, take, drop, take-length, drop-length, All, arith,
  ltb, leb, ◌==◌,
}
use sniffdogsniff.Kad.Id.{IsKadId}
use sniffdogsniff.Kad.Node.{KadNode}
use sniffdogsniff.Kad.Bucket.{KadBucket}
use sniffdogsniff.Kad.Table.{KadTable}
use sniffdogsniff.Kad.File.{
  Status, done, short, fault, negative, up_to_nul, write_node, write_nodes, write_bucket,
  write_buckets, write_file, read_counts, read_address, read_node, read_nodes, read_list,
  read_bucket, read_buckets, read_file,
}
use sniffdogsniff.Wire.Buf.{le_bytes}
use sniffdogsniff.Wire.Buf.Numbers.{length-le_bytes, le_value-le_bytes}

-- A node that fits the file: its address is not empty, is shorter than 512 bytes and has no 0 in it.
pub record IsStored (kn : KadNode) : Type 0 where
  pub id : IsKadId kn.id
  pub some_address : 0 < length kn.address
  pub short_address : length kn.address < 512
  pub address : All (λ c. 0 < c) kn.address
  pub seen : kn.last_seen < 2 ^ 63
  pub stales : kn.stales < 2 ^ 31

pub record IsStoredBucket (i : ℕ) (b : KadBucket) : Type 0 where
  pub height : b.height ≡ i
  pub few : length b.nodes < 2 ^ 31
  pub nodes : All IsStored b.nodes
  pub few_replacements : length b.replacement_nodes < 2 ^ 31
  pub replacements : All IsStored b.replacement_nodes

-- The buckets of the heights from `i` on.
abbrev pub Stored : ℕ → List KadBucket → Type 0
Stored i [] = Unit {0}
Stored i (b ∷ bs) = IsStoredBucket i b × Stored (suc i) bs

fits : (k : ℕ) (xs ys : List ℕ) → length xs ≡ k → leb k (length (xs ++ ys)) ≡ true
fits k xs ys e = ground (arith, length-append xs ys)

taken : (k : ℕ) (xs ys : List ℕ) → length xs ≡ k → take k (xs ++ ys) ≡ xs
taken k xs ys e = ap (λ n. take n (xs ++ ys)) (sym e) ∙ take-length xs ys

dropped : (k : ℕ) (xs ys : List ℕ) → length xs ≡ k → drop k (xs ++ ys) ≡ ys
dropped k xs ys e = ap (λ n. drop n (xs ++ ys)) (sym e) ∙ drop-length xs ys

up_to_nul_all : (s : List ℕ) → All (λ c. 0 < c) s → up_to_nul s ≡ s
unfolding up_to_nul
up_to_nul_all [] h = refl
up_to_nul_all (c ∷ s) (p, h) =
    let test : (c == 0) ≡ false = ground arith in rw test (ap (λ t. c ∷ t) (up_to_nul_all s h))

read_counts_lem :
    (kn : KadNode) (rest : List ℕ)
    → IsStored kn
    → read_counts kn.id kn.address (le_bytes 8 kn.last_seen ++ (le_bytes 4 kn.stales ++ rest))
      ≡ (done, kn ∷ [], rest)
unfolding read_counts
read_counts_lem kn rest h =
    let seen = le_bytes 8 kn.last_seen in
    let stales = le_bytes 4 kn.stales in
    let l8 = length-le_bytes 8 kn.last_seen in
    let l4 = length-le_bytes 4 kn.stales in
    let small : ltb kn.last_seen (2 ^ 63) ≡ true = ground (arith, h.seen) in
    let small' : ltb kn.stales (2 ^ 31) ≡ true = ground (arith, h.stales) in
    rw
      (
        fits 8 seen (stales ++ rest) l8,
        dropped 8 seen (stales ++ rest) l8,
        taken 8 seen (stales ++ rest) l8,
        fits 4 stales rest l4,
        taken 4 stales rest l4,
        dropped 4 stales rest l4,
        le_value-le_bytes 8 kn.last_seen (omega (arith, h.seen)),
        le_value-le_bytes 4 kn.stales (omega (arith, h.stales)),
        small,
        small',
        up_to_nul_all kn.address h.address,
      )
      refl

read_address_lem :
    (kn : KadNode) (tail : List ℕ)
    → IsStored kn
    → read_address kn.id (le_bytes 2 (length kn.address) ++ (kn.address ++ tail))
      ≡ read_counts kn.id kn.address tail
unfolding read_address
read_address_lem kn tail h =
    let size = le_bytes 2 (length kn.address) in
    let l2 = length-le_bytes 2 (length kn.address) in
    let some_bytes : (length kn.address == 0) ≡ false = ground (arith, h.some_address) in
    let no_overflow : ltb 512 (length kn.address) ≡ false = ground (arith, h.short_address) in
    let room : ltb (length kn.address) 512 ≡ true = ground (arith, h.short_address) in
    rw
      (
        fits 2 size (kn.address ++ tail) l2,
        dropped 2 size (kn.address ++ tail) l2,
        taken 2 size (kn.address ++ tail) l2,
        le_value-le_bytes 2 (length kn.address) (omega (arith, h.short_address)),
        some_bytes,
        taken (length kn.address) kn.address tail refl,
        no_overflow,
        fits (length kn.address) kn.address tail refl,
        room,
        dropped (length kn.address) kn.address tail refl,
      )
      refl

regroup :
    (a b c d e rest : List ℕ)
    → (a ++ (b ++ (c ++ (d ++ e)))) ++ rest ≡ a ++ (b ++ (c ++ (d ++ (e ++ rest))))
regroup a b c d e rest = simp append_assoc

read_node-write_node :
    (kn : KadNode) (rest : List ℕ)
    → IsStored kn
    → read_node (write_node kn ++ rest) ≡ (done, kn ∷ [], rest)
unfolding read_node write_node
read_node-write_node kn rest h =
    let counts = le_bytes 8 kn.last_seen ++ (le_bytes 4 kn.stales ++ rest) in
    let tail = le_bytes 2 (length kn.address) ++ (kn.address ++ counts) in
    ap read_node (
      regroup kn.id.id (le_bytes 2 (length kn.address)) kn.address (le_bytes 8 kn.last_seen)
        (le_bytes 4 kn.stales) rest)
    ∙ rw
        (
          fits 16 kn.id.id tail h.id.size,
          dropped 16 kn.id.id tail h.id.size,
          taken 16 kn.id.id tail h.id.size,
          read_node,
        )
        (read_address_lem kn counts h ∙ read_counts_lem kn rest h)

-- One round of each loop, where the reading goes on.
nodes_step :
    (left : ℕ) (file rest : List ℕ) (acc : List KadNode) (kn : KadNode)
    → read_node file ≡ (done, kn ∷ [], rest)
    → read_nodes (suc left) file acc ≡ read_nodes left rest (acc ++ (kn ∷ []))
unfolding read_nodes
nodes_step left file rest acc kn e =
    ap
      (λ (r : Status × List KadNode × List ℕ). elim r.0 [
        | done ↦ read_nodes left r.2 (acc ++ r.1)
        | short ↦ (short, acc, [])
        | fault ↦ (fault, acc, [])
        | negative ↦ (negative, acc, [])
      ])
      e

bucket_step :
    (i : ℕ) (file rest rest' : List ℕ) (ns rs : List KadNode)
    → read_list file ≡ (done, ns, rest)
    → read_list rest ≡ (done, rs, rest')
    → read_bucket i file ≡ (done, record { height = i; nodes = ns; replacement_nodes = rs }, rest')
unfolding read_bucket
bucket_step i file rest rest' ns rs e f =
    ap
      (λ (r : Status × List KadNode × List ℕ). elim r.0 [
        | done ↦ (
          (read_list r.2).0,
          record { height = i; nodes = r.1; replacement_nodes = (read_list r.2).1 },
          (read_list r.2).2,
        )
        | short ↦ (short, record { height = i; nodes = r.1; replacement_nodes = [] }, [])
        | fault ↦ (fault, record { height = i; nodes = r.1; replacement_nodes = [] }, [])
        | negative ↦ (negative, record { height = i; nodes = r.1; replacement_nodes = [] }, [])
      ])
      e
    ∙ ap
        (λ (q : Status × List KadNode × List ℕ).
          (q.0, record { height = i; nodes = ns; replacement_nodes = q.1 }, q.2))
        f

buckets_step :
    (i : ℕ) (file rest : List ℕ) (b old : KadBucket) (olds bs : List KadBucket)
    → read_bucket i file ≡ (done, b, rest)
    → read_buckets (suc i) rest olds ≡ (done, bs)
    → read_buckets i file (old ∷ olds) ≡ (done, b ∷ bs)
unfolding read_buckets
buckets_step i file rest b old olds bs e f =
    ap
      (λ (r : Status × KadBucket × List ℕ). elim r.0 [
        | done ↦ ((read_buckets (suc i) r.2 olds).0, r.1 ∷ (read_buckets (suc i) r.2 olds).1)
        | short ↦ (short, r.1 ∷ olds)
        | fault ↦ (fault, r.1 ∷ olds)
        | negative ↦ (negative, r.1 ∷ olds)
      ])
      e
    ∙ ap (λ (q : Status × List KadBucket). (q.0, b ∷ q.1)) f

read_nodes-write_nodes :
    (ns acc : List KadNode) (rest : List ℕ)
    → All IsStored ns
    → read_nodes (length ns) (write_nodes ns ++ rest) acc ≡ (done, acc ++ ns, rest)
unfolding read_nodes write_nodes
read_nodes-write_nodes [] acc rest h = ap (λ ms. (done, ms, rest)) (sym (append-nil acc))
read_nodes-write_nodes (kn ∷ ns) acc rest (h, hs) =
    ap (λ f. read_nodes (suc (length ns)) f acc)
      (append_assoc (write_node kn) (write_nodes ns) rest)
    ∙ nodes_step (length ns) (write_node kn ++ (write_nodes ns ++ rest)) (write_nodes ns ++ rest)
        acc kn (read_node-write_node kn (write_nodes ns ++ rest) h)
    ∙ read_nodes-write_nodes ns (acc ++ (kn ∷ [])) rest hs
    ∙ ap (λ ms. (done, ms, rest)) (append_assoc acc (kn ∷ []) ns)

read_list-write_nodes :
    (ns : List KadNode) (rest : List ℕ)
    → length ns < 2 ^ 31
    → All IsStored ns
    → read_list ((le_bytes 4 (length ns) ++ write_nodes ns) ++ rest) ≡ (done, ns, rest)
unfolding read_list
read_list-write_nodes ns rest few h =
    let size = le_bytes 4 (length ns) in
    let l4 = length-le_bytes 4 (length ns) in
    let tail = write_nodes ns ++ rest in
    let small : ltb (length ns) (2 ^ 31) ≡ true = ground arith in
    ap read_list (append_assoc size (write_nodes ns) rest)
    ∙ rw
        (
          fits 4 size tail l4,
          dropped 4 size tail l4,
          taken 4 size tail l4,
          le_value-le_bytes 4 (length ns) (omega arith),
          small,
          read_list,
        )
        (read_nodes-write_nodes ns [] rest h)

read_bucket-write_bucket :
    (i : ℕ) (b : KadBucket) (rest : List ℕ)
    → IsStoredBucket i b
    → read_bucket i (write_bucket b ++ rest) ≡ (done, b, rest)
unfolding read_bucket write_bucket
read_bucket-write_bucket i b rest h =
    let first = le_bytes 4 (length b.nodes) ++ write_nodes b.nodes in
    let second = le_bytes 4 (length b.replacement_nodes) ++ write_nodes b.replacement_nodes in
    ap (read_bucket i) (append_assoc first second rest)
    ∙ bucket_step i (first ++ (second ++ rest)) (second ++ rest) rest b.nodes b.replacement_nodes
        (read_list-write_nodes b.nodes (second ++ rest) h.few h.nodes)
        (read_list-write_nodes b.replacement_nodes rest h.few_replacements h.replacements)
    ∙ ap (λ k. (done, record b { height = k }, rest)) (sym h.height)

read_buckets-write_buckets :
    (i : ℕ) (bs olds : List KadBucket) (rest : List ℕ)
    → Stored i bs
    → length olds ≡ length bs
    → read_buckets i (write_buckets bs ++ rest) olds ≡ (done, bs)
unfolding read_buckets write_buckets
read_buckets-write_buckets i [] [] rest h e = refl
read_buckets-write_buckets i [] (old ∷ olds) rest h e = absurd (omega arith)
read_buckets-write_buckets i (b ∷ bs) [] rest h e = absurd (omega arith)
read_buckets-write_buckets i (b ∷ bs) (old ∷ olds) rest (h, hs) e =
    ap (λ f. read_buckets i f (old ∷ olds)) (append_assoc (write_bucket b) (write_buckets bs) rest)
    ∙ buckets_step i (write_bucket b ++ (write_buckets bs ++ rest)) (write_buckets bs ++ rest) b old
        olds bs (read_bucket-write_bucket i b (write_buckets bs ++ rest) h)
        (read_buckets-write_buckets (suc i) bs olds rest hs (omega arith))

-- The file that `writeFile` makes of a table is read by `readFile` as the identifier and the buckets of
-- the table, whatever the table held that reads it, as long as that has as many buckets. The own
-- identifiers have 16 bytes, the buckets are in the order of their heights, and their nodes fit the
-- file.
pub read_file-write_file :
    (t old : KadTable)
    → IsKadId t.self_node.id
    → IsKadId old.self_node.id
    → Stored 0 t.buckets
    → length old.buckets ≡ length t.buckets
    → read_file (write_file t) old ≡ (
      done,
      record { self_node = record (old.self_node) { id = t.self_node.id }; buckets = t.buckets },
    )
unfolding read_file write_file
read_file-write_file t old h k s e =
    rw
      (
        fits 16 t.self_node.id.id (write_buckets t.buckets) h.size,
        dropped 16 t.self_node.id.id (write_buckets t.buckets) h.size,
        taken 16 t.self_node.id.id (write_buckets t.buckets) h.size,
      )
      (ap₂
        (λ (s : List ℕ) (r : Status × List KadBucket). (
          r.0,
          record { self_node = record (old.self_node) { id = record { id = s } }; buckets = r.1 },
        ))
        (ap (λ u. t.self_node.id.id ++ u)
            (drop_past_end _ old.self_node.id.id (
              omega
                (arith, length-append t.self_node.id.id (write_buckets t.buckets), h.size, k.size)))
          ∙ append-nil t.self_node.id.id)
        (ap (λ f. read_buckets 0 f old.buckets) (sym (append-nil (write_buckets t.buckets)))
          ∙ read_buckets-write_buckets 0 t.buckets old.buckets [] s e))
  where
    drop_past_end : (n : ℕ) (xs : List ℕ) → length xs ≤ n → drop n xs ≡ []
    drop_past_end zero [] le = refl
    drop_past_end zero (x ∷ xs) le = absurd (omega arith)
    drop_past_end (suc n) [] le = refl
    drop_past_end (suc n) (x ∷ xs) le = drop_past_end n xs (omega arith)
