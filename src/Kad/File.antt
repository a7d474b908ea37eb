-- ===== src/Kad/File.antt =====
-- kademlia/kadroutingtable.cpp, readFile and writeFile, on a machine that stores numbers with the
-- lowest byte first, with 4 bytes for int and 8 for time_t. The file is the list of its bytes; opening
-- it succeeds, and so does each fwrite.
pub mod RoundTrip
use sniffdogsniff.Shared.{
  ℕ, zero, suc, ◌+◌, ◌-◌, ◌^◌, Bool, true, false, List, [], ◌∷◌, ◌++◌, length, take, drop,
}
use sniffdogsniff.Shared.{ltb, leb, ◌==◌, if◌then◌else◌}
use sniffdogsniff.Kad.Id.{KadId, kad_id_length, kad_id_bit_length}
use sniffdogsniff.Kad.Node.{KadNode, new_node}
use sniffdogsniff.Kad.Bucket.{KadBucket, empty_bucket}
use sniffdogsniff.Kad.Table.{KadTable}
use sniffdogsniff.Wire.Buf.{le_bytes, le_value}

-- How a part of the reading ends: `short` is the return of -1, `fault` a write behind the end of `buf`.
-- `negative` is a number that C reads as less than 0, for which a node of the model has no room.
pub data Status : Type 0 where
  done : Status
  short : Status
  fault : Status
  negative : Status

-- `fread` of `n` bytes: those that it reads, the rest of the file, and whether it read all of them.
abbrev pub fread : ℕ → List ℕ → List ℕ × List ℕ × Bool
fread n file = (take n file, drop n file, leb n (length file))

unfoldable pub up_to_nul : List ℕ → List ℕ
up_to_nul [] = []
up_to_nul (c ∷ s) = let rest = up_to_nul s in if c == 0 then [] else c ∷ rest

unfoldable pub write_node : KadNode → List ℕ
write_node kn =
    kn.id.id
    ++ (le_bytes 2 (length kn.address)
        ++ (kn.address ++ (le_bytes 8 kn.last_seen ++ le_bytes 4 kn.stales)))

unfoldable pub write_nodes : List KadNode → List ℕ
write_nodes [] = []
write_nodes (kn ∷ ns) = write_node kn ++ write_nodes ns

unfoldable pub write_bucket : KadBucket → List ℕ
write_bucket b =
    (le_bytes 4 (length b.nodes) ++ write_nodes b.nodes)
    ++ (le_bytes 4 (length b.replacement_nodes) ++ write_nodes b.replacement_nodes)

unfoldable pub write_buckets : List KadBucket → List ℕ
write_buckets [] = []
write_buckets (b ∷ bs) = write_bucket b ++ write_buckets bs

unfoldable pub write_file : KadTable → List ℕ
write_file t = t.self_node.id.id ++ write_buckets t.buckets

-- The last two numbers of a node; the rest of the file goes on.
unfoldable pub read_counts : KadId → List ℕ → List ℕ → Status × List KadNode × List ℕ
read_counts id address file =
    if leb 8 (length file)
    then (let file' = drop 8 file in
        let seen = le_value (take 8 file) in
        let stales = le_value (take 4 file') in
        if leb 4 (length file')
        then (if ltb seen (2 ^ 63)
            then (if ltb stales (2 ^ 31)
                then (
                  done,
                  record { id = id; address = up_to_nul address; last_seen = seen; stales = stales }
                      ∷ [],
                  drop 4 file',
                )
                else (negative, [], []))
            else (negative, [], []))
        else (short, [], []))
    else (short, [], [])

-- `buf` has room for 512 bytes, and a 0 is written behind the address: an address of 512 bytes does not
-- fit, and one that is longer is read over the end.
unfoldable pub read_address : KadId → List ℕ → Status × List KadNode × List ℕ
read_address id file =
    if leb 2 (length file)
    then (let file' = drop 2 file in
        let n = le_value (take 2 file) in
        if n == 0
        then (short, [], [])
        else if ltb 512 (length (take n file'))
        then (fault, [], [])
        else if leb n (length file')
        then (if ltb n 512 then read_counts id (take n file') (drop n file') else (fault, [], []))
        else (short, [], []))
    else (short, [], [])

-- One round of the loop over `j`: the node as a list of one, or of none when it is given up.
unfoldable pub read_node : List ℕ → Status × List KadNode × List ℕ
read_node file =
    if leb 16 (length file)
    then read_address (record { id = take 16 file }) (drop 16 file)
    else (short, [], [])

unfoldable pub read_nodes : ℕ → List ℕ → List KadNode → Status × List KadNode × List ℕ
read_nodes zero file ns = (done, ns, file)
read_nodes (suc left) file ns =
    let r = read_node file in
    let rest = read_nodes left r.2 (ns ++ r.1) in
    elim r.0 [
      | done ↦ rest
      | short ↦ (short, ns, [])
      | fault ↦ (fault, ns, [])
      | negative ↦ (negative, ns, [])
    ]

-- `nodesCount` and its nodes; no round is made for a negative count.
unfoldable pub read_list : List ℕ → Status × List KadNode × List ℕ
read_list file =
    if leb 4 (length file)
    then (let n = le_value (take 4 file) in
        if ltb n (2 ^ 31) then read_nodes n (drop 4 file) [] else (done, [], drop 4 file))
    else (short, [], [])

-- One round of the loop over `i`. What has been read of the bucket stays when the reading is given up.
unfoldable pub read_bucket : ℕ → List ℕ → Status × KadBucket × List ℕ
read_bucket i file =
    let r = read_list file in
    let q = read_list r.2 in
    elim r.0 [
      | done ↦ (q.0, record { height = i; nodes = r.1; replacement_nodes = q.1 }, q.2)
      | short ↦ (short, record { height = i; nodes = r.1; replacement_nodes = [] }, [])
      | fault ↦ (fault, record { height = i; nodes = r.1; replacement_nodes = [] }, [])
      | negative ↦ (negative, record { height = i; nodes = r.1; replacement_nodes = [] }, [])
    ]

-- The loop over `i`: the buckets behind the one where the reading is given up stay as they were.
unfoldable pub read_buckets : ℕ → List ℕ → List KadBucket → Status × List KadBucket
read_buckets i file [] = (done, [])
read_buckets i file (old ∷ olds) =
    let r = read_bucket i file in
    let rest = read_buckets (suc i) r.2 olds in
    elim r.0 [
      | done ↦ (rest.0, r.1 ∷ rest.1)
      | short ↦ (short, r.1 ∷ olds)
      | fault ↦ (fault, r.1 ∷ olds)
      | negative ↦ (negative, r.1 ∷ olds)
    ]

-- The own identifier is overwritten as far as the file goes.
unfoldable pub read_file : List ℕ → KadTable → Status × KadTable
read_file file t =
    let self' = record (t.self_node) {
      id = record { id = take 16 file ++ drop (length file) t.self_node.id.id };
    } in
    let r = read_buckets 0 (drop 16 file) t.buckets in
    if leb 16 (length file)
    then (r.0, record { self_node = self'; buckets = r.1 })
    else (short, record t { self_node = self' })
