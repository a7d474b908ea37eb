-- ===== src/Entries/SimHash.antt =====
-- sds_core/simhash.h and simhash.cpp: the distance of two similarity hashes, and their reading and
-- writing.
pub mod Distance
pub mod Init
use sniffdogsniff.Shared.{ℕ, zero, suc, ◌+◌, ◌-◌, bit_and, List, [], ◌∷◌, ◌==◌, if◌then◌else◌}
use sniffdogsniff.Kad.Id.{KadId, kad_id_length, operator_minus}
use sniffdogsniff.Wire.Buf.{Buf, M, ◌>>=◌, pure, write_bytes, read_bytes}
use sniffdogsniff.Wire.Messages.{kept}

pub record SimHash : Type 0 where
  pub id : KadId

-- `for (n = ...; n; hamming++) n &= n - 1;` on an unsigned char, with fuel.
unfoldable pub clear_bits : ℕ → ℕ → ℕ → ℕ
clear_bits zero n hamming = hamming
clear_bits (suc fuel) n hamming =
    let rest = clear_bits fuel (bit_and n (n - 1)) (hamming + 1) in if n == 0 then hamming else rest

-- A byte has eight bits to clear at most.
unfoldable pub hamming_from : List ℕ → ℕ → ℕ
hamming_from [] hamming = hamming
hamming_from (b ∷ bs) hamming = hamming_from bs (clear_bits 8 b hamming)

unfoldable pub distance : SimHash → SimHash → ℕ
distance a b = hamming_from (operator_minus a.id b.id).id 0

unfoldable pub write_sim_hash : SimHash → M (Unit {0})
write_sim_hash h = write_bytes h.id.id

unfoldable pub read_sim_hash : SimHash → M SimHash
read_sim_hash old = do bs ← read_bytes kad_id_length; pure (record { id = kept old.id bs })
