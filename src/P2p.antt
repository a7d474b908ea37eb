-- ===== src/P2p.antt =====
-- The headers of p2p/p2p_common.h and the loop that receives the body of a message, which
-- p2p/sdsp2pserver.cpp and p2p/sdsp2pclient.cpp share. What `recv` returns is an explicit sequence:
-- the bytes of one call, or `none` for the error -1; after the last one it returns 0. The host is
-- little-endian.
pub mod Server
pub mod Client
pub mod Receive
pub mod Calls
pub mod EndToEnd
pub mod Locked
pub mod Listen
pub mod Connection
use sniffdogsniff.Shared.{
  ℕ, ◌+◌, ◌-◌, ◌%◌, Bool, true, false, Option, none, some, List, [], ◌∷◌, ◌++◌, length, take, drop,
  ◌==◌, if◌then◌else◌,
}
use sniffdogsniff.Wire.Outcome.{Outcome, ok, fault, hang}
use sniffdogsniff.Wire.Buf.{
  Buf, M, size_mod, new_buf, allocate, rewind, write_bytes, le_bytes, le_value,
}

abbrev pub err_null : ℕ
err_null = 0

abbrev pub err_recv_request : ℕ
err_recv_request = 1

abbrev pub err_req_id : ℕ
err_req_id = 2

abbrev pub err_nofunct : ℕ
err_nofunct = 4

abbrev pub err_type_argument : ℕ
err_type_argument = 5

abbrev pub func_ping : ℕ
func_ping = 100

abbrev pub func_find_node : ℕ
func_find_node = 101

abbrev pub func_store_result : ℕ
func_store_result = 102

abbrev pub func_find_results : ℕ
func_find_results = 103

-- The bytes of the field `id` are only copied and compared.
pub record MessageRequestHeader : Type 0 where
  pub funcode : ℕ
  pub id : List ℕ
  pub datasize : ℕ

pub record MessageResponseHeader : Type 0 where
  pub funcode : ℕ
  pub errcode : ℕ
  pub id : List ℕ
  pub datasize : ℕ

abbrev pub request_size : ℕ
request_size = 17

abbrev pub response_size : ℕ
response_size = 18

unfoldable pub request_bytes : MessageRequestHeader → List ℕ
request_bytes req = req.funcode ∷ (req.id ++ le_bytes 8 req.datasize)

unfoldable pub response_bytes : MessageResponseHeader → List ℕ
response_bytes resp = resp.funcode ∷ resp.errcode ∷ (resp.id ++ le_bytes 8 resp.datasize)

-- The bytes of a header, received into the packed structure; `none` unless all of them came.
unfoldable pub request_of : List ℕ → Option MessageRequestHeader
request_of [] = none
request_of (f ∷ bs) =
    if length (f ∷ bs) == request_size
    then some (record { funcode = f; id = take 8 bs; datasize = le_value (drop 8 bs) })
    else none

unfoldable pub response_of : List ℕ → Option MessageResponseHeader
response_of [] = none
response_of (f ∷ []) = none
response_of (f ∷ e ∷ bs) =
    if length (f ∷ e ∷ bs) == response_size
    then some (record { funcode = f; errcode = e; id = take 8 bs; datasize = le_value (drop 8 bs) })
    else none

-- `while ((recvi = recv(fd, buffer, sizeof(buffer), 0)) > 0) { ... }`: the bytes that are missing at its
-- end, and the buffer. The error -1 is a positive size_t, for which bytes behind `buffer` are copied.
unfoldable pub receive_loop : ℕ → List (Option (List ℕ)) → Buf → Outcome (ℕ × Buf)
receive_loop left [] b = ok (left, b)
receive_loop left (none ∷ answers) b = fault
receive_loop left (some [] ∷ answers) b = ok (left, b)
receive_loop left (some (x ∷ bs) ∷ answers) b = elim (write_bytes (x ∷ bs) b) [
  | ok (u, b') ↦
      let left' = (left + size_mod - length (x ∷ bs)) % size_mod in
      let rest = receive_loop left' answers b' in if left' == 0 then ok (left', b') else rest
  | fault ↦ fault
  | hang ↦ hang
]

-- The body of a message of `size` bytes in a new buffer.
unfoldable pub receive : ℕ → List (Option (List ℕ)) → Outcome (ℕ × Buf)
receive size answers =
    if size == 0
    then ok (0, new_buf)
    else elim (receive_loop size answers (allocate size new_buf)) [
      | ok (left, b) ↦ ok (left, rewind b)
      | fault ↦ fault
      | hang ↦ hang
    ]
