-- ===== src/Net/Stun.antt =====
-- net/stun.c: messages of the protocol STUN and the request for the address under which a host is seen.
-- The host is little-endian; memory outside of what was received is a fault.
pub mod RoundTrip
pub mod Bind
use sniffdogsniff.Shared.{
  ℕ, zero, suc, ◌+◌, ◌*◌, ◌/◌, ◌%◌, ◌^◌, Bool, true, false, ◌&&◌, ◌||◌, not, Option, none, some,
  List, [], ◌∷◌, ◌++◌, replicate, length, take, drop, bit_and, bit_xor, ltb, leb, ◌==◌,
  if◌then◌else◌,
}
use sniffdogsniff.Wire.Outcome.{Outcome, ok, fault, hang, ◌>>=◌}
use sniffdogsniff.Wire.Buf.{le_bytes, le_value}
use sniffdogsniff.Net.Connect.{Calls, Connected, net_socket_connect}

pub record Header : Type 0 where
  pub msg_class : ℕ
  pub method : ℕ
  pub msg_len : ℕ
  pub magic_cookie : ℕ
  pub txid : List ℕ

-- The length of a value is kept with it, in 16 bits.
pub record Attribute : Type 0 where
  pub attr_type : ℕ
  pub value : List ℕ

-- The array of the attributes of a message; a new one is not allocated.
pub record MessageAttributes : Type 0 where
  pub allocated : Bool
  pub attrs_capacity : ℕ
  pub attrs : List Attribute

abbrev pub stun_header_len : ℕ
stun_header_len = 20

abbrev pub success_response : ℕ
success_response = 0x0100

abbrev pub mapped_addr : ℕ
mapped_addr = 0x0001

abbrev pub xor_mapped_addr : ℕ
xor_mapped_addr = 0x0020

abbrev pub no_attributes : MessageAttributes
no_attributes = record { allocated = false; attrs_capacity = 0; attrs = [] }

unfoldable pub grown : MessageAttributes → ℕ
grown m = if m.allocated && leb (length m.attrs) m.attrs_capacity then m.attrs_capacity * 2 else 2

-- The capacity is an `int`, whose overflow is a fault.
unfoldable pub add_attribute : Attribute → MessageAttributes → Outcome MessageAttributes
add_attribute a m =
    if ltb (grown m) (2 ^ 31) && ltb (length m.attrs) (grown m)
    then ok (record { allocated = true; attrs_capacity = grown m; attrs = m.attrs ++ (a ∷ []) })
    else fault

unfoldable pub first_of_type : ℕ → List Attribute → Option Attribute
first_of_type t [] = none
first_of_type t (a ∷ as') = if a.attr_type == t then some a else first_of_type t as'

unfoldable pub message_get_attribute : MessageAttributes → ℕ → Option Attribute
message_get_attribute m t = first_of_type t m.attrs

-- `htons` and `htonl` of a number, as bytes of the memory.
unfoldable pub be16 : ℕ → List ℕ
be16 n = (n / 256 % 256) ∷ (n % 256) ∷ []

unfoldable pub be32 : ℕ → List ℕ
be32 n = be16 (n / 65536) ++ be16 n

unfoldable pub write_header : Header → List ℕ
write_header h = be16 h.method ++ (be16 h.msg_len ++ (be32 0x2112A442 ++ h.txid))

-- The type keeps the order of the bytes of the host.
unfoldable pub write_attribute : Attribute → List ℕ
write_attribute a =
    le_bytes 2 a.attr_type
    ++ (be16 (length a.value) ++ (a.value ++ replicate (length a.value % 4) 0))

unfoldable pub write_attributes : List Attribute → List ℕ
write_attributes [] = []
write_attributes (a ∷ as') = write_attribute a ++ write_attributes as'

unfoldable pub write_message : Header → MessageAttributes → List ℕ
write_message h m =
    let body = write_attributes m.attrs in
    write_header (record h { msg_len = length body % 65536 }) ++ body

-- The first field keeps the order of the bytes of the message, as does the cookie.
unfoldable pub read_header : List ℕ → Option Header
read_header (a ∷ b ∷ c ∷ d ∷ e ∷ f ∷ g ∷ h ∷ bs) =
    if leb 12 (length bs)
    then some (record {
      msg_class = bit_and (le_value (a ∷ b ∷ [])) 0x0110;
      method = bit_and (le_value (a ∷ b ∷ [])) 0xfeef;
      msg_len = c * 256 + d;
      magic_cookie = le_value (e ∷ f ∷ g ∷ h ∷ []);
      txid = take 12 bs;
    })
    else none
read_header _ = none

-- A value is followed by as many bytes as its length leaves over 4. Each round takes four bytes or more,
-- so that the number of the bytes is enough fuel.
unfoldable pub read_attributes : ℕ → List ℕ → MessageAttributes → Outcome MessageAttributes
read_attributes fuel [] m = ok m
read_attributes (suc fuel) (t ∷ u ∷ k ∷ l ∷ bs) m =
    let n = k * 256 + l in
    let rest : MessageAttributes → Outcome MessageAttributes =
      read_attributes fuel (drop (n + n % 4) bs) in
    if leb n (length bs)
    then add_attribute (record { attr_type = t * 256 + u; value = take n bs }) m >>= rest
    else fault
read_attributes _ _ m = fault

unfoldable pub read_message_attributes : List ℕ → MessageAttributes → Outcome MessageAttributes
read_message_attributes bs m = read_attributes (length bs) bs m

pub record SockAddr : Type 0 where
  pub sin_family : ℕ
  pub sin_port : ℕ
  pub s_addr : ℕ

abbrev pub family_of : ℕ → ℕ
family_of f = if f == 2 then 10 else 2

-- The family, the port and the address at the places where they stand in the value.
unfoldable pub read_value : List ℕ → Outcome SockAddr
read_value (_ ∷ f ∷ p ∷ q ∷ a ∷ b ∷ c ∷ d ∷ _) = ok (record {
  sin_family = family_of f;
  sin_port = le_value (p ∷ q ∷ []);
  s_addr = le_value (a ∷ b ∷ c ∷ d ∷ []);
})
read_value _ = fault

-- The address, with whether the call returned 0.
unfoldable pub get_mapped_address : MessageAttributes → SockAddr → Outcome (Bool × SockAddr)
get_mapped_address m addr = elim (message_get_attribute m mapped_addr) [
  | none ↦ ok (false, addr)
  | some a ↦ read_value a.value >>= λ found. ok (true, found)
]

-- The port is that of the caller's address, not the one of the attribute. The call returns -1 always.
unfoldable pub get_xor_mapped_address : ℕ → MessageAttributes → SockAddr → Outcome SockAddr
get_xor_mapped_address cookie m addr = elim (message_get_attribute m xor_mapped_addr) [
  | none ↦ ok addr
  | some a ↦ read_value a.value >>= λ found. ok (record {
    sin_family = found.sin_family;
    sin_port = bit_xor addr.sin_port (le_value (be16 (cookie / 65536)));
    s_addr = bit_xor found.s_addr (le_value (be32 cookie));
  })
]

abbrev pub bind_header : Header
bind_header = record {
  msg_class = 0;
  method = 1;
  msg_len = 0;
  magic_cookie = 0x2112A442;
  txid = 97 ∷ 97 ∷ 97 ∷ 52 ∷ 52 ∷ 52 ∷ 101 ∷ 101 ∷ 101 ∷ 114 ∷ 114 ∷ 114 ∷ [];
}

abbrev pub bind_message : List ℕ
bind_message = write_message bind_header no_attributes

-- What the attributes say; with `recv`'s error -1 the end lies before the buffer, and none is read.
unfoldable pub read_answer : Header → Option (List ℕ) → SockAddr → Outcome (Bool × SockAddr)
read_answer h none addr = ok (false, addr)
read_answer h (some bs) addr = read_message_attributes (take h.msg_len bs) no_attributes >>= λ m.
    get_mapped_address m addr >>= λ r.
    if r.0 then ok r else get_xor_mapped_address h.magic_cookie m r.1 >>= λ found. ok (false, found)

-- A header that did not come whole has bytes that were never written.
unfoldable pub after_header : Option Header → Option (List ℕ) → SockAddr → Outcome (Bool × SockAddr)
after_header none second addr = fault
after_header (some h) second addr =
    if h.msg_class == success_response
    then if ltb 0 h.msg_len then read_answer h second addr else ok (true, addr)
    else ok (false, addr)

-- `first` and `second` are what the two calls of `recv` find. The result says whether 0 is returned.
unfoldable pub bind_exchange :
    Option (List ℕ) → Option (List ℕ) → SockAddr → Outcome (Bool × SockAddr)
bind_exchange none second addr = fault
bind_exchange (some bs) second addr = after_header (read_header bs) second addr

unfoldable pub stun_bind_request :
    Calls → ℕ → Option (List ℕ) → Option (List ℕ) → SockAddr → Outcome (Bool × SockAddr)
stun_bind_request calls errno first second addr = elim ((net_socket_connect calls 0 errno).fd) [
  | none ↦ ok (false, addr)
  | some fd ↦ if ltb fd 1 then ok (false, addr) else bind_exchange first second addr
]
