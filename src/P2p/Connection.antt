-- ===== src/P2p/Connection.antt =====
-- The connection of a client to a node: `net_urlparse` of net/netutil.h and `newConnection` of
-- p2p/sdsp2pclient.cpp, which chooses between I2P, the proxy of Tor and a direct connection.
pub mod Choice
use sniffdogsniff.Shared.{
  ℕ, ◌+◌, Bool, true, false, ◌||◌, Option, none, some, List, [], ◌∷◌, ◌++◌, length, ltb, leb, ◌==◌,
  if◌then◌else◌,
}
use sniffdogsniff.Shared.Bytes.{bytes_eq}
use sniffdogsniff.Shared.Codes.{codes}
use sniffdogsniff.Text.{c_str, contains}
use sniffdogsniff.Net.{Socket, Result, done, failed}
use sniffdogsniff.Net.Socks5.{System, socks5_connect}
use sniffdogsniff.Net.Connect.{Calls, Connected, net_socket_connect}

-- `strrchr`: what stands before and behind the last one of a character.
unfoldable pub split_last : ℕ → List ℕ → Option (List ℕ × List ℕ)
split_last c [] = none
split_last c (x ∷ s) =
    let rest = split_last c s in
    elim rest [
      | some (before, behind) ↦ some (x ∷ before, behind)
      | none ↦ if x == c then some ([], s) else none
    ]

-- `overrun` is a write behind `addr` or `suffix`.
pub data ParsedUrl : Type 0 where
  no_port : ParsedUrl
  overrun : ParsedUrl
  parsed : List ℕ → List ℕ → List ℕ → ParsedUrl

-- The sizes of `addr` and `suffix`, with their terminating 0, in `newConnection`.
abbrev pub addr_size : ℕ
addr_size = 1024

abbrev pub suffix_size : ℕ
suffix_size = 64

unfoldable pub suffix_of : List ℕ → Option (List ℕ)
suffix_of addr = elim (split_last 46 addr) [
  | none ↦ some []
  | some (before, behind) ↦ if leb suffix_size (1 + length behind) then none else some (46 ∷ behind)
]

-- The address, its suffix from the last dot on, and the text of the port.
unfoldable pub net_urlparse : List ℕ → ParsedUrl
net_urlparse url = elim (split_last 58 url) [
  | none ↦ no_port
  | some (addr, port) ↦
      if leb addr_size (length addr)
      then overrun
      else elim (suffix_of addr) [ none ↦ overrun | some suffix ↦ parsed addr suffix port ]
]

pub record SdsP2pClient : Type 0 where
  pub force_tor_proxy : Bool
  pub tor_socks5_addr : List ℕ
  pub tor_socks5_port : ℕ
  pub node_address : List ℕ

-- What the calls that `newConnection` makes return: whether a session at I2P is created, the name that
-- is found there, the descriptor of a stream to a destination; those of the proxy with its socket, and
-- those of a direct connection. `atoi` is the library's.
pub record Network : Type 0 where
  pub sam_session : Bool
  pub sam_lookup : List ℕ → Option (List ℕ)
  pub sam_stream : List ℕ → Option ℕ
  pub system : System
  pub socket : Socket
  pub calls : Calls
  pub errno : ℕ
  pub atoi : List ℕ → ℕ

-- `unopened` is the result -1, `thrown` an exception.
pub data Connection : Type 0 where
  unopened : Connection
  crashed : Connection
  thrown : Connection
  by_i2p : ℕ → Connection
  by_proxy : ℕ → Connection
  direct : ℕ → Connection

unfoldable pub i2p_destination : Network → List ℕ → Option (List ℕ)
i2p_destination n addr = if contains (codes ".b32.i2p") addr then n.sam_lookup addr else some addr

unfoldable pub connect_i2p : Network → List ℕ → Connection
connect_i2p n addr =
    if n.sam_session
    then elim (i2p_destination n addr) [
      | none ↦ thrown
      | some dest ↦ elim (n.sam_stream dest) [ none ↦ thrown | some fd ↦ by_i2p fd ]
    ]
    else thrown

unfoldable pub connected_by_proxy : Result ℕ → Connection
connected_by_proxy (done fd s) = if ltb fd 1 then thrown else by_proxy fd
connected_by_proxy (failed m s) = thrown

unfoldable pub connect_by_proxy : SdsP2pClient → Network → List ℕ → List ℕ → Connection
connect_by_proxy c n addr port =
    connected_by_proxy
      (socks5_connect n.system c.tor_socks5_addr c.tor_socks5_port addr (n.atoi port) n.socket)

unfoldable pub connect_directly : Network → Connection
connect_directly n = elim ((net_socket_connect n.calls 3000 n.errno).fd) [
  | none ↦ thrown
  | some fd ↦ if leb fd 0 then thrown else direct fd
]

unfoldable pub connect_to : SdsP2pClient → Network → ParsedUrl → Connection
connect_to c n no_port = unopened
connect_to c n overrun = crashed
connect_to c n (parsed addr suffix port) =
    if bytes_eq suffix (codes ".i2p")
    then connect_i2p n addr
    else if bytes_eq suffix (codes ".onion") || c.force_tor_proxy
    then connect_by_proxy c n addr port
    else connect_directly n

unfoldable pub new_connection : SdsP2pClient → Network → Connection
new_connection c n = connect_to c n (net_urlparse (c_str c.node_address))
