-- ===== src/Net/Socks5.antt =====
-- net/socks5.c: the connection through a SOCKS5 proxy. What the calls before the messages return is a
-- record of their results.
pub mod Behaviour
pub mod Request
pub mod Answers
use sniffdogsniff.Shared.{
  ℕ, ◌/◌, ◌%◌, Bool, true, false, not, ◌&&◌, Option, none, some, List, [], ◌∷◌, ◌++◌, length, take,
  ◌==◌, if◌then◌else◌,
}
use sniffdogsniff.Shared.Codes.{codes}
use sniffdogsniff.Net.{
  Socket, Result, done, failed, M, ◌>>=◌, ◌>>◌, pure, close_with, guard, send, recv,
}

-- The text for the error `-n`.
unfoldable pub socks5_strerror : ℕ → List ℕ
socks5_strerror n =
    if n == 1
    then codes "general SOCKS server failure"
    else if n == 2
    then codes "connection not allowed by ruleset"
    else if n == 3
    then codes "Network unreachable"
    else if n == 4
    then codes "Host unreachable"
    else if n == 5
    then codes "Connection refused"
    else if n == 6
    then codes "TTL expired"
    else if n == 7
    then codes "Command not supported"
    else if n == 8
    then codes "Address type not supported"
    else codes "unknown error"

abbrev pub socks_version : ℕ
socks_version = 5

abbrev pub no_acceptable_methods : ℕ
no_acceptable_methods = 255

-- The calls of the system: `socket`, `inet_pton` with the four bytes that it finds, and `connect`.
pub record System : Type 0 where
  pub socket : Option ℕ
  pub inet_pton : List ℕ → Option (List ℕ)
  pub connect : List ℕ → ℕ → Bool

abbrev pub greeting : List ℕ
greeting = socks_version ∷ 1 ∷ 0 ∷ []

unfoldable pub accepts_method : List ℕ → Bool
accepts_method (version ∷ method ∷ _) =
    version == socks_version && not (method == no_acceptable_methods)
accepts_method _ = false

-- The length of a name is put into one byte.
unfoldable pub addr_head : Option (List ℕ) → List ℕ → List ℕ
addr_head (some ip) addr = socks_version ∷ 1 ∷ 0 ∷ 1 ∷ []
addr_head none addr = socks_version ∷ 1 ∷ 0 ∷ 3 ∷ (length addr % 256) ∷ []

unfoldable pub addr_bytes : Option (List ℕ) → List ℕ → List ℕ
addr_bytes (some ip) addr = ip
addr_bytes none addr = take (length addr % 256) addr

unfoldable pub port_bytes : ℕ → List ℕ
port_bytes port = (port / 256 % 256) ∷ (port % 256) ∷ []

unfoldable pub check_reply : List ℕ → M (Unit {0})
check_reply (version ∷ rep ∷ _) =
    if version == socks_version then if rep == 0 then pure tt else close_with rep else close_with 1
check_reply _ = close_with 1

-- What is said to the proxy once the connection is there.
unfoldable pub negotiate : Option (List ℕ) → List ℕ → ℕ → M (Unit {0})
negotiate ip addr port = do
  send greeting
  methods ← recv 2
  guard (accepts_method methods)
  send (addr_head ip addr)
  send (addr_bytes ip addr)
  send (port_bytes port)
  reply ← recv 10
  check_reply reply

-- A descriptor that `inet_pton` or `connect` fails on is not closed.
unfoldable pub socks5_connect : System → List ℕ → ℕ → List ℕ → ℕ → M ℕ
socks5_connect sys socks5_addr socks5_port addr port s = elim sys.socket [
  | none ↦ failed 1 s
  | some fd ↦ elim (sys.inet_pton socks5_addr) [
    | none ↦ failed 1 s
    | some ip ↦
        if sys.connect ip socks5_port
        then (do negotiate (sys.inet_pton addr) addr port; pure fd) s
        else failed 1 s
  ]
]
