-- ===== src/Net/Socks5/Request.antt =====
-- What a connection through a SOCKS5 proxy sends, against the reading of a request in RFC 1928.
use sniffdogsniff.Shared.{
  ℕ, ◌+◌, ◌*◌, ◌%◌, ◌<◌, ◌≡◌, ◌⊎◌, refl, sym, ap, subst, inl, inr, Bool, true, false, ◌&&◌, Option,
  none, some, List, [], ◌∷◌, ◌++◌, length, take, take-length, take_all, drop, drop-length, ◌==◌,
  if◌then◌else◌, Bool-cases, Option-cases, arith,
}
use sniffdogsniff.Net.{Socket, Result, done, failed, pure, after}
use sniffdogsniff.Net.Socks5.{
  System, greeting, addr_head, addr_bytes, port_bytes, negotiate, socks5_connect,
}
use sniffdogsniff.Net.Socks5.Behaviour.{IsSaid, destination_bytes, negotiate-IsSaid}

pub data Destination : Type 0 where
  ip4 : List ℕ → Destination
  domain : List ℕ → Destination

-- The port is the two bytes at the end.
unfoldable pub with_port : Destination → List ℕ → Option (Destination × ℕ)
with_port d (p ∷ q ∷ []) = some (d, p * 256 + q)
with_port d _ = none

unfoldable pub read_domain : List ℕ → Option (Destination × ℕ)
read_domain [] = none
read_domain (n ∷ bs) = with_port (domain (take n bs)) (drop n bs)

-- Version, command, a reserved byte, the type of the address, the address and the port.
unfoldable pub read_request : List ℕ → Option (Destination × ℕ)
read_request (version ∷ command ∷ reserved ∷ kind ∷ bs) =
    if version == 5 && (command == 1 && reserved == 0)
    then if kind == 1
      then with_port (ip4 (take 4 bs)) (drop 4 bs)
      else if kind == 3
      then read_domain bs
      else none
    else none
read_request _ = none

-- The address that `inet_pton` finds in the text, or else the text as a name.
unfoldable pub destination : Option (List ℕ) → List ℕ → Destination
destination (some ip) addr = ip4 ip
destination none addr = domain addr

with_port-port_bytes :
    (d : Destination) (port : ℕ) → port < 65536 → with_port d (port_bytes port) ≡ some (d, port)
unfolding with_port port_bytes
with_port-port_bytes d port h = ap (λ (n : ℕ). some (d, n)) (omega arith)

with_port-drop :
    (f : List ℕ → Destination) (bs : List ℕ) (n port : ℕ)
    → length bs ≡ n
    → port < 65536
    → with_port (f (take n (bs ++ port_bytes port))) (drop n (bs ++ port_bytes port))
      ≡ some (f bs, port)
with_port-drop f bs n port e h =
    subst
      (λ (n : ℕ).
        with_port (f (take n (bs ++ port_bytes port))) (drop n (bs ++ port_bytes port))
        ≡ some (f bs, port))
      e
      (rw (take-length bs (port_bytes port), drop-length bs (port_bytes port))
        (with_port-port_bytes (f bs) port h))

-- A proxy that reads the request by the rules of RFC 1928 finds the address and the port in it, if the
-- port is below 65536 and a name is shorter than 256 bytes.
pub read_request-destination_bytes :
    (ip : Option (List ℕ)) (addr : List ℕ) (port : ℕ)
    → ((bs : List ℕ) → ip ≡ some bs → length bs ≡ 4)
    → length addr < 256
    → port < 65536
    → read_request (destination_bytes ip addr port) ≡ some (destination ip addr, port)
unfolding read_request destination_bytes addr_head addr_bytes destination read_domain
read_request-destination_bytes (some bs) addr port four h p =
    with_port-drop ip4 bs 4 port (four bs refl) p
read_request-destination_bytes none addr port four h p =
    let e : length addr % 256 ≡ length addr = omega arith in
    rw (e, take_all (length addr) addr (omega arith))
      (with_port-drop domain addr (length addr) port refl p)

-- The calls before the messages succeed.
abbrev pub reaches : System → List ℕ → ℕ → Bool
reaches sys socks5_addr socks5_port = elim sys.socket [
  | none ↦ false
  | some fd ↦ elim (sys.inet_pton socks5_addr) [
    | none ↦ false
    | some ip ↦ sys.connect ip socks5_port
  ]
]

-- How a connection ends, by the destination that the proxy is to read.
pub IsConnection :
    (sys : System) (socks5_addr : List ℕ) (socks5_port : ℕ)
    → Destination
    → ℕ
    → Socket
    → Result ℕ
    → Type 0
IsConnection sys socks5_addr socks5_port d port s (done fd s') =
    (sys.socket ≡ some fd)
    × (s'.closed ≡ s.closed)
    × ((bs : List ℕ) × (s'.sent ≡ s.sent ++ (greeting ++ bs)) × (read_request bs ≡ some (d, port)))
IsConnection sys socks5_addr socks5_port d port s (failed n s') =
    (s'.closed ≡ true) ⊎ ((s' ≡ s) × (reaches sys socks5_addr socks5_port ≡ false))

said-IsConnection :
    (sys : System) (socks5_addr addr : List ℕ) (socks5_port port fd : ℕ) (s : Socket) (bs : List ℕ)
    (d : Destination) (r : Result (Unit {0}))
    → sys.socket ≡ some fd
    → IsSaid (greeting ++ bs) s r
    → read_request bs ≡ some (d, port)
    → IsConnection sys socks5_addr socks5_port d port s (after (λ _. pure fd) r)
unfolding IsConnection IsSaid after
said-IsConnection sys a addr pp port fd s bs d (done u t) e (h, c) q = (e, c, (bs, h, q))
said-IsConnection sys a addr pp port fd s bs d (failed n t) e h q = inl h

unreached :
    (sys : System) (socks5_addr : List ℕ) (socks5_port : ℕ) (d : Destination) (port : ℕ)
    (s : Socket) (r : Result ℕ)
    → r ≡ failed 1 s
    → reaches sys socks5_addr socks5_port ≡ false
    → IsConnection sys socks5_addr socks5_port d port s r
unfolding IsConnection
unreached sys a pp d port s r e u = subst (IsConnection sys a pp d port s) (sym e) (inr (refl, u))

pub socks5_connect_reached :
    (sys : System) (socks5_addr : List ℕ) (socks5_port : ℕ) (addr : List ℕ) (port : ℕ) (s : Socket)
    (fd : ℕ) (ip : List ℕ)
    → sys.socket ≡ some fd
    → sys.inet_pton socks5_addr ≡ some ip
    → sys.connect ip socks5_port ≡ true
    → socks5_connect sys socks5_addr socks5_port addr port s
      ≡ after (λ _. pure fd) (negotiate (sys.inet_pton addr) addr port s)
unfolding socks5_connect
socks5_connect_reached sys a pp addr port s fd ip e e' f = rw (socks5_connect, e, e', f) refl

-- If `inet_pton` finds four bytes or none in the address, a name is shorter than 256 bytes and the port
-- is below 65536: when `socks5_connect` returns a descriptor, it is that of `socket`, it is still open,
-- and the proxy has got the greeting and a request for that address and port; when it fails, it has
-- closed the descriptor, unless it did not reach the proxy.
pub socks5_connect-IsConnection :
    (sys : System) (socks5_addr : List ℕ) (socks5_port : ℕ) (addr : List ℕ) (port : ℕ) (s : Socket)
    → ((bs : List ℕ) → sys.inet_pton addr ≡ some bs → length bs ≡ 4)
    → length addr < 256
    → port < 65536
    → IsConnection sys socks5_addr socks5_port
        (destination (sys.inet_pton addr) addr)
        port
        s
        (socks5_connect sys socks5_addr socks5_port addr port s)
unfolding socks5_connect
socks5_connect-IsConnection sys a pp addr port s four h p = elim (Option-cases sys.socket) [
  | inl e ↦ unreached sys a pp _ port s _ (rw (socks5_connect, e) refl) (rw (reaches, e) refl)
  | inr (fd, e) ↦ elim (Option-cases (sys.inet_pton a)) [
    | inl e' ↦
        unreached sys a pp _ port s _ (rw (socks5_connect, e, e') refl) (rw (reaches, e, e') refl)
    | inr (ip, e') ↦ elim (Bool-cases (sys.connect ip pp)) [
      | inr f ↦
          unreached sys a pp _ port s _ (rw (socks5_connect, e, e', f) refl)
            (rw (reaches, e, e', f) refl)
      | inl f ↦
          subst (IsConnection sys a pp (destination (sys.inet_pton addr) addr) port s)
            (sym (socks5_connect_reached sys a pp addr port s fd ip e e' f))
            (said-IsConnection sys a addr pp port fd s
              (destination_bytes (sys.inet_pton addr) addr port)
              (destination (sys.inet_pton addr) addr) (negotiate (sys.inet_pton addr) addr port s) e
              (negotiate-IsSaid (sys.inet_pton addr) addr port s)
              (read_request-destination_bytes (sys.inet_pton addr) addr port four h p))
    ]
  ]
]
