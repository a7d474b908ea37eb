-- ===== src/P2p/Connection/Choice.antt =====
-- Which way a connection takes.
use sniffdogsniff.Shared.{
  Bool-cases, ◌⊎◌, inl, inr, ltb, ltb→lt, ℕ, ◌+◌, ◌≤◌, ◌<◌, ◌≡◌, ◌≢◌, refl, sym, ap, subst, ◌∙◌,
  Bool, true, false, ◌||◌, none, some, List, [], ◌∷◌, ◌++◌, length, All, leb, le→leb, leb-false,
  ◌==◌, ==_self, if◌then◌else◌, arith,
}
use sniffdogsniff.Shared.Bytes.{bytes_eq}
use sniffdogsniff.Shared.Codes.{codes}
use sniffdogsniff.Text.{c_str}
use sniffdogsniff.Net.Socks5.{socks5_connect}
use sniffdogsniff.Net.{Result, done, failed}
use sniffdogsniff.P2p.Connection.{
  thrown, by_proxy, split_last, ParsedUrl, no_port, overrun, parsed, suffix_of, net_urlparse,
  SdsP2pClient, Network, Connection, crashed, direct, connect_i2p, connected_by_proxy,
  connect_by_proxy, connect_directly, connect_to, new_connection,
}

-- The text does not hold the character.
unfoldable pub Lacks : ℕ → List ℕ → Type 0
Lacks c s = All (λ x. (x == c) ≡ false) s

split_last-Lacks : (c : ℕ) (s : List ℕ) → Lacks c s → split_last c s ≡ none
unfolding split_last Lacks
split_last-Lacks c [] h = refl
split_last-Lacks c (x ∷ s) (h, hs) = rw (split_last-Lacks c s hs, h) refl

split_last-append :
    (c : ℕ) (before behind : List ℕ)
    → Lacks c behind
    → split_last c (before ++ (c ∷ behind)) ≡ some (before, behind)
unfolding split_last
split_last-append c [] behind h = rw (split_last-Lacks c behind h, ==_self c) refl
split_last-append c (x ∷ before) behind h = rw (split_last-append c before behind h) refl

net_urlparse-address :
    (addr port : List ℕ)
    → Lacks 58 port
    → net_urlparse (addr ++ (58 ∷ port)) ≡ (
        if leb 1024 (length addr)
        then overrun
        else elim (suffix_of addr) [ none ↦ overrun | some suffix ↦ parsed addr suffix port ])
unfolding net_urlparse
net_urlparse-address addr port h = rw (net_urlparse, split_last-append 58 addr port h) refl

onion_by_proxy :
    (c : SdsP2pClient) (n : Network) (host port : List ℕ)
    → c_str c.node_address ≡ (host ++ codes ".onion") ++ (58 ∷ port)
    → Lacks 58 port
    → length (host ++ codes ".onion") < 1024
    → new_connection c n ≡ connect_by_proxy c n (host ++ codes ".onion") port
unfolding new_connection connect_to suffix_of Lacks bytes_eq
onion_by_proxy c n host port e h k =
    rw
      (
        new_connection,
        e,
        net_urlparse-address (host ++ codes ".onion") port h,
        leb-false 1024 (length (host ++ codes ".onion")) k,
        suffix_of,
        split_last-append 46 host (codes "onion") (refl, (refl, (refl, (refl, (refl, tt))))),
      )
      refl

-- An address whose part from the last dot to the last colon has 64 characters or more is written
-- behind an array.
pub new_connection_overrun :
    (c : SdsP2pClient) (n : Network) (host suffix port : List ℕ)
    → c_str c.node_address ≡ (host ++ (46 ∷ suffix)) ++ (58 ∷ port)
    → Lacks 58 port
    → Lacks 46 suffix
    → 63 ≤ length suffix
    → new_connection c n ≡ crashed
unfolding new_connection connect_to suffix_of
new_connection_overrun c n host suffix port e h k l =
    ap (λ u. connect_to c n (net_urlparse u)) e
    ∙ ap (connect_to c n) (net_urlparse-address (host ++ (46 ∷ suffix)) port h ∙ behind _)
  where
    behind :
        (b : Bool)
        → (if b then overrun else elim (suffix_of (host ++ (46 ∷ suffix))) [
          | none ↦ overrun
          | some s ↦ parsed (host ++ (46 ∷ suffix)) s port
        ])
          ≡ overrun
    behind true = refl
    behind false =
        rw
          (
            suffix_of,
            split_last-append 46 host suffix k,
            le→leb 64 (1 + length suffix) (omega arith),
          )
          refl

connected_by_proxy-direct : (r : Result ℕ) (fd : ℕ) → connected_by_proxy r ≢ direct fd
unfolding connected_by_proxy
connected_by_proxy-direct (done x s) fd h = ground arith
connected_by_proxy-direct (failed m s) fd h = cc

connect_by_proxy-direct :
    (c : SdsP2pClient) (n : Network) (addr port : List ℕ) (fd : ℕ)
    → connect_by_proxy c n addr port ≢ direct fd
unfolding connect_by_proxy
connect_by_proxy-direct c n addr port fd = connected_by_proxy-direct _ fd

-- The descriptor of the proxy's connection, or an exception when there is none.
unfoldable pub IsProxied : Result ℕ → Connection → Type 0
IsProxied (done fd s) r = ((fd ≡ 0) × (r ≡ thrown)) ⊎ ((0 < fd) × (r ≡ by_proxy fd))
IsProxied (failed m s) r = r ≡ thrown

connected_by_proxy-IsProxied : (r : Result ℕ) → IsProxied r (connected_by_proxy r)
unfolding IsProxied connected_by_proxy
connected_by_proxy-IsProxied (done fd s) = elim (Bool-cases (ltb fd 1)) [
  | inl e ↦ rw e (inl (omega (arith, ltb→lt fd 1 e), refl))
  | inr e ↦ rw e (inr (ground arith, refl))
]
connected_by_proxy-IsProxied (failed m s) = refl

-- A host that ends with `.onion`, with a port behind the last colon, is reached by the proxy of Tor
-- only, if the host has less than 1024 characters: the result is the descriptor of the call of
-- `socks5_connect` for the host and the port, or an exception if that call fails or returns 0, and it
-- is never a direct connection.
pub new_connection_onion :
    (c : SdsP2pClient) (n : Network) (host port : List ℕ)
    → c_str c.node_address ≡ (host ++ codes ".onion") ++ (58 ∷ port)
    → Lacks 58 port
    → length (host ++ codes ".onion") < 1024
    → IsProxied
        (socks5_connect n.system c.tor_socks5_addr c.tor_socks5_port
          (host ++ codes ".onion")
          (n.atoi port)
          n.socket)
        (new_connection c n)
      × ((fd : ℕ) → new_connection c n ≢ direct fd)
unfolding connect_by_proxy
new_connection_onion c n host port e h k =
    let q = onion_by_proxy c n host port e h k in
    (
      subst (IsProxied _) (sym q) (connected_by_proxy-IsProxied _),
      λ fd f. connected_by_proxy-direct _ fd (sym q ∙ f),
    )

connect_i2p-direct : (n : Network) (addr : List ℕ) (fd : ℕ) → connect_i2p n addr ≢ direct fd
unfolding connect_i2p
connect_i2p-direct n addr fd h = ground arith

connect_to_forced :
    (c : SdsP2pClient) (n : Network) (p : ParsedUrl) (fd : ℕ)
    → c.force_tor_proxy ≡ true
    → connect_to c n p ≢ direct fd
unfolding connect_to
connect_to_forced c n no_port fd f h = cc
connect_to_forced c n overrun fd f h = cc
connect_to_forced c n (parsed addr suffix port) fd f h = either (bytes_eq suffix (codes ".i2p")) _ h
  where
    by_force : Bool → Connection
    by_force g = if false || g then connect_by_proxy c n addr port else connect_directly n

    either :
        (b a : Bool)
        → (if b
            then connect_i2p n addr
            else if a || c.force_tor_proxy
            then connect_by_proxy c n addr port
            else connect_directly n)
          ≢ direct fd
    either true a e = connect_i2p-direct n addr fd e
    either false true e = connect_by_proxy-direct c n addr port fd e
    either false false e = connect_by_proxy-direct c n addr port fd (sym (ap by_force f) ∙ e)

-- With the setting `force_tor_proxy` no connection is a direct one, whatever the address is.
pub new_connection_forced :
    (c : SdsP2pClient) (n : Network) (fd : ℕ)
    → c.force_tor_proxy ≡ true
    → new_connection c n ≢ direct fd
unfolding new_connection
new_connection_forced c n fd f = connect_to_forced c n (net_urlparse (c_str c.node_address)) fd f
