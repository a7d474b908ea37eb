-- ===== src/Net/Stun/Bind.antt =====
-- What the request for the own address makes of the answer of the server.
use sniffdogsniff.Shared.{
  ℕ, ◌+◌, ◌*◌, ◌≡◌, ◌≢◌, refl, sym, ap, ◌∙◌, inl, inr, Bool, true, false, ◌&&◌, ◌||◌, Option, none,
  some, List, [], ◌∷◌, ◌++◌, length, take, bit_and, ltb, leb, ◌==◌, ==_iff, if◌then◌else◌,
  Bool-cases, Option-cases, arith,
}
use sniffdogsniff.Wire.Outcome.{ok}
use sniffdogsniff.Wire.Buf.{le_value}
use sniffdogsniff.Net.Connect.{Calls, Connected, left, einprogress, errno_after, net_socket_connect}
use sniffdogsniff.Net.Stun.{
  Header, SockAddr, success_response, read_header, read_answer, after_header, bind_exchange,
  stun_bind_request,
}

-- The first two bytes of a message of the method Binding by RFC 5389: the two bits of its class are
-- 0, 0 for a request, 0, 1 for an indication, 1, 0 for success and 1, 1 for an error.
unfoldable pub message_type : Bool → Bool → List ℕ
message_type c1 c0 = (if c1 then 1 else 0) ∷ (if c0 then 17 else 1) ∷ []

header_of : Bool → Bool → ℕ → ℕ → List ℕ → Header
header_of c1 c0 len cookie txid = record {
  msg_class = success_response;
  method = bit_and (le_value (message_type c1 c0)) 0xfeef;
  msg_len = len;
  magic_cookie = cookie;
  txid = txid;
}

read_header-message_type :
    (c1 c0 : Bool) (c d e f g h : ℕ) (bs : List ℕ)
    → read_header (message_type c1 c0 ++ (c ∷ d ∷ e ∷ f ∷ g ∷ h ∷ bs)) ≡ (
        if leb 12 (length bs)
        then some (header_of c1 c0 (c * 256 + d) (le_value (e ∷ f ∷ g ∷ h ∷ [])) (take 12 bs))
        else none)
unfolding read_header message_type header_of le_value
read_header-message_type true true c d e f g h bs = refl
read_header-message_type true false c d e f g h bs = refl
read_header-message_type false true c d e f g h bs = refl
read_header-message_type false false c d e f g h bs = refl

after_header-header_of :
    (b c1 c0 : Bool) (len cookie : ℕ) (txid : List ℕ) (second : Option (List ℕ)) (addr : SockAddr)
    → after_header (if b then some (header_of c1 c0 len cookie txid) else none) second addr
      ≡ after_header (if b then some (header_of true false len cookie txid) else none) second addr
unfolding after_header header_of read_answer
after_header-header_of true c1 c0 len cookie txid none addr = refl
after_header-header_of true c1 c0 len cookie txid (some bs) addr = refl
after_header-header_of false c1 c0 len cookie txid second addr = refl

-- The client makes the same of an answer of the method Binding whatever its class is: an error is
-- taken for a success.
pub bind_exchange-message_type :
    (c1 c0 : Bool) (bs : List ℕ) (second : Option (List ℕ)) (addr : SockAddr)
    → bind_exchange (some (message_type c1 c0 ++ bs)) second addr
      ≡ bind_exchange (some (message_type true false ++ bs)) second addr
unfolding bind_exchange after_header read_header message_type
bind_exchange-message_type c1 c0 (c ∷ d ∷ e ∷ f ∷ g ∷ h ∷ bs) second addr =
    let value : ℕ = le_value (e ∷ f ∷ g ∷ h ∷ []) in
    ap (λ r. after_header r second addr) (read_header-message_type c1 c0 c d e f g h bs)
    ∙ after_header-header_of (leb 12 (length bs)) c1 c0 (c * 256 + d) value (take 12 bs) second addr
    ∙ sym
        (ap (λ r. after_header r second addr) (read_header-message_type true false c d e f g h bs))
bind_exchange-message_type c1 c0 bs second addr = refl

connect_blocked :
    (n : Option ℕ) (errno : ℕ)
    → errno ≢ einprogress
    → n ≢ some einprogress
    → (errno_after n errno == einprogress) ≡ false
unfolding errno_after
connect_blocked none errno h k = ground arith
connect_blocked (some n) errno h k = elim (Bool-cases (n == einprogress)) [
  | inl e ↦ absurd (k (ap some ((==_iff n einprogress).0 e)))
  | inr e ↦ e
]

&&-false : (a : Bool) → (a && false) ≡ false
&&-false true = refl
&&-false false = refl

net_socket_connect_blocked :
    (c : Calls) (errno : ℕ)
    → errno ≢ einprogress
    → c.connect ≢ some einprogress
    → net_socket_connect c 0 errno ≡ left
unfolding net_socket_connect
net_socket_connect_blocked c errno h k =
    let b = connect_blocked c.connect errno h k in
    elim (Option-cases c.socket) [
      | inl e ↦ rw (net_socket_connect, e) refl
      | inr (fd, e) ↦
          rw
            (
              net_socket_connect,
              e,
              b,
              &&-false (c.inet_pton || c.gethostbyname),
              &&-false c.get_flags,
            )
            refl
    ]

-- The socket of a request has no limit of time, and `connect` reports EINPROGRESS only on sockets
-- with one. Unless an earlier call has left EINPROGRESS in `errno`, the request fails.
pub stun_bind_request_blocking :
    (c : Calls) (errno : ℕ) (first second : Option (List ℕ)) (addr : SockAddr)
    → errno ≢ einprogress
    → c.connect ≢ some einprogress
    → stun_bind_request c errno first second addr ≡ ok (false, addr)
unfolding stun_bind_request net_socket_connect
stun_bind_request_blocking c errno first second addr h k =
    ap
      (λ r. elim (Connected.fd r) [
        | none ↦ ok (false, addr)
        | some fd ↦ if ltb fd 1 then ok (false, addr) else bind_exchange first second addr
      ])
      (net_socket_connect_blocked c errno h k)
