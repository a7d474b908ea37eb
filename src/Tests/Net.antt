-- ===== src/Tests/Net.antt =====
-- The theorems about the sockets of net/ at concrete messages.
use sniffdogsniff.Shared.{
  ◌≢◌, zero, suc, replicate, All, ◌==◌, ℕ, ◌≡◌, refl, true, false, Option, some, none, List, [],
  ◌∷◌, ◌++◌, map, length, arith,
}
use sniffdogsniff.Shared.Codes.{codes}
use sniffdogsniff.Wire.Outcome.{ok}
use sniffdogsniff.Wire.Buf.{le_value}
use sniffdogsniff.Net.{Socket}
use sniffdogsniff.Net.Socks5.{System, socks5_connect}
use sniffdogsniff.Net.Socks5.Request.{IsConnection, destination, socks5_connect-IsConnection}
use sniffdogsniff.Net.Socks5.Answers.{talk, messages, ended, verdict, socks5_connect-verdict}
use sniffdogsniff.Net.Stun.{
  Attribute, MessageAttributes, SockAddr, no_attributes, write_attributes, read_message_attributes,
  bind_exchange, after_header, read_header,
}
use sniffdogsniff.Net.Stun.RoundTrip.{
  IsAttribute, swapped, read_message_attributes-write_attributes,
}
use sniffdogsniff.Net.Stun.Bind.{message_type, bind_exchange-message_type}
use sniffdogsniff.Text.{c_str}
use sniffdogsniff.P2p.Connection.{SdsP2pClient, Network, crashed, new_connection}
use sniffdogsniff.P2p.Connection.{direct}
use sniffdogsniff.P2p.Connection.Choice.{
  Lacks, IsProxied, new_connection_onion, new_connection_overrun,
}

-- A system on which all calls succeed, and which reads no address but the one of the proxy.
abbrev tor_system : System
tor_system = record { socket = some 7; inet_pton = only_local; connect = λ ip port. true }
  where
    only_local : List ℕ → Option (List ℕ)
    only_local [] = some (127 ∷ 0 ∷ 0 ∷ 1 ∷ [])
    only_local (c ∷ cs) = none

abbrev onion : List ℕ
onion = codes "a.onion"

abbrev zeros : List ℕ
zeros = 1 ∷ 0 ∷ 0 ∷ 0 ∷ 0 ∷ 0 ∷ 0 ∷ 0 ∷ []

abbrev proxy_talk : Socket
proxy_talk = talk (messages none onion 4111) ((5 ∷ 0 ∷ []) ∷ (5 ∷ 0 ∷ zeros) ∷ []) []

no_ip : (bs : List ℕ) → tor_system.inet_pton onion ≡ some bs → length bs ≡ 4
no_ip bs e = cc

socks5_connect-IsConnection_example :
    IsConnection tor_system [] 9050
      (destination none onion)
      4111
      proxy_talk
      (socks5_connect tor_system [] 9050 onion 4111 proxy_talk)
socks5_connect-IsConnection_example =
    socks5_connect-IsConnection tor_system [] 9050 onion 4111 proxy_talk no_ip (omega arith)
      (omega arith)

socks5_connect-verdict_example :
    ended (
      socks5_connect tor_system [] 9050 onion 4111
        (talk (messages none onion 4111) ((5 ∷ 0 ∷ []) ∷ (5 ∷ 5 ∷ zeros) ∷ []) []))
    ≡ verdict 7 5 0 5 5
socks5_connect-verdict_example =
    socks5_connect-verdict tor_system [] 9050 onion 4111 7 (127 ∷ 0 ∷ 0 ∷ 1 ∷ []) 5 0 5 5 zeros refl
      refl refl refl

abbrev two_attributes : List Attribute
two_attributes =
    record { attr_type = 1; value = 0 ∷ 1 ∷ 16 ∷ 15 ∷ 10 ∷ 0 ∷ 0 ∷ 1 ∷ [] }
    ∷ record { attr_type = 0x8022; value = codes "sds" }
    ∷ []

read_message_attributes-write_attributes_example :
    (m : MessageAttributes) × (read_message_attributes
        (write_attributes two_attributes)
        no_attributes
      ≡ ok m)
    × (m.attrs ≡ map swapped two_attributes)
unfolding IsAttribute
read_message_attributes-write_attributes_example =
    read_message_attributes-write_attributes two_attributes
      ((omega arith, omega arith), ((omega arith, omega arith), tt)) (omega arith)

abbrev no_addr : SockAddr
no_addr = record { sin_family = 0; sin_port = 0; s_addr = 0 }

-- An error response with an empty body.
abbrev error_rest : List ℕ
error_rest = 0 ∷ 0 ∷ 0x21 ∷ 0x12 ∷ 0xA4 ∷ 0x42 ∷ codes "aaa444eeerrr"

bind_exchange-message_type_example :
    bind_exchange (some (message_type true true ++ error_rest)) none no_addr
    ≡ bind_exchange (some (message_type true false ++ error_rest)) none no_addr
bind_exchange-message_type_example = bind_exchange-message_type true true error_rest none no_addr

-- The error response is a success with the address that the caller had.
error_as_success :
    bind_exchange (some (message_type true true ++ error_rest)) none no_addr ≡ ok (true, no_addr)
unfolding bind_exchange after_header read_header message_type le_value
error_as_success = refl

abbrev tor_client : List ℕ → SdsP2pClient
tor_client address = record {
  force_tor_proxy = false;
  tor_socks5_addr = [];
  tor_socks5_port = 9050;
  node_address = address;
}

abbrev tor_network : Network
tor_network = record {
  sam_session = false;
  sam_lookup = λ s. none;
  sam_stream = λ s. none;
  system = tor_system;
  socket = proxy_talk;
  calls = record {
    socket = some 8;
    get_flags = true;
    set_flags = true;
    inet_pton = true;
    gethostbyname = true;
    connect = some 115;
    polled = true;
    hung_up = false;
    so_error = none;
    restore_flags = true;
  };
  errno = 0;
  atoi = λ s. 4111;
}

onion_c_str : c_str (codes "a.onion:4111") ≡ (codes "a" ++ codes ".onion") ++ codes ":4111"
unfolding c_str
onion_c_str = refl

new_connection_onion_example :
    IsProxied
      (socks5_connect tor_system [] 9050 (codes "a" ++ codes ".onion") 4111 proxy_talk)
      (new_connection (tor_client (codes "a.onion:4111")) tor_network)
    × ((fd : ℕ) → new_connection (tor_client (codes "a.onion:4111")) tor_network ≢ direct fd)
unfolding Lacks
new_connection_onion_example =
    new_connection_onion (tor_client (codes "a.onion:4111")) tor_network (codes "a") (codes "4111")
      onion_c_str (refl, (refl, (refl, (refl, tt)))) (omega arith)

abbrev long_suffix : List ℕ
long_suffix = replicate 70 97

abbrev long_address : List ℕ
long_address = ([] ++ (46 ∷ long_suffix)) ++ (58 ∷ [])

long_c_str : c_str long_address ≡ long_address
unfolding c_str
long_c_str = refl

long_Lacks : Lacks 46 long_suffix
unfolding Lacks
long_Lacks = lacking 70
  where
    lacking : (k : ℕ) → All (λ x. (x == 46) ≡ false) (replicate k 97)
    lacking zero = tt
    lacking (suc k) = (refl, lacking k)

new_connection_overrun_example : new_connection (tor_client long_address) tor_network ≡ crashed
unfolding Lacks
new_connection_overrun_example =
    new_connection_overrun (tor_client long_address) tor_network [] long_suffix [] long_c_str tt
      long_Lacks (omega arith)
