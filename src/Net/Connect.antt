-- ===== src/Net/Connect.antt =====
-- net/netutil.c: the connection of a socket with a limit of time. What the calls return is a record.
use sniffdogsniff.Shared.{
  ℕ, Bool, true, false, not, ◌&&◌, ◌||◌, Option, none, some, ltb, ◌==◌, if◌then◌else◌,
}

abbrev pub einprogress : ℕ
einprogress = 115

-- `connect` is the number that the call leaves in `errno`, none if it succeeds; `polled` whether `poll`
-- reports something, `hung_up` whether that is a hang-up or an error; `so_error` is what `getsockopt`
-- finds, if it succeeds. The others are the calls that the code only tests for their success.
pub record Calls : Type 0 where
  pub socket : Option ℕ
  pub get_flags : Bool
  pub set_flags : Bool
  pub inet_pton : Bool
  pub gethostbyname : Bool
  pub connect : Option ℕ
  pub polled : Bool
  pub hung_up : Bool
  pub so_error : Option ℕ
  pub restore_flags : Bool

-- The descriptor, none for -1, and whether `socket` gave one that was closed.
pub record Connected : Type 0 where
  pub fd : Option ℕ
  pub closed : Bool

abbrev pub left : Connected
left = record { fd = none; closed = false }

abbrev pub shut : Connected
shut = record { fd = none; closed = true }

-- A call that succeeds leaves `errno` as it was.
unfoldable pub errno_after : Option ℕ → ℕ → ℕ
errno_after none errno = errno
errno_after (some n) errno = n

unfoldable pub wait_for_socket : Calls → ℕ → Connected
wait_for_socket c fd =
    if c.polled
    then if c.hung_up
      then elim c.so_error [ none ↦ left | some err ↦ shut ]
      else if c.restore_flags
      then record { fd = some fd; closed = false }
      else left
    else shut

-- `timeout` is in milliseconds; without one the socket stays as it is, and `connect` waits.
unfoldable pub net_socket_connect : Calls → ℕ → ℕ → Connected
net_socket_connect c timeout errno = elim c.socket [
  | none ↦ left
  | some fd ↦
      if c.get_flags
        && ((not (ltb 0 timeout) || c.set_flags)
            && ((c.inet_pton || c.gethostbyname) && errno_after c.connect errno == einprogress))
      then wait_for_socket c fd
      else left
]
