-- ===== src/Net.antt =====
-- The C code of net/: a socket as what its calls return and what was sent on it.
pub mod Socks5
pub mod Connect
pub mod Stun
use sniffdogsniff.Shared.{
  ℕ, Bool, true, false, Option, none, some, List, [], ◌∷◌, ◌++◌, length, take, drop, leb, ◌==◌,
  if◌then◌else◌,
}

-- `accepts` is how many bytes each call of `send` takes, `answers` what each call of `recv` finds, with
-- `none` for the error -1; after the last one both return -1 and 0. `sent` is what the peer has got.
pub record Socket : Type 0 where
  pub accepts : List (Option ℕ)
  pub answers : List (Option (List ℕ))
  pub sent : List ℕ
  pub closed : Bool

-- A call that goes on, or that makes the function return the negative of a number.
pub data Result (A : Type 0) : Type 0 where
  done : A → Socket → Result A
  failed : ℕ → Socket → Result A

abbrev pub M : Type 0 → Type 0
M A = Socket → Result A

unfoldable pub after : {A B : Type 0} → (A → M B) → Result A → Result B
after f (done a s) = f a s
after f (failed n s) = failed n s

infixl 5 ◌>>=◌ ◌>>◌
abbrev pub ◌>>=◌ : {A B : Type 0} → M A → (A → M B) → M B
◌>>=◌ m f s = after f (m s)

abbrev pub ◌>>◌ : {B : Type 0} → M (Unit {0}) → M B → M B
m >> k = m >>= λ _. k

abbrev pub pure : {A : Type 0} → A → M A
pure a s = done a s

-- `close(fd); return -n;`
abbrev pub close_with : {A : Type 0} → ℕ → M A
close_with n s = failed n (record s { closed = true })

abbrev pub guard : Bool → M (Unit {0})
guard b = if b then pure tt else close_with 1

-- `if (send(fd, buf, n, 0) != n) { close(fd); return -1; }`
unfoldable pub send_taking : List (Option ℕ) → List ℕ → M (Unit {0})
send_taking [] bs = close_with 1
send_taking (none ∷ ns) bs = λ s. close_with 1 (record s { accepts = ns })
send_taking (some n ∷ ns) bs =
    λ s. guard (leb (length bs) n) (record s { accepts = ns; sent = s.sent ++ take n bs })

unfoldable pub send : List ℕ → M (Unit {0})
send bs s = send_taking s.accepts bs s

-- `if (recv(fd, buf, n, 0) != n) { close(fd); return -1; }`: a call takes at most `n` bytes, and leaves
-- the others to the next one.
unfoldable pub recv_from : List (Option (List ℕ)) → ℕ → M (List ℕ)
recv_from [] n = close_with 1
recv_from (none ∷ as') n = λ s. close_with 1 (record s { answers = as' })
recv_from (some bs ∷ as') n = λ s.
    if leb n (length bs)
    then done (take n bs)
        (record s { answers = if length bs == n then as' else some (drop n bs) ∷ as' })
    else close_with 1 (record s { answers = as' })

unfoldable pub recv : ℕ → M (List ℕ)
recv n s = recv_from s.answers n s
