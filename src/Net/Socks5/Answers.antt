-- ===== src/Net/Socks5/Answers.antt =====
-- What a connection through a SOCKS5 proxy makes of the answers of the proxy.
use sniffdogsniff.Shared.{
  ℕ, ◌≡◌, ◌⊎◌, refl, ap, ◌∙◌, inl, inr, Bool, true, false, not, ◌&&◌, Option, some, List, [], ◌∷◌,
  ◌++◌, length, take_all, le→leb, ◌==◌, ==_self, if◌then◌else◌, Bool-cases, arith,
}
use sniffdogsniff.Net.{
  Socket, Result, done, failed, after, pure, close_with, send_taking, send, recv_from, recv,
}
use sniffdogsniff.Net.Socks5.{
  System, greeting, accepts_method, addr_head, addr_bytes, port_bytes, check_reply, negotiate,
  socks5_connect,
}
use sniffdogsniff.Net.Socks5.Request.{socks5_connect_reached}

-- A socket whose calls of `send` take these messages, and whose peer gives these answers.
unfoldable pub taking : List (List ℕ) → List (Option ℕ)
taking [] = []
taking (m ∷ ms) = some (length m) ∷ taking ms

unfoldable pub given : List (List ℕ) → List (Option (List ℕ))
given [] = []
given (m ∷ ms) = some m ∷ given ms

unfoldable pub talk : List (List ℕ) → List (List ℕ) → List ℕ → Socket
talk ms answers sent = record {
  accepts = taking ms;
  answers = given answers;
  sent = sent;
  closed = false;
}

send-talk :
    (m : List ℕ) (ms answers : List (List ℕ)) (sent : List ℕ)
    → send m (talk (m ∷ ms) answers sent) ≡ done tt (talk ms answers (sent ++ m))
unfolding send send_taking talk taking
send-talk m ms answers sent =
    rw (le→leb (length m) (length m) (omega arith), take_all (length m) m (omega arith)) refl

recv-talk :
    (n : ℕ) (a : List ℕ) (ms answers : List (List ℕ)) (sent : List ℕ)
    → length a ≡ n
    → recv n (talk ms (a ∷ answers) sent) ≡ done a (talk ms answers sent)
unfolding recv recv_from talk given
recv-talk n a ms answers sent e =
    rw (e, le→leb n n (omega arith), take_all n a (omega arith), ==_self n) refl

-- How a call of `socks5_connect` ended: the descriptor, or the number whose negative is returned.
unfoldable pub ended : Result ℕ → ℕ ⊎ ℕ
ended (done fd s) = inl fd
ended (failed n s) = inr n

-- The verdict on the version and the method of the first answer and the version and the reply of the
-- second one.
unfoldable pub verdict : ℕ → ℕ → ℕ → ℕ → ℕ → ℕ ⊎ ℕ
verdict fd version method version' rep =
    if version == 5 && not (method == 255)
    then if version' == 5 then if rep == 0 then inl fd else inr rep else inr 1
    else inr 1

-- What is said to the proxy, message by message.
unfoldable pub messages : Option (List ℕ) → List ℕ → ℕ → List (List ℕ)
messages ip addr port = greeting ∷ addr_head ip addr ∷ addr_bytes ip addr ∷ port_bytes port ∷ []

negotiate_answered :
    (ip : Option (List ℕ)) (addr : List ℕ) (port fd v m v' rep : ℕ) (bs : List ℕ)
    → length bs ≡ 8
    → ended (
        after
          (λ _. pure fd)
          (negotiate ip addr port
            (talk (messages ip addr port) ((v ∷ m ∷ []) ∷ (v' ∷ rep ∷ bs) ∷ []) [])))
      ≡ verdict fd v m v' rep
unfolding negotiate messages after ended verdict accepts_method check_reply
negotiate_answered ip addr port fd v m v' rep bs e = elim (Bool-cases (v == 5 && not (m == 255))) [
  | inr f ↦ rw (verdict, send-talk greeting, after, recv-talk 2 (v ∷ m ∷ []) _ _ _ refl, f) refl
  | inl f ↦
      rw
        (
          verdict,
          send-talk greeting,
          after,
          recv-talk 2 (v ∷ m ∷ []) _ _ _ refl,
          f,
          send-talk (addr_head ip addr),
          send-talk (addr_bytes ip addr),
          send-talk (port_bytes port),
          recv-talk 10 (v' ∷ rep ∷ bs) _ _ _ (omega arith),
        )
        (checked (v' == 5) (rep == 0) _)
]
  where
    checked :
        (a b : Bool) (t : Socket)
        → ended (
            after
              (λ _. pure fd)
              ((if a then if b then pure tt else close_with rep else close_with 1) t))
          ≡ (if a then if b then inl fd else inr rep else inr 1)
    checked true true t = refl
    checked true false t = refl
    checked false b t = refl

-- If the proxy is reached, takes the messages and answers with two and then ten bytes, the call returns
-- the descriptor exactly if the first answer has the version 5 and a method other than 255 and the second
-- one the version 5 and the reply 0; a reply other than 0 behind the right version is returned with a
-- minus, and all else is the error -1.
pub socks5_connect-verdict :
    (sys : System) (socks5_addr : List ℕ) (socks5_port : ℕ) (addr : List ℕ) (port fd : ℕ)
    (ip : List ℕ) (v m v' rep : ℕ) (bs : List ℕ)
    → sys.socket ≡ some fd
    → sys.inet_pton socks5_addr ≡ some ip
    → sys.connect ip socks5_port ≡ true
    → length bs ≡ 8
    → ended (
        socks5_connect sys socks5_addr socks5_port addr port
          (talk (messages (sys.inet_pton addr) addr port) ((v ∷ m ∷ []) ∷ (v' ∷ rep ∷ bs) ∷ []) []))
      ≡ verdict fd v m v' rep
socks5_connect-verdict sys a pp addr port fd ip v m v' rep bs e e' f h =
    ap ended (socks5_connect_reached sys a pp addr port _ fd ip e e' f)
    ∙ negotiate_answered (sys.inet_pton addr) addr port fd v m v' rep bs h
