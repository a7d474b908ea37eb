-- ===== src/Net/Socks5/Behaviour.antt =====
-- How a connection through a SOCKS5 proxy ends, and what the proxy has got by then.
use sniffdogsniff.Shared.{
  ℕ, ◌≡◌, refl, sym, ap, subst, ◌∙◌, inl, inr, Bool, true, false, Option, none, some, List, [], ◌∷◌,
  ◌++◌, append_assoc, append-nil, length, take_all, leb, leb→le, ◌==◌, Bool-cases,
}
use sniffdogsniff.Net.{
  Socket, Result, done, failed, M, after, ◌>>=◌, ◌>>◌, pure, guard, send_taking, send, recv_from,
  recv,
}
use sniffdogsniff.Net.Socks5.{
  greeting, accepts_method, addr_head, addr_bytes, port_bytes, check_reply, negotiate,
}

-- A call that goes on has sent these bytes and left the descriptor as it was; one that fails has
-- closed it.
unfoldable pub IsSaid : {A : Type 0} → List ℕ → Socket → Result A → Type 0
IsSaid bs s (done a s') = (s'.sent ≡ s.sent ++ bs) × (s'.closed ≡ s.closed)
IsSaid bs s (failed n s') = s'.closed ≡ true

IsSaid-from :
    {A : Type 0} (bs cs : List ℕ) (s t : Socket) (r : Result A)
    → t.sent ≡ s.sent ++ bs
    → t.closed ≡ s.closed
    → IsSaid cs t r
    → IsSaid (bs ++ cs) s r
unfolding IsSaid
IsSaid-from bs cs s t (done a u) e c (e', c') =
    (e' ∙ ap (λ l. l ++ cs) e ∙ append_assoc s.sent bs cs, c' ∙ c)
IsSaid-from bs cs s t (failed n u) e c h = h

after-IsSaid :
    {A B : Type 0} (bs cs : List ℕ) (s : Socket) (f : A → M B) (r : Result A)
    → IsSaid bs s r
    → ((a : A) (t : Socket) → IsSaid cs t (f a t))
    → IsSaid (bs ++ cs) s (after f r)
unfolding IsSaid after
after-IsSaid bs cs s f (done a t) (e, c) h = IsSaid-from bs cs s t (f a t) e c (h a t)
after-IsSaid bs cs s f (failed n t) e h = e

pure-IsSaid : {A : Type 0} (a : A) (s : Socket) → IsSaid [] s (pure a s)
unfolding IsSaid
pure-IsSaid a s = (sym (append-nil s.sent), refl)

guard-IsSaid : (b : Bool) (s : Socket) → IsSaid [] s (guard b s)
unfolding IsSaid
guard-IsSaid true s = (sym (append-nil s.sent), refl)
guard-IsSaid false s = refl

send_taking-IsSaid :
    (ns : List (Option ℕ)) (bs : List ℕ) (s : Socket) → IsSaid bs s (send_taking ns bs s)
unfolding IsSaid send_taking
send_taking-IsSaid [] bs s = refl
send_taking-IsSaid (none ∷ ns) bs s = refl
send_taking-IsSaid (some n ∷ ns) bs s = elim (Bool-cases (leb (length bs) n)) [
  | inl h ↦ rw h (ap (λ l. s.sent ++ l) (take_all n bs (leb→le _ _ h)), refl)
  | inr h ↦ rw h refl
]

send-IsSaid : (bs : List ℕ) (s : Socket) → IsSaid bs s (send bs s)
unfolding send
send-IsSaid bs s = send_taking-IsSaid s.accepts bs s

recv_from-IsSaid :
    (as' : List (Option (List ℕ))) (n : ℕ) (s : Socket) → IsSaid [] s (recv_from as' n s)
unfolding IsSaid recv_from
recv_from-IsSaid [] n s = refl
recv_from-IsSaid (none ∷ as') n s = refl
recv_from-IsSaid (some bs ∷ as') n s = elim (Bool-cases (leb n (length bs))) [
  | inl h ↦ rw h (sym (append-nil s.sent), refl)
  | inr h ↦ rw h refl
]

recv-IsSaid : (n : ℕ) (s : Socket) → IsSaid [] s (recv n s)
unfolding recv
recv-IsSaid n s = recv_from-IsSaid s.answers n s

check_reply-IsSaid : (bs : List ℕ) (s : Socket) → IsSaid [] s (check_reply bs s)
unfolding IsSaid check_reply
check_reply-IsSaid [] s = refl
check_reply-IsSaid (v ∷ []) s = refl
check_reply-IsSaid (v ∷ r ∷ bs) s = elim (Bool-cases (v == 5)) [
  | inl h ↦ elim (Bool-cases (r == 0)) [
    | inl h' ↦ rw (h, h') (sym (append-nil s.sent), refl)
    | inr h' ↦ rw (h, h') refl
  ]
  | inr h ↦ rw h refl
]

-- All that the proxy gets.
unfoldable pub destination_bytes : Option (List ℕ) → List ℕ → ℕ → List ℕ
destination_bytes ip addr port = addr_head ip addr ++ (addr_bytes ip addr ++ port_bytes port)

pub negotiate-IsSaid :
    (ip : Option (List ℕ)) (addr : List ℕ) (port : ℕ) (s : Socket)
    → IsSaid (greeting ++ destination_bytes ip addr port) s (negotiate ip addr port s)
unfolding negotiate destination_bytes
negotiate-IsSaid ip addr port s = after-IsSaid greeting _ s _ _ (send-IsSaid greeting s) λ _ t.
    after-IsSaid [] _ t _ _ (recv-IsSaid 2 t) λ methods t.
      after-IsSaid [] _ t _ _ (guard-IsSaid (accepts_method methods) t) λ _ t.
        after-IsSaid (addr_head ip addr) _ t _ _ (send-IsSaid (addr_head ip addr) t) λ _ t.
          after-IsSaid (addr_bytes ip addr) _ t _ _ (send-IsSaid (addr_bytes ip addr) t)
            λ _ t. with_reply t
  where
    with_reply :
        (t : Socket)
        → IsSaid (port_bytes port) t ((do send (port_bytes port); r ← recv 10; check_reply r) t)
    with_reply t =
        subst (λ l. IsSaid l t ((do send (port_bytes port); r ← recv 10; check_reply r) t))
          (append-nil (port_bytes port))
          (after-IsSaid (port_bytes port) [] t _ _ (send-IsSaid (port_bytes port) t)
            λ _ u. after-IsSaid [] [] u _ _ (recv-IsSaid 10 u) check_reply-IsSaid)
