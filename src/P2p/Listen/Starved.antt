-- ===== src/P2p/Listen/Starved.antt =====
-- A full server: as many clients as there are entries for, and one more that waits.
use sniffdogsniff.Shared.{
  ℕ, ◌≤◌, ◌≡◌, refl, ap, ◌∙◌, true, Option, none, some, List, [], ◌∷◌, map, All, le→leb, arith,
}
use sniffdogsniff.Run.{Op, finished, bind_finished}
use sniffdogsniff.P2p.Listen.{
  Fd, PollFd, Listener, max_client_count, pollin, has_event, listening, report, after_poll, turn,
  turns,
}

-- `poll` reports the listening socket as readable, or it reports nothing.
abbrev pub Waits : Option (List ℕ) × Fd → Type 0
Waits (none, client) = Unit
Waits (some [], client) = ⊥
Waits (some (e ∷ es), client) = has_event e pollin ≡ true

-- The same node, clients and descriptors: nobody has been served, accepted or closed.
pub record IsUnserved {S : Type 0} (l l' : Listener S) : Type 0 where
  pub node : l'.node ≡ l.node
  pub fds : map (λ p. p.fd) l'.wait_fds ≡ map (λ p. p.fd) l.wait_fds
  pub clients : l'.clients_count ≡ l.clients_count
  pub closed : l'.closed ≡ l.closed

report_fds : (es : List ℕ) (ps : List PollFd) → map (λ p. p.fd) (report es ps) ≡ map (λ p. p.fd) ps
unfolding report
report_fds [] ps = refl
report_fds (e ∷ es) [] = refl
report_fds (e ∷ es) (p ∷ ps) = ap (λ fds. p.fd ∷ fds) (report_fds es ps)

first_event :
    {S : Type 0} (l : Listener S) (e : ℕ) (es : List ℕ) (p : PollFd) (ps : List PollFd)
    → l.wait_fds ≡ p ∷ ps
    → listening (record l { wait_fds = report (e ∷ es) l.wait_fds }) ≡ e
unfolding listening report
first_event l e es p ps h = ap (λ fds. listening (record l { wait_fds = report (e ∷ es) fds })) h

module _ {S : Type 0} (handle_request : Fd → Op S ℕ) where
  full :
      (client : Fd) (l : Listener S)
      → has_event (listening l) pollin ≡ true
      → 100 ≤ l.clients_count
      → after_poll handle_request client l ≡ finished tt l
  unfolding after_poll
  full client l e h = rw (after_poll, e) (rw (le→leb max_client_count l.clients_count h) refl)

  turn-IsUnserved :
      (t : Option (List ℕ) × Fd) (l : Listener S) (p : PollFd) (ps : List PollFd)
      → Waits t
      → l.wait_fds ≡ p ∷ ps
      → 100 ≤ l.clients_count
      → (l' : Listener S) × (turn handle_request t.0 t.1 l ≡ finished tt l') × IsUnserved l l'
  unfolding turn
  turn-IsUnserved (none, client) l p ps w f h =
      (l, refl, record { node = refl; fds = refl; clients = refl; closed = refl })
  turn-IsUnserved (some [], client) l p ps w f h = absurd w
  turn-IsUnserved (some (e ∷ es), client) l p ps w f h =
      let l1 : Listener S = record l { wait_fds = report (e ∷ es) l.wait_fds } in
      (
        l1,
        full client l1 (ap (λ r. has_event r pollin) (first_event l e es p ps f) ∙ w) h,
        record { node = refl; fds = report_fds (e ∷ es) l.wait_fds; clients = refl; closed = refl },
      )

  entries_of :
      (ps : List PollFd) (qs : List PollFd) (q : PollFd)
      → map (λ p. p.fd) ps ≡ map (λ p. p.fd) (q ∷ qs)
      → (r : PollFd) × (rs : List PollFd) × (ps ≡ r ∷ rs)
  entries_of [] qs q e = cc
  entries_of (r ∷ rs) qs q e = (r, rs, refl)

  -- With 100 clients and another one that waits at the listening socket, nobody is served, accepted
  -- or closed in any number of turns.
  pub turns-IsUnserved :
      (ts : List (Option (List ℕ) × Fd)) (l : Listener S) (p : PollFd) (ps : List PollFd)
      → All Waits ts
      → l.wait_fds ≡ p ∷ ps
      → 100 ≤ l.clients_count
      → (l' : Listener S) × (turns handle_request ts l ≡ finished tt l') × IsUnserved l l'
  unfolding turns
  turns-IsUnserved [] l p ps w f h =
      (l, refl, record { node = refl; fds = refl; clients = refl; closed = refl })
  turns-IsUnserved (t ∷ ts) l p ps (w, ws) f h =
      let (l1, e, u) = turn-IsUnserved t l p ps w f h in
      let (r, rs, g) = entries_of l1.wait_fds ps p (u.fds ∙ ap (map (λ q. q.fd)) f) in
      let (l', e', u') = turns-IsUnserved ts l1 r rs ws g (omega (arith, u.clients)) in
      (
        l',
        bind_finished (turn handle_request t.0 t.1) (λ x. turns handle_request ts) l l1 tt e ∙ e',
        record {
          node = u'.node ∙ u.node;
          fds = u'.fds ∙ u.fds;
          clients = u'.clients ∙ u.clients;
          closed = u'.closed ∙ u.closed;
        },
      )
