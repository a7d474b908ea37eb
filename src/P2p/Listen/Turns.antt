-- ===== src/P2p/Listen/Turns.antt =====
-- What a round over the entries and a turn of the loop do to the listener.
use sniffdogsniff.Shared.{
  ℕ, zero, suc, ◌+◌, ◌-◌, ◌≤◌, ◌<◌, ◌≡◌, ◌⊎◌, refl, ◌∙◌, true, false, some, ◌∷◌, get_elem?, set,
  length-set, inl, inr, Bool-cases, if◌then◌else◌, ◌&&◌, ltb, get_elem?-set_ne, ◌==◌, subst, sym,
  &&_split, arith,
}
use sniffdogsniff.Run.{
  Run, Op, pure, finished, raised, crashed, blocked, aborted, after, ◌>>=◌, bind-after,
  bind_finished,
}
use sniffdogsniff.P2p.Listen.{
  Fd, minus_one, fd_of, is_zero, is_positive, PollFd, Listener, close_client, with_node, readable,
  serve_client, serve_slot, serve_from,
}
use sniffdogsniff.P2p.Listen.Slots.{taken, taken_two, used-set, IsListener, get_elem?-some}

-- A call that does not finish.
abbrev pub IsStopped : {S A : Type 0} → Run S A → Type 0
IsStopped (finished a s) = ⊥
IsStopped _ = Unit

-- A call that finishes in a state with the property, or one that itself does not finish, since a
-- handler does not.
abbrev pub ServedOr :
    {S : Type 0} (handle_request : Fd → Op S ℕ) (r : Run (Listener S) (Unit {0}))
    → (Listener S → Type 0)
    → Type 0
ServedOr {S} handle_request r P =
    ((l' : Listener S) × (r ≡ finished tt l') × P l')
    ⊎ (IsStopped r × ((client : Fd) × (s : S) × IsStopped (handle_request client s)))

after-IsStopped :
    {S A B : Type 0} (f : A → Op S B) (r : Run S A) → IsStopped r → IsStopped (after f r)
unfolding after
after-IsStopped f (finished a s) h = elim h [ ]
after-IsStopped f (raised s) h = tt
after-IsStopped f crashed h = tt
after-IsStopped f blocked h = tt
after-IsStopped f aborted h = tt

bind-IsStopped :
    {S A B : Type 0} (m : Op S A) (f : A → Op S B) (s : S)
    → IsStopped (m s)
    → IsStopped ((m >>= f) s)
bind-IsStopped m f s h = subst IsStopped (sym (bind-after m f s)) (after-IsStopped f (m s) h)

is_positive-is_zero : (fd : Fd) → is_positive fd ≡ true → is_zero fd ≡ false
unfolding is_positive is_zero
is_positive-is_zero minus_one h = cc
is_positive-is_zero (fd_of n) h = ground arith

module _ {S : Type 0} where
  close_client-IsListener :
      (i : ℕ) (p : PollFd) (l : Listener S)
      → IsListener l
      → get_elem? l.wait_fds (suc i) ≡ some p
      → is_zero p.fd ≡ false
      → (l' : Listener S) × (close_client (suc i) p.fd l ≡ finished tt l') × IsListener l'
  unfolding close_client is_zero
  close_client-IsListener i p l v e z =
      let q : PollFd = record { fd = fd_of 0; revents = 0 } in
      let t : taken p ≡ 1 = rw z refl in
      let s : taken v.server ≡ 1 = rw v.open_server refl in
      let u = used-set l.wait_fds (suc i) p q e in
      (
        record l {
          wait_fds = set l.wait_fds (suc i) q;
          clients_count = l.clients_count - 1;
          closed = p.fd ∷ l.closed;
        },
        refl,
        record {
          size = length-set l.wait_fds (suc i) q ∙ v.size;
          server = v.server;
          listens = get_elem?-set_ne l.wait_fds q (λ c. absurd (omega arith)) ∙ v.listens;
          open_server = v.open_server;
          counted =
              omega (arith, u, t, s, taken_two l.wait_fds i v.server p v.listens e, v.counted);
        },
      )

  module _ (handle_request : Fd → Op S ℕ) where
    -- The listener without its node.
    abbrev with_state : Listener S → S → Listener S
    with_state l s = record l { node = s }

    with_node_lem :
        (client : Fd) (l : Listener S)
        → ((e : ℕ) × (s : S) × (with_node handle_request client l ≡ finished e (with_state l s)))
          ⊎ (IsStopped (with_node handle_request client l)
              × IsStopped (handle_request client l.node))
    unfolding with_node
    with_node_lem client l = opened (handle_request client l.node) refl
      where
        opened :
            (r : Run S ℕ)
            → handle_request client l.node ≡ r
            → ((e : ℕ) × (s : S) × (with_node handle_request client l
                  ≡ finished e (with_state l s)))
              ⊎ (IsStopped (with_node handle_request client l)
                  × IsStopped (handle_request client l.node))
        opened (finished a s) e = inl (a, s, rw (e, with_node) refl)
        opened (raised s) e = inr (rw (e, with_node) tt, rw e tt)
        opened crashed e = inr (rw (e, with_node) tt, rw e tt)
        opened blocked e = inr (rw (e, with_node) tt, rw e tt)
        opened aborted e = inr (rw (e, with_node) tt, rw e tt)

    with_state-IsListener : (l : Listener S) (s : S) → IsListener l → IsListener (with_state l s)
    with_state-IsListener l s v = record {
      size = v.size;
      server = v.server;
      listens = v.listens;
      open_server = v.open_server;
      counted = v.counted;
    }

    serve_client-IsListener :
        (i : ℕ) (p : PollFd) (l : Listener S)
        → IsListener l
        → get_elem? l.wait_fds (suc i) ≡ some p
        → is_zero p.fd ≡ false
        → ServedOr handle_request (serve_client handle_request (suc i) p l) IsListener
    unfolding serve_client
    serve_client-IsListener i p l v e z = elim (Bool-cases (readable p.revents)) [
      | inr r ↦ rw (serve_client, r) (inl (close_client-IsListener i p l v e z))
      | inl r ↦ elim (with_node_lem p.fd l) [
        | inr (stops, stopped) ↦ inr (
          rw (serve_client, r)
              (bind-IsStopped (with_node handle_request p.fd)
                (λ errcode. if errcode == 0 then pure tt else close_client (suc i) p.fd) l stops),
          (p.fd, l.node, stopped),
        )
        | inl (code, s, f) ↦
            let v' = with_state-IsListener l s v in
            let b =
              bind_finished (with_node handle_request p.fd)
                (λ errcode. if errcode == 0 then pure tt else close_client (suc i) p.fd) l
                (with_state l s) code f in
            elim (Bool-cases (code == 0)) [
              | inl kept ↦ inl (with_state l s, rw (serve_client, r) (b ∙ rw kept refl), v')
              | inr failed ↦
                  let (l', c, w) = close_client-IsListener i p (with_state l s) v' e z in
                  inl (l', rw (serve_client, r) (b ∙ rw failed c), w)
            ]
      ]
    ]

    slot_idle :
        (i : ℕ) (l : Listener S) (p : PollFd)
        → get_elem? l.wait_fds (suc i) ≡ some p
        → (is_positive p.fd && ltb 0 p.revents) ≡ false
        → serve_slot handle_request (suc i) l ≡ finished tt l
    unfolding serve_slot
    slot_idle i l p e h = rw (e, serve_slot) (rw h refl)

    slot_due :
        (i : ℕ) (l : Listener S) (p : PollFd)
        → get_elem? l.wait_fds (suc i) ≡ some p
        → (is_positive p.fd && ltb 0 p.revents) ≡ true
        → serve_slot handle_request (suc i) l ≡ serve_client handle_request (suc i) p l
    unfolding serve_slot
    slot_due i l p e h = rw (e, serve_slot) (rw h refl)

    serve_slot-IsListener :
        (i : ℕ) (l : Listener S)
        → IsListener l
        → suc i < 101
        → ServedOr handle_request (serve_slot handle_request (suc i) l) IsListener
    serve_slot-IsListener i l v h =
        let (p, e) = get_elem?-some l.wait_fds (suc i) (omega (arith, v.size)) in
        elim (Bool-cases (is_positive p.fd && ltb 0 p.revents)) [
          | inr idle ↦ inl (l, slot_idle i l p e idle, v)
          | inl due ↦
              subst (λ r. ServedOr handle_request r IsListener) (sym (slot_due i l p e due))
                (serve_client-IsListener i p l v e
                  (is_positive-is_zero p.fd (&&_split (is_positive p.fd) _ due).0))
        ]

    -- The loop over the entries 1 to 100, or a part of it: it finishes, and the number of clients is
    -- still that of the entries that are taken; or the loop itself does not finish, and that only if
    -- the handler does not finish for some client and some state.
    pub serve_from-IsListener :
        (rounds i : ℕ) (l : Listener S)
        → IsListener l
        → rounds + suc i ≤ 101
        → ServedOr handle_request (serve_from handle_request rounds (suc i) l) IsListener
    unfolding serve_from
    serve_from-IsListener zero i l v h = inl (l, refl, v)
    serve_from-IsListener (suc rounds) i l v h = elim (serve_slot-IsListener i l v (omega arith)) [
      | inr (stops, stopped) ↦ inr (
        bind-IsStopped (serve_slot handle_request (suc i))
            (λ u. serve_from handle_request rounds (suc (suc i))) l stops,
        stopped,
      )
      | inl (l1, e, v1) ↦
          let b =
            bind_finished (serve_slot handle_request (suc i))
              (λ u. serve_from handle_request rounds (suc (suc i))) l l1 tt e in
          elim (serve_from-IsListener rounds (suc i) l1 v1 (omega arith)) [
            | inr (stops, stopped) ↦ inr (subst IsStopped (sym b) stops, stopped)
            | inl (l', f, v') ↦ inl (l', b ∙ f, v')
          ]
    ]
