-- ===== src/P2p/Listen/Overrun.antt =====
-- Both loops of a turn run to MAX_POLL_FD_COUNT, one beyond the last entry of the array.
use sniffdogsniff.Shared.{
  ℕ, zero, suc, ◌+◌, ◌≤◌, ◌≡◌, ◌≢◌, refl, subst, ◌∙◌, Bool, true, false, some, List, get_elem?,
  length, length-set, inl, inr, Bool-cases, Option-cases, leb, ltb, ◌&&◌, ◌==◌, if◌then◌else◌,
  arith,
}
use sniffdogsniff.Run.{
  Run, Op, ◌>>=◌, pure, finished, raised, crashed, blocked, aborted, after, bind-after,
}
use sniffdogsniff.P2p.Listen.{
  Fd, is_zero, is_positive, PollFd, Listener, readable, pollin, has_event, listening, report,
  close_client, place_client, with_node, serve_client, serve_slot, serve_from, after_poll, turn,
}
use sniffdogsniff.P2p.Listen.Slots.{length-report, get_elem?-none}

-- The calls that, if they finish, leave the array as long as it was.
abbrev Keeps : {S A : Type 0} → Listener S → Run (Listener S) A → Type 0
Keeps l (finished a l') = length l'.wait_fds ≡ length l.wait_fds
Keeps l _ = Unit

-- The calls that do not finish.
abbrev NoEnd : {S A : Type 0} → Run S A → Type 0
NoEnd (finished a s) = ⊥
NoEnd _ = Unit

NoEnd-ne : {S A : Type 0} (r : Run S A) (a : A) (s : S) → NoEnd r → r ≢ finished a s
NoEnd-ne r a s h e = subst NoEnd e h

module _ {S : Type 0} where
  Keeps-trans :
      {B : Type 0} (l l' : Listener S) (r : Run (Listener S) B)
      → length l'.wait_fds ≡ length l.wait_fds
      → Keeps l' r
      → Keeps l r
  Keeps-trans l l' (finished b l'') h e = e ∙ h
  Keeps-trans l l' (raised s) h e = tt
  Keeps-trans l l' crashed h e = tt
  Keeps-trans l l' blocked h e = tt
  Keeps-trans l l' aborted h e = tt

  after-Keeps :
      {A B : Type 0} (f : A → Op (Listener S) B) (l : Listener S) (r : Run (Listener S) A)
      → Keeps l r
      → ((a : A) (l' : Listener S) → Keeps l' (f a l'))
      → Keeps l (after f r)
  unfolding after
  after-Keeps f l (finished a l') h k = Keeps-trans l l' (f a l') h (k a l')
  after-Keeps f l (raised s) h k = tt
  after-Keeps f l crashed h k = tt
  after-Keeps f l blocked h k = tt
  after-Keeps f l aborted h k = tt

  bind-Keeps :
      {A B : Type 0} (m : Op (Listener S) A) (f : A → Op (Listener S) B) (l : Listener S)
      → Keeps l (m l)
      → ((a : A) (l' : Listener S) → Keeps l' (f a l'))
      → Keeps l ((m >>= f) l)
  bind-Keeps m f l h k = rw (bind-after m f l) (after-Keeps f l (m l) h k)

  -- A call that keeps the length, then one that does not end in any listener of that length.
  after-NoEnd :
      {A B : Type 0} (f : A → Op (Listener S) B) (l : Listener S) (r : Run (Listener S) A)
      → Keeps l r
      → ((a : A) (l' : Listener S) → length l'.wait_fds ≡ length l.wait_fds → NoEnd (f a l'))
      → NoEnd (after f r)
  unfolding after
  after-NoEnd f l (finished a l') h k = k a l' h
  after-NoEnd f l (raised s) h k = tt
  after-NoEnd f l crashed h k = tt
  after-NoEnd f l blocked h k = tt
  after-NoEnd f l aborted h k = tt

  bind-NoEnd :
      {A B : Type 0} (m : Op (Listener S) A) (f : A → Op (Listener S) B) (l : Listener S)
      → Keeps l (m l)
      → ((a : A) (l' : Listener S) → length l'.wait_fds ≡ length l.wait_fds → NoEnd (f a l'))
      → NoEnd ((m >>= f) l)
  bind-NoEnd m f l h k = rw (bind-after m f l) (after-NoEnd f l (m l) h k)

  close_client-Keeps : (i : ℕ) (client : Fd) (l : Listener S) → Keeps l (close_client i client l)
  unfolding close_client
  close_client-Keeps i client l = length-set l.wait_fds i _

  if-Keeps :
      {A : Type 0} (l : Listener S) (b : Bool) (r r' : Run (Listener S) A)
      → Keeps l r
      → Keeps l r'
      → Keeps l (if b then r else r')
  if-Keeps l true r r' h h' = h
  if-Keeps l false r r' h h' = h'

  place_client-Keeps :
      (rounds i : ℕ) (client : Fd) (l : Listener S) → Keeps l (place_client rounds i client l)
  unfolding place_client
  place_client-Keeps zero i client l = refl
  place_client-Keeps (suc rounds) i client l = elim (Option-cases (get_elem? l.wait_fds i)) [
    | inl e ↦ rw (e, place_client) tt
    | inr (p, e) ↦
        rw (e, place_client)
          (if-Keeps l (is_zero p.fd) _ _ (length-set l.wait_fds i _)
            (place_client-Keeps rounds (suc i) client l))
  ]

  module _ (handle_request : Fd → Op S ℕ) where
    with_node-Keeps : (client : Fd) (l : Listener S) → Keeps l (with_node handle_request client l)
    unfolding with_node
    with_node-Keeps client l = opened (handle_request client l.node)
      where
        opened :
            (r : Run S ℕ)
            → Keeps l (elim r [
              | finished errcode node ↦ finished errcode (record l { node = node })
              | raised node ↦ raised (record l { node = node })
              | crashed ↦ crashed
              | blocked ↦ blocked
              | aborted ↦ aborted
            ])
        opened (finished e s) = refl
        opened (raised s) = tt
        opened crashed = tt
        opened blocked = tt
        opened aborted = tt

    serve_client-Keeps :
        (i : ℕ) (p : PollFd) (l : Listener S) → Keeps l (serve_client handle_request i p l)
    unfolding serve_client
    serve_client-Keeps i p l = elim (Bool-cases (readable p.revents)) [
      | inr r ↦ rw (serve_client, r) (close_client-Keeps i p.fd l)
      | inl r ↦
          rw (serve_client, r)
            (bind-Keeps (with_node handle_request p.fd)
              (λ errcode. if errcode == 0 then pure tt else close_client i p.fd) l
              (with_node-Keeps p.fd l) (λ code l'. kept (code == 0) l'))
    ]
      where
        kept :
            (b : Bool) (l' : Listener S)
            → Keeps l' ((if b then pure tt else close_client i p.fd) l')
        kept true l' = refl
        kept false l' = close_client-Keeps i p.fd l'

    serve_slot-Keeps : (i : ℕ) (l : Listener S) → Keeps l (serve_slot handle_request i l)
    unfolding serve_slot
    serve_slot-Keeps i l = elim (Option-cases (get_elem? l.wait_fds i)) [
      | inl e ↦ rw (e, serve_slot) tt
      | inr (p, e) ↦
          rw (e, serve_slot)
            (if-Keeps l (is_positive p.fd && ltb 0 p.revents) _ _ (serve_client-Keeps i p l) refl)
    ]

    slot_beyond :
        (i : ℕ) (l : Listener S) → length l.wait_fds ≤ i → serve_slot handle_request i l ≡ crashed
    unfolding serve_slot
    slot_beyond i l h = rw (get_elem?-none l.wait_fds i h, serve_slot) refl

    serve_from-NoEnd :
        (rounds i : ℕ) (l : Listener S)
        → length l.wait_fds ≤ rounds + i
        → NoEnd (serve_from handle_request (suc rounds) i l)
    unfolding serve_from after
    serve_from-NoEnd zero i l h =
        rw (bind-after (serve_slot handle_request i) (λ u. serve_from handle_request 0 (suc i)) l)
          (rw (slot_beyond i l (omega arith), after) tt)
    serve_from-NoEnd (suc rounds) i l h =
        bind-NoEnd (serve_slot handle_request i)
          (λ u. serve_from handle_request (suc rounds) (suc i)) l (serve_slot-Keeps i l)
          (λ u l' k. serve_from-NoEnd rounds (suc i) l' (omega (arith, k)))

    after_poll-NoEnd :
        (client : Fd) (l : Listener S)
        → length l.wait_fds ≡ 101
        → (has_event (listening l) pollin && leb 100 l.clients_count) ≡ false
        → NoEnd (after_poll handle_request client l)
    unfolding after_poll
    after_poll-NoEnd client l h k = elim (Bool-cases (has_event (listening l) pollin)) [
      | inr e ↦ rw (after_poll, e) (serve_from-NoEnd 100 1 l (omega arith))
      | inl e ↦
          let below : leb 100 l.clients_count ≡ false = rw e at k in
          rw (after_poll, e)
            (rw below (
              bind-NoEnd (place_client 101 1 client) (λ u. serve_from handle_request 101 1) l
                (place_client-Keeps 101 1 client l)
                (λ u l' j. serve_from-NoEnd 100 1 l' (omega (arith, j)))))
    ]

    -- Unless a client waits while 100 are connected, no turn in which `poll` reports something comes
    -- to its end, whatever the handlers do.
    pub turn_overrun :
        (events : List ℕ) (client : Fd) (l l' : Listener S)
        → length l.wait_fds ≡ 101
        → (has_event (listening (record l { wait_fds = report events l.wait_fds })) pollin
            && leb 100 l.clients_count)
          ≡ false
        → turn handle_request (some events) client l ≢ finished tt l'
    unfolding turn
    turn_overrun events client l l' h k =
        let l1 : Listener S = record l { wait_fds = report events l.wait_fds } in
        NoEnd-ne (after_poll handle_request client l1) tt l'
          (after_poll-NoEnd client l1 (length-report events l.wait_fds ∙ h) k)
