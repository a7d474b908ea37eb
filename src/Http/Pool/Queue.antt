-- ===== src/Http/Pool/Queue.antt =====
-- Every state that the server comes to.
use sniffdogsniff.Shared.{
  ℕ, ◌+◌, ◌<◌, ◌≡◌, ◌⊎◌, refl, sym, ap, ◌∙◌, subst, Bool, true, false, Option, none, some, List, [],
  ◌∷◌, ◌++◌, map, append_assoc, get_elem?, set, length, length-set, length-replicate, inl, inr,
  Bool-cases, Option-cases, if◌then◌else◌, arith,
}
use sniffdogsniff.Http.Pool.{
  Worker, at_head, checking, waiting, serving, done, Pool, new_pool, is_waiting, any_waiting,
  signal, woken, Event, accept, proceed, shutdown, worker_step, step, Reach, start, next,
}
use sniffdogsniff.Http.Pool.Counts.{
  count-append, in_service-set, any_awake-set, not_waiting-awake, in_service-woken, length-woken,
  woken-awake, in_service-replicate, count, serves, in_service, any_awake,
}
use sniffdogsniff.Http.Pool.Settled.{
  is_settled, all_settled, all_settled-set, all_settled-woken, all_settled-replicate,
  is_settled-goes_on, is_settled-checking, is_settled-serving, is_settled-at_head,
}

-- The clients are taken in the order in which they were accepted, each taken client is with a thread
-- or closed, and while clients wait in the queue some thread is not waiting for the condition. No
-- thread ends while the server runs, and none waits when it is shut down.
pub record IsPool (size : ℕ) (p : Pool) : Type 0 where
  pub fifo : p.accepted ≡ p.taken ++ p.queue
  pub kept : (x : ℕ) → count x p.taken ≡ count x p.closed + in_service x p.workers
  pub awake : (p.queue ≡ []) ⊎ (any_awake p.workers ≡ true)
  pub settled : all_settled p.running p.workers ≡ true
  pub threads : length p.workers ≡ size

module _ (size : ℕ) (p : Pool) (v : IsPool size p) where
  -- A thread goes to a place where it is awake, with no client before and after.
  moved-IsPool :
      (i : ℕ) (w w' : Worker)
      → get_elem? p.workers i ≡ some w
      → ((x : ℕ) → serves x w ≡ serves x w')
      → (p.queue ≡ []) ⊎ (is_waiting w' ≡ false)
      → is_settled p.running w' ≡ true
      → IsPool size (record p { workers = set p.workers i w' })
  moved-IsPool i w w' e s a t = record {
    fifo = v.fifo;
    kept = λ x. omega (arith, v.kept x, in_service-set x p.workers i w w' e, s x);
    awake = elim a [ inl h ↦ inl h | inr h ↦ inr (any_awake-set p.workers i w w' e h) ];
    settled = all_settled-set p.running p.workers i w' v.settled t;
    threads = length-set p.workers i w' ∙ v.threads;
  }

  taken-IsPool :
      (i client : ℕ) (q : List ℕ)
      → get_elem? p.workers i ≡ some checking
      → p.queue ≡ client ∷ q
      → IsPool size (record p {
        queue = q;
        workers = set p.workers i (serving client);
        taken = p.taken ++ (client ∷ []);
      })
  unfolding count is_waiting
  taken-IsPool i client q e f = record {
    fifo = v.fifo ∙ ap (λ r. p.taken ++ r) f ∙ sym (append_assoc p.taken (client ∷ []) q);
    kept = λ x. serves_more x;
    awake = inr (any_awake-set p.workers i checking (serving client) e refl);
    settled =
        all_settled-set p.running p.workers i (serving client) v.settled
          (is_settled-serving p.running client);
    threads = length-set p.workers i (serving client) ∙ v.threads;
  }
    where
      serves_more :
          (x : ℕ)
          → count x (p.taken ++ (client ∷ []))
            ≡ count x p.closed + in_service x (set p.workers i (serving client))
      serves_more x = omega (
        arith,
        v.kept x,
        count-append x p.taken (client ∷ []),
        in_service-set x p.workers i checking (serving client) e,
      )

  closed-IsPool :
      (i client : ℕ)
      → get_elem? p.workers i ≡ some (serving client)
      → IsPool size (record p { workers = set p.workers i at_head; closed = client ∷ p.closed })
  unfolding count is_waiting
  closed-IsPool i client e = record {
    fifo = v.fifo;
    kept = λ x. omega (arith, v.kept x, in_service-set x p.workers i (serving client) at_head e);
    awake = inr (any_awake-set p.workers i (serving client) at_head e refl);
    settled =
        all_settled-set p.running p.workers i at_head v.settled (is_settled-at_head p.running);
    threads = length-set p.workers i at_head ∙ v.threads;
  }

  shutdown-IsPool :
      0 < size → IsPool size (record p { running = false; workers = map woken p.workers })
  shutdown-IsPool h = record {
    fifo = v.fifo;
    kept = λ x. omega (arith, v.kept x, in_service-woken x p.workers);
    awake = inr (woken-awake p.workers (omega (arith, v.threads)));
    settled = all_settled-woken p.workers;
    threads = length-woken p.workers ∙ v.threads;
  }

  accept-IsPool :
      (client : ℕ) (ws : List Worker)
      → ((x : ℕ) → in_service x ws ≡ in_service x p.workers)
      → any_awake ws ≡ true
      → all_settled p.running ws ≡ true
      → length ws ≡ size
      → IsPool size (record p {
        queue = p.queue ++ (client ∷ []);
        workers = ws;
        accepted = p.accepted ++ (client ∷ []);
      })
  accept-IsPool client ws s a b t = record {
    fifo = ap (λ r. r ++ (client ∷ [])) v.fifo ∙ append_assoc p.taken p.queue (client ∷ []);
    kept = λ x. omega (arith, v.kept x, s x);
    awake = inr a;
    settled = b;
    threads = t;
  }

some_eq : {p q : Pool} → some p ≡ some q → p ≡ q
some_eq e = cc

waits_alone : (x : ℕ) (w : Worker) → is_waiting w ≡ true → serves x w ≡ 0
unfolding is_waiting
waits_alone x at_head e = refl
waits_alone x checking e = refl
waits_alone x waiting e = refl
waits_alone x (serving c) e = cc
waits_alone x done e = refl

serves_none :
    (x : ℕ) (b : Bool) (w : Worker) → serves x w ≡ 0 → 0 ≡ serves x (if b then w else done)
serves_none x true w e = sym e
serves_none x false w e = refl

runs_on : (b : Bool) → is_waiting (if b then checking else done) ≡ false
unfolding is_waiting
runs_on true = refl
runs_on false = refl

-- The results of the steps of a thread.
step-IsPool_worker :
    (size : ℕ) (p q : Pool) (i : ℕ) (w : Worker) (queue : List ℕ)
    → IsPool size p
    → get_elem? p.workers i ≡ some w
    → p.queue ≡ queue
    → worker_step i w queue p ≡ some q
    → IsPool size q
unfolding worker_step is_waiting is_settled
step-IsPool_worker size p q i at_head queue v e f s = subst (IsPool size) (some_eq s) (
    moved-IsPool size p v i at_head (if p.running then checking else done) e
      (λ x. serves_none x p.running checking refl) (inr (runs_on p.running))
      (is_settled-goes_on p.running checking refl))
step-IsPool_worker size p q i checking [] v e f s = subst (IsPool size) (some_eq s) (
    moved-IsPool size p v i checking (if p.running then waiting else done) e
      (λ x. serves_none x p.running waiting refl) (inl f)
      (is_settled-goes_on p.running waiting refl))
step-IsPool_worker size p q i checking (c ∷ cs) v e f s =
    subst (IsPool size) (some_eq s) (taken-IsPool size p v i c cs e f)
step-IsPool_worker size p q i waiting queue v e f s = subst (IsPool size) (some_eq s) (
    moved-IsPool size p v i waiting checking e (λ x. refl) (inr refl)
      (is_settled-checking p.running))
step-IsPool_worker size p q i (serving c) queue v e f s =
    subst (IsPool size) (some_eq s) (closed-IsPool size p v i c e)
step-IsPool_worker size p q i done queue v e f s = cc

step-IsPool_accept :
    (size : ℕ) (p q : Pool) (client : ℕ) (wakes : Option ℕ)
    → 0 < size
    → IsPool size p
    → step (accept client wakes) p ≡ some q
    → IsPool size q
unfolding step signal is_waiting
step-IsPool_accept size p q client none h v s = elim (Bool-cases (any_waiting p.workers)) [
  | inl a ↦ let s' : ◌≡◌ {A = Option Pool} none (some q) = rw (a, step, signal) at s in absurd (cc)
  | inr a ↦ subst (IsPool size) (some_eq (rw (a, step, signal) at s)) (
      accept-IsPool size p v client p.workers (λ x. refl)
        (not_waiting-awake p.workers a (omega (arith, v.threads))) v.settled v.threads)
]
step-IsPool_accept size p q client (some i) h v s = elim (Option-cases (get_elem? p.workers i)) [
  | inl e ↦ let s' : ◌≡◌ {A = Option Pool} none (some q) = rw (e, step, signal) at s in absurd (cc)
  | inr (w, e) ↦ elim (Bool-cases (is_waiting w)) [
    | inr a ↦
        let s' : ◌≡◌ {A = Option Pool} none (some q) = rw (e, a, step, signal) at s in absurd (cc)
    | inl a ↦ subst (IsPool size) (some_eq (rw (e, a, step, signal) at s)) (
        accept-IsPool size p v client (set p.workers i checking)
          (λ x. omega (arith, in_service-set x p.workers i w checking e, waits_alone x w a))
          (any_awake-set p.workers i w checking e refl)
          (all_settled-set p.running p.workers i checking v.settled (is_settled-checking p.running))
          (length-set p.workers i checking ∙ v.threads))
  ]
]

step-IsPool :
    (size : ℕ) (p q : Pool) (e : Event)
    → 0 < size
    → IsPool size p
    → step e p ≡ some q
    → IsPool size q
unfolding step
step-IsPool size p q (accept client wakes) h v s = step-IsPool_accept size p q client wakes h v s
step-IsPool size p q (proceed i) h v s = elim (Option-cases (get_elem? p.workers i)) [
  | inl e ↦ let s' : ◌≡◌ {A = Option Pool} none (some q) = rw (e, step) at s in absurd (cc)
  | inr (w, e) ↦ step-IsPool_worker size p q i w p.queue v e refl (rw (e, step) at s)
]
step-IsPool size p q shutdown h v s = subst (IsPool size) (some_eq s) (shutdown-IsPool size p v h)

new_pool-IsPool : (size : ℕ) → IsPool size (new_pool size)
unfolding new_pool count
new_pool-IsPool size = record {
  fifo = refl;
  kept = λ x. omega (arith, in_service-replicate x size);
  awake = inl refl;
  settled = all_settled-replicate size;
  threads = length-replicate size at_head;
}

-- In every state that the server comes to, in whatever order its threads run, the clients have been
-- taken in the order in which they were accepted and the others are in the queue; a client that was
-- taken is with one thread or closed, as often as it was taken; and while the queue holds a client,
-- some thread is not waiting for the condition. No thread has come to its end while the server runs,
-- and none is waiting after its shutdown.
pub Reach-IsPool : (size : ℕ) (p : Pool) → 0 < size → Reach size p → IsPool size p
Reach-IsPool size p h start = new_pool-IsPool size
Reach-IsPool size q h (next {p} e r s) = step-IsPool size p q e h (Reach-IsPool size p h r) s
