-- ===== src/P2p/Listen/Slots.antt =====
-- The entries of `wait_fds` that are taken, and the loop that looks for a free one.
use sniffdogsniff.Shared.{
  ℕ, zero, suc, ◌+◌, ◌≤◌, ◌<◌, ◌≡◌, refl, ap, ◌∙◌, true, false, none, some, List, [], ◌∷◌,
  get_elem?, set, length, length-set, get_elem?-set_ne, subst, sym, inl, inr, Bool-cases,
  if◌then◌else◌, arith,
}
use sniffdogsniff.Run.{finished}
use sniffdogsniff.P2p.Listen.{Fd, is_zero, PollFd, Listener, place_client, report}

abbrev pub taken : PollFd → ℕ
taken p = if is_zero p.fd then 0 else 1

-- The number of the entries whose descriptor is not 0.
unfoldable pub used : List PollFd → ℕ
used [] = 0
used (p ∷ ps) = taken p + used ps

pub used-set :
    (ps : List PollFd) (i : ℕ) (p q : PollFd)
    → get_elem? ps i ≡ some p
    → used (set ps i q) + taken p ≡ used ps + taken q
unfolding used
used-set [] i p q e = cc
used-set (x ∷ ps) zero p q e = let e' : x ≡ p = cc in rw e' (omega arith)
used-set (x ∷ ps) (suc i) p q e = omega (arith, used-set ps i p q e)

taken-le-used :
    (ps : List PollFd) (i : ℕ) (p : PollFd) → get_elem? ps i ≡ some p → taken p ≤ used ps
unfolding used
taken-le-used [] i p e = cc
taken-le-used (x ∷ ps) zero p e = let e' : x ≡ p = cc in rw e' (omega arith)
taken-le-used (x ∷ ps) (suc i) p e = omega (arith, taken-le-used ps i p e)

pub taken_two :
    (ps : List PollFd) (i : ℕ) (s p : PollFd)
    → get_elem? ps 0 ≡ some s
    → get_elem? ps (suc i) ≡ some p
    → taken s + taken p ≤ used ps
unfolding used
taken_two [] i s p e f = cc
taken_two (x ∷ ps) i s p e f = let e' : x ≡ s = cc in rw e' (omega (arith, taken-le-used ps i p f))

pub length-report : (es : List ℕ) (ps : List PollFd) → length (report es ps) ≡ length ps
unfolding report
length-report [] ps = refl
length-report (e ∷ es) [] = refl
length-report (e ∷ es) (p ∷ ps) = ap suc (length-report es ps)

pub used-report : (es : List ℕ) (ps : List PollFd) → used (report es ps) ≡ used ps
unfolding report used
used-report [] ps = refl
used-report (e ∷ es) [] = refl
used-report (e ∷ es) (p ∷ ps) = ap (λ (n : ℕ). taken p + n) (used-report es ps)

pub get_elem?-bound {ℓ} :
    {A : Type ℓ} (ps : List A) (i : ℕ) {p : A} → get_elem? ps i ≡ some p → i < length ps
get_elem?-bound [] i e = cc
get_elem?-bound (x ∷ ps) zero e = omega arith
get_elem?-bound (x ∷ ps) (suc i) e = omega (arith, get_elem?-bound ps i e)

pub get_elem?-none {ℓ} : {A : Type ℓ} (ps : List A) (i : ℕ) → length ps ≤ i → get_elem? ps i ≡ none
get_elem?-none [] i h = refl
get_elem?-none (x ∷ ps) zero h = absurd (omega arith)
get_elem?-none (x ∷ ps) (suc i) h = get_elem?-none ps i (omega arith)

-- The entries from `i` on that are taken.
unfoldable pub used_from : ℕ → List PollFd → ℕ
used_from i [] = 0
used_from zero (p ∷ ps) = taken p + used_from 0 ps
used_from (suc i) (p ∷ ps) = used_from i ps

used_from_zero : (ps : List PollFd) → used_from 0 ps ≡ used ps
unfolding used_from used
used_from_zero [] = refl
used_from_zero (p ∷ ps) = ap (λ (n : ℕ). taken p + n) (used_from_zero ps)

used_from_next :
    (i : ℕ) (ps : List PollFd) (p : PollFd)
    → get_elem? ps i ≡ some p
    → used_from i ps ≡ taken p + used_from (suc i) ps
unfolding used_from
used_from_next zero [] p e = cc
used_from_next (suc i) [] p e = cc
used_from_next zero (x ∷ ps) p e = let e' : x ≡ p = cc in ap (λ q. taken q + used_from 0 ps) e'
used_from_next (suc i) (x ∷ ps) p e = used_from_next i ps p e

used_from_end : (i : ℕ) (ps : List PollFd) → length ps ≤ i → used_from i ps ≡ 0
unfolding used_from
used_from_end i [] h = refl
used_from_end zero (x ∷ ps) h = absurd (omega arith)
used_from_end (suc i) (x ∷ ps) h = used_from_end i ps (omega arith)

pub get_elem?-some {ℓ} :
    {A : Type ℓ} (ps : List A) (i : ℕ) → i < length ps → (p : A) × (get_elem? ps i ≡ some p)
get_elem?-some [] i h = elim h [ ]
get_elem?-some (x ∷ ps) zero h = (x, refl)
get_elem?-some (x ∷ ps) (suc i) h = get_elem?-some ps i (omega arith)

-- What the loop does when it finds a free entry.
pub record Placed {S : Type 0} (i : ℕ) (client : Fd) (l l' : Listener S) : Type 0 where
  pub index : ℕ
  pub slot : PollFd
  pub low : i ≤ index
  pub found : get_elem? l.wait_fds index ≡ some slot
  pub free : is_zero slot.fd ≡ true
  pub result : l' ≡ record l {
    wait_fds = set l.wait_fds index (record slot { fd = client });
    clients_count = l.clients_count + 1;
  }

module _ {S : Type 0} where
  place_client_free :
      (rounds i : ℕ) (client : Fd) (l : Listener S) (p : PollFd)
      → get_elem? l.wait_fds i ≡ some p
      → is_zero p.fd ≡ true
      → place_client (suc rounds) i client l
        ≡ finished tt (record l {
          wait_fds = set l.wait_fds i (record p { fd = client });
          clients_count = l.clients_count + 1;
        })
  unfolding place_client
  place_client_free rounds i client l p e z = rw (e, place_client) (rw z refl)

  place_client_taken :
      (rounds i : ℕ) (client : Fd) (l : Listener S) (p : PollFd)
      → get_elem? l.wait_fds i ≡ some p
      → is_zero p.fd ≡ false
      → place_client (suc rounds) i client l ≡ place_client rounds (suc i) client l
  unfolding place_client
  place_client_taken rounds i client l p e z = rw (e, place_client) (rw z refl)

  pub place_client-Placed :
      (rounds i : ℕ) (client : Fd) (l : Listener S)
      → length l.wait_fds ≤ rounds + i
      → used_from i l.wait_fds + i < length l.wait_fds
      → (l' : Listener S) × (place_client rounds i client l ≡ finished tt l') × Placed i client l l'
  place_client-Placed zero i client l h k = absurd (omega arith)
  place_client-Placed (suc rounds) i client l h k =
      let (p, e) = get_elem?-some l.wait_fds i (omega arith) in
      elim (Bool-cases (is_zero p.fd)) [
        | inl z ↦ (
          record l {
            wait_fds = set l.wait_fds i (record p { fd = client });
            clients_count = l.clients_count + 1;
          },
          place_client_free rounds i client l p e z,
          record { index = i; slot = p; low = omega arith; found = e; free = z; result = refl },
        )
        | inr z ↦
            let n = used_from_next i l.wait_fds p e in
            let m : taken p ≡ 1 = rw z refl in
            let (l', f, w) =
              place_client-Placed rounds (suc i) client l (omega arith) (omega arith) in
            (
              l',
              place_client_taken rounds i client l p e z ∙ f,
              record {
                index = w.index;
                slot = w.slot;
                low = omega (arith, w.low);
                found = w.found;
                free = w.free;
                result = w.result;
              },
            )
      ]

-- 101 entries, the first of them the listening socket, and as many clients as taken entries.
pub record IsListener {S : Type 0} (l : Listener S) : Type 0 where
  pub size : length l.wait_fds ≡ 101
  pub server : PollFd
  pub listens : get_elem? l.wait_fds 0 ≡ some server
  pub open_server : is_zero server.fd ≡ false
  pub counted : used l.wait_fds ≡ suc l.clients_count

module _ {S : Type 0} where
  used_from_one : (l : Listener S) → IsListener l → used_from 1 l.wait_fds ≡ l.clients_count
  used_from_one l v =
      let m : taken v.server ≡ 1 = rw v.open_server refl in
      omega (
        arith,
        used_from_zero l.wait_fds,
        used_from_next 0 l.wait_fds v.server v.listens,
        v.counted,
      )

  -- Below 100 clients the loop finds a free entry among 1 to 100, which takes the new client and is
  -- counted; a call of `accept` that failed, with the result -1, takes an entry too.
  pub place_client-IsListener :
      (client : Fd) (l : Listener S)
      → IsListener l
      → l.clients_count < 100
      → is_zero client ≡ false
      → (l' : Listener S) × (place_client 101 1 client l ≡ finished tt l')
        × Placed 1 client l l'
        × IsListener l'
  place_client-IsListener client l v h c =
      let (l', e, w) =
        place_client-Placed 101 1 client l (omega (arith, v.size))
          (omega (arith, v.size, used_from_one l v)) in
      let q : PollFd = record w.slot { fd = client } in
      let ps = set l.wait_fds w.index q in
      let t : taken w.slot ≡ 0 = rw w.free refl in
      let t' : taken q ≡ 1 = rw c refl in
      (
        l',
        e,
        w,
        subst IsListener (sym w.result) (record {
          size = length-set l.wait_fds w.index q ∙ v.size;
          server = v.server;
          listens =
              get_elem?-set_ne l.wait_fds q (λ z. absurd (omega (arith, w.low, z))) ∙ v.listens;
          open_server = v.open_server;
          counted = omega (arith, used-set l.wait_fds w.index w.slot q w.found, v.counted);
        }),
      )
