-- ===== src/Run.antt =====
-- How the calls of the local node and of the P2P server end.

use sniffdogsniff.Shared.{◌≡◌, refl, ap, sym, ◌∙◌}

-- `raised` is an exception that leaves the call; `crashed` an access outside of the memory or of bytes
-- that were never written; `blocked` waits for a mutex that nobody unlocks; `aborted` ends the process.
pub data Run (S A : Type 0) : Type 0 where
  finished : A → S → Run S A
  raised : S → Run S A
  crashed : Run S A
  blocked : Run S A
  aborted : Run S A

-- A call on a state.
abbrev pub Op : Type 0 → Type 0 → Type 0
Op S A = S → Run S A

infixl 5 ◌>>=◌ ◌>>◌
abbrev pub ◌>>=◌ : {S A B : Type 0} → Op S A → (A → Op S B) → Op S B
◌>>=◌ m f s = elim (m s) [
  | finished a s' ↦ f a s'
  | raised s' ↦ raised s'
  | crashed ↦ crashed
  | blocked ↦ blocked
  | aborted ↦ aborted
]

abbrev pub ◌>>◌ : {S B : Type 0} → Op S (Unit {0}) → Op S B → Op S B
m >> k = m >>= λ _. k

abbrev pub pure : {S A : Type 0} → A → Op S A
pure a s = finished a s

unfoldable pub after : {S A B : Type 0} → (A → Op S B) → Run S A → Run S B
after f (finished a s) = f a s
after f (raised s) = raised s
after f crashed = crashed
after f blocked = blocked
after f aborted = aborted

pub bind-after :
    {S A B : Type 0} (m : Op S A) (f : A → Op S B) (s : S) → (m >>= f) s ≡ after f (m s)
unfolding after
bind-after {S} {A} {B} m f s = opened (m s)
  where
    opened :
        (r : Run S A)
        → (elim r [
          | finished a s' ↦ f a s'
          | raised s' ↦ raised s'
          | crashed ↦ crashed
          | blocked ↦ blocked
          | aborted ↦ aborted
        ])
          ≡ after f r
    opened (finished a s') = refl
    opened (raised s') = refl
    opened crashed = refl
    opened blocked = refl
    opened aborted = refl

pub bind_finished :
    {S A B : Type 0} (m : Op S A) (f : A → Op S B) (s s' : S) (a : A)
    → m s ≡ finished a s'
    → (m >>= f) s ≡ f a s'
unfolding after
bind_finished m f s s' a e = bind-after m f s ∙ ap (after f) e

pub bind_raised :
    {S A B : Type 0} (m : Op S A) (f : A → Op S B) (s s' : S)
    → m s ≡ raised s'
    → (m >>= f) s ≡ raised s'
unfolding after
bind_raised m f s s' e = bind-after m f s ∙ ap (after f) e

pub bind_crashed :
    {S A B : Type 0} (m : Op S A) (f : A → Op S B) (s : S) → m s ≡ crashed → (m >>= f) s ≡ crashed
unfolding after
bind_crashed m f s e = bind-after m f s ∙ ap (after f) e

pub bind_blocked :
    {S A B : Type 0} (m : Op S A) (f : A → Op S B) (s : S) → m s ≡ blocked → (m >>= f) s ≡ blocked
unfolding after
bind_blocked m f s e = bind-after m f s ∙ ap (after f) e

after_inversion :
    {S A B : Type 0} (f : A → Op S B) (r : Run S A) (b : B) (s' : S)
    → after f r ≡ finished b s'
    → (a : A) × (t : S) × (r ≡ finished a t) × (f a t ≡ finished b s')
unfolding after
after_inversion f (finished a t) b s' e = (a, t, refl, e)
after_inversion f (raised s) b s' e = cc
after_inversion f crashed b s' e = cc
after_inversion f blocked b s' e = cc
after_inversion f aborted b s' e = cc

pub bind_inversion :
    {S A B : Type 0} (m : Op S A) (f : A → Op S B) (s s' : S) (b : B)
    → (m >>= f) s ≡ finished b s'
    → (a : A) × (t : S) × (m s ≡ finished a t) × (f a t ≡ finished b s')
bind_inversion m f s s' b e = after_inversion f (m s) b s' (sym (bind-after m f s) ∙ e)
