-- ===== src/Text/Trim.antt =====
-- `trim` cuts the characters of a set from both ends.
use sniffdogsniff.Shared.{
  ℕ, ◌≡◌, ◌≢◌, refl, sym, ap, ◌∙◌, true, false, Option, none, some, List, [], ◌∷◌, ◌++◌, reverse,
  reverse-append, reverse-reverse, append-nil, All, All-reverse, Bool-cases, subst, inl, inr,
}
use sniffdogsniff.Text.{in_set, skip_set, trim}

-- The first character, if there is one, is not in the set.
abbrev pub Starts : List ℕ → List ℕ → Type 0
Starts set [] = Unit {0}
Starts set (c ∷ s) = in_set set c ≡ false

-- What is skipped is in the set, and what is left starts outside it.
skip_set-append :
    (set s : List ℕ)
    → (p : List ℕ) × (s ≡ p ++ skip_set set s)
      × All (λ c. in_set set c ≡ true) p
      × Starts set (skip_set set s)
unfolding skip_set
skip_set-append set [] = ([], refl, tt, tt)
skip_set-append set (c ∷ s) = elim (Bool-cases (in_set set c)) [
  | inl e ↦
      let (p, q, a, b) = skip_set-append set s in
      (c ∷ p, rw (e, skip_set) (ap (λ t. c ∷ t) q), (e, a), rw e b)
  | inr e ↦ ([], rw e refl, tt, rw (e, skip_set) e)
]

-- `trim` removes characters of the set from both ends and leaves a string that neither starts nor ends
-- with one of them.
pub record Trimmed (set s t : List ℕ) : Type 0 where
  pub front : List ℕ
  pub back : List ℕ
  pub cut : s ≡ front ++ (t ++ back)
  pub in_front : All (λ c. in_set set c ≡ true) front
  pub in_back : All (λ c. in_set set c ≡ true) back
  pub starts : Starts set t
  pub ends : Starts set (reverse t)
  pub some_left : t ≢ []

-- The two ways that `trim` ends for a set that is not empty: all characters are in the set, and the
-- loop reads outside the string, or the string is cut.
abbrev pub TrimmedOr : List ℕ → List ℕ → Option (List ℕ) → Type 0
TrimmedOr set s none = All (λ c. in_set set c ≡ true) s
TrimmedOr set s (some t) = Trimmed set s t

abbrev first_char : List ℕ → ℕ
first_char [] = 0
first_char (c ∷ s) = c

-- A string that starts outside the set keeps that when characters of the set are taken from its end.
starts_kept :
    (set u t b : List ℕ) (c : ℕ)
    → c ∷ u ≡ t ++ b
    → in_set set c ≡ false
    → All (λ d. in_set set d ≡ true) b
    → Starts set t × (t ≢ [])
starts_kept set u [] [] c e n a = cc
starts_kept set u [] (d ∷ b) c e n (i, a) =
    absurd (true_ne_false (sym i ∙ ap (in_set set) (sym (ap first_char e)) ∙ n))
  where
    true_ne_false : true ≡ false → ⊥
    true_ne_false q = cc
starts_kept set u (d ∷ t) b c e n a = (ap (in_set set) (sym (ap first_char e)) ∙ n, λ q. cc)

trim_cons :
    (set s p u : List ℕ) (c : ℕ)
    → s ≡ p ++ (c ∷ u)
    → All (λ d. in_set set d ≡ true) p
    → in_set set c ≡ false
    → Trimmed set s (reverse (skip_set set (reverse (c ∷ u))))
trim_cons set s p u c e a n =
    let (q, f, b, st) = skip_set-append set (reverse (c ∷ u)) in
    let w = skip_set set (reverse (c ∷ u)) in
    let halves = sym (reverse-reverse (c ∷ u)) ∙ ap reverse f ∙ reverse-append q w in
    let b' = All-reverse (λ d. in_set set d ≡ true) q b in
    let (st', ne) = starts_kept set u (reverse w) (reverse q) c halves n b' in
    record {
      front = p;
      back = reverse q;
      cut = e ∙ ap (λ t. p ++ t) halves;
      in_front = a;
      in_back = b';
      starts = st';
      ends = subst (Starts set) (sym (reverse-reverse w)) st;
      some_left = ne;
    }

-- For a set that is not empty, `trim` either reads outside the string, and all its characters are in
-- the set, or cuts characters of the set from both ends and leaves a string that is not empty and
-- neither starts nor ends with one.
pub trim_lem :
    (s : List ℕ) (x : ℕ) (cutset : List ℕ) → TrimmedOr (x ∷ cutset) s (trim s (x ∷ cutset))
unfolding trim
trim_lem s x cutset = shaped (skip_set (x ∷ cutset) s) refl
  where
    shaped :
        (r : List ℕ) → skip_set (x ∷ cutset) s ≡ r → TrimmedOr (x ∷ cutset) s (trim s (x ∷ cutset))
    shaped [] e =
        let (p, f, a, st) = skip_set-append (x ∷ cutset) s in
        rw (e, trim)
          (subst (All (λ c. in_set (x ∷ cutset) c ≡ true))
            (sym (f ∙ ap (λ t. p ++ t) e ∙ append-nil p)) a)
    shaped (c ∷ u) e =
        let (p, f, a, st) = skip_set-append (x ∷ cutset) s in
        rw (e, trim)
          (trim_cons (x ∷ cutset) s p u c (f ∙ ap (λ t. p ++ t) e) a
            (subst (Starts (x ∷ cutset)) e st))
