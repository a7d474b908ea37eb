-- ===== src/Crawler/Files.antt =====
-- The file of the crawler's urls.
use sniffdogsniff.Shared.{
  ℕ, zero, suc, ◌≤◌, ◌<◌, ◌≡◌, refl, sym, ap, ◌∙◌, true, false, some, List, [], ◌∷◌, ◌++◌, length,
  length-append, replicate, All, append_assoc, append-nil, inl, inr, Bool-cases, ◌==◌,
  if◌then◌else◌, arith,
}
use sniffdogsniff.Text.{strip, find, contains, c_str}
use sniffdogsniff.Config.Lines.{fgets_line}
use sniffdogsniff.Crawler.Scan.{
  has_newline, save, Loaded, loaded, null_text, after_line, load_lines, load,
}

-- A url that fits into the buffer, without newline and 0.
pub record IsLine (url : List ℕ) : Type 0 where
  pub short : length url < 1023
  pub no_newline : All (λ c. (c == 10) ≡ false) url
  pub no_zero : All (λ c. (c == 0) ≡ false) url

c_str_whole : (s : List ℕ) → All (λ c. (c == 0) ≡ false) s → c_str s ≡ s
unfolding c_str
c_str_whole [] h = refl
c_str_whole (c ∷ s) (h, hs) = rw h (ap (◌∷◌ c) (c_str_whole s hs))

c_str_line : (s : List ℕ) → All (λ c. (c == 0) ≡ false) s → c_str (s ++ (10 ∷ [])) ≡ s ++ (10 ∷ [])
unfolding c_str
c_str_line [] h = refl
c_str_line (c ∷ s) (h, hs) = rw h (ap (◌∷◌ c) (c_str_line s hs))

ends_found : (s : List ℕ) → (r : List ℕ × List ℕ) × (find (10 ∷ []) (s ++ (10 ∷ [])) ≡ some r)
unfolding find strip
ends_found [] = (([], []), refl)
ends_found (c ∷ s) =
    let (r, f) = ends_found s in
    elim (Bool-cases (10 == c)) [
      | inl e ↦ (([], s ++ (10 ∷ [])), rw (e, find) refl)
      | inr e ↦ ((c ∷ r.0, r.1), rw (e, f, find) refl)
    ]

ends_line : (s : List ℕ) → has_newline (s ++ (10 ∷ [])) ≡ true
ends_line s = let (r, f) = ends_found s in rw (f, contains) refl

fewer_lines :
    (urls : List (List ℕ)) (n : ℕ)
    → (urls ++ ([] ∷ [])) ++ replicate n [] ≡ urls ++ replicate (suc n) []
fewer_lines urls n = append_assoc urls ([] ∷ []) (replicate n [])

whole_line :
    (url rest : List ℕ) (more : List ℕ → Loaded)
    → IsLine url
    → after_line more (url ++ (10 ∷ []), rest) ≡ more rest
unfolding after_line
whole_line url rest more h =
    let e : has_newline (c_str (url ++ (10 ∷ []))) ≡ true =
      ap has_newline (c_str_line url h.no_zero) ∙ ends_line url in
    ap (λ b. if b then more rest else null_text) e

saved_line :
    (url rest : List ℕ) (fuel : ℕ) (urls : List (List ℕ))
    → IsLine url
    → load_lines (suc fuel) ((url ++ (10 ∷ [])) ++ rest) urls
      ≡ load_lines fuel rest (urls ++ ([] ∷ []))
unfolding load_lines
saved_line [] rest fuel urls h =
    let more = λ (file : List ℕ). load_lines fuel file (urls ++ ([] ∷ [])) in
    ap (after_line more) (fgets_line 1023 [] rest h.no_newline h.short) ∙ whole_line [] rest more h
saved_line (x ∷ url) rest fuel urls h =
    let more = λ (file : List ℕ). load_lines fuel file (urls ++ ([] ∷ [])) in
    ap (after_line more) (fgets_line 1023 (x ∷ url) rest h.no_newline h.short)
    ∙ whole_line (x ∷ url) rest more h

line_of :
    (url : List ℕ) (saved : List (List ℕ))
    → IsLine url
    → c_str url ++ (10 ∷ save saved) ≡ (url ++ (10 ∷ [])) ++ save saved
line_of url saved h =
    ap (λ s. s ++ (10 ∷ save saved)) (c_str_whole url h.no_zero)
    ∙ sym (append_assoc url (10 ∷ []) (save saved))

load-saved :
    (saved urls : List (List ℕ)) (fuel : ℕ)
    → All IsLine saved
    → length (save saved) ≤ fuel
    → load_lines fuel (save saved) urls ≡ loaded (urls ++ replicate (length saved) [])
unfolding save load_lines
load-saved [] urls zero h k = ap loaded (sym (append-nil urls))
load-saved [] urls (suc fuel) h k = ap loaded (sym (append-nil urls))
load-saved (url ∷ saved) urls zero h k =
    absurd (omega (arith, length-append (c_str url) (10 ∷ save saved)))
load-saved (url ∷ saved) urls (suc fuel) (h, hs) k =
    ap (λ file. load_lines (suc fuel) file urls) (line_of url saved h)
    ∙ saved_line url (save saved) fuel urls h
    ∙ load-saved saved (urls ++ ([] ∷ [])) fuel hs
        (omega (arith, length-append (c_str url) (10 ∷ save saved)))
    ∙ ap loaded (fewer_lines urls (length saved))

-- Loading a file that was saved gives as many empty texts as urls were saved, and none of the urls, if
-- they are short enough for the buffer and have no newline and no 0.
pub load-save :
    (saved urls : List (List ℕ))
    → All IsLine saved
    → load (save saved) urls ≡ loaded (urls ++ replicate (length saved) [])
unfolding load
load-save saved urls h = load-saved saved urls (length (save saved)) h (omega arith)
