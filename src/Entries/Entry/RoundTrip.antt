-- ===== src/Entries/Entry/RoundTrip.antt =====
-- A search entry is read as it was written.
use sniffdogsniff.Shared.{
  ℕ, ◌+◌, ◌^◌, ◌≤◌, ◌<◌, ◌≡◌, refl, sym, ap, subst, true, List, [], ◌∷◌, ◌++◌, append_assoc,
  append-nil, length, length-append, All, All-append_right, arith, ltb,
}
use sniffdogsniff.Kad.Id.{IsKadId}
use sniffdogsniff.Wire.Buf.{pure, le_bytes}
use sniffdogsniff.Wire.Buf.Views.{Writes, Reads, Writes-then, Reads-then, Reads-pure, Reads-map}
use sniffdogsniff.Wire.Buf.Numbers.{
  length-le_bytes, write_uint8-Writes, read_uint8-Reads, write_uint32-Writes, read_uint32-Reads,
}
use sniffdogsniff.Wire.Buf.Strings.{write_string-Writes}
use sniffdogsniff.Wire.Buf.Trips.{
  RoundTrip, round_trip, Sendable, Sendable-Reads, id-Writes, id-Reads, Writes-pure,
}
use sniffdogsniff.Entries.Entry.{
  PropertyMap, SearchEntry, set_property, properties_size, has_valid_size, write_properties,
  write_search_entry, read_properties, read_search_entry, re_hash,
}
use sniffdogsniff.Entries.Entry.Properties.{Ascending}

abbrev pub IsProperty : ℕ × List ℕ → Type 0
IsProperty p = (p.0 < 2 ^ 8) × Sendable p.1

unfoldable pub properties_bytes : PropertyMap → List ℕ
properties_bytes [] = []
properties_bytes ((k, v) ∷ m) = le_bytes 1 k ++ ((v ++ (0 ∷ [])) ++ properties_bytes m)

unfoldable pub entry_bytes : SearchEntry → List ℕ
entry_bytes se =
    se.sim_hash.id
    ++ ((se.title ++ (0 ∷ []))
        ++ ((se.url ++ (0 ∷ []))
            ++ (le_bytes 1 se.type
                ++ (le_bytes 4 (length se.properties) ++ properties_bytes se.properties))))

properties-Writes : (m : PropertyMap) → Writes (write_properties m) (properties_bytes m)
unfolding write_properties properties_bytes
properties-Writes [] = Writes-pure
properties-Writes ((k, v) ∷ m) =
    Writes-then _ _ _ _ (write_uint8-Writes k)
      (Writes-then _ _ _ _ (write_string-Writes v) (properties-Writes m))

pub entry-Writes :
    (se : SearchEntry) → IsKadId se.sim_hash → Writes (write_search_entry se) (entry_bytes se)
unfolding write_search_entry entry_bytes
entry-Writes se h = Writes-then _ _ _ _ (id-Writes se.sim_hash h) (
    Writes-then _ _ _ _ (write_string-Writes se.title) (
      Writes-then _ _ _ _ (write_string-Writes se.url) (
        Writes-then _ _ _ _ (write_uint8-Writes se.type) (
          Writes-then _ _ _ _ (write_uint32-Writes (length se.properties))
            (properties-Writes se.properties)))))

set_property_last :
    (k : ℕ) (v : List ℕ) (m : PropertyMap)
    → All (λ x. x.0 < k) m
    → set_property k v m ≡ m ++ ((k, v) ∷ [])
unfolding set_property
set_property_last k v [] h = refl
set_property_last k v ((j, w) ∷ m) (lt, lts) =
    let less : ltb j k ≡ true = ground arith in
    rw less (ap (λ t. (j, w) ∷ t) (set_property_last k v m lts))

before :
    (acc m : PropertyMap) (e : ℕ × List ℕ) → Ascending (acc ++ (e ∷ m)) → All (λ x. x.0 < e.0) acc
before [] m e h = tt
before (x ∷ acc) m e (lt, h) =
    ((All-append_right (λ y. x.0 < y.0) acc (e ∷ m) lt).0, before acc m e h)

properties-Reads :
    (m acc : PropertyMap)
    → All IsProperty m
    → Ascending (acc ++ m)
    → Reads (read_properties (length m) acc) (properties_bytes m) (acc ++ m)
unfolding read_properties properties_bytes
properties-Reads [] acc h up = subst (Reads (pure acc) []) (sym (append-nil acc)) (Reads-pure acc)
properties-Reads ((k, v) ∷ m) acc ((lt, s), h) up = Reads-then _ _ _ _ _ _ (read_uint8-Reads k lt) (
    Reads-then _ _ _ _ _ _ (Sendable-Reads v s) (
      subst (λ t. Reads (read_properties (length m) t) (properties_bytes m) (acc ++ ((k, v) ∷ m)))
        (sym (set_property_last k v acc (before acc m (k, v) up)))
        (subst (Reads (read_properties (length m) (acc ++ ((k, v) ∷ []))) (properties_bytes m))
          joined (properties-Reads m (acc ++ ((k, v) ∷ [])) h (subst Ascending (sym joined) up)))))
  where
    joined : (acc ++ ((k, v) ∷ [])) ++ m ≡ acc ++ ((k, v) ∷ m)
    joined = append_assoc acc ((k, v) ∷ []) m

-- An entry that can be sent, and whose hash is that of its title.
pub record IsEntry (sha256 : List ℕ → List ℕ) (se : SearchEntry) : Type 0 where
  pub hash : se.hash ≡ sha256 se.title
  pub sim_hash : IsKadId se.sim_hash
  pub title : Sendable se.title
  pub url : Sendable se.url
  pub type : se.type < 2 ^ 8
  pub up : Ascending se.properties
  pub properties : All IsProperty se.properties
  pub few : length se.properties < 2 ^ 32

pub entry-Reads :
    (sha256 : List ℕ → List ℕ) (old se : SearchEntry)
    → IsEntry sha256 se
    → Reads (read_search_entry sha256 old) (entry_bytes se) se
unfolding read_search_entry entry_bytes re_hash
entry-Reads sha256 old se h = Reads-then _ _ _ _ _ _ (id-Reads se.sim_hash h.sim_hash) (
    Reads-then _ _ _ _ _ _ (Sendable-Reads se.title h.title) (
      Reads-then _ _ _ _ _ _ (Sendable-Reads se.url h.url) (
        Reads-then _ _ _ _ _ _ (read_uint8-Reads se.type h.type) (
          Reads-then _ _ _ _ _ _ (read_uint32-Reads (length se.properties) h.few) (
            subst (Reads _ (properties_bytes se.properties)) hashed (
              Reads-map _
                (λ m. record {
                  hash = sha256 se.title;
                  sim_hash = se.sim_hash;
                  title = se.title;
                  url = se.url;
                  type = se.type;
                  properties = m;
                })
                _ _ (properties-Reads se.properties [] h.properties h.up)))))))
  where
    hashed :
        ◌≡◌ {A = SearchEntry}
          (record {
            hash = sha256 se.title;
            sim_hash = se.sim_hash;
            title = se.title;
            url = se.url;
            type = se.type;
            properties = se.properties;
          })
          se
    hashed = λ i. record {
      hash = sym h.hash i;
      sim_hash = se.sim_hash;
      title = se.title;
      url = se.url;
      type = se.type;
      properties = se.properties;
    }

-- A search entry is read as it was written, whatever the object it is read into held. Its similarity
-- hash has 16 bytes, its texts are not empty and have no 0 in them, its hash is that of its title, its
-- properties are in the order of their keys, and it takes 2 ^ 63 bytes at most.
pub read_search_entry-write_search_entry :
    (sha256 : List ℕ → List ℕ) (old se : SearchEntry)
    → IsEntry sha256 se
    → length (entry_bytes se) ≤ 2 ^ 63
    → RoundTrip (write_search_entry se) (read_search_entry sha256 old) se
read_search_entry-write_search_entry sha256 old se h le =
    round_trip _ _ (entry_bytes se) se (entry-Writes se h.sim_hash) (entry-Reads sha256 old se h) le

length-properties_bytes :
    (m : PropertyMap) → length (properties_bytes m) ≡ properties_size m + length m
unfolding properties_bytes properties_size
length-properties_bytes [] = omega arith
length-properties_bytes ((k, v) ∷ m) = omega (
  arith,
  length-append (le_bytes 1 k) ((v ++ (0 ∷ [])) ++ properties_bytes m),
  length-append (v ++ (0 ∷ [])) (properties_bytes m),
  length-append v (0 ∷ []),
  length-le_bytes 1 k,
  length-properties_bytes m,
)

-- An entry that passes `hasValidSize`, and whose similarity hash has 16 bytes, is written in the
-- maximal size less 138 bytes, and one more for each property.
pub has_valid_size_lem :
    (se : SearchEntry)
    → IsKadId se.sim_hash
    → has_valid_size se ≡ true
    → length (entry_bytes se) + 138 ≤ 20136 + length se.properties
unfolding has_valid_size entry_bytes
has_valid_size_lem se h e =
    let valid : 32 + length se.title + length se.url + 1 + 128 + properties_size se.properties
        ≤ 20136 =
      ground arith in
    omega (
      arith,
      h.size,
      length-append se.sim_hash.id (
          (se.title ++ (0 ∷ []))
          ++ ((se.url ++ (0 ∷ []))
              ++ (le_bytes 1 se.type
                  ++ (le_bytes 4 (length se.properties) ++ properties_bytes se.properties)))),
      length-append (se.title ++ (0 ∷ [])) (
          (se.url ++ (0 ∷ []))
          ++ (le_bytes 1 se.type
              ++ (le_bytes 4 (length se.properties) ++ properties_bytes se.properties))),
      length-append (se.url ++ (0 ∷ [])) (
          le_bytes 1 se.type
          ++ (le_bytes 4 (length se.properties) ++ properties_bytes se.properties)),
      length-append (le_bytes 1 se.type)
          (le_bytes 4 (length se.properties) ++ properties_bytes se.properties),
      length-append (le_bytes 4 (length se.properties)) (properties_bytes se.properties),
      length-append se.title (0 ∷ []),
      length-append se.url (0 ∷ []),
      length-le_bytes 1 se.type,
      length-le_bytes 4 (length se.properties),
      length-properties_bytes se.properties,
    )
