-- ===== src/Entries/Entry.antt =====
-- sds_core/searchentry.h and searchentry.cpp, class SearchEntry, and what of simhash.cpp it reads and
-- writes. Texts are lists of bytes; the type is the number of its enumerator, as a cast from a byte
-- gives any.
pub mod RoundTrip
pub mod Properties
pub mod Query
pub mod Print
use sniffdogsniff.Shared.{
  ℕ, zero, suc, ◌+◌, Bool, true, false, Option, some, none, List, [], ◌∷◌, ◌++◌, length,
}
use sniffdogsniff.Shared.{ltb, leb, ◌==◌, if◌then◌else◌}
use sniffdogsniff.Kad.Id.{KadId, kad_id_length}
use sniffdogsniff.Wire.Outcome.{Outcome, ok}
use sniffdogsniff.Wire.Buf.{
  Buf, M, ◌>>=◌, ◌>>◌, pure, write_bytes, read_bytes, write_string, read_string, write_uint8,
  read_uint8, write_uint32, read_uint32,
}
use sniffdogsniff.Wire.Messages.{kept}

abbrev pub sha256_digest_length : ℕ
sha256_digest_length = 32

-- The macro is a number of bits.
abbrev pub simhash_digest_length : ℕ
simhash_digest_length = 128

abbrev pub max_search_entry_size : ℕ
max_search_entry_size = 20136

-- `std::map<uint8_t, std::string>`: the entries in the order of the keys.
abbrev pub PropertyMap : Type 0
PropertyMap = List (ℕ × List ℕ)

pub record SearchEntry : Type 0 where
  pub hash : List ℕ
  pub sim_hash : KadId
  pub title : List ℕ
  pub url : List ℕ
  pub type : ℕ
  pub properties : PropertyMap

-- `properties[idx] = value`.
unfoldable pub set_property : ℕ → List ℕ → PropertyMap → PropertyMap
set_property idx value [] = (idx, value) ∷ []
set_property idx value ((k, v) ∷ m) =
    if ltb k idx
    then (k, v) ∷ set_property idx value m
    else if k == idx
    then (idx, value) ∷ m
    else (idx, value) ∷ (k, v) ∷ m

unfoldable pub find_property : ℕ → PropertyMap → Option (List ℕ)
find_property idx [] = none
find_property idx ((k, v) ∷ m) = if k == idx then some v else find_property idx m

unfoldable pub erase_property : ℕ → PropertyMap → PropertyMap
erase_property idx [] = []
erase_property idx ((k, v) ∷ m) = if k == idx then m else (k, v) ∷ erase_property idx m

unfoldable pub add_property : ℕ → List ℕ → SearchEntry → SearchEntry
add_property idx value se = record se { properties = set_property idx value se.properties }

-- `properties[idx]` adds an empty value where there is none.
unfoldable pub get_property : ℕ → SearchEntry → List ℕ × SearchEntry
get_property idx se = elim (find_property idx se.properties) [
  | some v ↦ (v, se)
  | none ↦ ([], record se { properties = set_property idx [] se.properties })
]

unfoldable pub remove_property : ℕ → SearchEntry → SearchEntry
remove_property idx se = record se { properties = erase_property idx se.properties }

-- The loop of `hasValidSize`.
unfoldable pub properties_size : PropertyMap → ℕ
properties_size [] = 0
properties_size ((k, v) ∷ m) = 1 + length v + properties_size m

unfoldable pub has_valid_size : SearchEntry → Bool
has_valid_size se =
    leb
      (sha256_digest_length
        + length se.title
        + length se.url
        + 1
        + simhash_digest_length
        + properties_size se.properties)
      max_search_entry_size

unfoldable pub write_properties : PropertyMap → M (Unit {0})
write_properties [] = pure tt
write_properties ((k, v) ∷ m) = do write_uint8 k; write_string v; write_properties m

unfoldable pub write_search_entry : SearchEntry → M (Unit {0})
write_search_entry se = do
  write_bytes se.sim_hash.id
  write_string se.title
  write_string se.url
  write_uint8 se.type
  write_uint32 (length se.properties)
  write_properties se.properties

unfoldable pub read_properties : ℕ → PropertyMap → M PropertyMap
read_properties zero m = pure m
read_properties (suc n) m = do
  k ← read_uint8
  v ← read_string
  read_properties n (set_property k v m)

-- `sha256` is the function of the OpenSSL library.
module _ (sha256 : List ℕ → List ℕ) where
  -- `sim_hash` is what the constructor of `SimHash` makes of the title.
  unfoldable pub new_search_entry : KadId → List ℕ → List ℕ → ℕ → PropertyMap → SearchEntry
  new_search_entry sim_hash title url type properties = record {
    hash = sha256 title;
    sim_hash = sim_hash;
    title = title;
    url = url;
    type = type;
    properties = properties;
  }

  unfoldable pub re_hash : SearchEntry → SearchEntry
  re_hash se = record se { hash = sha256 se.title }

  unfoldable pub read_search_entry : SearchEntry → M SearchEntry
  read_search_entry old = do
    bs ← read_bytes kad_id_length
    title ← read_string
    url ← read_string
    type ← read_uint8
    count ← read_uint32
    m ← read_properties count []
    pure (
        re_hash (record {
          hash = old.hash;
          sim_hash = kept old.sim_hash bs;
          title = title;
          url = url;
          type = type;
          properties = m;
        }))
