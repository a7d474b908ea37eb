-- ===== src/Entries/Entry/Print.antt =====
-- sds_core/searchentry.cpp, `operator<<` of an entry.
use sniffdogsniff.Shared.{ℕ, List, [], ◌∷◌, ◌++◌, ◌==◌, if◌then◌else◌}
use sniffdogsniff.Shared.Codes.{codes}
use sniffdogsniff.Text.Decimal.{decimal}
use sniffdogsniff.Kad.Hex.{bytes_to_hex_string, print_id}
use sniffdogsniff.Entries.Entry.{SearchEntry, PropertyMap}

-- Nothing is written for the number of no enumerator.
unfoldable pub print_type : ℕ → List ℕ
print_type type =
    if type == 0
    then codes ", type=SITE"
    else if type == 1
    then codes ", type=IMAGE"
    else if type == 2
    then codes ", type=VIDEO"
    else []

unfoldable pub print_properties : PropertyMap → List ℕ
print_properties [] = []
print_properties ((k, v) ∷ m) =
    decimal k ++ (codes "=" ++ (v ++ (codes ", " ++ print_properties m)))

unfoldable pub print_entry : SearchEntry → List ℕ
print_entry se =
    codes "SearchEntry["
    ++ (codes "hash="
        ++ (bytes_to_hex_string se.hash
            ++ (codes ", simHash="
                ++ (print_id se.sim_hash
                    ++ (codes ", title="
                        ++ (se.title
                            ++ (codes ", url="
                                ++ (se.url
                                    ++ (print_type se.type
                                        ++ (codes ", properties=["
                                            ++ (print_properties se.properties
                                                ++ codes "]]")))))))))))
