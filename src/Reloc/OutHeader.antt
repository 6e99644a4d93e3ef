-- ===== src/Reloc/OutHeader.antt =====
-- out.h, the C header that `save_obj` of reloc/obj.cpp writes for the exported word lists.
use smolforth.Base.{ℕ, List, [], ◌∷◌, ◌++◌, length, codes}
use smolforth.Reloc.Tables.{Name, to_string}

-- `std::endl`
abbrev endl : List ℕ
endl = 10 ∷ []

-- The macro and the declaration of a word list.
unfoldable pub list_lines : Name → Name → List ℕ
list_lines wl wl_end =
    codes "#define sf_"
    ++ wl
    ++ codes "_end "
    ++ wl
    ++ codes "$"
    ++ wl_end
    ++ endl
    ++ codes "extern char "
    ++ wl
    ++ codes "$"
    ++ wl_end
    ++ codes ";"
    ++ endl

unfoldable pub all_lines : List (Name × Name) → List ℕ
unfolding list_lines
all_lines [] = []
all_lines (e ∷ es) = list_lines e.0 e.1 ++ all_lines es

abbrev address_of : Name → List ℕ
address_of wl = codes "&sf_" ++ wl ++ codes "_end"

-- The list of addresses: a comma before each but the first.
unfoldable pub more_addresses : List (Name × Name) → List ℕ
more_addresses [] = []
more_addresses (e ∷ es) = codes ", " ++ address_of e.0 ++ more_addresses es

unfoldable pub addresses : List (Name × Name) → List ℕ
unfolding more_addresses
addresses [] = []
addresses (e ∷ es) = address_of e.0 ++ more_addresses es

unfoldable pub out_header : List (Name × Name) → List ℕ
unfolding all_lines addresses to_string
out_header exports =
    all_lines exports
    ++ codes "#define SF_WL_EXPORT_COUNT "
    ++ to_string (length exports)
    ++ endl
    ++ codes "#define SF_WL_EXPORTED "
    ++ addresses exports
