-- ===== src/Tests/Core.antt =====
-- Runs of the helpers of src/core/shared_utils.h and src/core/core.cpp.
use mbsquad.Prelude.{[], ◌-◌, ◌*◌, ◌≤◌, ◌≡◌, refl, ◌∷◌, ◌++◌, none, some, arith}
use mbsquad.Prelude.Bytes.{Bytes, codes, AllBytes}
use mbsquad.Prelude.Int.{pos, negsuc}
use mbsquad.Core.Numbers.{stoi, decimal_nat, to_string}
use mbsquad.Core.Numbers.RoundTrip.{stoi-to_string}
use mbsquad.Core.Numbers.Paging.{
  PageParams, page_of, page_of-decimal_nat, parse_page_params, Window, parse_page_params-Window,
}
use mbsquad.Core.Settings.{SettingRows}

abbrev query_text : Bytes
query_text = codes "50% + ~"

query_text-AllBytes : AllBytes query_text
query_text-AllBytes = omega arith

stoi-to_string_example : stoi (to_string (negsuc 41) ++ codes "/x") ≡ some (negsuc 41)
stoi-to_string_example = stoi-to_string (negsuc 41) (codes "/x") (omega arith) refl

parse_page_params-Window_example :
    (p : PageParams) × (parse_page_params (some (decimal_nat 3)) none 100 ≡ some p)
    × (1 ≤ p.page_size)
    × (p.page_size ≤ 100)
    × Window p
        ((page_of (some (decimal_nat 3)) - 1) * p.page_size)
        (page_of (some (decimal_nat 3)) * p.page_size)
parse_page_params-Window_example =
    parse_page_params-Window (some (decimal_nat 3)) none 100 (omega arith)
      (omega (arith, page_of-decimal_nat 3 (omega arith) (omega arith)))

abbrev setting_rows : SettingRows
setting_rows = (codes "points_kill", b'"' ∷ (to_string (pos 12) ++ b'"' ∷ [])) ∷ []
