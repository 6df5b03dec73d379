-- ===== src/RealIp/Tests.antt =====
-- Forwarded lines resolved, and the instances of the theorems.
use rice_http.Prelude.{Bytes, codes, none, some, Option, [], ◌∷◌, ◌++◌, ◌≡◌, refl, get_elem?, arith}
use rice_http.Accept.{cut_at, trim_left, trim_right, trim_ows}
use rice_http.RealIp.{
  cut_last, port_from, valid_port, valid_port_suffix, parse_entry, scan_line, scan_lines, resolve,
}
use rice_http.RealIp.Entries.{all_entries, chosen, resolve-get_elem?, resolve-append}

real_ip_runs : Unit {0}
unfolding cut_at trim_left trim_right trim_ows cut_last port_from valid_port valid_port_suffix
    parse_entry scan_line scan_lines resolve
real_ip_runs = tt

-- Any text is an address here.
abbrev as_is : Bytes → Option Bytes
as_is s = some s

resolved :
    (resolve as_is (codes "6.6.6.6, 1.1.1.1:80" ∷ codes "2.2.2.2" ∷ []) 2 ≡ some (codes "1.1.1.1"))
    × (resolve as_is (codes "[::1]:443" ∷ []) 1 ≡ some (codes "::1"))
    × (resolve as_is (codes ",1.1.1.1:x" ∷ []) 1 ≡ none)
    × (resolve as_is (codes "1.1.1.1" ∷ []) 2 ≡ none)
unfolding real_ip_runs
resolved = (refl, refl, refl, refl)

resolve-get_elem?_example :
    resolve as_is (codes "6.6.6.6, 1.1.1.1" ∷ codes "2.2.2.2" ∷ []) 2
    ≡ chosen as_is (get_elem? (all_entries (codes "6.6.6.6, 1.1.1.1" ∷ codes "2.2.2.2" ∷ [])) 1)
resolve-get_elem?_example =
    resolve-get_elem? as_is (codes "6.6.6.6, 1.1.1.1" ∷ codes "2.2.2.2" ∷ []) 1

resolve-append_example :
    resolve as_is ((codes "6.6.6.6" ∷ []) ++ (codes "1.1.1.1, 2.2.2.2" ∷ [])) 2
    ≡ resolve as_is (codes "1.1.1.1, 2.2.2.2" ∷ []) 2
resolve-append_example =
    resolve-append as_is (codes "6.6.6.6" ∷ []) (codes "1.1.1.1, 2.2.2.2" ∷ []) 1 (omega arith)
