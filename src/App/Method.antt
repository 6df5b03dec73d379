-- ===== src/App/Method.antt =====
-- method.go: the slots of the common verbs.
pub mod Exact
use rice_http.Prelude.{ℕ, Bytes, codes, Option, none, some, ◌==◌, bytes_eq, if◌then◌else◌, length}

unfoldable pub method_index : Bytes → Option ℕ
method_index m =
    if length m == 3
    then if bytes_eq m (codes "GET")
      then some 0
      else if bytes_eq m (codes "PUT")
      then some 2
      else none
    else if length m == 4
    then if bytes_eq m (codes "POST")
      then some 1
      else if bytes_eq m (codes "HEAD")
      then some 5
      else none
    else if length m == 5
    then if bytes_eq m (codes "PATCH") then some 3 else none
    else if length m == 6
    then if bytes_eq m (codes "DELETE") then some 4 else none
    else if length m == 7
    then if bytes_eq m (codes "OPTIONS") then some 6 else none
    else none
