-- ===== src/Static/Redirects.antt =====
-- static.go (`writeDirRedirect`): where a redirect leads.
use rice_http.Prelude.{Bytes, false, [], ◌∷◌, ◌≡◌}
use rice_http.Static.{is_slash}

-- A path of the same site: one slash, and none behind it, in either direction.
abbrev pub IsLocal : Bytes → Type 0
IsLocal [] = ⊥
IsLocal (c ∷ []) = c ≡ 47
IsLocal (c ∷ d ∷ ds) = (c ≡ 47) × (is_slash d ≡ false)

abbrev NoSlash : Bytes → Type 0
NoSlash [] = Unit
NoSlash (c ∷ cs) = is_slash c ≡ false
