-- ===== src/Api/Header.antt =====
-- The values of a header that is sent more than once, as internal/api/server.go reads them.
use Prim.Native.String.{◌++◌}
use lazarus.Base.{String, List, [], ◌∷◌}

-- strings.Join(values, ",")
unfoldable pub join_values : List String → String
join_values [] = ""
join_values (v ∷ []) = v
join_values (v ∷ w ∷ vs) = v ++ "," ++ join_values (w ∷ vs)
