-- ===== src/Proxy/Forward/Headers.antt =====
-- `convert_headers_to_reqwest` and `convert_headers_to_axum` of lueur-cli/src/proxy/forward.rs.
pub mod Laws
use lueur.Prelude.{
  String, str_eq, ◌≡◌, refl, Bool, true, false, not, ◌&&◌, List, [], ◌∷◌, ◌++◌, if◌then◌else◌,
  arith, Bool-cases, inl, inr,
}

-- The entries of a map in the order in which `iter` yields them; a name may occur several times.
abbrev pub HeaderMap : Type 0
HeaderMap = List (String × String)

unfoldable pub get_all : HeaderMap → String → List String
get_all [] name = []
get_all ((key, value) ∷ headers) name =
    if str_eq key name then value ∷ get_all headers name else get_all headers name

remove : HeaderMap → String → HeaderMap
remove [] name = []
remove ((key, value) ∷ headers) name =
    if str_eq key name then remove headers name else (key, value) ∷ remove headers name

-- `HeaderMap::insert`: the value takes the place of all that the name had.
pub insert : HeaderMap → String → String → HeaderMap
unfolding remove
insert [] key value = (key, value) ∷ []
insert ((other, value') ∷ headers) key value =
    if str_eq other key
    then (key, value) ∷ remove headers key
    else (other, value') ∷ insert headers key value

-- The loop, from the map that was made so far.
pub insert_all : HeaderMap → HeaderMap → HeaderMap
unfolding insert
insert_all headers [] = headers
insert_all headers ((key, value) ∷ others) = insert_all (insert headers key value) others

-- Both functions, which differ in the crates of their types.
unfoldable pub convert_headers : HeaderMap → HeaderMap
unfolding insert_all
convert_headers headers = insert_all [] headers
