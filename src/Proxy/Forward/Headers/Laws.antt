-- ===== src/Proxy/Forward/Headers/Laws.antt =====
-- Which values of a repeated header are sent on.
use lueur.Prelude.{
  String, str_eq, eq_iff, ◌≡◌, refl, List, [], ◌∷◌, if◌then◌else◌, arith, Bool-cases, inl, inr,
}
use lueur.Proxy.Forward.Headers.{HeaderMap, get_all, remove, insert, insert_all, convert_headers}

-- The last of the values, as a list, or else `before`.
abbrev pub last_or : (before : List String) → List String → List String
last_or before [] = before
last_or before (x ∷ xs) = last_or (x ∷ []) xs

get_all-remove :
    (headers : HeaderMap) (key name : String)
    → get_all (remove headers key) name ≡ (if str_eq key name then [] else get_all headers name)
unfolding get_all remove
get_all-remove [] key name = ground arith
get_all-remove ((other, value) ∷ headers) key name =
    ground
      (arith, get_all-remove headers key name, eq_iff other key, eq_iff key name, eq_iff other name)

get_all-insert :
    (headers : HeaderMap) (key value name : String)
    → get_all (insert headers key value) name
      ≡ (if str_eq key name then value ∷ [] else get_all headers name)
unfolding get_all insert
get_all-insert [] key value name = ground arith
get_all-insert ((other, value') ∷ headers) key value name = ground (
  arith,
  get_all-remove headers key name,
  get_all-insert headers key value name,
  eq_iff other key,
  eq_iff key name,
  eq_iff other name,
)

get_all-insert_all :
    (made headers : HeaderMap) (name : String)
    → get_all (insert_all made headers) name ≡ last_or (get_all made name) (get_all headers name)
unfolding get_all insert_all
get_all-insert_all made [] name = refl
get_all-insert_all made ((key, value) ∷ headers) name = elim (Bool-cases (str_eq key name)) [
  | inl same ↦ ground (
    arith,
    get_all-insert_all (insert made key value) headers name,
    get_all-insert made key value name,
  )
  | inr other ↦ ground (
    arith,
    get_all-insert_all (insert made key value) headers name,
    get_all-insert made key value name,
  )
]

-- Under each name, the converted headers have the last value that the headers had, and no other.
pub convert_headers_lem :
    (headers : HeaderMap) (name : String)
    → get_all (convert_headers headers) name ≡ last_or [] (get_all headers name)
unfolding convert_headers get_all
convert_headers_lem headers name = get_all-insert_all [] headers name
