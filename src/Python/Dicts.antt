-- ===== src/Python/Dicts.antt =====
-- Dicts with text keys, as lists of entries in insertion order.
use frankensteinz_hermes.Base.{
  String, ◌≡◌, refl, ap, Option, none, some, List, [], ◌∷◌, arith, ◌==◌, eq_iff, if◌then◌else◌,
}
use frankensteinz_hermes.Python.Json.{Value, Fields, end, field}

abbrev pub Dict : Type 0
Dict = List (String × Value)

abbrev pub entries : Fields → Dict
entries end = []
entries (field k v fs) = (k, v) ∷ entries fs

abbrev pub of_dict : Dict → Fields
of_dict [] = end
of_dict ((k, v) ∷ d) = field k v (of_dict d)

pub of_dict-entries : (fs : Fields) → of_dict (entries fs) ≡ fs
of_dict-entries end = refl
of_dict-entries (field k v fs) = ap (field k v) (of_dict-entries fs)

-- `list(d)`
abbrev pub keys : Dict → List String
keys [] = []
keys ((k, v) ∷ d) = k ∷ keys d

-- `d.get(k)`, where `none` says that the key is missing
unfoldable pub lookup : String → Dict → Option Value
lookup k [] = none
lookup k ((j, v) ∷ d) = if j == k then some v else lookup k d

-- `d[k] = v`
unfoldable pub insert : String → Value → Dict → Dict
insert k v [] = (k, v) ∷ []
insert k v ((j, w) ∷ d) = if j == k then (k, v) ∷ d else (j, w) ∷ insert k v d

pub lookup-insert :
    (k j : String) (v : Value) (d : Dict)
    → lookup j (insert k v d) ≡ (if k == j then some v else lookup j d)
unfolding lookup insert
lookup-insert k j v [] = refl
lookup-insert k j v ((i, w) ∷ d) =
    ground (arith, eq_iff k j, eq_iff i k, eq_iff i j, lookup-insert k j v d)
