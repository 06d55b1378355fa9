-- ===== src/Agtype.antt =====
-- The data types of src/include/utils/agtype.h: in-memory values, iterator tokens and the flags of
-- the on-disk format. The modules below model src/backend/utils/adt/agtype_util.c, part by part.
pub mod Entry
pub mod Text
pub mod Sort
pub mod Container
pub mod Fill
pub mod Iterator
pub mod Push
pub mod Extended
pub mod Number
pub mod Equal
pub mod Find
pub mod Compare
pub mod Contains
pub mod Hash
pub mod Convert
pub mod Operators
pub mod Access
pub mod Matches
pub mod Parser
use incubator_age.Prelude.{ℕ, zero, suc, Bool, true, false, List, [], ◌∷◌, ◌==◌}
use incubator_age.Prelude.Int.{ℤ}

-- struct agtype_value and struct agtype_pair. A string is its bytes; a numeric is the bytes of its
-- varlena datum, which this code only copies; a float is its IEEE 754 pattern; a binary is its
-- length and the bytes from its container's header on. A pair's key is an AGTV_STRING, so its
-- bytes are kept, and `num_elems` and `num_pairs` are the lengths of the lists.
mutual
  pub data AgtypeValue : Type 0 where
    null : AgtypeValue
    string : List ℕ → AgtypeValue
    numeric : List ℕ → AgtypeValue
    integer : ℤ → AgtypeValue
    float : ℕ → AgtypeValue
    boolean : Bool → AgtypeValue
    vertex : Pairs → AgtypeValue
    edge : Pairs → AgtypeValue
    path : Elems → AgtypeValue
    array : Elems → Bool → AgtypeValue
    object : Pairs → AgtypeValue
    binary : ℕ → List ℕ → AgtypeValue

  pub data Elems : Type 0 where
    nil : Elems
    cons : AgtypeValue → Elems → Elems

  pub data Pairs : Type 0 where
    end : Pairs
    pair : List ℕ → AgtypeValue → ℕ → Pairs → Pairs

-- enum agtype_value_type
pub data AgtypeValueType : Type 0 where
  null_type string_type numeric_type integer_type float_type bool_type : AgtypeValueType
  vertex_type edge_type path_type array_type object_type binary_type : AgtypeValueType

abbrev pub type_of : AgtypeValue → AgtypeValueType
type_of null = null_type
type_of (string _) = string_type
type_of (numeric _) = numeric_type
type_of (integer _) = integer_type
type_of (float _) = float_type
type_of (boolean _) = bool_type
type_of (vertex _) = vertex_type
type_of (edge _) = edge_type
type_of (path _) = path_type
type_of (array _ _) = array_type
type_of (object _) = object_type
type_of (binary _ _) = binary_type

-- The enumeration's values, by which two types are compared.
abbrev pub type_code : AgtypeValueType → ℕ
type_code null_type = 0
type_code string_type = 1
type_code numeric_type = 2
type_code integer_type = 3
type_code float_type = 4
type_code bool_type = 5
type_code vertex_type = 6
type_code edge_type = 7
type_code path_type = 8
type_code array_type = 16
type_code object_type = 17
type_code binary_type = 18

abbrev pub same_type : AgtypeValue → AgtypeValue → Bool
same_type a b = type_code (type_of a) == type_code (type_of b)

-- #define IS_A_AGTYPE_SCALAR(agtype_val)
abbrev pub is_scalar_type : AgtypeValueType → Bool
is_scalar_type array_type = false
is_scalar_type object_type = false
is_scalar_type binary_type = false
is_scalar_type _ = true

abbrev pub is_a_agtype_scalar : AgtypeValue → Bool
is_a_agtype_scalar v = is_scalar_type (type_of v)

-- agtype_iterator_token
pub data Token : Type 0 where
  done key value elem begin_array end_array begin_object end_object : Token

abbrev pub token_code : Token → ℕ
token_code done = 0
token_code key = 1
token_code value = 2
token_code elem = 3
token_code begin_array = 4
token_code end_array = 5
token_code begin_object = 6
token_code end_object = 7

abbrev pub num_elems : Elems → ℕ
num_elems nil = 0
num_elems (cons _ es) = suc (num_elems es)

abbrev pub num_pairs : Pairs → ℕ
num_pairs end = 0
num_pairs (pair _ _ _ ps) = suc (num_pairs ps)

-- struct agtype_pair, one of an object's array of pairs.
pub record Pair : Type 0 where
  pub key : List ℕ
  pub value : AgtypeValue
  pub order : ℕ

abbrev pub pair_list : Pairs → List Pair
pair_list end = []
pair_list (pair k v o ps) = record { key = k; value = v; order = o } ∷ pair_list ps

abbrev pub pairs_of : List Pair → Pairs
pairs_of [] = end
pairs_of (p ∷ ps) = pair p.key p.value p.order (pairs_of ps)

abbrev pub elem_list : Elems → List AgtypeValue
elem_list nil = []
elem_list (cons e es) = e ∷ elem_list es

abbrev pub elems_of : List AgtypeValue → Elems
elems_of [] = nil
elems_of (e ∷ es) = cons e (elems_of es)
