-- ===== src/Postgres.antt =====
-- The functions of PostgreSQL that the code calls, as parameters of the model. Nothing is assumed
-- of them here; a theorem that needs a law of one states it as a hypothesis.
use incubator_age.Prelude.{ℕ, List, Bool}
use incubator_age.Prelude.Int.{ℤ}
use incubator_age.Result.{Result}

pub record Postgres : Type 0 where
  -- VARSIZE, from the first bytes of a varlena datum; and MaxAllocSize
  pub varsize : List ℕ → ℕ
  pub max_alloc_size : ℕ
  -- numeric_cmp, numeric_eq, int8_numeric and float8_numeric, on the bytes of numeric datums
  pub numeric_cmp : List ℕ → List ℕ → ℤ
  pub numeric_eq : List ℕ → List ℕ → Bool
  pub int8_numeric : ℤ → List ℕ
  pub float8_numeric : ℕ → List ℕ
  -- varstr_cmp under the default collation
  pub varstr_cmp : List ℕ → List ℕ → ℤ
  -- hash_any, hash_numeric, hashint8 and hashfloat8
  pub hash_any : List ℕ → ℕ
  pub hash_numeric : List ℕ → ℕ
  pub hashint8 : ℤ → ℕ
  pub hashfloat8 : ℕ → ℕ

-- Arithmetic on doubles, as IEEE 754 patterns, and on numeric datums, which can raise errors; and
-- the output functions, whose results are the bytes before the NUL.
pub record Arithmetic : Type 0 where
  -- C's +, -, * and / on doubles, and fmod and pow
  pub float_add : ℕ → ℕ → ℕ
  pub float_sub : ℕ → ℕ → ℕ
  pub float_mul : ℕ → ℕ → ℕ
  pub float_div : ℕ → ℕ → ℕ
  pub fmod : ℕ → ℕ → ℕ
  pub pow : ℕ → ℕ → ℕ
  -- the functions of these names
  pub numeric_add : List ℕ → List ℕ → Result (List ℕ)
  pub numeric_sub : List ℕ → List ℕ → Result (List ℕ)
  pub numeric_mul : List ℕ → List ℕ → Result (List ℕ)
  pub numeric_div : List ℕ → List ℕ → Result (List ℕ)
  pub numeric_mod : List ℕ → List ℕ → Result (List ℕ)
  pub numeric_power : List ℕ → List ℕ → Result (List ℕ)
  pub numeric_uminus : List ℕ → Result (List ℕ)
  pub int8out : ℤ → List ℕ
  pub float8out : ℕ → List ℕ
  pub numeric_out : List ℕ → List ℕ

-- Text: the database's encoding, and the functions that read and compare C strings.
pub record TextFunctions : Type 0 where
  -- GetDatabaseEncoding() == PG_UTF8
  pub encoding_is_utf8 : Bool
  -- unicode_to_utf8, its result cut to pg_utf_mblen of it
  pub unicode_to_utf8 : ℕ → List ℕ
  -- pg_strcasecmp(a, b) == 0
  pub same_ignoring_case : List ℕ → List ℕ → Bool
  -- scanint8 (with errorOK false), float8in_internal and numeric_in
  pub scanint8 : List ℕ → Result ℤ
  pub float8in : List ℕ → Result ℕ
  pub numeric_in : List ℕ → Result (List ℕ)

-- The C library's functions on strings that the code calls.
pub record CStrings : Type 0 where
  -- strncmp(a, b, n) == 0
  pub same_start : List ℕ → List ℕ → ℕ → Bool
  -- strstr(a, b) != NULL, on the copies that pnstrdup makes
  pub found_in : List ℕ → List ℕ → Bool
