-- ===== src/Sql/Statement.antt =====
-- The types of include/sql.h, and the results of the parsing functions of src/sql.c with the message
-- that `set_err` writes.
use Prim.Native.String.{String}
use tryo.Prelude.{ℕ, Bool, true, false, Option, none, some, List, [], Bytes}

abbrev pub db_name_max : ℕ
db_name_max = 128

abbrev pub int_max : ℕ
int_max = 2147483647

pub data SqlType : Type 0 where
  sql_insert sql_select : SqlType

pub data SqlWhereType : Type 0 where
  where_none where_id where_name : SqlWhereType

pub data SqlColumn : Type 0 where
  column_id column_name column_age : SqlColumn

-- `select_columns` is a list, so `select_column_count` is its length.
pub record SqlStatement : Type 0 where
  pub type : SqlType
  pub table : Bytes
  pub insert_has_id : Bool
  pub insert_id : ℕ
  pub insert_name : Bytes
  pub insert_age : ℕ
  pub select_all : Bool
  pub select_columns : List SqlColumn
  pub where_type : SqlWhereType
  pub where_id_value : ℕ
  pub where_name_value : Bytes

-- `memset(stmt, 0, sizeof(*stmt))`
abbrev pub zeroed : SqlStatement
zeroed = record {
  type = sql_insert;
  table = [];
  insert_has_id = false;
  insert_id = 0;
  insert_name = [];
  insert_age = 0;
  select_all = false;
  select_columns = [];
  where_type = where_none;
  where_id_value = 0;
  where_name_value = [];
}

pub data Parsed {ℓ} (A : Type ℓ) : Type ℓ where
  ok : A → Parsed A
  fail : String → Parsed A

infixl 5 ◌>>=◌
abbrev pub ◌>>=◌ {ℓ κ} : {A : Type ℓ} {B : Type κ} → Parsed A → (A → Parsed B) → Parsed B
ok a >>= f = f a
fail m >>= f = fail m

-- `if (!…) { set_err(…, message); return 0; }`
infixl 6 ◌or_fail◌
abbrev pub ◌or_fail◌ {ℓ} : {A : Type ℓ} → Option A → String → Parsed A
none or_fail message = fail message
some a or_fail message = ok a

abbrev pub guard : Bool → String → Parsed (Unit {0})
guard true message = ok tt
guard false message = fail message

infixl 5 ◌>>◌
abbrev pub ◌>>◌ {ℓ} : {B : Type ℓ} → Parsed (Unit {0}) → Parsed B → Parsed B
m >> k = m >>= λ _. k
