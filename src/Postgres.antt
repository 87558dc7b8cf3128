-- ===== src/Postgres.antt =====
-- src/backends/postgresql: the queries that are sent to a PostgreSQL server, as their text and the
-- parameters that go with it, and what is made of the replies. The server is no part of the model.
pub mod Prepared
pub mod Tag
pub mod Navigate
pub mod Locate
pub mod Scan
pub mod Delete
use dindexer.Common.{ℕ, Bool, List, [], ◌∷◌, ◌++◌, Bytes, codes}

-- What a query is given for `$1`, `$2` and so on.
pub data Param : Type 0 where
  text : Bytes → Param
  number : ℕ → Param
  flag : Bool → Param
  texts : List Bytes → Param
  numbers : List ℕ → Param

pub record Query : Type 0 where
  pub sql : Bytes
  pub params : List Param

abbrev pub query : Bytes → List Param → Query
query sql params = record { sql = sql; params = params }

-- `g_query_count_limit`, as it is printed.
abbrev pub query_count_limit : Bytes
query_count_limit = codes "500"
