-- ===== src/Database/Pool.antt =====
-- database/mysql_pool.h and mysql_pool.cc: the pool of connections. A connection is a number, the
-- pointer; what the client library answers to a call is an argument.
pub mod Capacity
use file_server.Prelude.{
  ℕ, zero, suc, ◌+◌, ◌≡◌, Bool, true, false, not, ◌||◌, Option, none, some, List, [], ◌∷◌, ◌++◌,
  length, ltb, if◌then◌else◌,
}

-- `pool_`, `total_created_` and `pool_size_`; `lent` are the connections that shared pointers hold, and
-- `closed` those that `mysql_close` ended after they were counted.
pub record Pool : Type 0 where
  pub idle : List ℕ
  pub total_created : ℕ
  pub pool_size : ℕ
  pub lent : List ℕ
  pub closed : List ℕ

-- `CreateConnection`: `mysql_init` gives a handle or not, and `mysql_real_connect` succeeds or not.
unfoldable pub create_connection : Option ℕ → Bool → Option ℕ
create_connection none connects = none
create_connection (some conn) true = some conn
create_connection (some conn) false = none

unfoldable pub add_created : Option ℕ → Pool → Pool
add_created none p = p
add_created (some conn) p = record p {
  idle = p.idle ++ conn ∷ [];
  total_created = suc p.total_created;
}

-- The loop of the constructor, on the answers of `CreateConnection` that it gets.
unfoldable pub fill : List (Option ℕ) → Pool → Pool
unfolding add_created
fill [] p = p
fill (conn ∷ conns) p = fill conns (add_created conn p)

abbrev pub no_connections : ℕ → Pool
no_connections size = record {
  idle = [];
  total_created = 0;
  pool_size = size;
  lent = [];
  closed = [];
}

-- The constructor, where there are as many answers as connections are wanted.
unfoldable pub new_pool : List (Option ℕ) → Pool
unfolding fill
new_pool conns = fill conns (no_connections (length conns))

abbrev pub is_empty : List ℕ → Bool
is_empty [] = true
is_empty (conn ∷ conns) = false

-- The predicate of `cond_.wait`.
unfoldable pub can_proceed : Pool → Bool
can_proceed p = not (is_empty p.idle) || ltb p.total_created p.pool_size

-- What the client library answers during one `GetConnection`.
pub record Answers : Type 0 where
  pub created : Option ℕ
  pub pings : Bool
  pub reconnects : Bool

-- The connection is checked: a dead one is closed where it cannot be connected again.
unfoldable pub check : Answers → ℕ → Pool → Option ℕ × Pool
check a conn p =
    if a.pings || a.reconnects
    then (some conn, record p { lent = conn ∷ p.lent })
    else (none, record p { closed = conn ∷ p.closed })

-- Where no connection is idle.
unfoldable pub grow : Answers → Option ℕ → Pool → Option ℕ × Pool
unfolding check
grow a none p = (none, p)
grow a (some conn) p = check a conn (record p { total_created = suc p.total_created })

unfoldable pub take_from : Answers → List ℕ → Pool → Option ℕ × Pool
unfolding check grow
take_from a (conn ∷ rest) p = check a conn (record p { idle = rest })
take_from a [] p = if ltb p.total_created p.pool_size then grow a a.created p else (none, p)

-- `GetConnection`: `none` where the thread stays in `wait`; else the connection or a null pointer.
unfoldable pub get_connection : Answers → Pool → Option (Option ℕ × Pool)
unfolding can_proceed take_from
get_connection a p = if can_proceed p then some (take_from a p.idle p) else none

-- `ReturnConnection`, by the deleter of the shared pointer, of a connection that is lent.
unfoldable pub return_connection : List ℕ → ℕ → List ℕ → Pool → Pool
return_connection before conn after p = record p {
  idle = p.idle ++ conn ∷ [];
  lent = before ++ after;
}

-- `AvailableCount`
unfoldable pub available_count : Pool → ℕ
available_count p = length p.idle

pub data Step : Pool → Pool → Type 0 where
  gets :
      {p p' : Pool} (a : Answers) (conn : Option ℕ)
      → get_connection a p ≡ some (conn, p')
      → Step p p'
  returns :
      {p : Pool} (before : List ℕ) (conn : ℕ) (after : List ℕ)
      → p.lent ≡ before ++ conn ∷ after
      → Step p (return_connection before conn after p)

infixr 20 ◌then◌
pub data Steps : Pool → Pool → Type 0 where
  here : {p : Pool} → Steps p p
  ◌then◌ : {p q r : Pool} → Step p q → Steps q r → Steps p r
