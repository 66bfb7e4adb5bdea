-- ===== src/Store/Open.antt =====
-- `Store::open` and `Store::open_in_memory` of src/store.rs. The file system is a parameter: what the
-- parent of a path is, which directories can be made, and which tables stand in a database file.
use execra.Base.{ℕ, zero, suc, Text, Bool, true, false, Option, none, some, [], if◌then◌else◌}
use execra.Host.{Host}
use execra.Store.{Store, StoreError, Result, ok, err, ◌>>=◌, execute, sqlite, io}

pub record Disk : Type 0 where
  pub parent : Text → Option Text
  pub create_dir_all : Text → Bool
  pub connect : Text → Option Store
  pub connect_in_memory : Option Store

abbrev pub is_empty : Text → Bool
is_empty [] = true
is_empty _ = false

-- `create_dir_all` of a parent that is not empty.
abbrev pub make_parent : Disk → Option Text → Bool
make_parent d none = true
make_parent d (some dir) = if is_empty dir then true else d.create_dir_all dir

-- Calls that set the connection up, of which none changes a table: `busy_timeout`, the pragmas, and
-- the schema, which makes only what is not there.
unfoldable pub set_up : Host → ℕ → Store → Result Store
unfolding execute
set_up h zero s = ok s
set_up h (suc n) s = let done = execute h (λ t. t) s in done.0 >>= λ u. set_up h n done.1

abbrev pub connected : StoreError → Option Store → Result Store
connected e none = err e
connected e (some s) = ok s

unfoldable pub open_file : Disk → Host → Text → Result Store
unfolding set_up
open_file d h path =
    if make_parent d (d.parent path)
    then connected sqlite (d.connect path) >>= set_up h 4
    else err io

unfoldable pub open_in_memory : Disk → Host → Result Store
unfolding set_up
open_in_memory d h = connected sqlite d.connect_in_memory >>= set_up h 2
