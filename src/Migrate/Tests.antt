-- ===== src/Migrate/Tests.antt =====
-- Runs over two migrations.
use pingu_coin.Base.{ℕ, String, Bool, List, [], ◌∷◌, Option, none, some, refl, true, false}
use pingu_coin.Base.Store.Laws.{Leads}
use pingu_coin.Migrate.Files.{Entry, Migration}
use pingu_coin.Migrate.Runner.{Database, Options, row_of, apply_all, run}
use pingu_coin.Migrate.Progress.{Ran, missing, apply_all-Ran}
use pingu_coin.Migrate.Modified.{Idle, run-Idle}

abbrev digest : List ℕ → List ℕ
digest bs = []

-- The directory lists the second file first.
abbrev directory : Option (List Entry)
directory = some (
    record { name = "000002_points.sql"; is_dir = false; content = some "-- points\r\nALTER" }
    ∷ record { name = "000001_init.sql"; is_dir = false; content = some "CREATE" }
    ∷ record { name = "README.md"; is_dir = false; content = none }
    ∷ [])

abbrev init : Migration
init = record { version = 1; name = "init"; sql = "CREATE"; checksum = "" }

abbrev points : Migration
points = record { version = 2; name = "points"; sql = "-- points\nALTER"; checksum = "" }

-- A database that remembers the SQL that it has run.
abbrev log : String → List String → Option (List String)
log sql done = some (sql ∷ done)

abbrev no_table : String → List String → Bool
no_table _ _ = false

abbrev database : Database (List String)
database = record { contents = "CREATE" ∷ []; schema = true; rows = row_of init ∷ [] }

apply_all-Ran_example :
    Leads
      (apply_all log no_table database.rows (init ∷ points ∷ []))
      database
      (Ran log no_table (missing database.rows (init ∷ points ∷ [])) database)
apply_all-Ran_example = apply_all-Ran log no_table database.rows (init ∷ points ∷ []) database

abbrev edited : Migration
edited = record init { sql = "CREATE more"; checksum = "01" }

abbrev options : Options
options = record { baseline_version = 1; sentinel_table = "products"; table = "" }

run-Idle_example :
    Leads
      (run log no_table options (edited ∷ points ∷ []))
      database
      (Idle log no_table options (edited ∷ points ∷ []) database)
run-Idle_example =
    run-Idle log no_table options (edited ∷ points ∷ []) database [] (points ∷ []) edited
      (row_of init) refl refl refl
