-- ===== src/Migrate/Runner.antt =====
-- pkg/dbmigrate/dbmigrate.go: `Run` and `Status`, and the lock of pkg/migrate/migrate.go.
use pingu_coin.Base.{
  ℕ, suc, String, List, [], ◌∷◌, ◌++◌, map, Bool, true, false, not, ◌&&◌, Option, none, some, ◌==◌,
  ltb, leb, if◌then◌else◌, exists, find_first, order_by, length,
}
use Prim.Native.Char.{code}
use pingu_coin.Base.Text.{◌is◌}
use pingu_coin.Base.Store.{
  Result, ok, err, Error, duplicated_key, unavailable, M, pure, ◌>>=◌, ◌>>◌, statement, modify,
  query, transaction, attempt, boundary,
}
use pingu_coin.Migrate.Files.{Migration, is_word, is_digit}

-- A row of the table of migrations, and the database with that table. `contents` is everything else
-- in the database; `schema` tells whether the table of migrations is there.
pub record Applied : Type 0 where
  pub version : ℕ
  pub name : String
  pub checksum : String

pub record Database (Data : Type 0) : Type 0 where
  pub contents : Data
  pub schema : Bool
  pub rows : List Applied

pub record Options : Type 0 where
  pub baseline_version : ℕ
  pub sentinel_table : String
  pub table : String

abbrev pub default_table : String
default_table = "schema_migrations"

abbrev pub all_words : String → Bool
all_words String.[] = true
all_words (String.◌∷◌ c s) = is_word (code c) && all_words s

abbrev pub text_length : String → ℕ
text_length String.[] = 0
text_length (String.◌∷◌ _ s) = suc (text_length s)

-- `tableName.MatchString`
abbrev pub is_table_name : String → Bool
is_table_name String.[] = false
is_table_name (String.◌∷◌ c s) =
    is_word (code c) && not (is_digit (code c)) && all_words s && leb (text_length s) 62

-- `table`
unfoldable pub table_of : Options → Option String
table_of o =
    let name = if o.table is "" then default_table else o.table in
    if is_table_name name then some name else none

pub data Ending : Type 0 where
  finished invalid_table : Ending
  modified : ℕ → Ending
  stopped : Error → Ending

-- The versions that `Run` has applied, and how it ends.
abbrev pub Report : Type 0
Report = List ℕ × Ending

abbrev pub row_of : Migration → Applied
row_of m = record { version = m.version; name = m.name; checksum = m.checksum }

abbrev pub is_version : ℕ → Applied → Bool
is_version v a = a.version == v

abbrev pub checksum_at : ℕ → List Applied → Option String
checksum_at v rows = elim (find_first (is_version v) rows) as (λ _. Option String) [
  | none ↦ none
  | some a ↦ some a.checksum
]

abbrev pub changed : Migration → Option String → Bool
changed m none = false
changed m (some sum) = not (sum is m.checksum)

-- The first applied migration whose file is not the one that was applied.
unfoldable pub modified_in : List Applied → List Migration → Option ℕ
modified_in rows [] = none
modified_in rows (m ∷ ms) =
    let rest = modified_in rows ms in
    if changed m (checksum_at m.version rows) then some m.version else rest

abbrev pub asks_sentinel : Options → List Applied → Bool
asks_sentinel o recorded =
    length recorded == 0 && ltb 0 o.baseline_version && not (o.sentinel_table is "")

-- `execute` is the SQL of a file, and `has_table` asks `to_regclass`.
module _ {Data : Type 0} (execute : String → Data → Option Data)
    (has_table : String → Data → Bool) where
  -- `record`: the version is the primary key.
  unfoldable pub insert_applied : Migration → Database Data → Result (Unit {0}) × Database Data
  insert_applied m s =
      if exists (is_version m.version) s.rows
      then (err duplicated_key, s)
      else (ok tt, record s { rows = s.rows ++ row_of m ∷ [] })

  abbrev pub executed : Option Data → Database Data → Result (Unit {0}) × Database Data
  executed none s = (err unavailable, s)
  executed (some d) s = (ok tt, record s { contents = d })

  unfoldable pub exec_sql : String → Database Data → Result (Unit {0}) × Database Data
  exec_sql sql s = executed (execute sql s.contents) s

  unfoldable pub apply : Migration → M (Database Data) (Unit {0})
  unfolding exec_sql insert_applied ◌>>=◌
  apply m = transaction (do statement (exec_sql m.sql); statement (insert_applied m))

  abbrev pub in_report : ℕ → Report → Report
  in_report v (versions, ending) = (v ∷ versions, ending)

  -- An error ends the loop with what was applied before it.
  unfoldable pub after_apply :
      ℕ → M (Database Data) Report → Result (Unit {0}) → M (Database Data) Report
  unfolding ◌>>=◌
  after_apply version rest (err e) = pure ([], stopped e)
  after_apply version rest (ok _) = do report ← rest; pure (in_report version report)

  unfoldable pub apply_one : Migration → M (Database Data) Report → M (Database Data) Report
  unfolding apply after_apply ◌>>=◌
  apply_one m rest = do r ← attempt (apply m); after_apply m.version rest r

  -- The loop over the migrations; those of `recorded` are passed over.
  unfoldable pub apply_all : List Applied → List Migration → M (Database Data) Report
  unfolding apply_one
  apply_all recorded [] = pure ([], finished)
  apply_all recorded (m ∷ ms) =
      let rest = apply_all recorded ms in
      let here = apply_one m rest in if exists (is_version m.version) recorded then rest else here

  unfoldable pub apply_checked : List Applied → List Migration → Option ℕ → M (Database Data) Report
  unfolding apply_all
  apply_checked recorded ms (some version) = pure ([], modified version)
  apply_checked recorded ms none = apply_all recorded ms

  unfoldable pub check_files : List Applied → List Migration → M (Database Data) Report
  unfolding modified_in apply_checked
  check_files recorded ms = apply_checked recorded ms (modified_in recorded ms)

  -- The migrations up to the baseline are recorded and not run.
  unfoldable pub mark_one :
      Migration → M (Database Data) (List Applied) → M (Database Data) (List Applied)
  unfolding insert_applied ◌>>=◌
  mark_one m rest = do statement (insert_applied m); more ← rest; pure (row_of m ∷ more)

  unfoldable pub mark_baseline : ℕ → List Migration → M (Database Data) (List Applied)
  unfolding mark_one
  mark_baseline limit [] = pure []
  mark_baseline limit (m ∷ ms) =
      let rest = mark_baseline limit ms in
      let here = mark_one m rest in if ltb limit m.version then pure [] else here

  unfoldable pub check_marked : List Migration → Result (List Applied) → M (Database Data) Report
  unfolding check_files
  check_marked ms (err e) = pure ([], stopped e)
  check_marked ms (ok recorded) = check_files recorded ms

  unfoldable pub mark_existing : Options → List Migration → Result Bool → M (Database Data) Report
  unfolding mark_baseline check_marked check_files ◌>>=◌
  mark_existing o ms (err e) = pure ([], stopped e)
  mark_existing o ms (ok false) = check_files [] ms
  mark_existing o ms (ok true) = do
    r ← attempt (mark_baseline o.baseline_version ms)
    check_marked ms r

  unfoldable pub ask_sentinel : Options → List Migration → M (Database Data) Report
  unfolding mark_existing ◌>>=◌
  ask_sentinel o ms = do
    r ← attempt (query (λ s. ok (has_table o.sentinel_table s.contents)))
    mark_existing o ms r

  unfoldable pub use_recorded :
      Options → List Migration → Result (List Applied) → M (Database Data) Report
  unfolding ask_sentinel check_files
  use_recorded o ms (err e) = pure ([], stopped e)
  use_recorded o ms (ok recorded) =
      if asks_sentinel o recorded then ask_sentinel o ms else check_files recorded ms

  unfoldable pub read_recorded :
      Options → List Migration → Result (Unit {0}) → M (Database Data) Report
  unfolding use_recorded ◌>>=◌
  read_recorded o ms (err e) = pure ([], stopped e)
  read_recorded o ms (ok _) = do r ← attempt (query (λ s. ok s.rows)); use_recorded o ms r

  unfoldable pub run_in : Options → List Migration → Option String → M (Database Data) Report
  unfolding read_recorded ◌>>=◌
  run_in o ms none = pure ([], invalid_table)
  run_in o ms (some table) = do
    r ← attempt (modify (λ s. record s { schema = true }))
    read_recorded o ms r

  -- `run`
  unfoldable pub run : Options → List Migration → M (Database Data) Report
  unfolding table_of run_in
  run o ms = run_in o ms (table_of o)

  -- `WithLock` around `run`: a failure of the release is passed over.
  unfoldable pub run_locked :
      Options → List Migration → Result (Unit {0}) → M (Database Data) Report
  unfolding run ◌>>=◌
  run_locked o ms (err e) = pure ([], stopped e)
  run_locked o ms (ok _) = do report ← run o ms; attempt boundary; pure report

  -- `Run`
  unfoldable pub run_migrations : Options → List Migration → M (Database Data) Report
  unfolding run_locked ◌>>=◌
  run_migrations o ms = do r ← attempt boundary; run_locked o ms r

  -- `Status`, of a table whose name is valid.
  unfoldable pub applied_versions : M (Database Data) (List ℕ)
  unfolding ◌>>=◌
  applied_versions = do
    there ← query (λ s. ok s.schema)
    let versions =
        query (λ s.
          ok (map (λ (a : Applied). a.version) (order_by (λ (a : Applied). a.version) s.rows)))
    if there then versions else pure []
