-- ===== src/Migrate/Modified.antt =====
-- A migration whose file has changed since it was applied stops `Run` before anything is applied.
use pingu_coin.Base.{
  ℕ, String, List, [], ◌∷◌, ◌++◌, Bool, Bool-cases, inl, inr, false, find_first, Option, none, some,
  ◌≡◌, ◌∙◌, refl, sym, ap, true, arith,
}
use pingu_coin.Base.Text.{◌is◌}
use pingu_coin.Base.Store.{Result, ok, err, unavailable}
use pingu_coin.Base.Store.Laws.{Leads, leads_pure, leads_statement, leads_attempt}
use pingu_coin.Migrate.Files.{Migration}
use pingu_coin.Migrate.Runner.{
  Applied, Database, Options, Report, is_version, checksum_at, changed, modified_in, apply_checked,
  check_files, asks_sentinel, use_recorded, read_recorded, run_in, run, table_of,
}

modified_in-empty : (ms : List Migration) → modified_in [] ms ≡ none
unfolding modified_in
modified_in-empty [] = refl
modified_in-empty (m ∷ ms) = modified_in-empty ms

changed-differs :
    (rows : List Applied) (m : Migration) (a : Applied)
    → find_first (is_version m.version) rows ≡ some a
    → (a.checksum is m.checksum) ≡ false
    → changed m (checksum_at m.version rows) ≡ true
changed-differs rows m a applied differs =
    ap (λ o. changed m (elim o as (λ _. Option String) [ none ↦ none | some x ↦ some x.checksum ]))
      applied
    ∙ rw differs refl

-- A file that is not the one that was applied is found, or one before it is.
edited-modified :
    (rows : List Applied) (before after : List Migration) (m : Migration) (a : Applied)
    → find_first (is_version m.version) rows ≡ some a
    → (a.checksum is m.checksum) ≡ false
    → (v : ℕ) × (modified_in rows (before ++ m ∷ after) ≡ some v)
unfolding modified_in
edited-modified rows [] after m a applied differs =
    (m.version, rw (changed-differs rows m a applied differs) refl)
edited-modified rows (x ∷ before) after m a applied differs =
    let (v, e) = edited-modified rows before after m a applied differs in
    elim (Bool-cases (changed x (checksum_at x.version rows))) [
      | inl here ↦ (x.version, rw here refl)
      | inr same ↦ (v, rw same e)
    ]

module _ {Data : Type 0} (execute : String → Data → Option Data) (has_table : String → Data → Bool)
    (o : Options) (ms : List Migration) (s : Database Data) where
  -- Neither the rows of the migrations nor anything else has changed, and nothing is reported.
  abbrev pub Idle : Result Report → Database Data → Type 0
  Idle (ok r) t = (r.0 ≡ []) × (t.contents ≡ s.contents) × (t.rows ≡ s.rows)
  Idle (err _) t = ⊥

  module _ (version : ℕ) (modified : modified_in s.rows ms ≡ some version) where
    asked :
        (rows : List Applied) → modified_in rows ms ≡ some version → asks_sentinel o rows ≡ false
    asked [] e = absurd (differ (sym (modified_in-empty ms) ∙ e))
      where
        differ : ¬ (◌≡◌ {A = Option ℕ} none (some version))
        differ q = cc
    asked (_ ∷ rows) e = ground arith

    used-Idle :
        (rows : List Applied) (t : Database Data)
        → modified_in rows ms ≡ some version
        → (t.contents ≡ s.contents) × (t.rows ≡ s.rows)
        → Leads (use_recorded execute has_table o ms (ok rows)) t Idle
    unfolding use_recorded check_files apply_checked
    used-Idle rows t found same = rw (asked rows found, found) (leads_pure (refl, same.0, same.1))

    read-Idle :
        (r : Result (Unit {0})) (t : Database Data)
        → (t.contents ≡ s.contents) × (t.rows ≡ s.rows)
        → Leads (read_recorded execute has_table o ms r) t Idle
    unfolding read_recorded use_recorded
    read-Idle (err e) t same = leads_pure (refl, same.0, same.1)
    read-Idle (ok _) t same = leads_attempt {f = use_recorded execute has_table o ms} (
        leads_statement _ (leads_pure (refl, same.0, same.1))
          (used-Idle t.rows t (rw same.1 modified) same))

    run_in-Idle : (table : Option String) → Leads (run_in execute has_table o ms table) s Idle
    unfolding run_in
    run_in-Idle none = leads_pure (refl, refl, refl)
    run_in-Idle (some table) = leads_attempt {f = read_recorded execute has_table o ms} (
        leads_statement _ (read-Idle (err unavailable) s (refl, refl))
          (read-Idle (ok tt) _ (refl, refl)))

    modified_run-Idle : Leads (run execute has_table o ms) s Idle
    unfolding run
    modified_run-Idle = run_in-Idle (table_of o)

  -- Where some migration `m` among the files is recorded as applied, in the first row of its version,
  -- with another checksum than its file has now, `Run` executes no migration, records none and
  -- reports none, whatever statements fail and whatever the other files are.
  pub run-Idle :
      (before after : List Migration) (m : Migration) (a : Applied)
      → ms ≡ before ++ m ∷ after
      → find_first (is_version m.version) s.rows ≡ some a
      → (a.checksum is m.checksum) ≡ false
      → Leads (run execute has_table o ms) s Idle
  run-Idle before after m a among applied differs =
      let (v, e) = edited-modified s.rows before after m a applied differs in
      modified_run-Idle v (rw among e)
