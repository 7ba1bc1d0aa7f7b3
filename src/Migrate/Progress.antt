-- ===== src/Migrate/Progress.antt =====
-- What `Run` leaves: a prefix of the migrations that were missing, applied in order and recorded.
use mathlib.Core.List.{append_assoc, append-nil}
use pingu_coin.Base.{
  ℕ, suc, String, List, [], ◌∷◌, ◌++◌, map, Bool, not, Option, none, some, ◌≡◌, ◌∙◌, refl, sym, ap,
  select, take, exists, Bool-cases, inl, inr,
}
use pingu_coin.Base.Store.{Result, ok, err, Error, M}
use pingu_coin.Base.Store.Laws.{
  Leads, WhenOk, leads_bind, leads_pure, leads_statement, leads_transaction, leads_weaken,
  leads_attempt,
}
use pingu_coin.Migrate.Files.{Migration}
use pingu_coin.Migrate.Runner.{
  Applied, Database, Report, finished, stopped, row_of, is_version, insert_applied, exec_sql,
  executed, apply, after_apply, apply_one, apply_all, in_report,
}

-- The migrations without a row.
abbrev pub missing : List Applied → List Migration → List Migration
missing recorded ms = select (λ m. not (exists (is_version m.version) recorded)) ms

abbrev pub versions_of : List Migration → List ℕ
versions_of ms = map (λ (m : Migration). m.version) ms

module _ {Data : Type 0} (execute : String → Data → Option Data)
    (has_table : String → Data → Bool) where
  abbrev pub continue : Option Data → (Data → Option Data) → Option Data
  continue none f = none
  continue (some d) f = f d

  -- The files, run one after the other.
  abbrev pub execute_all : List Migration → Data → Option Data
  execute_all [] d = some d
  execute_all (m ∷ ms) d = continue (execute m.sql d) (execute_all ms)

  -- The first `count` of `ms` were applied and recorded, all of them if `Run` has finished.
  pub record Progress (ms : List Migration) (s : Database Data) (r : Report) (t : Database Data)
      : Type 0 where
    pub count : ℕ
    pub listed : r.0 ≡ versions_of (take count ms)
    pub rows : t.rows ≡ s.rows ++ map row_of (take count ms)
    pub contents : execute_all (take count ms) s.contents ≡ some t.contents
    pub complete : r.1 ≡ finished → take count ms ≡ ms

  abbrev pub Ran : List Migration → Database Data → Result Report → Database Data → Type 0
  Ran ms s (ok r) t = Progress ms s r t
  Ran ms s (err _) t = ⊥

  none-Progress :
      (ms : List Migration) (s : Database Data) (e : Error) → Progress ms s ([], stopped e) s
  none-Progress ms s e = record {
    count = 0;
    listed = refl;
    rows = sym (append-nil s.rows);
    contents = refl;
    complete = λ q. absurd (differ q);
  }
    where
      differ : ¬ (stopped e ≡ finished)
      differ q = cc

  module _ (m : Migration) (s : Database Data) where
    abbrev with_row : Data → Database Data
    with_row d = record s { contents = d; rows = s.rows ++ row_of m ∷ [] }

    abbrev Done : Result (Unit {0}) → Database Data → Type 0
    Done (ok _) t = (d : Data) × (execute m.sql s.contents ≡ some d) × (t ≡ with_row d)
    Done (err _) t = t ≡ s

    abbrev Executed : Unit {0} → Database Data → Type 0
    Executed _ t =
        (d : Data) × (execute m.sql s.contents ≡ some d) × (t ≡ record s { contents = d })

    executed-Executed :
        (o : Option Data)
        → execute m.sql s.contents ≡ o
        → let (r, t) = executed execute has_table o s in WhenOk Executed r t
    executed-Executed none e = tt
    executed-Executed (some d) e = (d, e, refl)

    insert-Done :
        (t : Database Data)
        → Executed tt t
        → let (r, u) = insert_applied execute has_table m t in WhenOk (λ a v. Done (ok a) v) r u
    unfolding insert_applied
    insert-Done t (d, e, same) = elim (Bool-cases (exists (is_version m.version) t.rows)) [
      | inl taken ↦ rw taken tt
      | inr new ↦ rw new (d, e, rw same refl)
    ]

    apply-Done : Leads (apply execute has_table m) s Done
    unfolding apply exec_sql
    apply-Done =
        leads_transaction
          (leads_bind {P = WhenOk Executed}
            (leads_statement _ tt (executed-Executed (execute m.sql s.contents) refl))
            (λ _ t p. leads_statement _ tt (insert-Done t p)) (λ _ _ _. tt))
          (λ _. refl)

    -- One more migration in front.
    later-Ran :
        (ms : List Migration) (d : Data)
        → execute m.sql s.contents ≡ some d
        → (r : Report) (t : Database Data) → Progress ms (with_row d) r t
        → Progress (m ∷ ms) s (in_report execute has_table m.version r) t
    later-Ran ms d e r t p = record {
      count = suc p.count;
      listed = ap (λ vs. m.version ∷ vs) p.listed;
      rows = p.rows ∙ append_assoc s.rows (row_of m ∷ []) (map row_of (take p.count ms));
      contents = rw e p.contents;
      complete = λ q. ap (λ ns. m ∷ ns) (p.complete q);
    }

    module _ (ms : List Migration) (rest : M (Database Data) Report)
        (runs : (t : Database Data) → Leads rest t (Ran ms t)) where
      after-Ran :
          (r : Result (Unit {0})) (t : Database Data)
          → Done r t
          → Leads (after_apply execute has_table m.version rest r) t (Ran (m ∷ ms) s)
      unfolding after_apply
      after-Ran (err e) t p = rw p (leads_pure (none-Progress (m ∷ ms) s e))
      after-Ran (ok _) t (d, e, same) = rw same (
          leads_bind (runs (with_row d)) (λ report u p. leads_pure (later-Ran ms d e report u p))
            (λ _ _ p. absurd p))

      one-Ran : Leads (apply_one execute has_table m rest) s (Ran (m ∷ ms) s)
      unfolding apply_one
      one-Ran =
          leads_attempt {f = after_apply execute has_table m.version rest}
            (leads_weaken apply-Done after-Ran)

  -- Whatever statements fail, the loop of `Run` applies a prefix of the migrations that have no row,
  -- in their order: each one's SQL on what the one before it left, together with its row; what it
  -- reports is their versions, and where it finishes the prefix is all of them.
  pub apply_all-Ran :
      (recorded : List Applied) (ms : List Migration) (s : Database Data)
      → Leads (apply_all execute has_table recorded ms) s (Ran (missing recorded ms) s)
  unfolding apply_all
  apply_all-Ran recorded [] s = leads_pure (record {
    count = 0;
    listed = refl;
    rows = sym (append-nil s.rows);
    contents = refl;
    complete = λ _. refl;
  })
  apply_all-Ran recorded (m ∷ ms) s = elim (Bool-cases (exists (is_version m.version) recorded)) [
    | inl there ↦ rw there (apply_all-Ran recorded ms s)
    | inr new ↦ rw new (
        one-Ran m s (missing recorded ms) (apply_all execute has_table recorded ms)
          (apply_all-Ran recorded ms))
  ]
