-- ===== src/Migrate/Versions.antt =====
-- What `Load` promises of the versions.
use pingu_coin.Base.{
  ℕ, suc, List, [], ◌∷◌, map, Option, none, some, ◌≡◌, refl, ◌==◌, ==→eq, Bool-cases, inl, inr,
  Option-cases, sym, order_by,
}
use pingu_coin.Migrate.Files.{
  Migration, Entry, Loaded, loaded, fault, LoadFault, version_fault, check_versions, sorted, load,
  load_entries,
}

-- The numbers from `i + 1` on, `n` of them.
abbrev pub count_from : ℕ → List Migration → List ℕ
count_from i [] = []
count_from i (_ ∷ ms) = suc i ∷ count_from (suc i) ms

heads : {m n : ℕ} {xs ys : List ℕ} → m ≡ n → xs ≡ ys → m ∷ xs ≡ n ∷ ys
heads e h = rw (e, h) refl

some-none : (f : LoadFault) → ¬ (◌≡◌ {A = Option LoadFault} (some f) none)
some-none f e = cc

version_fault-count :
    (i : ℕ) (previous : Option Migration) (ms : List Migration)
    → version_fault i previous ms ≡ none
    → map (λ (m : Migration). m.version) ms ≡ count_from i ms
unfolding version_fault
version_fault-count i previous [] h = refl
version_fault-count i none (m ∷ ms) h = elim (Bool-cases (m.version == suc i)) [
  | inl same ↦
      heads (==→eq m.version (suc i) same) (version_fault-count (suc i) (some m) ms (rw same at h))
  | inr other ↦ absurd (some-none _ (rw other at h))
]
version_fault-count i (some p) (m ∷ ms) h = elim (Bool-cases (m.version == p.version)) [
  | inl twice ↦ absurd (some-none _ (rw twice at h))
  | inr new ↦ elim (Bool-cases (m.version == suc i)) [
    | inl same ↦
        heads (==→eq m.version (suc i) same)
          (version_fault-count (suc i) (some m) ms (rw (new, same) at h))
    | inr other ↦ absurd (some-none _ (rw (new, other) at h))
  ]
]

check_versions-count :
    (ms ns : List Migration)
    → check_versions ms ≡ loaded ns
    → (ns ≡ ms) × (map (λ (m : Migration). m.version) ms ≡ count_from 0 ms)
unfolding check_versions
check_versions-count ms ns h = elim (Option-cases (version_fault 0 none ms)) [
  | inl fine ↦
      (sym (same ms ns (rw (check_versions, fine) at h)), version_fault-count 0 none ms fine)
  | inr (f, bad) ↦ absurd (differ f ns (rw (check_versions, bad) at h))
]
  where
    same : (xs ys : List Migration) → loaded xs ≡ loaded ys → xs ≡ ys
    same xs ys e = cc

    differ :
        (f : LoadFault) (ys : List Migration)
        → ¬ (◌≡◌ {A = Loaded (List Migration)} (fault f) (loaded ys))
    differ f ys e = cc

-- The versions of the migrations that `Load` returns are 1, 2, 3 and so on, in this order, one for
-- each migration.
pub load-count :
    (sha256 : List ℕ → List ℕ) (entries : Option (List Entry)) (ms : List Migration)
    → load sha256 entries ≡ loaded ms
    → map (λ (m : Migration). m.version) ms ≡ count_from 0 ms
unfolding load
load-count sha256 none ms h = absurd (differ h)
  where
    differ :
        ¬ (◌≡◌ {A = Loaded (List Migration)} (fault LoadFault.unreadable_directory) (loaded ms))
    differ e = cc
load-count sha256 (some entries) ms h = sorted-count (load_entries sha256 entries) h
  where
    sorted-count :
        (r : Loaded (List Migration))
        → sorted r ≡ loaded ms
        → map (λ (m : Migration). m.version) ms ≡ count_from 0 ms
    sorted-count (fault f) e = absurd (faulty f e)
      where
        faulty : (f : LoadFault) → ¬ (◌≡◌ {A = Loaded (List Migration)} (fault f) (loaded ms))
        faulty f e = cc
    sorted-count (loaded xs) e =
        let (same, counted) =
          check_versions-count (order_by (λ (m : Migration). m.version) xs) ms e in
        rw same counted
