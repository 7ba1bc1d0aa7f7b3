-- ===== src/Migrate/Files.antt =====
-- pkg/dbmigrate/dbmigrate.go: `Load` and the texts that it looks at.
use pingu_coin.Base.{
  ℕ, zero, suc, ◌+◌, ◌-◌, ◌*◌, String, List, [], ◌∷◌, Bool, true, false, not, ◌&&◌, ◌||◌, Option,
  none, some, ◌==◌, leb, if◌then◌else◌, order_by,
}
use Prim.Native.Char.{Char, code}
use pingu_coin.Base.Text.{◌is◌, ◌<>◌, trim_space, bytes}
use pingu_coin.Payment.Chain.{hex_encode}

-- An entry of the directory; `content` is what reading the file gives, or `none` for an error.
pub record Entry : Type 0 where
  pub name : String
  pub is_dir : Bool
  pub content : Option String

pub record Migration : Type 0 where
  pub version : ℕ
  pub name : String
  pub sql : String
  pub checksum : String

pub data LoadFault : Type 0 where
  unreadable_directory : LoadFault
  misnamed unreadable no_statements : String → LoadFault
  used_twice : ℕ → String → String → LoadFault
  expected : ℕ → ℕ → String → LoadFault

pub data Loaded {ℓ} (A : Type ℓ) : Type ℓ where
  loaded : A → Loaded A
  fault : LoadFault → Loaded A

abbrev pub is_digit : ℕ → Bool
is_digit c = leb 48 c && leb c 57

abbrev pub is_word : ℕ → Bool
is_word c = is_digit c || (leb 65 c && leb c 90) || (leb 97 c && leb c 122) || c == 95

-- `k` digits, with the value of those before them, and the text behind them.
unfoldable pub read_digits : ℕ → ℕ → String → Option (ℕ × String)
read_digits zero value s = some (value, s)
read_digits (suc k) value String.[] = none
read_digits (suc k) value (String.◌∷◌ c s) =
    let rest = read_digits k (value * 10 + (code c - 48)) s in
    if is_digit (code c) then rest else none

abbrev pub put_front : Char → Option String → Option String
put_front c none = none
put_front c (some w) = some (String.◌∷◌ c w)

abbrev pub with_version : ℕ → Option String → Option (ℕ × String)
with_version version none = none
with_version version (some w) = some (version, w)

-- The word in front of `.sql`.
unfoldable pub word_before : String → Option String
word_before String.[] = none
word_before (String.◌∷◌ c s) =
    let rest = put_front c (word_before s) in
    if String.◌∷◌ c s is ".sql" then some "" else if is_word (code c) then rest else none

abbrev pub nonempty : Option String → Option String
nonempty none = none
nonempty (some w) = if w is "" then none else some w

unfoldable pub after_number : Option (ℕ × String) → Option (ℕ × String)
unfolding word_before
after_number none = none
after_number (some (version, String.[])) = none
after_number (some (version, String.◌∷◌ c s)) =
    if code c == 95 then with_version version (nonempty (word_before s)) else none

-- `fileName.FindStringSubmatch`, with the number read.
unfoldable pub parse_name : String → Option (ℕ × String)
unfolding read_digits after_number
parse_name s = after_number (read_digits 6 0 s)

unfoldable pub has_suffix : String → String → Bool
has_suffix String.[] suffix = suffix is ""
has_suffix (String.◌∷◌ c s) suffix =
    let rest = has_suffix s suffix in if String.◌∷◌ c s is suffix then true else rest

unfoldable pub has_prefix : String → String → Bool
has_prefix s String.[] = true
has_prefix String.[] (String.◌∷◌ p q) = false
has_prefix (String.◌∷◌ c s) (String.◌∷◌ p q) = code c == code p && has_prefix s q

-- `normalizeNewlines`
unfoldable pub normalize_newlines : String → String
normalize_newlines String.[] = ""
normalize_newlines (String.◌∷◌ c String.[]) = String.◌∷◌ c ""
normalize_newlines (String.◌∷◌ c (String.◌∷◌ d s)) =
    let rest = normalize_newlines (String.◌∷◌ d s) in
    if code c == 13 && code d == 10 then rest else String.◌∷◌ c rest

-- `strings.Split(sql, "\n")`
abbrev pub onto_first : String → List String → List String
onto_first s [] = s ∷ []
onto_first s (l ∷ ls) = (s <> l) ∷ ls

unfoldable pub split_lines : String → List String
split_lines String.[] = "" ∷ []
split_lines (String.◌∷◌ c s) =
    let rest = split_lines s in
    if code c == 10 then "" ∷ rest else onto_first (String.◌∷◌ c "") rest

abbrev pub join_lines : List String → String
join_lines [] = ""
join_lines (l ∷ []) = l
join_lines (l ∷ m ∷ ls) = l <> "\n" <> join_lines (m ∷ ls)

abbrev pub kept_lines : List String → List String
kept_lines [] = []
kept_lines (l ∷ ls) =
    let rest = kept_lines ls in if has_prefix (trim_space l) "--" then rest else l ∷ rest

-- `stripComments`
unfoldable pub strip_comments : String → String
unfolding split_lines has_prefix trim_space
strip_comments sql = join_lines (kept_lines (split_lines sql))

abbrev pub in_front : Loaded Migration → Loaded (List Migration) → Loaded (List Migration)
in_front (fault f) rest = fault f
in_front (loaded m) (fault f) = fault f
in_front (loaded m) (loaded ms) = loaded (m ∷ ms)

-- The checks of the sorted versions, from the index `i` on; `previous` is the one before.
unfoldable pub version_fault : ℕ → Option Migration → List Migration → Option LoadFault
version_fault i previous [] = none
version_fault i none (m ∷ ms) =
    let rest = version_fault (suc i) (some m) ms in
    if not (m.version == suc i) then some (expected (suc i) m.version m.name) else rest
version_fault i (some p) (m ∷ ms) =
    let rest = version_fault (suc i) (some m) ms in
    if m.version == p.version
    then some (used_twice m.version p.name m.name)
    else if not (m.version == suc i)
    then some (expected (suc i) m.version m.name)
    else rest

abbrev pub verdict : List Migration → Option LoadFault → Loaded (List Migration)
verdict ms none = loaded ms
verdict ms (some f) = fault f

unfoldable pub check_versions : List Migration → Loaded (List Migration)
unfolding version_fault
check_versions ms = verdict ms (version_fault 0 none ms)

abbrev pub sorted : Loaded (List Migration) → Loaded (List Migration)
sorted (fault f) = fault f
sorted (loaded ms) = check_versions (order_by (λ (m : Migration). m.version) ms)

module _ (sha256 : List ℕ → List ℕ) where
  unfoldable pub checksum_of : String → String
  unfolding hex_encode bytes
  checksum_of sql = hex_encode (sha256 (bytes sql))

  unfoldable pub migration_of : String → ℕ × String → String → Loaded Migration
  unfolding checksum_of strip_comments trim_space
  migration_of file (version, name) sql =
      if trim_space (strip_comments sql) is ""
      then fault (no_statements file)
      else loaded (record { version = version; name = name; sql = sql; checksum = checksum_of sql })

  abbrev pub read_entry : Entry → ℕ × String → Option String → Loaded Migration
  read_entry e parsed none = fault (unreadable e.name)
  read_entry e parsed (some raw) = migration_of e.name parsed (normalize_newlines raw)

  unfoldable pub load_named : Entry → Option (ℕ × String) → Loaded Migration
  unfolding migration_of normalize_newlines
  load_named e none = fault (misnamed e.name)
  load_named e (some parsed) = read_entry e parsed e.content

  -- The loop over the entries: the first that cannot be used ends it.
  unfoldable pub load_entries : List Entry → Loaded (List Migration)
  unfolding load_named parse_name has_suffix
  load_entries [] = loaded []
  load_entries (e ∷ es) =
      let rest = load_entries es in
      let here = in_front (load_named e (parse_name e.name)) rest in
      if e.is_dir || not (has_suffix e.name ".sql") then rest else here

  -- `Load`: the entries of the directory, or `none` where reading it fails.
  unfoldable pub load : Option (List Entry) → Loaded (List Migration)
  unfolding load_entries check_versions
  load none = fault unreadable_directory
  load (some entries) = sorted (load_entries entries)
