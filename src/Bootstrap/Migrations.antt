-- ===== src/Bootstrap/Migrations.antt =====
-- internal/store/store.go: `Migrate`. The file names are those of the embedded directory, and what
-- Postgres answers to a file is a parameter.
use sayari.Prelude.{
  ◌==◌, ◌-◌, Bool, true, false, not, ◌&&◌, ltb, leb, Option, none, some, List, [], ◌∷◌, ◌++◌, Text,
  codes, text_eq, drop, length, if◌then◌else◌,
}

pub data MigrationError : Type 0 where
  no_connection no_lock no_directory : MigrationError
  unreadable unapplied : Text → MigrationError

-- What is done over the connection, in order.
pub data Work : Type 0 where
  acquire lock unlock release : Work
  apply_file : Text → Work

pub record DirEntry : Type 0 where
  pub name : Text
  pub is_dir : Bool

-- `strings.HasSuffix(name, ".sql")`.
unfoldable pub is_sql : Text → Bool
is_sql name = leb 4 (length name) && text_eq (drop (length name - 4) name) (codes ".sql")

unfoldable pub sql_names : List DirEntry → List Text
unfolding is_sql
sql_names [] = []
sql_names (e ∷ es) =
    let rest = sql_names es in if not e.is_dir && is_sql e.name then e.name ∷ rest else rest

-- Go's order of strings, by their bytes.
unfoldable pub text_leb : Text → Text → Bool
text_leb [] t = true
text_leb (x ∷ s) [] = false
text_leb (x ∷ s) (y ∷ t) =
    let rest = text_leb s t in if ltb x y then true else if x == y then rest else false

unfoldable pub insert_text : Text → List Text → List Text
insert_text s [] = s ∷ []
insert_text s (t ∷ ts) =
    let rest = insert_text s ts in if text_leb s t then s ∷ t ∷ ts else t ∷ rest

-- `sort.Strings`.
unfoldable pub sort_strings : List Text → List Text
unfolding insert_text
sort_strings [] = []
sort_strings (s ∷ ss) = insert_text s (sort_strings ss)

-- The database, as far as `Migrate` asks it: does each step succeed?
pub record Schema : Type 0 where
  pub acquires : Bool
  pub locks : Bool
  pub entries : Option (List DirEntry)
  pub reads : Text → Bool
  pub applies : Text → Bool

unfoldable pub apply_files : Schema → List Text → Option MigrationError × List Work
apply_files db [] = (none, [])
apply_files db (name ∷ names) =
    let (e, log) = apply_files db names in
    if not (db.reads name)
    then (some (unreadable name), [])
    else if db.applies name
    then (e, apply_file name ∷ log)
    else (some (unapplied name), apply_file name ∷ [])

-- The deferred calls: the unlock, and then the release of the connection.
abbrev and_unlock : Option MigrationError × List Work → Option MigrationError × List Work
and_unlock (e, log) = (e, acquire ∷ lock ∷ log ++ unlock ∷ release ∷ [])

locked_files : Schema → Option (List DirEntry) → Option MigrationError × List Work
unfolding apply_files sort_strings sql_names
locked_files db none = (some no_directory, [])
locked_files db (some entries) = apply_files db (sort_strings (sql_names entries))

-- `Store.Migrate`: `none` is nil. A failing lock leaves only the release.
unfoldable pub migrate : Schema → Option MigrationError × List Work
unfolding locked_files
migrate db =
    if not db.acquires
    then (some no_connection, [])
    else if not db.locks
    then (some no_lock, acquire ∷ lock ∷ release ∷ [])
    else and_unlock (locked_files db db.entries)
