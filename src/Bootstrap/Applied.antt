-- ===== src/Bootstrap/Applied.antt =====
-- internal/store/store.go: which files `Migrate` applies, in which order, and under which lock.
use sayari.Prelude.{
  ◌≡◌, refl, ap, inl, inr, Bool, true, false, Option, none, some, List, [], ◌∷◌, ◌++◌, map, Text,
  text_eq, All, count_where, Bool-cases, Option-cases, arith,
}
use sayari.Bootstrap.Migrations.{
  MigrationError, no_connection, no_lock, no_directory, unreadable, unapplied, Work, acquire, lock,
  unlock, release, apply_file, DirEntry, sql_names, text_leb, insert_text, sort_strings, Schema,
  apply_files, migrate,
}

-- Each text stands before the next, or is the same.
abbrev pub Ordered : List Text → Type 0
Ordered [] = Unit
Ordered (s ∷ []) = Unit
Ordered (s ∷ t ∷ ts) = (text_leb s t ≡ true) × Ordered (t ∷ ts)

text_leb_total : (s t : Text) → text_leb s t ≡ false → text_leb t s ≡ true
unfolding text_leb
text_leb_total [] t h = cc
text_leb_total (x ∷ s) [] h = refl
text_leb_total (x ∷ s) (y ∷ t) h = ground (arith, text_leb_total s t)

insert-Ordered : (s : Text) (ts : List Text) → Ordered ts → Ordered (insert_text s ts)
unfolding insert_text
insert-Ordered s [] h = tt
insert-Ordered s (t ∷ []) h = elim (Bool-cases (text_leb s t)) [
  | inl le ↦ rw le (le, tt)
  | inr gt ↦ rw gt (text_leb_total s t gt, tt)
]
insert-Ordered s (t ∷ u ∷ ts) h = elim (Bool-cases (text_leb s t)) [
  | inl le ↦ rw le (le, h)
  | inr gt ↦ elim (Bool-cases (text_leb s u)) [
    | inl le ↦ rw (gt, le) (text_leb_total s t gt, (le, h.1))
    | inr gt' ↦ rw (gt, gt') (h.0, rw gt' at (insert-Ordered s (u ∷ ts) h.1))
  ]
]

sort-Ordered : (ts : List Text) → Ordered (sort_strings ts)
unfolding sort_strings
sort-Ordered [] = tt
sort-Ordered (t ∷ ts) = insert-Ordered t (sort_strings ts) (sort-Ordered ts)

module _ (p : Text → Bool) where
  insert-count :
      (s : Text) (ts : List Text) → count_where p (insert_text s ts) ≡ count_where p (s ∷ ts)
  unfolding insert_text
  insert-count s [] = refl
  insert-count s (t ∷ ts) = elim (Bool-cases (text_leb s t)) [
    | inl le ↦ rw le refl
    | inr gt ↦ rw gt (ground (arith, insert-count s ts))
  ]

  sort-count : (ts : List Text) → count_where p (sort_strings ts) ≡ count_where p ts
  unfolding sort_strings
  sort-count [] = refl
  sort-count (t ∷ ts) = ground (arith, insert-count t (sort_strings ts), sort-count ts)

-- The names of the directory's .sql files in ascending order, each as often as it is there.
abbrev pub IsOrderOf : List DirEntry → List Text → Type 0
IsOrderOf entries names =
    Ordered names
    × ((s : Text) → count_where (text_eq s) names ≡ count_where (text_eq s) (sql_names entries))

module _ (db : Schema) where
  abbrev pub Works : Text → Type 0
  Works name = (db.reads name ≡ true) × (db.applies name ≡ true)

  -- The files are applied one after the other, to the last or to the first that fails.
  pub data Files (names : List Text) (o : Option MigrationError) (log : List Work) : Type 0 where
    complete : All Works names → o ≡ none → log ≡ map apply_file names → Files names o log
    unread :
        (before : List Text) (name : Text) (after : List Text)
        → names ≡ before ++ name ∷ after
        → All Works before
        → db.reads name ≡ false
        → o ≡ some (unreadable name)
        → log ≡ map apply_file before
        → Files names o log
    broken :
        (before : List Text) (name : Text) (after : List Text)
        → names ≡ before ++ name ∷ after
        → All Works before
        → db.reads name ≡ true
        → db.applies name ≡ false
        → o ≡ some (unapplied name)
        → log ≡ map apply_file before ++ apply_file name ∷ []
        → Files names o log

  Files-before :
      (n : Text) (names : List Text) (o : Option MigrationError) (log : List Work)
      → Works n
      → Files names o log
      → Files (n ∷ names) o (apply_file n ∷ log)
  Files-before n names o log w (Files.complete all e l) =
      Files.complete (w, all) e (ap (λ x. apply_file n ∷ x) l)
  Files-before n names o log w (Files.unread before name after s all r e l) =
      Files.unread (n ∷ before) name after (ap (λ x. n ∷ x) s) (w, all) r e
        (ap (λ x. apply_file n ∷ x) l)
  Files-before n names o log w (Files.broken before name after s all r a e l) =
      Files.broken (n ∷ before) name after (ap (λ x. n ∷ x) s) (w, all) r a e
        (ap (λ x. apply_file n ∷ x) l)

  apply_files-Files :
      (names : List Text) → Files names (apply_files db names).0 (apply_files db names).1
  unfolding apply_files
  apply_files-Files [] = Files.complete tt refl refl
  apply_files-Files (n ∷ names) = elim (Bool-cases (db.reads n)) [
    | inl readable ↦ elim (Bool-cases (db.applies n)) [
      | inl applied ↦
          rw (readable, applied)
            (Files-before n names _ _ (readable, applied) (apply_files-Files names))
      | inr refused ↦
          rw (readable, refused) (Files.broken [] n names refl tt readable refused refl refl)
    ]
    | inr unreadable_file ↦
        rw unreadable_file (Files.unread [] n names refl tt unreadable_file refl refl)
  ]

  -- How `Migrate` ends, and what it did.
  pub data MigrateEnd (o : Option MigrationError) (log : List Work) : Type 0 where
    unconnected : db.acquires ≡ false → o ≡ some no_connection → log ≡ [] → MigrateEnd o log
    unlocked :
        db.acquires ≡ true
        → db.locks ≡ false
        → o ≡ some no_lock
        → log ≡ acquire ∷ lock ∷ release ∷ []
        → MigrateEnd o log
    unlisted :
        db.acquires ≡ true
        → db.locks ≡ true
        → db.entries ≡ none
        → o ≡ some no_directory
        → log ≡ acquire ∷ lock ∷ unlock ∷ release ∷ []
        → MigrateEnd o log
    listed :
        (entries : List DirEntry) (names : List Text) (work : List Work)
        → db.acquires ≡ true
        → db.locks ≡ true
        → db.entries ≡ some entries
        → IsOrderOf entries names
        → Files names o work
        → log ≡ acquire ∷ lock ∷ work ++ unlock ∷ release ∷ []
        → MigrateEnd o log

  -- `Migrate` ends in one of four ways. Without a connection it does nothing; if the lock fails, it
  -- only gives the connection back; if the directory cannot be read, it also unlocks. Otherwise it
  -- applies, between the lock and the unlock and before the connection is given back, the .sql files
  -- of the directory in ascending order of their names, each as often as it is listed: all of them
  -- and answers nil, or all before the first that cannot be read or applied, whose error it answers.
  pub migrate-MigrateEnd : MigrateEnd (migrate db).0 (migrate db).1
  unfolding migrate
  migrate-MigrateEnd = elim (Bool-cases db.acquires) [
    | inr refused ↦ simp refused (MigrateEnd.unconnected refused refl refl)
    | inl acquired ↦ elim (Bool-cases db.locks) [
      | inr refused ↦ simp (acquired, refused) (MigrateEnd.unlocked acquired refused refl refl)
      | inl locked ↦ elim (Option-cases db.entries) [
        | inl missing ↦
            simp (acquired, locked, missing) (MigrateEnd.unlisted acquired locked missing refl refl)
        | inr (entries, there) ↦
            simp (acquired, locked, there)
              (MigrateEnd.listed entries (sort_strings (sql_names entries)) _ acquired locked there
                (sort-Ordered (sql_names entries), λ s. sort-count (text_eq s) (sql_names entries))
                (apply_files-Files (sort_strings (sql_names entries))) refl)
      ]
    ]
  ]
