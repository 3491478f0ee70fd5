-- ===== src/Database/Laws.antt =====
-- What the data access objects do to the rows, from the laws of the server.
use file_server.Prelude.{
  ◌≡◌, refl, sym, ap, ◌∙◌, take, ℕ, suc, subst, ◌⊎◌, inl, inr, Bool, true, Option, none, some, List,
  [], ◌∷◌, All, arith, Bool-cases,
}
use file_server.Prelude.Int.{ℤ, pos, negsuc, ◌<ℤ◌, eq_ℤ}
use file_server.Database.{Mysql, MysqlLaws, Result, done, failed, Stage}
use file_server.Database.Tables.{
  Bytes, FileInfo, FileQuery, Rows, incomplete, new_file, set_upload_size, set_status, FileUpdate,
  by_file_id, file_answer, file_matches, keep, update_rows,
}
use file_server.Database.FileDao
use file_server.Database.FileDao.{first_row, inserted_id}

-- A row of the list that passes the test.
pub data Among {ℓ} {A : Type ℓ} (p : A → Bool) : A → List A → Type ℓ where
  here : {x : A} {xs : List A} → p x ≡ true → Among p x (x ∷ xs)
  there : {x y : A} {xs : List A} → Among p x xs → Among p x (y ∷ xs)

head_keep :
    {A : Type 0} (p : A → Bool) (xs rest : List A) (x : A) → keep p xs ≡ x ∷ rest → Among p x xs
unfolding keep
head_keep p [] rest x e = absurd (cc)
head_keep {A} p (y ∷ ys) rest x e = elim (Bool-cases (p y)) [
  | inl passes ↦
      let same : y ≡ x = ground arith in subst (λ z. Among p z (y ∷ ys)) same (here passes)
  | inr fails ↦ there (head_keep p ys rest x (ground arith))
]

pub Among-test : {A : Type 0} {p : A → Bool} {x : A} {xs : List A} → Among p x xs → p x ≡ true
Among-test (here h) = h
Among-test (there a) = Among-test a

pub Among-All :
    {A : Type 0} (P : A → Type 0) {p : A → Bool} {x : A} {xs : List A}
    → Among p x xs
    → All P xs
    → P x
Among-All P (here h) all = all.0
Among-All P (there a) all = Among-All P a all.1

pub first_row-keep :
    {A : Type 0} (p : A → Bool) (xs : List A) (r : Result (List A))
    → ((stage : Stage) × (r ≡ failed stage)) ⊎ (r ≡ done (keep p xs))
    → (first_row r ≡ none) ⊎ ((x : A) × (first_row r ≡ some x) × Among p x xs)
first_row-keep p xs (failed stage) e = inl refl
first_row-keep p xs (done []) e = inl refl
first_row-keep p xs (done (x ∷ rest)) (inl (stage, e)) = absurd (cc)
first_row-keep p xs (done (x ∷ rest)) (inr e) = inr (x, refl, head_keep p xs rest x (cc))

first_row-take : {A : Type 0} (xs : List A) → first_row (done (take 1 xs)) ≡ first_row (done xs)
first_row-take [] = refl
first_row-take (x ∷ xs) = refl

pub first_row-take-keep :
    {A : Type 0} (p : A → Bool) (xs : List A) (r : Result (List A))
    → ((stage : Stage) × (r ≡ failed stage)) ⊎ (r ≡ done (take 1 (keep p xs)))
    → (first_row r ≡ none) ⊎ ((x : A) × (first_row r ≡ some x) × Among p x xs)
first_row-take-keep p xs r (inl fails) = first_row-keep p xs r (inl fails)
first_row-take-keep {A} p xs r (inr e) =
    subst (λ found. (found ≡ none) ⊎ ((x : A) × (found ≡ some x) × Among p x xs))
      (sym (ap first_row e ∙ first_row-take (keep p xs)))
      (first_row-keep p xs (done (keep p xs)) (inr refl))

-- A search that gives no row has failed, or its answer is empty.
pub first_row-none :
    {A : Type 0} (r : Result (List A))
    → first_row r ≡ none
    → ((stage : Stage) × (r ≡ failed stage)) ⊎ (r ≡ done [])
first_row-none (failed stage) e = inl (stage, refl)
first_row-none (done []) e = inr refl
first_row-none (done (x ∷ xs)) e = absurd (cc)

rows_of : {A : Type 0} → List A → Result (List A) → List A
rows_of otherwise (done xs) = xs
rows_of otherwise (failed stage) = otherwise

pub Nothing-answer :
    {A : Type 0} (r : Result (List A)) (answer : List A)
    → first_row r ≡ none
    → ((stage : Stage) × (r ≡ failed stage)) ⊎ (r ≡ done answer)
    → ((stage : Stage) × (r ≡ failed stage)) ⊎ (answer ≡ [])
unfolding rows_of
Nothing-answer r answer e (inl fails) = inl fails
Nothing-answer r answer e (inr is_answer) = elim (first_row-none r e) [
  | inl fails ↦ inl fails
  | inr empty ↦ inr (ap (rows_of []) (sym is_answer ∙ empty))
]

-- A row that a search found, where the search finds only rows that pass the test.
pub found_Among :
    {A : Type 0} {p : A → Bool} {xs : List A} {found : Option A} (x : A)
    → found ≡ some x
    → (found ≡ none) ⊎ ((y : A) × (found ≡ some y) × Among p y xs)
    → Among p x xs
found_Among x e (inl nothing) = absurd (cc)
found_Among {p} {xs} x e (inr (y, is_y, among)) = subst (λ z. Among p z xs) (cc) among

-- An update that failed, or was made.
abbrev pub Applied : FileUpdate → Rows → Rows → Type 0
Applied u rows rows' = (rows' ≡ rows) ⊎ (rows' ≡ record rows { files = update_rows u rows.files })

-- The row that an insert makes has an id above all others.
abbrev pub Inserted : FileInfo → ℤ → Rows → Rows → Type 0
Inserted file id before after =
    (n : ℕ) × (time : Bytes) × (id ≡ pos (suc n))
    × All (λ g. g.id <ℤ pos (suc n)) before.files
    × (after ≡ record before { files = new_file file (pos (suc n)) time ∷ before.files })

module _ (mysql : Mysql) where
  open mysql use {Db, rows}

  -- The search fails, or no row matches.
  abbrev pub NoFile : FileQuery → Db → Type 0
  NoFile q db =
      ((stage : Stage) × ((mysql.select_files q db).0 ≡ failed stage))
      ⊎ (file_answer mysql.collates q (rows db).files ≡ [])

  -- The rows behind an update that is made in a state: as they were where the server refuses it, and
  -- updated where the server answers with a number of rows.
  abbrev pub Attempted : FileUpdate → Db → Rows → Type 0
  Attempted u db after =
      ((stage : Stage) × ((mysql.update_files u db).0 ≡ failed stage) × (after ≡ rows db))
      ⊎ ((n : ℕ) × ((mysql.update_files u db).0 ≡ done n)
          × (after ≡ record (rows db) { files = update_rows u (rows db).files }))

module _ (mysql : Mysql) (laws : MysqlLaws mysql) where
  open mysql use {Db, rows}

  update_Attempted :
      (u : FileUpdate) (db : Db) → Attempted mysql u db (rows (mysql.update_files u db).1)
  update_Attempted u db = elim (laws.update_files_law u db) [
    | inl refused ↦ inl refused
    | inr (counted, made) ↦ inr (_, counted, made)
  ]

  pub update_upload_size-Attempted :
      (id size : ℤ) (db : Db)
      → Attempted mysql
          (set_upload_size size id)
          db
          (rows (FileDao.update_upload_size mysql id size db).1)
  unfolding FileDao.update_upload_size
  update_upload_size-Attempted id size db = update_Attempted (set_upload_size size id) db

  pub update_status-Attempted :
      (id status : ℤ) (db : Db)
      → Attempted mysql
          (set_status status id)
          db
          (rows (FileDao.update_status mysql id status db).1)
  unfolding FileDao.update_status
  update_status-Attempted id status db = update_Attempted (set_status status id) db

  pub find_by_id-none :
      (id : ℤ) (db : Db)
      → (FileDao.find_by_id mysql id db).0 ≡ none
      → NoFile mysql (by_file_id id) db
  unfolding FileDao.find_by_id
  find_by_id-none id db e = Nothing-answer _ _ e (laws.select_files_law (by_file_id id) db).1

  pub find_incomplete-none :
      (user_id : ℤ) (name : Bytes) (filesize : ℤ) (md5 : Bytes) (db : Db)
      → (FileDao.find_incomplete_by_key mysql user_id name filesize md5 db).0 ≡ none
      → NoFile mysql (incomplete user_id name filesize md5) db
  unfolding FileDao.find_incomplete_by_key
  find_incomplete-none user_id name filesize md5 db e =
      Nothing-answer _ _ e (laws.select_files_law (incomplete user_id name filesize md5) db).1

  -- `FindById` changes no row, and finds nothing or a row of that id.
  pub find_by_id_lem :
      (id : ℤ) (db : Db)
      → (rows (FileDao.find_by_id mysql id db).1 ≡ rows db)
        × (((FileDao.find_by_id mysql id db).0 ≡ none)
            ⊎ ((info : FileInfo) × ((FileDao.find_by_id mysql id db).0 ≡ some info)
                × Among (λ f. eq_ℤ f.id id) info (rows db).files))
  unfolding FileDao.find_by_id file_answer file_matches
  find_by_id_lem id db =
      let law = laws.select_files_law (by_file_id id) db in
      (law.0, first_row-keep (λ f. eq_ℤ f.id id) (rows db).files _ law.1)

  update_Applied :
      (u : FileUpdate) (db : Db) → Applied u (rows db) (rows (mysql.update_files u db).1)
  update_Applied u db = elim (laws.update_files_law u db) [
    | inl (stage, fails, same) ↦ inl same
    | inr (counted, made) ↦ inr made
  ]

  pub update_upload_size-Applied :
      (id size : ℤ) (db : Db)
      → Applied
          (set_upload_size size id)
          (rows db)
          (rows (FileDao.update_upload_size mysql id size db).1)
  unfolding FileDao.update_upload_size
  update_upload_size-Applied id size db = update_Applied (set_upload_size size id) db

  pub update_status-Applied :
      (id status : ℤ) (db : Db)
      → Applied (set_status status id) (rows db) (rows (FileDao.update_status mysql id status db).1)
  unfolding FileDao.update_status
  update_status-Applied id status db = update_Applied (set_status status id) db

  pub find_incomplete_lem :
      (user_id : ℤ) (name : Bytes) (filesize : ℤ) (md5 : Bytes) (db : Db)
      → let (found, db') = FileDao.find_incomplete_by_key mysql user_id name filesize md5 db in
        (rows db' ≡ rows db)
        × ((found ≡ none)
            ⊎ ((info : FileInfo) × (found ≡ some info)
                × Among
                    (file_matches mysql.collates (incomplete user_id name filesize md5))
                    info
                    (rows db).files))
  unfolding FileDao.find_incomplete_by_key file_answer
  find_incomplete_lem user_id name filesize md5 db =
      let law = laws.select_files_law (incomplete user_id name filesize md5) db in
      (
        law.0,
        first_row-take-keep (file_matches mysql.collates (incomplete user_id name filesize md5))
            (rows db).files _ law.1,
      )

  -- An insert is refused by the server and answers -1, or makes a row.
  pub insert_cases :
      (file : FileInfo) (db : Db)
      → let (id, db') = FileDao.insert mysql file db in
        (((stage : Stage) × ((mysql.insert_file file db).0 ≡ failed stage))
          × (id ≡ negsuc 0)
          × (rows db' ≡ rows db))
        ⊎ Inserted file id (rows db) (rows db')
  unfolding FileDao.insert
  insert_cases file db = elim (laws.insert_file_law file db) [
    | inl (stage, fails, same) ↦ inl ((stage, fails), ap inserted_id fails, same)
    | inr (n, time, is_id, above, made) ↦ inr (n, time, ap inserted_id is_id, above, made)
  ]
