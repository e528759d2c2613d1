-- ===== src/Maildir/Named.antt =====
-- Finding, removing and renaming the one file of a directory whose name begins with a text.
use email_server.Base.{
  ◌≡◌, refl, ap, true, false, inl, inr, List, [], ◌∷◌, ◌++◌, none, some, arith, All, Bool-cases,
}
use email_server.Maildir.Disk.{File, remove_file, renamed, rename_file}
use email_server.Maildir.Mailbox.{find_file}
use email_server.Text.Laws.{text_eq_iff, text_eq_refl}
use email_server.Text.{Text, text_eq, starts_with}

-- No file has a name that begins with the text.
abbrev pub NoneNamed : Text → List File → Type 0
NoneNamed id = All (λ file. starts_with id file.name ≡ false)

pub starts_with-append : (id s : Text) → starts_with id (id ++ s) ≡ true
unfolding starts_with
starts_with-append [] s = refl
starts_with-append (c ∷ id) s = ground (arith, starts_with-append id s)

pub starts_with_refl : (id : Text) → starts_with id id ≡ true
unfolding starts_with
starts_with_refl [] = refl
starts_with_refl (c ∷ id) = ground (arith, starts_with_refl id)

-- A name that does not begin with a text is none that does.
pub other_name :
    (id n m : Text) → starts_with id n ≡ false → starts_with id m ≡ true → text_eq n m ≡ false
other_name id n m h k = elim (Bool-cases (text_eq n m)) [
  | inl same ↦ cc (ap (starts_with id) (text_eq_iff n m same), h, k)
  | inr other ↦ other
]

pub find_file-none :
    (id : Text) (files : List File) → NoneNamed id files → find_file id files ≡ none
unfolding find_file
find_file-none id [] h = refl
find_file-none id (file ∷ rest) h = ground (arith, find_file-none id rest h.1)

pub find_file-append :
    (id : Text) (xs : List File) (file : File) (ys : List File)
    → NoneNamed id xs
    → starts_with id file.name ≡ true
    → find_file id (xs ++ file ∷ ys) ≡ some file
unfolding find_file
find_file-append id [] file ys h s = ground arith
find_file-append id (x ∷ xs) file ys h s = ground (arith, find_file-append id xs file ys h.1 s)

-- Removing the file of a name leaves the files whose names do not begin as it does.
pub remove_file_others :
    (id n : Text) (files : List File)
    → starts_with id n ≡ true
    → NoneNamed id files
    → remove_file n files ≡ files
unfolding remove_file
remove_file_others id n [] s h = refl
remove_file_others id n (file ∷ rest) s h =
    ground (arith, other_name id file.name n h.0 s, remove_file_others id n rest s h.1)

pub remove_file-append :
    (id : Text) (xs : List File) (file : File) (ys : List File)
    → starts_with id file.name ≡ true
    → NoneNamed id xs
    → NoneNamed id ys
    → remove_file file.name (xs ++ file ∷ ys) ≡ xs ++ ys
unfolding remove_file
remove_file-append id [] file ys s h k =
    ground (arith, text_eq_refl file.name, remove_file_others id file.name ys s k)
remove_file-append id (x ∷ xs) file ys s h k =
    ground (arith, other_name id x.name file.name h.0 s, remove_file-append id xs file ys s h.1 k)

pub renamed_others :
    (id old new : Text) (files : List File)
    → starts_with id old ≡ true
    → starts_with id new ≡ true
    → NoneNamed id files
    → renamed old new files ≡ files
unfolding renamed
renamed_others id old new [] s t h = refl
renamed_others id old new (file ∷ rest) s t h = ground (
  arith,
  other_name id file.name old h.0 s,
  other_name id file.name new h.0 t,
  renamed_others id old new rest s t h.1,
)

pub renamed-append :
    (id new : Text) (xs : List File) (file : File) (ys : List File)
    → starts_with id file.name ≡ true
    → starts_with id new ≡ true
    → NoneNamed id xs
    → NoneNamed id ys
    → renamed file.name new (xs ++ file ∷ ys) ≡ xs ++ record file { name = new } ∷ ys
unfolding renamed
renamed-append id new [] file ys s t h k =
    ground (arith, text_eq_refl file.name, renamed_others id file.name new ys s t k)
renamed-append id new (x ∷ xs) file ys s t h k = ground (
  arith,
  other_name id x.name file.name h.0 s,
  other_name id x.name new h.0 t,
  renamed-append id new xs file ys s t h.1 k,
)

pub rename_file-append :
    (id new : Text) (xs : List File) (file : File) (ys : List File)
    → starts_with id file.name ≡ true
    → starts_with id new ≡ true
    → NoneNamed id xs
    → NoneNamed id ys
    → rename_file file.name new (xs ++ file ∷ ys) ≡ xs ++ record file { name = new } ∷ ys
unfolding rename_file
rename_file-append id new xs file ys s t h k = elim (Bool-cases (text_eq file.name new)) [
  | inl same ↦
      rw (same, rename_file)
        (ap (λ n. xs ++ record file { name = n } ∷ ys) (text_eq_iff file.name new same))
  | inr other ↦ ground (arith, other, renamed-append id new xs file ys s t h k)
]
