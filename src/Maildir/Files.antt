-- ===== src/Maildir/Files.antt =====
-- What the operations of `Maildir` do with the file of a message that is the only one whose name
-- begins with its identifier.
use email_server.Base.{
  ℕ, ◌≡◌, refl, ap, ◌∙◌, true, false, Bool, List, [], ◌∷◌, ◌++◌, none, some, arith, All-append,
}
use email_server.Maildir.Disk.{File, Folder}
use email_server.Maildir.Mailbox.{
  locate, locate_new, set_flags, set_flags_of, rename_found, move_to_cur, carry, marked, change,
  delete_message,
}
use email_server.Maildir.Named.{
  NoneNamed, find_file-append, find_file-none, remove_file-append, remove_file_others,
  rename_file-append, starts_with-append, starts_with_refl,
}
use email_server.Maildir.Names.{flags_to_info, unique_id_of}
use email_server.Maildir.Names.Laws.{NoColon, find_text-none, unique_id_of-colon}
use email_server.Text.{Text, starts_with, codes}

locate-cur :
    (id : Text) (folder : Folder) (xs : List File) (file : File) (ys : List File)
    → folder.cur ≡ some (xs ++ file ∷ ys)
    → NoneNamed id xs
    → starts_with id file.name ≡ true
    → locate id folder ≡ some (some (false, file))
unfolding locate
locate-cur id folder xs file ys e h s = ground (arith, e, find_file-append id xs file ys h s)

pub locate-new :
    (id : Text) (folder : Folder) (cs xs : List File) (file : File) (ys : List File)
    → folder.cur ≡ some cs
    → NoneNamed id cs
    → folder.new ≡ some (xs ++ file ∷ ys)
    → NoneNamed id xs
    → starts_with id file.name ≡ true
    → locate id folder ≡ some (some (true, file))
unfolding locate locate_new
locate-new id folder cs xs file ys e n f h s =
    ground (arith, e, f, find_file-none id cs n, find_file-append id xs file ys h s)

rename_found-cur :
    (id : Text) (flags : List ℕ) (folder : Folder) (xs : List File) (file : File) (ys : List File)
    → folder.cur ≡ some (xs ++ file ∷ ys)
    → NoneNamed id xs
    → NoneNamed id ys
    → starts_with id file.name ≡ true
    → unique_id_of file.name ≡ id
    → rename_found flags (some (some (false, file))) folder
      ≡ some (
        record folder { cur = some (xs ++ record file { name = id ++ flags_to_info flags } ∷ ys) },
        true,
      )
unfolding rename_found change
rename_found-cur id flags folder xs file ys e h k s u =
    let name = starts_with-append id (flags_to_info flags) in
    let moved = rename_file-append id (id ++ flags_to_info flags) xs file ys s name h k in
    ground (arith, u, e, moved)

-- `set_flags` on a message that lies in `cur`, the only file there whose name begins with its
-- identifier, gives this file the name of the identifier and the flags, with its content and its time,
-- and changes nothing else.
set_flags-cur :
    (id : Text) (flags : List ℕ) (folder : Folder) (xs : List File) (file : File) (ys : List File)
    → folder.cur ≡ some (xs ++ file ∷ ys)
    → NoneNamed id xs
    → NoneNamed id ys
    → starts_with id file.name ≡ true
    → unique_id_of file.name ≡ id
    → set_flags id flags folder
      ≡ some (
        record folder { cur = some (xs ++ record file { name = id ++ flags_to_info flags } ∷ ys) },
        true,
      )
unfolding set_flags set_flags_of
set_flags-cur id flags folder xs file ys e h k s u =
    let found = locate-cur id folder xs file ys e h s in
    let renaming = rename_found-cur id flags folder xs file ys e h k s u in
    ground (arith, found, renaming)

marked_lem : (id : Text) → NoColon id → marked id ≡ id ++ (b':' ∷ b'2' ∷ b',' ∷ [])
unfolding marked codes
marked_lem id h = rw (find_text-none id h, marked) refl

-- The message in `cur` that `move_to_cur` makes of a new one.
abbrev arrived : Text → File → File
arrived id file = record file { name = id ++ (b':' ∷ b'2' ∷ b',' ∷ []) }

move_to_cur_lem :
    (id : Text) (folder : Folder) (cs xs : List File) (file : File) (ys : List File)
    → NoColon id
    → file.name ≡ id
    → folder.cur ≡ some cs
    → NoneNamed id cs
    → folder.new ≡ some (xs ++ file ∷ ys)
    → NoneNamed id xs
    → NoneNamed id ys
    → move_to_cur id folder
      ≡ some
          (record folder { new = some (xs ++ ys); cur = some (cs ++ arrived id file ∷ []) }, true)
unfolding move_to_cur carry
move_to_cur_lem id folder cs xs file ys colon name e n f h k =
    let begins : starts_with id file.name ≡ true = ap (starts_with id) name ∙ starts_with_refl id in
    let found = find_file-append id xs file ys h begins in
    let left = remove_file-append id xs file ys begins h k in
    let mark : marked file.name ≡ id ++ (b':' ∷ b'2' ∷ b',' ∷ []) =
      ap marked name ∙ marked_lem id colon in
    let others =
      remove_file_others id (id ++ (b':' ∷ b'2' ∷ b',' ∷ [])) cs (starts_with-append id _) n in
    ground (arith, e, f, found, left, mark, others)

-- `set_flags` on a message that lies in `new` under its identifier, without a colon, the only file of
-- either directory whose name begins with it, moves this file to `cur`, under the name of the identifier and the flags,
-- with its content and its time, and changes nothing else.
pub set_flags-new :
    (id : Text) (flags : List ℕ) (folder : Folder) (cs xs : List File) (file : File)
    (ys : List File)
    → NoColon id
    → file.name ≡ id
    → folder.cur ≡ some cs
    → NoneNamed id cs
    → folder.new ≡ some (xs ++ file ∷ ys)
    → NoneNamed id xs
    → NoneNamed id ys
    → set_flags id flags folder
      ≡ some (
        record folder {
          new = some (xs ++ ys);
          cur = some (cs ++ record file { name = id ++ flags_to_info flags } ∷ []);
        },
        true,
      )
unfolding set_flags set_flags_of
set_flags-new id flags folder cs xs file ys colon name e n f h k =
    let begins : starts_with id file.name ≡ true = ap (starts_with id) name ∙ starts_with_refl id in
    let first = locate-new id folder cs xs file ys e n f h begins in
    let moving = move_to_cur_lem id folder cs xs file ys colon name e n f h k in
    let moved : Folder = record folder {
      new = some (xs ++ ys);
      cur = some (cs ++ arrived id file ∷ []);
    } in
    let then_found = locate-cur id moved cs (arrived id file) [] refl n (starts_with-append id _) in
    let renaming =
      rename_found-cur id flags moved cs (arrived id file) [] refl n tt (starts_with-append id _)
        (unique_id_of-colon id (b'2' ∷ b',' ∷ []) colon) in
    ground (arith, first, moving, then_found, renaming)

pub NoneNamed-append :
    (id : Text) (xs ys : List File) → NoneNamed id xs → NoneNamed id ys → NoneNamed id (xs ++ ys)
NoneNamed-append id xs ys h k = All-append (λ file. starts_with id file.name ≡ false) xs ys h k

pub locate-none :
    (id : Text) (folder : Folder) (cs ns : List File)
    → folder.cur ≡ some cs
    → folder.new ≡ some ns
    → NoneNamed id cs
    → NoneNamed id ns
    → locate id folder ≡ some none
unfolding locate locate_new
locate-none id folder cs ns e f h k =
    ground (arith, e, f, find_file-none id cs h, find_file-none id ns k)

-- A folder with the first files in the one of `new` and `cur` that is named, and the others in the
-- other one.
abbrev pub placed : Bool → List File → List File → Folder → Folder
placed true files others folder = record folder { new = some files; cur = some others }
placed false files others folder = record folder { cur = some files; new = some others }

-- `delete_message` on a message in `cur` or in `new`, the only file of either directory whose name
-- begins with its identifier, takes this file away and no other; then no message is found under the
-- identifier.
pub delete_message-placed :
    (id : Text) (in_new : Bool) (folder : Folder) (xs : List File) (file : File)
    (ys others : List File)
    → starts_with id file.name ≡ true
    → NoneNamed id xs
    → NoneNamed id ys
    → NoneNamed id others
    → (delete_message id (placed in_new (xs ++ file ∷ ys) others folder)
        ≡ some (placed in_new (xs ++ ys) others folder, true))
      × (locate id (placed in_new (xs ++ ys) others folder) ≡ some none)
unfolding delete_message change
delete_message-placed id false folder xs file ys ns s h k m =
    let before = placed false (xs ++ file ∷ ys) ns folder in
    let found = locate-cur id before xs file ys refl h s in
    let taken = remove_file-append id xs file ys s h k in
    (
      ground (arith, found, taken),
      locate-none id (placed false (xs ++ ys) ns folder) (xs ++ ys) ns refl refl
          (NoneNamed-append id xs ys h k) m,
    )
delete_message-placed id true folder xs file ys cs s h k m =
    let before = placed true (xs ++ file ∷ ys) cs folder in
    let found = locate-new id before cs xs file ys refl m refl h s in
    let taken = remove_file-append id xs file ys s h k in
    (
      ground (arith, found, taken),
      locate-none id (placed true (xs ++ ys) cs folder) cs (xs ++ ys) refl refl m
          (NoneNamed-append id xs ys h k),
    )
