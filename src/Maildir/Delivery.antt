-- ===== src/Maildir/Delivery.antt =====
-- What is found of a message that `Maildir` has delivered.
use email_server.Base.{
  ◌≡◌, refl, ap, ◌∙◌, sym, Bool, true, false, inl, inr, List, [], ◌∷◌, ◌++◌, some, arith,
  if◌then◌else◌, Bool-cases,
}
use email_server.Maildir.Account.{folder_of, deliver, deliver_into}
use email_server.Maildir.Disk.{File, Folder, Home, is_there, find_folder, put_folder, put_file}
use email_server.Maildir.Files.{locate-new}
use email_server.Maildir.Named.{NoneNamed, starts_with_refl, remove_file_others}
use email_server.Maildir.Mailbox.{get_message_content}
use email_server.Maildir.Names.{mailbox_folder}
use email_server.Text.Laws.{text_eq_iff, text_eq_refl}
use email_server.Text.{Text, text_eq}

text_eq_join : (s t u : Text) → text_eq s u ≡ true → text_eq t u ≡ true → text_eq s t ≡ true
text_eq_join s t u h k =
    ap (λ v. text_eq v t) (text_eq_iff s u h ∙ sym (text_eq_iff t u k)) ∙ text_eq_refl t

pub find_folder-put_folder :
    (key name : Text) (folder : Folder) (home : Home)
    → find_folder name (put_folder key folder home)
      ≡ (if text_eq key name then some folder else find_folder name home)
unfolding find_folder put_folder
find_folder-put_folder key name folder [] = refl
find_folder-put_folder key name folder ((k, old) ∷ rest) =
    let later = find_folder-put_folder key name folder rest in
    elim (Bool-cases (text_eq k key)) [
      | inl same ↦ ground (arith, same, later, ap (λ t. text_eq t name) (text_eq_iff k key same))
      | inr other ↦ ground (arith, other, later, text_eq_join k key name)
    ]

pub folder_of-put_folder :
    (key name : Text) (folder : Folder) (home : Home)
    → folder_of name (put_folder key folder home)
      ≡ (if text_eq key name then folder else folder_of name home)
unfolding folder_of
folder_of-put_folder key name folder home =
    ground (arith, find_folder-put_folder key name folder home)

if_true : {A : Type 0} {b : Bool} (x y : A) → b ≡ true → (if b then x else y) ≡ x
if_true x y h = rw h refl

if_false : {A : Type 0} {b : Bool} (x y : A) → b ≡ false → (if b then x else y) ≡ y
if_false x y h = rw h refl

deliver_lem :
    (file : File) (mailbox : Text) (home : Home) (ns : List File)
    → (folder_of (mailbox_folder mailbox) home).new ≡ some ns
    → is_there ((folder_of (mailbox_folder mailbox) home).tmp) ≡ true
    → deliver file mailbox home ≡ (
      put_folder
          (mailbox_folder mailbox)
          (record (folder_of (mailbox_folder mailbox) home) { new = some (put_file file ns) })
          home,
      file.name,
    )
unfolding deliver deliver_into
deliver_lem file mailbox home ns f t = ground (arith, f, t)

get_message_content-put_file :
    (file : File) (folder : Folder) (cs ns : List File)
    → folder.cur ≡ some cs
    → NoneNamed file.name cs
    → NoneNamed file.name ns
    → get_message_content file.name (record folder { new = some (put_file file ns) })
      ≡ some (some file.content)
unfolding get_message_content
get_message_content-put_file file folder cs ns e h k =
    let same = remove_file_others file.name file.name ns (starts_with_refl file.name) k in
    let filled : Folder = record folder { new = some (put_file file ns) } in
    let placed : filled.new ≡ some (ns ++ file ∷ []) = ap (λ fs. some (fs ++ file ∷ [])) same in
    let found =
      locate-new file.name filled cs ns file [] e h placed k (starts_with_refl file.name) in
    ground (arith, found)

-- A message that is delivered to a mailbox whose three directories are there, under a name with which no name of a file of its mailbox begins is found
-- there under this name, with its content; every other directory is left as it was.
pub deliver-get_message_content :
    (file : File) (mailbox : Text) (home : Home) (cs ns : List File)
    → (folder_of (mailbox_folder mailbox) home).cur ≡ some cs
    → (folder_of (mailbox_folder mailbox) home).new ≡ some ns
    → is_there ((folder_of (mailbox_folder mailbox) home).tmp) ≡ true
    → NoneNamed file.name cs
    → NoneNamed file.name ns
    → let (home', name) = deliver file mailbox home in
      (name ≡ file.name)
      × (get_message_content file.name (folder_of (mailbox_folder mailbox) home')
          ≡ some (some file.content))
      × ((other : Text)
          → text_eq (mailbox_folder mailbox) other ≡ false
          → folder_of other home' ≡ folder_of other home)
deliver-get_message_content file mailbox home cs ns e f t h k =
    let key = mailbox_folder mailbox in
    let filled : Folder = record (folder_of key home) { new = some (put_file file ns) } in
    let there : folder_of key (put_folder key filled home) ≡ filled =
      folder_of-put_folder key key filled home
      ∙ if_true filled (folder_of key home) (text_eq_refl key) in
    let content = get_message_content-put_file file (folder_of key home) cs ns e h k in
    rw (deliver_lem file mailbox home ns f t) (
      refl,
      ap (get_message_content file.name) there ∙ content,
      λ other differs.
          folder_of-put_folder key other filled home
          ∙ if_false filled (folder_of other home) differs,
    )
