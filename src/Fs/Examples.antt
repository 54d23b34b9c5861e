-- ===== src/Fs/Examples.antt =====
-- A table with one file, on which the theorems are used.
use kum_os.Base.{
  ℕ, ◌≡◌, ◌≢◌, refl, sym, ap, ◌∙◌, true, false, some, List, [], ◌∷◌, arith, replicate, take,
  length-replicate, get_or, get_or-replicate, find_index, count, pos,
}
use kum_os.Kstring.{kstrcmp}
use kum_os.Fs.{
  Fs, fs_max_files, no_file, is_named, is_unused, read_name, put_name, store, fs_find, fs_create,
  fs_write, fs_delete,
}
use kum_os.Fs.Table.{IsName, IsValid, is_used}
use kum_os.Fs.Valid.{create-IsValid, calls-IsValid}

abbrev motd : List ℕ
motd = b'm' ∷ []

abbrev empty : Fs
empty = record { files = replicate fs_max_files no_file; file_count = pos 0 }

empty_at : (j : ℕ) → get_or empty.files j no_file ≡ no_file
empty_at j = get_or-replicate 32 j no_file

motd-IsName : IsName motd
motd-IsName = ((omega arith, omega arith), omega arith)

no_name : IsName no_file.name
unfolding no_file
no_name = (omega arith, omega arith)

empty-counted : count is_used empty.files ≡ 0
unfolding count no_file
empty-counted = refl

empty_unused : (j : ℕ) → (get_or empty.files j no_file).used ≡ false
unfolding no_file
empty_unused j = ap (λ f. f.used) (empty_at j)

not_used : false ≢ true
not_used e = ground (arith, e)

empty-IsValid : IsValid empty
empty-IsValid = record {
  size = length-replicate 32 no_file;
  counted = ap pos (sym empty-counted);
  names = λ j. rw (empty_at j) no_name;
  distinct = λ j k u w e. absurd (not_used (sym (empty_unused j) ∙ u));
}

calls-IsValid_example :
    IsValid (fs_create empty motd (7 ∷ []) false).1
    × IsValid (fs_write empty motd (7 ∷ [])).1
    × IsValid (fs_delete empty motd).1
calls-IsValid_example = calls-IsValid empty empty-IsValid motd (7 ∷ []) false motd-IsName

creates : (fs_create empty motd (7 ∷ []) false).0 ≡ pos 0
unfolding fs_create fs_find is_named is_unused find_index read_name put_name no_file
creates = refl

writes : (fs_write empty motd (8 ∷ [])).0 ≡ pos 0
unfolding fs_write fs_create fs_find is_named is_unused find_index read_name put_name no_file
writes = refl

abbrev pub one_file : Fs
one_file = (fs_create empty motd (7 ∷ []) false).1

pub one-IsValid : IsValid one_file
one-IsValid = create-IsValid empty empty-IsValid motd (7 ∷ []) false motd-IsName

deletes : (fs_delete one_file motd).0 ≡ pos 0
unfolding fs_delete fs_create fs_find is_named is_unused find_index read_name put_name no_file store
    kstrcmp
deletes = refl

-- What is known of the one file.
pub one_found : fs_find one_file (get_or one_file.files 0 no_file).name ≡ some 0
unfolding fs_delete fs_create fs_find is_named is_unused find_index read_name put_name no_file store
    kstrcmp
one_found = refl

pub one_name : IsName (get_or one_file.files 0 no_file).name
unfolding fs_create fs_find is_named is_unused find_index read_name put_name no_file store
one_name = motd-IsName

pub one_size : (get_or one_file.files 0 no_file).size ≡ 1
unfolding fs_create fs_find is_named is_unused find_index read_name put_name no_file store
one_size = refl

pub one_text : take 1 (get_or one_file.files 0 no_file).data_ ≡ 7 ∷ []
unfolding fs_create fs_find is_named is_unused find_index read_name put_name no_file store
one_text = refl
