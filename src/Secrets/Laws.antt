-- ===== src/Secrets/Laws.antt =====
-- What is read of the files below the root, after a write and after a removal.
use package.text.Mathlib.TextPositions.{eq_refl}
use hermes_plugin_async_thre.Prelude.{
  Bool-cases, String, any, any-keep, any-keep-not, arith, elem, eq_iff, false, first-any,
  first-append, first-append_other, first-keep, first-update, first-update_other, inl, inr, not,
  refl, some, true, ◌==◌, ◌≡◌,
}
use hermes_plugin_async_thre.Secrets.Files.{
  FileStore, StoredFile, exists, is_file, make_directory, read_text, remove_directory, unlink,
  write_text,
}

-- two files that are not the same
unfoldable pub IsOther : String → String → String → String → Type 0
IsOther d n d' n' = (f : StoredFile) → is_file d' n' f ≡ true → is_file d n f ≡ false

is_file-own :
    (d n content : String)
    → is_file d n (record { directory = d; name = n; content = content }) ≡ true
unfolding is_file
is_file-own d n content = rw (eq_refl d, eq_refl n) refl

is_file-content :
    (d n d' n' content : String) (f : StoredFile)
    → is_file d n (record f { content = content }) ≡ is_file d n f
unfolding is_file
is_file-content d n d' n' content f = refl

pub apart_sym : (a b : String) → (a == b) ≡ false → (b == a) ≡ false
apart_sym a b apart = ground (arith, eq_iff a b, eq_iff b a, apart)

pub directory-IsOther : (d d' n n' : String) → (d == d') ≡ false → IsOther d n d' n'
unfolding IsOther is_file
directory-IsOther d d' n n' apart f e =
    ground (arith, eq_iff f.directory d', eq_iff f.directory d, apart, e)

pub name-IsOther : (d d' n n' : String) → (n == n') ≡ false → IsOther d n d' n'
unfolding IsOther is_file
name-IsOther d d' n n' apart f e = ground (arith, eq_iff f.name n', eq_iff f.name n, apart, e)

pub read_text-write_text :
    (d n content : String) (fs : FileStore)
    → read_text d n (write_text d n content fs) ≡ some content
unfolding read_text write_text
read_text-write_text d n content fs = elim (first-any (is_file d n) fs.files) [
  | inl (f, found, there) ↦ rw there (
      rw
        (
          read_text,
          first-update (is_file d n) (λ f. record f { content = content }) fs.files f
              (is_file-content d n d n content) found,
        )
        refl)
  | inr (missing, absent) ↦ rw absent (
      rw (read_text, first-append (is_file d n) fs.files _ missing)
        (rw (is_file-own d n content) refl))
]

pub read_text-write_text_other :
    (d n d' n' content : String) (fs : FileStore)
    → IsOther d n d' n'
    → read_text d n (write_text d' n' content fs) ≡ read_text d n fs
unfolding read_text write_text IsOther
read_text-write_text_other d n d' n' content fs other =
    elim (Bool-cases (any (is_file d' n') fs.files)) [
      | inl e ↦ rw e (
          rw
            (
              read_text,
              first-update_other (is_file d n) (is_file d' n') (λ f. record f { content = content })
                  fs.files (is_file-content d n d' n' content) other,
            )
            refl)
      | inr e ↦ rw e (
          rw
            (
              read_text,
              first-append_other (is_file d n) fs.files
                  (record { directory = d'; name = n'; content = content })
                  (other (record { directory = d'; name = n'; content = content })
                    (is_file-own d' n' content)),
            )
            refl)
    ]

pub read_text-make_directory :
    (d n d' : String) (fs : FileStore) → read_text d n (make_directory d' fs) ≡ read_text d n fs
unfolding read_text make_directory
read_text-make_directory d n d' fs = elim (Bool-cases (elem d' fs.directories)) [
  | inl e ↦ rw e refl
  | inr e ↦ rw e refl
]

files-remove_directory : (d : String) (fs : FileStore) → (remove_directory d fs).files ≡ fs.files
unfolding remove_directory
files-remove_directory d fs = elim (Bool-cases (any (λ f. f.directory == d) fs.files)) [
  | inl e ↦ rw e refl
  | inr e ↦ rw e refl
]

pub exists-remove_directory :
    (d n d' : String) (fs : FileStore) → exists d n (remove_directory d' fs) ≡ exists d n fs
unfolding exists
exists-remove_directory d n d' fs = rw (files-remove_directory d' fs) refl

pub read_text-remove_directory :
    (d n d' : String) (fs : FileStore) → read_text d n (remove_directory d' fs) ≡ read_text d n fs
unfolding read_text
read_text-remove_directory d n d' fs = rw (files-remove_directory d' fs) refl

pub exists-unlink : (d n : String) (fs : FileStore) → exists d n (unlink d n fs) ≡ false
unfolding exists unlink
exists-unlink d n fs = any-keep-not (is_file d n) fs.files

pub exists-unlink_gone :
    (d n d' n' : String) (fs : FileStore)
    → exists d n fs ≡ false
    → exists d n (unlink d' n' fs) ≡ false
unfolding exists unlink
exists-unlink_gone d n d' n' fs gone = any-keep (is_file d n) _ fs.files gone

pub read_text-unlink_other :
    (d n d' n' : String) (fs : FileStore)
    → IsOther d' n' d n
    → read_text d n (unlink d' n' fs) ≡ read_text d n fs
unfolding read_text unlink IsOther
read_text-unlink_other d n d' n' fs other =
    rw
      (
        read_text,
        first-keep (is_file d n) (λ f. not (is_file d' n' f)) fs.files (λ f e. rw (other f e) refl),
      )
      refl

pub read_text-exists :
    (d n content : String) (fs : FileStore) → read_text d n fs ≡ some content → exists d n fs ≡ true
unfolding read_text exists
read_text-exists d n content fs e = elim (first-any (is_file d n) fs.files) [
  | inl (f, found, there) ↦ there
  | inr (missing, absent) ↦ ground (arith, missing, e)
]
