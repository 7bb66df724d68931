-- ===== src/Board/Disk.antt =====
-- A file system that is a function from paths to contents, and never fails.
use meshpigeon_firmware.Prelude.{
  ℕ, ◌≡◌, ◌≢◌, refl, sym, ap, ◌∙◌, inl, List, [], ◌++◌, Bool, true, false, Option, none, some,
  if◌then◌else◌, length, take-length,
}
use meshpigeon_firmware.Board.{FilePath, FileSystem}
use meshpigeon_firmware.Board.Crash.{IsFileSystem}

abbrev pub Disk : Type 0
Disk = FilePath → Option (List ℕ)

abbrev same : FilePath → FilePath → Bool
same FilePath.tmp_bin FilePath.tmp_bin = true
same FilePath.tmp_bin FilePath.radio_bin = false
same FilePath.tmp_bin FilePath.boots_bin = false
same FilePath.tmp_bin FilePath.dev_bin = false
same FilePath.radio_bin FilePath.tmp_bin = false
same FilePath.radio_bin FilePath.radio_bin = true
same FilePath.radio_bin FilePath.boots_bin = false
same FilePath.radio_bin FilePath.dev_bin = false
same FilePath.boots_bin FilePath.tmp_bin = false
same FilePath.boots_bin FilePath.radio_bin = false
same FilePath.boots_bin FilePath.boots_bin = true
same FilePath.boots_bin FilePath.dev_bin = false
same FilePath.dev_bin FilePath.tmp_bin = false
same FilePath.dev_bin FilePath.radio_bin = false
same FilePath.dev_bin FilePath.boots_bin = false
same FilePath.dev_bin FilePath.dev_bin = true

same_refl : (p : FilePath) → same p p ≡ true
same_refl FilePath.tmp_bin = refl
same_refl FilePath.radio_bin = refl
same_refl FilePath.boots_bin = refl
same_refl FilePath.dev_bin = refl

same_apart : (p q : FilePath) → p ≢ q → same p q ≡ false
same_apart FilePath.tmp_bin FilePath.tmp_bin h = absurd (h refl)
same_apart FilePath.tmp_bin FilePath.radio_bin h = refl
same_apart FilePath.tmp_bin FilePath.boots_bin h = refl
same_apart FilePath.tmp_bin FilePath.dev_bin h = refl
same_apart FilePath.radio_bin FilePath.tmp_bin h = refl
same_apart FilePath.radio_bin FilePath.radio_bin h = absurd (h refl)
same_apart FilePath.radio_bin FilePath.boots_bin h = refl
same_apart FilePath.radio_bin FilePath.dev_bin h = refl
same_apart FilePath.boots_bin FilePath.tmp_bin h = refl
same_apart FilePath.boots_bin FilePath.radio_bin h = refl
same_apart FilePath.boots_bin FilePath.boots_bin h = absurd (h refl)
same_apart FilePath.boots_bin FilePath.dev_bin h = refl
same_apart FilePath.dev_bin FilePath.tmp_bin h = refl
same_apart FilePath.dev_bin FilePath.radio_bin h = refl
same_apart FilePath.dev_bin FilePath.boots_bin h = refl
same_apart FilePath.dev_bin FilePath.dev_bin h = absurd (h refl)

abbrev put : Disk → FilePath → Option (List ℕ) → Disk
put f p content = λ q. if same p q then content else f q

abbrev content_or_empty : Option (List ℕ) → List ℕ
content_or_empty none = []
content_or_empty (some bytes) = bytes

abbrev pub disk : FileSystem Disk
disk = record {
  read_file = λ f p. f p;
  remove = λ f p. (put f p none, true);
  open_write = λ f p. (put f p (some (content_or_empty (f p))), true);
  write = λ f p bytes. (put f p (some (content_or_empty (f p) ++ bytes)), length bytes);
  close = λ f p. f;
  rename = λ f p q. (put (put f p none) q (f p), true);
}

put_same : (f : Disk) (p : FilePath) (content : Option (List ℕ)) → put f p content p ≡ content
put_same f p content = rw (same_refl p) refl

put_other :
    (f : Disk) (p q : FilePath) (content : Option (List ℕ)) → p ≢ q → put f p content q ≡ f q
put_other f p q content apart = rw (same_apart p q apart) refl

pub disk-IsFileSystem : IsFileSystem Disk disk
disk-IsFileSystem = record {
  removes = λ f p. inl (refl, put_same f p none);
  remove_other = λ f p q apart. put_other f p q none apart;
  opens = λ f p fresh is_open.
      put_same f p (some (content_or_empty (f p)))
      ∙ ap (λ (o : Option (List ℕ)). some (content_or_empty o)) fresh;
  open_other = λ f p q apart. put_other f p q (some (content_or_empty (f p))) apart;
  writes = λ f p bytes empty.
      put_same f p (some (content_or_empty (f p) ++ bytes))
      ∙ ap (λ (o : Option (List ℕ)). some (content_or_empty o ++ bytes)) empty
      ∙ ap some (sym (take-length bytes));
  write_other = λ f p q bytes apart. put_other f p q (some (content_or_empty (f p) ++ bytes)) apart;
  closes = λ f p q. refl;
  renames = λ f p q. inl (refl, put_same (put f p none) q (f p));
  rename_other = λ f p q r apart distinct.
      put_other (put f p none) q r (f p) distinct ∙ put_other f p r none apart;
}

abbrev pub blank : Disk
blank = λ p. none
