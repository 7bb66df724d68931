-- ===== src/Board/Crash.antt =====
-- A record on the nRF52's file system when the power may go at any moment.
use meshpigeon_firmware.Prelude.{
  ℕ, ◌≡◌, ◌≢◌, refl, ap, ◌∙◌, ◌⊎◌, inl, inr, List, [], ◌∷◌, Bool, true, false, not, none, some,
  ◌==◌, if◌then◌else◌, length, take, take-length, All, Bool-cases, ==_iff, if_holds,
}
use meshpigeon_firmware.Board.{FilePath, FileSystem, write_record}

-- What is documented of littlefs: a call on one file leaves the others, a write adds from the front
-- of what it is given, and a rename replaces its target whole or not at all. A file that could not
-- be removed is as it was.
pub record IsFileSystem (F : Type 0) (fs : FileSystem F) : Type 0 where
  pub removes :
      (f : F) (p : FilePath)
      → (((fs.remove f p).1 ≡ true) × (fs.read_file (fs.remove f p).0 p ≡ none))
        ⊎ (((fs.remove f p).1 ≡ false) × (fs.read_file (fs.remove f p).0 p ≡ fs.read_file f p))
  pub remove_other :
      (f : F) (p q : FilePath) → p ≢ q → fs.read_file (fs.remove f p).0 q ≡ fs.read_file f q
  pub opens :
      (f : F) (p : FilePath)
      → fs.read_file f p ≡ none
      → (fs.open_write f p).1 ≡ true
      → fs.read_file (fs.open_write f p).0 p ≡ some []
  pub open_other :
      (f : F) (p q : FilePath) → p ≢ q → fs.read_file (fs.open_write f p).0 q ≡ fs.read_file f q
  pub writes :
      (f : F) (p : FilePath) (bytes : List ℕ)
      → fs.read_file f p ≡ some []
      → fs.read_file (fs.write f p bytes).0 p ≡ some (take (fs.write f p bytes).1 bytes)
  pub write_other :
      (f : F) (p q : FilePath) (bytes : List ℕ)
      → p ≢ q
      → fs.read_file (fs.write f p bytes).0 q ≡ fs.read_file f q
  pub closes : (f : F) (p q : FilePath) → fs.read_file (fs.close f p) q ≡ fs.read_file f q
  pub renames :
      (f : F) (p q : FilePath)
      → (((fs.rename f p q).1 ≡ true) × (fs.read_file (fs.rename f p q).0 q ≡ fs.read_file f p))
        ⊎ (((fs.rename f p q).1 ≡ false) × (fs.read_file (fs.rename f p q).0 q ≡ fs.read_file f q))
  pub rename_other :
      (f : F) (p q r : FilePath)
      → p ≢ r
      → q ≢ r
      → fs.read_file (fs.rename f p q).0 r ≡ fs.read_file f r

module _ {F : Type 0} (fs : FileSystem F) where
  -- The states that the file system goes through while a record is written.
  abbrev pub stages : F → FilePath → List ℕ → List F
  stages f path buf =
      let removed = (fs.remove f FilePath.tmp_bin).0 in
      let (opened, is_open) = fs.open_write removed FilePath.tmp_bin in
      let (written, n) = fs.write opened FilePath.tmp_bin buf in
      let closed = fs.close written FilePath.tmp_bin in
      let last = if n == length buf then (write_record fs f path buf).0 ∷ [] else [] in
      f ∷ removed ∷ opened ∷ (if not is_open then [] else written ∷ closed ∷ last)

  -- The file has what it had, or the new record.
  abbrev pub OldOrNew : F → FilePath → List ℕ → F → Type 0
  OldOrNew f path buf g =
      (fs.read_file g path ≡ fs.read_file f path) ⊎ (fs.read_file g path ≡ some buf)

  module _ (law : IsFileSystem F fs) where
    -- Where no old temporary file is left in the way, and whatever the calls return: a write that says that it was done leaves the new record in the
    -- file, and any other leaves the file as it was. And wherever the power goes in between, the
    -- file has the old content or the new.
    pub write_record_survives :
        (f : F) (path : FilePath) (buf : List ℕ)
        → FilePath.tmp_bin ≢ path
        → fs.read_file (fs.remove f FilePath.tmp_bin).0 FilePath.tmp_bin ≡ none
        → let (g, done) = write_record fs f path buf in
          (((done ≡ true) × (fs.read_file g path ≡ some buf))
            ⊎ ((done ≡ false) × (fs.read_file g path ≡ fs.read_file f path)))
          × All (OldOrNew f path buf) (stages f path buf)
    unfolding write_record
    write_record_survives f path buf apart no_tmp =
        let tmp = FilePath.tmp_bin in
        let Outcome : F × Bool → Type 0 = λ r.
          (((r.1 ≡ true) × (fs.read_file r.0 path ≡ some buf))
            ⊎ ((r.1 ≡ false) × (fs.read_file r.0 path ≡ fs.read_file f path)))
          × OldOrNew f path buf r.0 in
        let removed = (fs.remove f tmp).0 in
        let opened = (fs.open_write removed tmp).0 in
        let n = (fs.write opened tmp buf).1 in
        let written = (fs.write opened tmp buf).0 in
        let closed = fs.close written tmp in
        let same_removed = law.remove_other f tmp path apart in
        let same_opened = law.open_other removed tmp path apart ∙ same_removed in
        let same_written = law.write_other opened tmp path buf apart ∙ same_opened in
        let same_closed = law.closes written tmp path ∙ same_written in
        elim (Bool-cases (fs.open_write removed tmp).1) [
          | inr shut ↦
              rw shut
                (inr (refl, same_opened), (inl refl, (inl same_removed, (inl same_opened, tt))))
          | inl is_open ↦ elim (Bool-cases (n == length buf)) [
            | inr short ↦
                rw (is_open, short)
                  (
                    inr (refl, same_closed),
                    (
                      inl refl,
                      (
                        inl same_removed,
                        (inl same_opened, (inl same_written, (inl same_closed, tt))),
                      ),
                    ),
                  )
            | inl full ↦
                let content : fs.read_file closed tmp ≡ some buf =
                  law.closes written tmp tmp
                  ∙ law.writes opened tmp buf (law.opens removed tmp no_tmp is_open)
                  ∙ ap (λ (m : ℕ). some (take m buf)) ((==_iff n (length buf)).0 full)
                  ∙ ap some (take-length buf) in
                let outcome : Outcome (fs.rename closed tmp path) =
                  elim (law.renames closed tmp path) [
                    | inl (done, moved) ↦ (inl (done, moved ∙ content), inr (moved ∙ content))
                    | inr (failed, kept) ↦
                        (inr (failed, kept ∙ same_closed), inl (kept ∙ same_closed))
                  ] in
                rw (is_open, full)
                  (
                    outcome.0,
                    (
                      inl refl,
                      (
                        inl same_removed,
                        (inl same_opened, (inl same_written, (inl same_closed, (outcome.1, tt)))),
                      ),
                    ),
                  )
          ]
        ]

    -- A record that is written leaves the other files.
    pub write_record_other :
        (f : F) (path other : FilePath) (buf : List ℕ)
        → FilePath.tmp_bin ≢ other
        → path ≢ other
        → fs.read_file (write_record fs f path buf).0 other ≡ fs.read_file f other
    unfolding write_record
    write_record_other f path other buf apart distinct =
        let tmp = FilePath.tmp_bin in
        let removed = (fs.remove f tmp).0 in
        let opened = (fs.open_write removed tmp).0 in
        let written = (fs.write opened tmp buf).0 in
        let n = (fs.write opened tmp buf).1 in
        let closed = fs.close written tmp in
        let Same : F × Bool → Type 0 = λ r. fs.read_file r.0 other ≡ fs.read_file f other in
        let same_opened =
          law.open_other removed tmp other apart ∙ law.remove_other f tmp other apart in
        let same_closed =
          law.closes written tmp other ∙ law.write_other opened tmp other buf apart ∙ same_opened in
        if_holds Same (not (fs.open_write removed tmp).1) _ _ same_opened (
          if_holds Same (n == length buf) _ _
            (law.rename_other closed tmp path other apart distinct ∙ same_closed) same_closed)
