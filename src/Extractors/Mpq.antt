-- ===== src/Extractors/Mpq.antt =====
-- crates/extractors/src/mpq.rs: the chain of archives that a file is looked up in.
-- What the mpq crate does with an archive is the parameter: for a name, opening gives nothing or the
-- size of the file and what reading it into a buffer of that size gives.
use cmangos_tbc.Base.{ℕ, Bool, true, false, Option, none, some, List, [], ◌∷◌, if◌then◌else◌, ◌==◌}
use cmangos_tbc.Base.Text.{Text}

abbrev pub Archive : Type 0
Archive = Text → Option (ℕ × Option (List ℕ))

pub record MpqManager : Type 0 where
  pub archives : List Archive

unfoldable pub new : MpqManager
new = record { archives = [] }

-- The archive goes before the others. `exists` tells if the path is there, `opened` what opening it
-- gives; the result tells if an archive was added, `none` is the crate's error.
unfoldable pub open_archive :
    (exists : Bool) (opened : Option Archive) → MpqManager → Option (Bool × MpqManager)
open_archive false opened m = some (false, m)
open_archive true none m = none
open_archive true (some archive) m = some (true, record m { archives = archive ∷ m.archives })

-- What one archive gives: nothing if it cannot be opened, is empty or cannot be read.
unfoldable pub contents_in : Option (ℕ × Option (List ℕ)) → Option (List ℕ)
contents_in none = none
contents_in (some (file_size, buf)) = if file_size == 0 then none else buf

unfoldable pub or_else : Option (List ℕ) → Option (List ℕ) → Option (List ℕ)
or_else (some buf) later = some buf
or_else none later = later

-- The `for` loop over the archives: the first that gives the file.
unfoldable pub first_contents : Text → List Archive → Option (List ℕ)
unfolding contents_in or_else
first_contents filename [] = none
first_contents filename (archive ∷ archives) =
    or_else (contents_in (archive filename)) (first_contents filename archives)

unfoldable pub open_file : Text → MpqManager → Option (List ℕ)
unfolding first_contents
open_file filename m = first_contents filename m.archives
