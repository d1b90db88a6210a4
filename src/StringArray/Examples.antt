-- ===== src/StringArray/Examples.antt =====
-- Tags of a medium, and the theorems at them.
use phobos.Base.{◌≡◌, refl, [], ◌∷◌, some, none}
use phobos.StringArray.CString.{Bytes, str_eq, strtok}
use phobos.StringArray.Csv.{of_csv-duplicate}
use phobos.StringArray.{StringArray, array, string_exists, of_csv}

abbrev tape : Bytes
tape = b't' ∷ []

abbrev disk : Bytes
disk = b'd' ∷ b'k' ∷ []

abbrev fast : Bytes
fast = b'f' ∷ []

-- "dk,f" and "t,f"
abbrev disk_fast : Bytes
disk_fast = b'd' ∷ b'k' ∷ b',' ∷ b'f' ∷ []

abbrev tape_fast : Bytes
tape_fast = b't' ∷ b',' ∷ b'f' ∷ []

strtok_runs : strtok (b',' ∷ b'd' ∷ b'k' ∷ b',' ∷ b',' ∷ b'f' ∷ b',' ∷ []) ≡ disk ∷ fast ∷ []
unfolding strtok
strtok_runs = refl

of_csv-duplicate_example :
    (a : StringArray) × (of_csv tape_fast (array (tape ∷ [])) ≡ some a)
    × (string_exists a fast ≡ none)
unfolding strtok str_eq
of_csv-duplicate_example = of_csv-duplicate (tape ∷ []) tape_fast tape fast fast refl refl refl refl
