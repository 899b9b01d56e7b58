-- ===== src/SafServer/Unique.antt =====
-- No two files of the server have one name.
use gmonitor.Base.{◌≡◌, false, List, [], ◌∷◌, Option, none, some, ℤ}
use gmonitor.SafStore.{Named, exist}
use gmonitor.SafServer.{Result}

abbrev pub IsDistinct : List Named → Type 0
IsDistinct [] = Unit {0}
IsDistinct (x ∷ xs) = (exist x.name xs ≡ false) × IsDistinct xs

-- What is said of the files that an operation leaves, if it comes to an end.
abbrev pub Leaves : Option (List Named × ℤ) → Type 0
Leaves none = ⊥
Leaves (some r) = IsDistinct r.0

-- The same of a service.
abbrev pub Serves : Option Result → Type 0
Serves none = ⊥
Serves (some r) = IsDistinct r.state.safs
