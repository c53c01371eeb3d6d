-- ===== src/Spool/Files.antt =====
-- Envelopes, and the directory as a list of files.
use seagull_agent.Prelude.{
  ℕ, suc, ◌+◌, ℤ, ◌≡◌, refl, Bool, true, false, ◌||◌, Option, none, some, List, [], ◌∷◌, String,
  str_eq, str_eq_iff, if◌then◌else◌, length, arith, Bool-cases, inl, inr,
}

-- `receipt` is the unexported field: json.Marshal does not write it.
pub record Envelope : Type 0 where
  pub id : String
  pub kind : String
  pub priority : ℤ
  pub created_at : ℕ
  pub attempts : ℕ
  pub payload : String
  pub receipt : String

pub record File : Type 0 where
  pub name : String
  pub size : ℕ
  pub mod_time : ℕ
  pub content : Option Envelope

unfoldable pub member : String → List String → Bool
member k [] = false
member k (j ∷ l) = str_eq j k || member k l

unfoldable pub delete : String → List String → List String
delete k [] = []
delete k (j ∷ l) = let rest = delete k l in if str_eq j k then rest else j ∷ rest

unfoldable pub has_file : String → List File → Bool
has_file k [] = false
has_file k (f ∷ l) = str_eq f.name k || has_file k l

unfoldable pub find_file : String → List File → Option File
find_file k [] = none
find_file k (f ∷ l) = if str_eq f.name k then some f else find_file k l

unfoldable pub without_file : String → List File → List File
without_file k [] = []
without_file k (f ∷ l) = let rest = without_file k l in if str_eq f.name k then rest else f ∷ rest

-- `writeAtomic` over a path: the file takes the place of one with its name, or is new.
unfoldable pub write_file : File → List File → List File
write_file f [] = f ∷ []
write_file f (g ∷ l) = let rest = write_file f l in if str_eq g.name f.name then f ∷ l else g ∷ rest

unfoldable pub total : List File → ℕ
total [] = 0
total (f ∷ l) = f.size + total l

-- A directory has no two entries of one name.
abbrev pub Distinct : List File → Type 0
Distinct [] = Unit
Distinct (f ∷ l) = (has_file f.name l ≡ false) × Distinct l

pub has-without_file :
    (j k : String) (l : List File)
    → has_file j (without_file k l) ≡ (if str_eq k j then false else has_file j l)
unfolding has_file without_file
has-without_file j k [] = ground arith
has-without_file j k (f ∷ l) =
    ground (arith, has-without_file j k l, str_eq_iff f.name k, str_eq_iff f.name j, str_eq_iff k j)

pub find-without_file :
    (j k : String) (l : List File)
    → find_file j (without_file k l) ≡ (if str_eq k j then none else find_file j l)
unfolding find_file without_file
find-without_file j k [] = ground arith
find-without_file j k (f ∷ l) =
    ground
      (arith, find-without_file j k l, str_eq_iff f.name k, str_eq_iff f.name j, str_eq_iff k j)

pub find_file_absent : (k : String) (l : List File) → has_file k l ≡ false → find_file k l ≡ none
unfolding has_file find_file
find_file_absent k [] h = refl
find_file_absent k (f ∷ l) h = ground (arith, find_file_absent k l)

pub has-find_file :
    (k : String) (l : List File) (f : File) → find_file k l ≡ some f → has_file k l ≡ true
unfolding has_file find_file
has-find_file k [] f h = cc
has-find_file k (g ∷ l) f h = ground (arith, has-find_file k l f)

-- A file that is in the directory is found.
pub find_file_present :
    (k : String) (l : List File) → has_file k l ≡ true → (f : File) × (find_file k l ≡ some f)
unfolding has_file find_file
find_file_present k [] h = cc
find_file_present k (f ∷ l) h = elim (Bool-cases (str_eq f.name k)) [
  | inl here ↦ (f, rw here)
  | inr there ↦ let (g, found) = find_file_present k l (rw there at h) in (g, rw there found)
]

pub name-find_file : (k : String) (l : List File) (f : File) → find_file k l ≡ some f → f.name ≡ k
unfolding find_file
name-find_file k [] f h = cc
name-find_file k (g ∷ l) f h = ground (arith, name-find_file k l f, str_eq_iff g.name k)

pub without_file_absent : (k : String) (l : List File) → has_file k l ≡ false → without_file k l ≡ l
unfolding has_file without_file
without_file_absent k [] h = refl
without_file_absent k (f ∷ l) h = ground (arith, without_file_absent k l)

pub without_file-Distinct : (k : String) (l : List File) → Distinct l → Distinct (without_file k l)
unfolding without_file
without_file-Distinct k [] h = tt
without_file-Distinct k (f ∷ l) h =
    ground (arith, without_file-Distinct k l h.1, has-without_file f.name k l)

-- Taking one file out takes its size out.
pub total-without_file :
    (k : String) (l : List File) (f : File)
    → Distinct l
    → find_file k l ≡ some f
    → total (without_file k l) + f.size ≡ total l
unfolding total without_file find_file
total-without_file k [] f d h = cc
total-without_file k (g ∷ l) f d h =
    ground (arith, total-without_file k l f d.1, without_file_absent k l, str_eq_iff g.name k)

pub length-without_file :
    (k : String) (l : List File)
    → Distinct l
    → has_file k l ≡ true
    → length (without_file k l) + 1 ≡ length l
unfolding without_file has_file
length-without_file k [] d h = cc
length-without_file k (g ∷ l) d h =
    ground (arith, length-without_file k l d.1, without_file_absent k l, str_eq_iff g.name k)

pub has-write_file :
    (k : String) (f : File) (l : List File)
    → has_file k (write_file f l) ≡ (if str_eq f.name k then true else has_file k l)
unfolding has_file write_file
has-write_file k f [] = ground arith
has-write_file k f (g ∷ l) = ground (
  arith,
  has-write_file k f l,
  str_eq_iff g.name f.name,
  str_eq_iff f.name k,
  str_eq_iff g.name k,
)

pub find-write_file :
    (k : String) (f : File) (l : List File)
    → find_file k (write_file f l) ≡ (if str_eq f.name k then some f else find_file k l)
unfolding find_file write_file
find-write_file k f [] = ground arith
find-write_file k f (g ∷ l) = ground (
  arith,
  find-write_file k f l,
  str_eq_iff g.name f.name,
  str_eq_iff f.name k,
  str_eq_iff g.name k,
)

pub write_file-Distinct : (f : File) (l : List File) → Distinct l → Distinct (write_file f l)
unfolding write_file has_file
write_file-Distinct f [] h = (refl, tt)
write_file-Distinct f (g ∷ l) h = ground (
  arith,
  write_file-Distinct f l h.1,
  has-write_file g.name f l,
  str_eq_iff f.name g.name,
  str_eq_iff g.name f.name,
)

pub write_file_new :
    (f : File) (l : List File)
    → has_file f.name l ≡ false
    → (length (write_file f l) ≡ suc (length l)) × (total (write_file f l) ≡ total l + f.size)
unfolding write_file has_file total
write_file_new f [] h = omega arith
write_file_new f (g ∷ l) h = ground (arith, write_file_new f l)

pub write_file_again :
    (f g : File) (l : List File)
    → find_file f.name l ≡ some g
    → (length (write_file f l) ≡ length l) × (total (write_file f l) + g.size ≡ total l + f.size)
unfolding write_file find_file total
write_file_again f g [] h = cc
write_file_again f g (e ∷ l) h = ground (arith, write_file_again f g l)
