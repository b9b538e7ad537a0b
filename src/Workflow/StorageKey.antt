-- ===== src/Workflow/StorageKey.antt =====
-- `_validate_storage_key` of app/services/workflow.py: the test on the storage key of evidence.
-- A text is walked as its code points.
use Prim.Native.Char.{code}
use test_exchange_backend.Base.{
  ℕ, zero, suc, ◌+◌, ◌-◌, ◌/◌, ◌%◌, String, Bool, true, false, not, ◌&&◌, ◌||◌, List, [], ◌∷◌, ◌++◌,
  ◌==◌, ltb, if◌then◌else◌, any, select,
}
use test_exchange_backend.Session.{M, raise_if}

abbrev pub codes : String → List ℕ
codes String.[] = []
codes (String.◌∷◌ c s) = code c ∷ codes s

unfoldable pub codes_eq : List ℕ → List ℕ → Bool
codes_eq [] [] = true
codes_eq (a ∷ x) (b ∷ y) = a == b && codes_eq x y
codes_eq _ _ = false

-- `text.startswith(prefix)`
unfoldable pub starts_with : List ℕ → List ℕ → Bool
starts_with text [] = true
starts_with [] (b ∷ prefix) = false
starts_with (a ∷ text) (b ∷ prefix) = a == b && starts_with text prefix

-- `part in text`
unfoldable pub contains : List ℕ → List ℕ → Bool
unfolding starts_with
contains part [] = starts_with [] part
contains part (a ∷ text) = starts_with (a ∷ text) part || contains part text

-- the current component goes before the ones that follow
abbrev push : ℕ → List (List ℕ) → List (List ℕ)
push a [] = (a ∷ []) ∷ []
push a (w ∷ ws) = (a ∷ w) ∷ ws

-- `text.split("/")`
unfoldable pub split_slash : List ℕ → List (List ℕ)
split_slash [] = [] ∷ []
split_slash (a ∷ text) = let rest = split_slash text in if a == b'/' then [] ∷ rest else push a rest

-- empty components and `.` are dropped by PurePosixPath
unfoldable pub is_component : List ℕ → Bool
unfolding codes_eq
is_component w = not (codes_eq w []) && not (codes_eq w (b'.' ∷ []))

-- `PurePosixPath(text).parts`, with the root as the first part of an absolute path
unfoldable pub path_parts : List ℕ → List (List ℕ)
unfolding starts_with is_component split_slash
path_parts text =
    let components = select is_component (split_slash text) in
    if starts_with text (b'/' ∷ []) then (b'/' ∷ []) ∷ components else components

abbrev pub hex_digit : ℕ → ℕ
hex_digit d = if ltb d 10 then b'0' + d else b'a' + (d - 10)

-- the `width` last hexadecimal digits of a number
unfoldable pub hex : ℕ → ℕ → List ℕ
hex zero n = []
hex (suc width) n = hex width (n / 16) ++ hex_digit (n % 16) ∷ []

abbrev take : ℕ → List ℕ → List ℕ
take zero l = []
take (suc n) [] = []
take (suc n) (a ∷ l) = a ∷ take n l

abbrev drop : ℕ → List ℕ → List ℕ
drop zero l = l
drop (suc n) [] = []
drop (suc n) (a ∷ l) = drop n l

-- `str(uuid)`: 32 hexadecimal digits in groups of 8, 4, 4, 4 and 12
unfoldable pub uuid_text : ℕ → List ℕ
unfolding hex
uuid_text id =
    let digits = hex 32 id in
    take 8 digits
    ++ (b'-' ∷ take 4 (drop 8 digits))
    ++ (b'-' ∷ take 4 (drop 12 digits))
    ++ (b'-' ∷ take 4 (drop 16 digits))
    ++ (b'-' ∷ drop 20 digits)

-- the first of the parts is the folder, and a file's name follows
unfoldable pub in_folder : List ℕ → List (List ℕ) → Bool
in_folder folder [] = false
in_folder folder (first ∷ []) = false
in_folder folder (first ∷ rest) = codes_eq first folder

-- the condition under which `_validate_storage_key` raises; a path of two parts has a name
unfoldable pub bad_storage_key : ℕ → List ℕ → Bool
unfolding codes_eq starts_with contains in_folder
bad_storage_key assignment_id key =
    contains (b'\\' ∷ []) key
    || starts_with key (b'/' ∷ [])
    || contains (b':' ∷ b'/' ∷ b'/' ∷ []) key
    || any (λ part. codes_eq part (b'.' ∷ b'.' ∷ [])) (path_parts key)
    || not (in_folder (uuid_text assignment_id) (path_parts key))

unfoldable pub validate_storage_key : ℕ → String → M (Unit {0})
validate_storage_key assignment_id storage_key =
    raise_if (bad_storage_key assignment_id (codes storage_key))
      "Evidence storage keys must use the folder of their assignment" 422
