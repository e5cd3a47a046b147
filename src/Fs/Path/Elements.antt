-- ===== src/Fs/Path/Elements.antt =====
-- `get_element` of kernel/src/fs/path.rs against the parts of a path.
use glenda.Prelude.{
  ℕ, zero, suc, ◌+◌, ◌<◌, ◌≡◌, refl, ap, ◌∙◌, false, Option, none, some, Bool-cases, inl, inr, List,
  [], ◌∷◌, ◌++◌, length, length-append, arith, ◌==◌,
}
use glenda.Fs.Path.{slash, skip_slashes, split_name, named, get_element}

-- `n` slashes in front of a path.
unfoldable pub slashes : ℕ → List ℕ → List ℕ
slashes zero path = path
slashes (suc n) path = slash ∷ slashes n path

abbrev pub IsName : List ℕ → Type 0
IsName [] = Unit
IsName (b ∷ rest) = ((b == slash) ≡ false) × IsName rest

-- The end of the path, or a slash.
abbrev pub AtSlash : List ℕ → Type 0
AtSlash [] = Unit
AtSlash (b ∷ rest) = b ≡ slash

abbrev pub NotSlash : List ℕ → Type 0
NotSlash [] = Unit
NotSlash (b ∷ rest) = (b == slash) ≡ false

skip_slashes_lem :
    (path : List ℕ)
    → (n : ℕ) × (path ≡ slashes n (skip_slashes path)) × NotSlash (skip_slashes path)
unfolding skip_slashes slashes
skip_slashes_lem [] = (0, refl, tt)
skip_slashes_lem (b ∷ rest) = elim (Bool-cases (b == slash)) [
  | inl y ↦
      let (n, e, f) = skip_slashes_lem rest in
      let s : b ≡ slash = ground (arith, y) in
      rw (NotSlash, y) (suc n, rw s (ap (λ p. slash ∷ p) e), f)
  | inr other ↦ rw (NotSlash, other) (0, refl, other)
]

split_name_lem :
    (path : List ℕ)
    → (path ≡ (split_name path).0 ++ (split_name path).1)
      × IsName (split_name path).0
      × AtSlash (split_name path).1
unfolding split_name
split_name_lem [] = (refl, tt, tt)
split_name_lem (b ∷ rest) = elim (Bool-cases (b == slash)) [
  | inl y ↦ rw (IsName, AtSlash, y) (refl, tt, ground (arith, y))
  | inr other ↦
      let (e, f, g) = split_name_lem rest in
      rw (IsName, AtSlash, other) (ap (λ p. b ∷ p) e, (other, f), g)
]

-- What an element of a path is.
abbrev pub Element : List ℕ → Option (List ℕ × List ℕ) → Type 0
Element path none = (n : ℕ) × (path ≡ slashes n [])
Element path (some (name, rest)) =
    (n : ℕ) × (path ≡ slashes n (name ++ rest))
    × (0 < length name)
    × IsName name
    × AtSlash rest
    × (length rest < length path)

length-slashes : (n : ℕ) (path : List ℕ) → length (slashes n path) ≡ n + length path
unfolding slashes
length-slashes zero path = omega arith
length-slashes (suc n) path = omega (arith, length-slashes n path)

named_lem :
    (path next : List ℕ) (n : ℕ) → path ≡ slashes n next → NotSlash next → Element path (named next)
unfolding named split_name
named_lem path [] n e f = (n, e)
named_lem path (b ∷ tail) n e f =
    let (g, h, k) = split_name_lem tail in
    let (name, rest) = split_name tail in
    let len : length path ≡ n + suc (length tail) = ap length e ∙ length-slashes n (b ∷ tail) in
    let parts : length tail ≡ length name + length rest = ap length g ∙ length-append name rest in
    rw (Element, f)
      (n, e ∙ ap (λ t. slashes n (b ∷ t)) g, omega arith, (f, h), k, omega (arith, len, parts))

-- `get_element` gives the next part of a path: the path is some slashes, a name of at least a byte
-- without a slash, and the rest, which is empty or starts with a slash and is shorter than the path;
-- or it gives none, where the path is only slashes.
pub get_element-Element : (path : List ℕ) → Element path (get_element path)
unfolding get_element
get_element-Element path =
    let (n, e, f) = skip_slashes_lem path in named_lem path (skip_slashes path) n e f
