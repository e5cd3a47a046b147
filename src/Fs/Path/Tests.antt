-- ===== src/Fs/Path/Tests.antt =====
-- `get_element` of kernel/src/fs/path.rs at a concrete path.
use glenda.Prelude.{ℕ, ◌≡◌, refl, some, List, [], ◌∷◌}
use glenda.Fs.Path.{get_element}
use glenda.Fs.Path.Elements.{Element, get_element-Element}

-- `//a/b`.
abbrev path : List ℕ
path = 0x2F ∷ 0x2F ∷ 0x61 ∷ 0x2F ∷ 0x62 ∷ []

get_element-first : get_element path ≡ some (0x61 ∷ [], 0x2F ∷ 0x62 ∷ [])
unfolding get_element
get_element-first = refl

get_element-Element_example : Element path (get_element path)
get_element-Element_example = get_element-Element path
