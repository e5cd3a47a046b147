-- ===== src/Fs/Dentry/Names.antt =====
-- What an entry of a directory means: kernel/src/fs/dentry.rs, `DentryDisk` of kernel/src/fs/inode.rs.
use glenda.Prelude.{
  ℕ, zero, suc, ◌+◌, ◌*◌, ◌≤◌, ◌≡◌, refl, ap, Bool, true, false, not, ◌&&◌, List, [], ◌∷◌, length,
  take, drop, arith, ◌==◌, Bool-cases, inl, inr,
}
use glenda.Fs.Dentry.{maxlen_filename, byte_at, entry_inum, match_name, is_entry}

-- A name in `n` bytes: cut, or with zeros behind.
abbrev pub padded : ℕ → List ℕ → List ℕ
padded zero name = []
padded (suc n) [] = 0 ∷ padded n []
padded (suc n) (x ∷ xs) = x ∷ padded n xs

-- The number that bytes stand for, the lowest first.
abbrev pub le_number : List ℕ → ℕ
le_number [] = 0
le_number (b ∷ rest) = b + 256 * le_number rest

-- The entry is in use, and its first 60 bytes are the name.
abbrev pub Names : List ℕ → List ℕ → Type 0
Names name buf =
    (take 1 buf ≡ 0 ∷ [] → ⊥) × (take maxlen_filename buf ≡ padded maxlen_filename name)

head_of : List ℕ → ℕ
head_of [] = 0
head_of (b ∷ rest) = b

tail_of : List ℕ → List ℕ
tail_of [] = []
tail_of (b ∷ rest) = rest

match_name-padded :
    (n : ℕ) (buf name : List ℕ)
    → n ≤ length buf
    → match_name n buf name ≡ true
    → take n buf ≡ padded n name
match_name-padded zero buf name l e = refl
match_name-padded (suc n) [] name l e = absurd (omega (arith, l))
match_name-padded (suc n) (b ∷ rest) [] l e =
    let same : b ≡ 0 = ground (arith, e) in
    let more = match_name-padded n rest [] (omega (arith, l)) (ground (arith, e)) in cc (same, more)
match_name-padded (suc n) (b ∷ rest) (x ∷ xs) l e =
    let same : b ≡ x = ground (arith, e) in
    let more = match_name-padded n rest xs (omega (arith, l)) (ground (arith, e)) in cc (same, more)

padded-match_name :
    (n : ℕ) (buf name : List ℕ)
    → n ≤ length buf
    → take n buf ≡ padded n name
    → match_name n buf name ≡ true
unfolding head_of tail_of
padded-match_name zero buf name l e = refl
padded-match_name (suc n) [] name l e = absurd (omega (arith, l))
padded-match_name (suc n) (b ∷ rest) [] l e =
    ground (arith, ap head_of e, padded-match_name n rest [] (omega (arith, l)) (ap tail_of e))
padded-match_name (suc n) (b ∷ rest) (x ∷ xs) l e =
    ground (arith, ap head_of e, padded-match_name n rest xs (omega (arith, l)) (ap tail_of e))

and_parts : (x y : Bool) → (x && y) ≡ true → (x ≡ true) × (y ≡ true)
and_parts true y e = (refl, e)
and_parts false y e = ground (arith, e)

and_both : (x y : Bool) → x ≡ true → y ≡ true → (x && y) ≡ true
and_both true y e f = f
and_both false y e f = e

is_zero : (b : ℕ) → (b == 0) ≡ true → b ≡ 0
is_zero b z = ground arith

in_use : (b : ℕ) → not (b == 0) ≡ true → b ≡ 0 → ⊥
in_use b e z = ground arith

pub is_entry-Names :
    (name buf : List ℕ) → length buf ≡ 64 → is_entry name buf ≡ true → Names name buf
unfolding head_of
is_entry-Names name [] l e = absurd (omega (arith, l))
is_entry-Names name (b ∷ rest) l e =
    let used = (and_parts (not (b == 0)) (match_name maxlen_filename (b ∷ rest) name) e).0 in
    let named = (and_parts (not (b == 0)) (match_name maxlen_filename (b ∷ rest) name) e).1 in
    (
      λ z. in_use b used (ap head_of z),
      match_name-padded maxlen_filename (b ∷ rest) name (omega (arith, l)) named,
    )

pub Names-is_entry :
    (name buf : List ℕ) → length buf ≡ 64 → Names name buf → is_entry name buf ≡ true
Names-is_entry name [] l h = absurd (omega (arith, l))
Names-is_entry name (b ∷ rest) l h =
    let m = padded-match_name maxlen_filename (b ∷ rest) name (omega (arith, l)) h.1 in
    elim (Bool-cases (b == 0)) [
      | inl z ↦ absurd (h.0 (ap (λ (a : ℕ). a ∷ []) (is_zero b z)))
      | inr n ↦ and_both (not (b == 0)) (match_name maxlen_filename (b ∷ rest) name) (ap not n) m
    ]

inum_from :
    (n : ℕ) (buf : List ℕ)
    → length buf ≡ n + 4
    → byte_at buf n
        + byte_at buf (suc n) * 256
        + byte_at buf (suc (suc n)) * 65536
        + byte_at buf (suc (suc (suc n))) * 16777216
      ≡ le_number (drop n buf)
inum_from zero [] l = absurd (omega (arith, l))
inum_from zero (a ∷ []) l = absurd (omega (arith, l))
inum_from zero (a ∷ b ∷ []) l = absurd (omega (arith, l))
inum_from zero (a ∷ b ∷ c ∷ []) l = absurd (omega (arith, l))
inum_from zero (a ∷ b ∷ c ∷ d ∷ []) l = omega arith
inum_from zero (a ∷ b ∷ c ∷ d ∷ e ∷ rest) l = absurd (omega (arith, l))
inum_from (suc n) [] l = absurd (omega (arith, l))
inum_from (suc n) (b ∷ rest) l = inum_from n rest (omega (arith, l))

pub entry_inum-le_number :
    (buf : List ℕ) → length buf ≡ 64 → entry_inum buf ≡ le_number (drop maxlen_filename buf)
entry_inum-le_number buf l = inum_from 60 buf l
