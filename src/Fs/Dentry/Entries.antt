-- ===== src/Fs/Dentry/Entries.antt =====
-- The entries of a directory in kernel/src/fs/dentry.rs, in order.
use glenda.Prelude.{
  drop, ℕ, zero, suc, ◌+◌, ◌*◌, ◌≤◌, ◌<◌, ◌≡◌, refl, ap, ◌∙◌, Bool, true, false, Option, none, some,
  Bool-cases, inl, inr, List, length, arith, ◌==◌, if◌then◌else◌,
}
use glenda.Fs.Buffer.Lru.{Block}
use glenda.Fs.Inode.{InodeDisk}
use glenda.Fs.Inode.Data.Rounds.{file_bytes}
use glenda.Fs.Dentry.Names.{Names, le_number, is_entry-Names, Names-is_entry, entry_inum-le_number}
use glenda.Fs.Dentry.{maxlen_filename, entry_inum, dentry_size, is_entry, found_inum}

-- The first of `n` entries from an offset on that is wanted, with its offset.
unfoldable pub find_entry : ℕ → (ℕ → Block) → InodeDisk → ℕ → (List ℕ → Bool) → Option (ℕ × List ℕ)
find_entry zero disk d off wanted = none
find_entry (suc n) disk d off wanted =
    let entry = file_bytes disk d off dentry_size in
    let rest = find_entry n disk d (off + dentry_size) wanted in
    if wanted entry then some (off, entry) else rest

pub length_bytes : (disk : ℕ → Block) (d : InodeDisk) (a n : ℕ) → length (file_bytes disk d a n) ≡ n
unfolding file_bytes
length_bytes disk d a zero = refl
length_bytes disk d a (suc n) = rw (length_bytes disk d (a + 1) n) refl

-- The entry `k` of a directory.
abbrev pub entry : (ℕ → Block) → InodeDisk → ℕ → List ℕ
entry disk d k = file_bytes disk d (k * dentry_size) dentry_size

-- The search and the entries in order, by a test: the first one that passes it.
abbrev pub FirstWanted :
    ℕ → (ℕ → Block) → InodeDisk → ℕ → (List ℕ → Bool) → Option (ℕ × List ℕ) → Type 0
FirstWanted n disk d i wanted none = (k : ℕ) → i ≤ k → k < i + n → wanted (entry disk d k) ≡ false
FirstWanted n disk d i wanted (some (off, buf)) =
    (j : ℕ) × (j < i + n)
    × (buf ≡ entry disk d j)
    × (wanted (entry disk d j) ≡ true)
    × ((k : ℕ) → i ≤ k → k < j → wanted (entry disk d k) ≡ false)

FirstWanted-step :
    (n : ℕ) (disk : ℕ → Block) (d : InodeDisk) (i : ℕ) (wanted : List ℕ → Bool)
    (o : Option (ℕ × List ℕ))
    → wanted (entry disk d i) ≡ false
    → FirstWanted n disk d (i + 1) wanted o
    → FirstWanted (suc n) disk d i wanted o
FirstWanted-step n disk d i wanted none e h = λ k l m. elim (Bool-cases (k == i)) [
  | inl q ↦ let s : k ≡ i = ground arith in ap (λ a. wanted (entry disk d a)) s ∙ e
  | inr q ↦ h k (ground arith) (omega arith)
]
FirstWanted-step n disk d i wanted (some (off, buf)) e h = (
  h.0,
  omega (arith, h.1),
  h.2,
  h.3,
  λ k l m. elim (Bool-cases (k == i)) [
    | inl q ↦ let s : k ≡ i = ground arith in ap (λ a. wanted (entry disk d a)) s ∙ e
    | inr q ↦ h.4 k (ground arith) m
  ],
)

pub find_entry-FirstWanted :
    (n : ℕ) (disk : ℕ → Block) (d : InodeDisk) (i off : ℕ) (wanted : List ℕ → Bool)
    → off ≡ i * dentry_size
    → FirstWanted n disk d i wanted (find_entry n disk d off wanted)
unfolding find_entry
find_entry-FirstWanted zero disk d i off wanted e = λ k l m. absurd (omega arith)
find_entry-FirstWanted (suc n) disk d i off wanted e =
    let here : file_bytes disk d off dentry_size ≡ entry disk d i =
      ap (λ (a : ℕ). file_bytes disk d a dentry_size) e in
    elim (Bool-cases (wanted (entry disk d i))) [
      | inl y ↦ rw (here, y) (i, omega arith, refl, y, λ k l m. absurd (omega arith))
      | inr other ↦
          rw (here, other)
            (FirstWanted-step n disk d i wanted (find_entry n disk d (off + dentry_size) wanted)
              other
              (find_entry-FirstWanted n disk d (i + 1) (off + dentry_size) wanted (omega arith)))
    ]

-- The first of `n` entries that has the name, by its inode number.
abbrev pub FirstNamed : ℕ → (ℕ → Block) → InodeDisk → List ℕ → Option ℕ → Type 0
FirstNamed n disk d name none = (k : ℕ) → k < n → Names name (entry disk d k) → ⊥
FirstNamed n disk d name (some inum) =
    (j : ℕ) × (j < n)
    × Names name (entry disk d j)
    × (inum ≡ le_number (drop maxlen_filename (entry disk d j)))
    × ((k : ℕ) → k < j → Names name (entry disk d k) → ⊥)

length-entry : (disk : ℕ → Block) (d : InodeDisk) (k : ℕ) → length (entry disk d k) ≡ 64
length-entry disk d k = length_bytes disk d (k * dentry_size) dentry_size

not_named :
    (disk : ℕ → Block) (d : InodeDisk) (k : ℕ) (name : List ℕ)
    → is_entry name (entry disk d k) ≡ false
    → Names name (entry disk d k)
    → ⊥
not_named disk d k name e h = cc (e, Names-is_entry name (entry disk d k) (length-entry disk d k) h)

pub FirstWanted-Named :
    (n : ℕ) (disk : ℕ → Block) (d : InodeDisk) (name : List ℕ) (o : Option (ℕ × List ℕ))
    → FirstWanted n disk d 0 (is_entry name) o
    → FirstNamed n disk d name (found_inum o)
FirstWanted-Named n disk d name none h =
    λ k l. not_named disk d k name (h k (omega arith) (omega (arith, l)))
FirstWanted-Named n disk d name (some (off, buf)) h = (
  h.0,
  omega (arith, h.1),
  is_entry-Names name (entry disk d h.0) (length-entry disk d h.0) h.3,
  ap (λ (b : List ℕ). entry_inum b) h.2
      ∙ entry_inum-le_number (entry disk d h.0) (length-entry disk d h.0),
  λ k l. not_named disk d k name (h.4 k (omega arith) l),
)
