-- ===== src/Fs/Bitmap/Search.antt =====
-- The search of kernel/src/fs/bitmap.rs for a free bit.
use glenda.Prelude.{
  ℕ, zero, suc, ◌+◌, ◌≤◌, ◌<◌, ◌≡◌, ap, subst, ◌∙◌, true, false, Option, none, some, ◌==◌, arith,
  Bool-cases, Option-cases, inl, inr,
}
use glenda.Fs.Buffer.Lru.{Block}
use glenda.Fs.Bitmap.{is_clear, find_bit, find_free}

-- The first clear bit from `j` up to `j + n`.
abbrev FirstBit : ℕ → ℕ → ℕ → Option ℕ → Type 0
FirstBit n j byte none = (k : ℕ) → j ≤ k → k < j + n → is_clear byte k ≡ false
FirstBit n j byte (some k) =
    (k < j + n) × (is_clear byte k ≡ true) × ((l : ℕ) → j ≤ l → l < k → is_clear byte l ≡ false)

FirstBit-step :
    (n j byte : ℕ) (o : Option ℕ)
    → is_clear byte j ≡ false
    → FirstBit n (j + 1) byte o
    → FirstBit (suc n) j byte o
FirstBit-step n j byte none e h = λ k l m. elim (Bool-cases (k == j)) [
  | inl q ↦ let s : k ≡ j = ground arith in ap (λ z. is_clear byte z) s ∙ e
  | inr q ↦ h k (ground arith) (omega arith)
]
FirstBit-step n j byte (some i) e h = (
  omega (arith, h.0),
  h.1,
  λ k l m. elim (Bool-cases (k == j)) [
    | inl q ↦ let s : k ≡ j = ground arith in ap (λ z. is_clear byte z) s ∙ e
    | inr q ↦ h.2 k (ground arith) m
  ],
)

find_bit-FirstBit : (n j byte : ℕ) → FirstBit n j byte (find_bit n j byte)
unfolding find_bit
find_bit-FirstBit zero j byte = λ k l m. absurd (omega arith)
find_bit-FirstBit (suc n) j byte = elim (Bool-cases (is_clear byte j)) [
  | inl e ↦ rw e (omega arith, e, λ k l m. absurd (omega arith))
  | inr e ↦
      rw e (FirstBit-step n j byte (find_bit n (j + 1) byte) e (find_bit-FirstBit n (j + 1) byte))
]

AllSet : ℕ → Type 0
AllSet byte = (k : ℕ) → k < 8 → is_clear byte k ≡ false

-- The first clear bit of the bytes from `i` up to `i + n`.
abbrev pub FirstFree : ℕ → ℕ → Block → Option (ℕ × ℕ) → Type 0
FirstFree n i bytes none =
    (a : ℕ) → i ≤ a → a < i + n → (k : ℕ) → k < 8 → is_clear (bytes a) k ≡ false
FirstFree n i bytes (some (b, j)) =
    (i ≤ b)
    × (b < i + n)
    × (j < 8)
    × (is_clear (bytes b) j ≡ true)
    × ((a : ℕ) → i ≤ a → a < b → (k : ℕ) → k < 8 → is_clear (bytes a) k ≡ false)
    × ((k : ℕ) → k < j → is_clear (bytes b) k ≡ false)

FirstFree-step :
    (n i : ℕ) (bytes : Block) (o : Option (ℕ × ℕ))
    → AllSet (bytes i)
    → FirstFree n (i + 1) bytes o
    → FirstFree (suc n) i bytes o
unfolding AllSet
FirstFree-step n i bytes none e h = λ a l m. elim (Bool-cases (a == i)) [
  | inl q ↦ let s : a ≡ i = ground arith in rw s e
  | inr q ↦ h a (ground arith) (omega arith)
]
FirstFree-step n i bytes (some (b, j)) e h = (
  omega (arith, h.0),
  omega (arith, h.1),
  h.2,
  h.3,
  λ a l m. elim (Bool-cases (a == i)) [
    | inl q ↦ let s : a ≡ i = ground arith in rw s e
    | inr q ↦ h.4 a (ground arith) m
  ],
  h.5,
)

full-AllSet : AllSet 0xFF
unfolding find_bit AllSet
full-AllSet = λ k m. find_bit-FirstBit 8 0 0xFF k (omega arith) m

-- From any byte on and for any number of bytes, the search returns the first clear bit, all bits
-- before it being set, or none where all bits are set.
pub find_free-FirstFree : (n i : ℕ) (bytes : Block) → FirstFree n i bytes (find_free n i bytes)
unfolding find_free AllSet
find_free-FirstFree zero i bytes = λ a l m. absurd (omega arith)
find_free-FirstFree (suc n) i bytes =
    let rest = find_free-FirstFree n (i + 1) bytes in
    let none_here : AllSet (bytes i) → FirstFree (suc n) i bytes (find_free n (i + 1) bytes) =
      λ s. FirstFree-step n i bytes (find_free n (i + 1) bytes) s rest in
    elim (Bool-cases (bytes i == 0xFF)) [
      | inl e ↦ let s : bytes i ≡ 0xFF = ground arith in rw e (none_here (rw s full-AllSet))
      | inr e ↦
          let bits = find_bit-FirstBit 8 0 (bytes i) in
          elim (Option-cases (find_bit 8 0 (bytes i))) [
            | inl o ↦
                let all : FirstBit 8 0 (bytes i) none = subst (FirstBit 8 0 (bytes i)) o bits in
                rw (e, o) (none_here (λ k m. all k (omega arith) m))
            | inr (j, o) ↦
                let first : FirstBit 8 0 (bytes i) (some j) =
                  subst (FirstBit 8 0 (bytes i)) o bits in
                rw (e, o)
                  (
                    omega arith,
                    omega arith,
                    first.0,
                    first.1,
                    λ a l m. absurd (omega arith),
                    λ k m. first.2 k (omega arith) m,
                  )
          ]
    ]
