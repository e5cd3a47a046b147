-- ===== src/Drivers/Echo/Stack.antt =====
-- The widths of kernel/src/drivers/uart/utf8.rs as a stack of bounded height.
use glenda.Prelude.{
  ℕ, zero, suc, ◌+◌, ◌-◌, ◌≤◌, ◌<◌, ◌≡◌, refl, sym, subst, ap, ◌∙◌, true, false, ◌&&◌, Option, none,
  some, List, [], ◌∷◌, take, length, ltb, leb, ◌==◌, if◌then◌else◌, update, arith, Bool-cases, inl,
  inr,
}
use glenda.Drivers.Echo.{linebuf_cap, ConsoleEcho, shift, push_width, pop_width}

-- The first `n` widths, the last first.
unfoldable pub stack : (ℕ → ℕ) → ℕ → List ℕ
stack widths zero = []
stack widths (suc n) = widths n ∷ stack widths n

abbrev pub view : ConsoleEcho → List ℕ
view e = stack e.widths e.len

shift_lem :
    (rounds i : ℕ) (widths : ℕ → ℕ) (j : ℕ)
    → shift rounds (i + 1) widths j
      ≡ (if leb i j && ltb j (i + rounds) then widths (j + 1) else widths j)
unfolding shift
shift_lem zero i widths j = ground arith
shift_lem (suc rounds) i widths j =
    let e : i + 1 - 1 ≡ i = omega arith in
    rw e (ground (arith, shift_lem rounds (i + 1) (update widths i (widths (i + 1))) j, ap widths))

stack-cong : (f g : ℕ → ℕ) (n : ℕ) → ((i : ℕ) → i < n → f i ≡ g i) → stack f n ≡ stack g n
unfolding stack
stack-cong f g zero h = refl
stack-cong f g (suc n) h =
    rw (h n (omega arith), stack-cong f g n (λ i small. h i (omega arith))) refl

stack-later : (f : ℕ → ℕ) (n : ℕ) → stack (λ i. f (i + 1)) n ≡ take n (stack f (suc n))
unfolding stack
stack-later f zero = refl
stack-later f (suc n) = let e : n + 1 ≡ suc n = omega arith in rw (e, stack-later f n) refl

length-stack : (f : ℕ → ℕ) (n : ℕ) → length (stack f n) ≡ n
unfolding stack
length-stack f zero = refl
length-stack f (suc n) = rw (length-stack f n) refl

take-all : (n : ℕ) (xs : List ℕ) → length xs ≤ n → take n xs ≡ xs
take-all zero [] h = refl
take-all (suc n) [] h = refl
take-all zero (x ∷ xs) h = absurd (omega arith)
take-all (suc n) (x ∷ xs) h = ap (λ l. x ∷ l) (take-all n xs (omega arith))

full_shift :
    (widths : ℕ → ℕ) (w : ℕ)
    → stack (update (shift (linebuf_cap - 1) 1 widths) (linebuf_cap - 1) w) linebuf_cap
      ≡ take linebuf_cap (w ∷ stack widths linebuf_cap)
unfolding stack
full_shift widths w =
    ap (λ l. w ∷ l)
      (stack-cong (update (shift 255 1 widths) 255 w) (λ i. widths (i + 1)) 255
          (λ i small. ground (arith, shift_lem 255 0 widths i))
        ∙ stack-later widths 255)

low_push :
    (widths : ℕ → ℕ) (w n : ℕ)
    → n ≤ 255
    → stack (update widths n w) (n + 1) ≡ w ∷ take 255 (stack widths n)
unfolding stack
low_push widths w n low =
    let e : n + 1 ≡ suc n = omega arith in
    let here : (n == n) ≡ true = ground arith in
    let rest : stack (update widths n w) n ≡ stack widths n =
      stack-cong (update widths n w) widths n (λ i small. ground arith) in
    let all : take 255 (stack widths n) ≡ stack widths n =
      take-all 255 (stack widths n) (omega (arith, length-stack widths n)) in
    rw (e, stack, here, rest, all) refl

-- What a pop may do with a stack: nothing where it is empty, and else take the last width.
abbrev pub Pops : List ℕ → Option ℕ × ConsoleEcho → Type 0
Pops [] (o, e) = (o ≡ none) × (view e ≡ [])
Pops (w ∷ ws) (o, e) = (o ≡ some w) × (view e ≡ ws)

stack-Pops :
    (widths : ℕ → ℕ) (n : ℕ)
    → Pops (stack widths n) (pop_width (record { widths = widths; len = n }))
unfolding stack pop_width
stack-Pops widths zero = (refl, refl)
stack-Pops widths (suc n) =
    let e : suc n - 1 ≡ n = omega arith in
    let some_len : (suc n == 0) ≡ false = ground arith in rw (some_len, e) (refl, refl)

-- The line as a stack of widths, for a line of at most 256: it stays so. A push of a width that is not
-- 0 puts it on top, and drops the lowest where there are more than 256; a push of 0 does nothing. A
-- pop takes the top width, or finds none on the empty line.
pub push_width-stack :
    (e : ConsoleEcho) (w : ℕ)
    → e.len ≤ linebuf_cap
    → ((push_width e w).len ≤ linebuf_cap)
      × (view (push_width e w) ≡ (if w == 0 then view e else take linebuf_cap (w ∷ view e)))
      × Pops (view e) (pop_width e)
unfolding push_width
push_width-stack e w bound = elim (Bool-cases (w == 0)) [
  | inl y ↦ rw y (bound, refl, stack-Pops e.widths e.len)
  | inr n ↦ elim (Bool-cases (ltb e.len linebuf_cap)) [
    | inl low ↦
        rw (n, low)
          (
            ground (arith, low),
            low_push e.widths w e.len (ground (arith, low)),
            stack-Pops e.widths e.len,
          )
    | inr full ↦
        let top : e.len ≡ 256 = ground (arith, full) in
        rw (n, full)
          (
            bound,
            subst
                (λ n.
                  stack (update (shift 255 1 e.widths) 255 w) n ≡ w ∷ take 255 (stack e.widths n))
                (sym top) (full_shift e.widths w),
            stack-Pops e.widths e.len,
          )
  ]
]
