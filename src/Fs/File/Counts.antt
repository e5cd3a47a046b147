-- ===== src/Fs/File/Counts.antt =====
-- The users of an open file of kernel/src/fs/file.rs.
use glenda.Prelude.{
  ℕ, ◌+◌, ◌-◌, ◌^◌, ◌<◌, ◌≡◌, refl, true, false, Bool-cases, inl, inr, arith, ltb, ◌==◌, update, ok,
}
use glenda.Fs.Bitmap.{SuperBlock}
use glenda.Fs.Bitmap.Taken.{add_u32-ok}
use glenda.Fs.Inode.Cache.{Inodes}
use glenda.Fs.File.{nfile, Files, file_dup, file_close}

-- For an open file of the table whose users are below the largest `u32`, `file_dup` succeeds, and a
-- `file_close` after it succeeds as well, leaves every file as it was before the `file_dup`, and does
-- not touch the inodes.
pub file_close-file_dup :
    (sb : SuperBlock) (i : ℕ) (files : Files) (c : Inodes)
    → i < nfile
    → 0 < (files i).refcnt
    → (files i).refcnt + 1 < 2 ^ 32
    → (g : Files) × (h : Files) × (file_dup i files ≡ ok g)
      × (file_close sb i g c ≡ ok (h, c))
      × ((a : ℕ) → h a ≡ files a)
unfolding file_dup file_close
file_close-file_dup sb i files c inside opened few =
    let f = files i in
    let g = update files i (record f { refcnt = f.refcnt + 1 }) in
    let h = update g i (record (g i) { refcnt = (g i).refcnt - 1 }) in
    let used : ltb f.refcnt 1 ≡ false = ground arith in
    let same : (i == i) ≡ true = ground arith in
    let within : ltb i nfile ≡ true = ground arith in
    let used' : ltb (f.refcnt + 1) 1 ≡ false = ground arith in
    let kept : ltb 0 (f.refcnt + 1 - 1) ≡ true = ground arith in
    (
      g,
      h,
      rw (used, add_u32-ok f.refcnt 1 few) refl,
      rw (within, same, used', kept) refl,
      λ a. elim (Bool-cases (a == i)) [
        | inl y ↦
            let e : a ≡ i = ground (arith, y) in
            let back : f.refcnt + 1 - 1 ≡ f.refcnt = omega arith in rw (y, same, back, e) refl
        | inr n ↦ rw n refl
      ],
    )
