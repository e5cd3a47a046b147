-- ===== src/Fs/Inode/Cache/Get.antt =====
-- `inode_get` of kernel/src/fs/inode.rs.
use glenda.Prelude.{
  ℕ, ◌+◌, ◌/◌, ◌^◌, ◌<◌, ◌≡◌, ◌≢◌, refl, subst, true, false, none, some, Option-cases, inl, inr,
  ◌⊎◌, [], arith, ◌==◌, Outcome, ok, panic, stuck,
}
use glenda.Fs.Buffer.View.{View}
use glenda.Fs.Buffer.Coherent.{Coherent}
use glenda.Fs.Bitmap.{SuperBlock}
use glenda.Fs.Bitmap.Taken.{add_u32-ok}
use glenda.Fs.Inode.{ipb}
use glenda.Fs.Inode.Stored.{disk_inode, read-Gives}
use glenda.Fs.Inode.Cache.{n_inode, Inodes, set_inode, find_cached, find_slot, get_free, inode_get}
use glenda.Fs.Inode.Cache.Found.{
  is_active, IsUnique, Cached, find_cached-Cached, Slot, find_slot-Slot, hit-IsUnique,
  load-IsUnique,
}

-- What `inode_get` leaves: one more user of the inode's slot, and the other slots as they were.
pub record Got (sb : SuperBlock) (inum : ℕ) (c : Inodes) (i : ℕ) (c' : Inodes) : Type 0 where
  pub inside : i < n_inode
  pub active : is_active (c'.inodes i) ≡ true
  pub named : (c'.inodes i).inode_num ≡ inum
  pub others : (a : ℕ) → (a == i) ≡ false → c'.inodes a ≡ c.inodes a
  -- The inode was in the slot; or it was in none, the slot had no user, and it is read from the disk.
  pub content :
      ((is_active (c.inodes i) ≡ true)
        × ((c.inodes i).inode_num ≡ inum)
        × (c'.inodes i ≡ record (c.inodes i) { refcnt = (c.inodes i).refcnt + 1 }))
      ⊎ (Cached n_inode 0 inum c.inodes none
          × ((c.inodes i).refcnt ≡ 0)
          × ((c'.inodes i).refcnt ≡ 1)
          × ((c'.inodes i).disk ≡ disk_inode sb c.store.disk inum))
  pub unique : IsUnique c'.inodes
  pub after : View
  pub coherent : Coherent c'.store after
  pub room : after.inactive ≢ []
  pub disk : c'.store.disk ≡ c.store.disk

abbrev pub Gets : SuperBlock → ℕ → Inodes → Outcome (ℕ × Inodes) → Type 0
Gets sb inum c (ok (i, c')) = Got sb inum c i c'
Gets sb inum c panic = (a : ℕ) → a < n_inode → 0 < (c.inodes a).refcnt
Gets sb inum c stuck = ⊥

hit-Got :
    (sb : SuperBlock) (inum : ℕ) (c : Inodes) (v : View) (i : ℕ)
    → Coherent c.store v
    → v.inactive ≢ []
    → IsUnique c.inodes
    → Cached n_inode 0 inum c.inodes (some i)
    → Got sb inum c i (set_inode c i (record (c.inodes i) { refcnt = (c.inodes i).refcnt + 1 }))
hit-Got sb inum c v i h ne u found =
    let same : (i == i) ≡ true = ground arith in
    record {
      inside = omega (arith, found.0);
      active = rw same (ground (arith, found.1));
      named = rw same found.2;
      others = λ a e. rw e refl;
      content = rw same (inl (found.1, found.2, refl));
      unique = hit-IsUnique c.inodes i ((c.inodes i).refcnt + 1) found.1 u;
      after = v;
      coherent = h;
      room = ne;
      disk = refl;
    }

load-Gets :
    (sb : SuperBlock) (inum : ℕ) (c : Inodes) (v : View) (i : ℕ)
    → Coherent c.store v
    → v.inactive ≢ []
    → IsUnique c.inodes
    → sb.inode_start + inum / ipb < 2 ^ 32
    → Cached n_inode 0 inum c.inodes none
    → Slot n_inode 0 c.inodes (some i)
    → Gets sb inum c (get_free sb inum (some i) c)
unfolding get_free
load-Gets sb inum c v i h ne u small fresh slot =
    let p = record (c.inodes i) { inode_num = inum; valid = false; refcnt = 1 } in
    let g = read-Gives sb p c.store v h ne small in
    let q = record p { disk = disk_inode sb c.store.disk inum; valid = true } in
    let same : (i == i) ≡ true = ground arith in
    rw (Gets, g.runs)
      (record {
        inside = omega (arith, slot.0);
        active = rw same refl;
        named = rw same refl;
        others = λ a e. rw e refl;
        content = rw same (inr (fresh, slot.1, refl, refl));
        unique = load-IsUnique c.inodes i q fresh u;
        after = g.after;
        coherent = g.coherent;
        room = g.room;
        disk = g.disk;
      })

-- With a coherent buffer cache and an inactive buffer, no inode in two slots, and users that are below
-- the largest `u32`, `inode_get` returns a slot or panics. The slot holds the inode with the number:
-- where it was in this slot, with one user more and else unchanged; and where it was in no slot, in one
-- that had no users, as it stands on the disk, with one user. The other slots and the disk are as before, and no inode is in two slots. A panic
-- means that every slot has users.
pub inode_get-Gets :
    (sb : SuperBlock) (inum : ℕ) (c : Inodes) (v : View)
    → Coherent c.store v
    → v.inactive ≢ []
    → IsUnique c.inodes
    → ((a : ℕ) → (c.inodes a).refcnt + 1 < 2 ^ 32)
    → sb.inode_start + inum / ipb < 2 ^ 32
    → Gets sb inum c (inode_get sb inum c)
unfolding inode_get get_free
inode_get-Gets sb inum c v h ne u few small =
    let cached = find_cached-Cached n_inode 0 inum c.inodes in
    let slot = find_slot-Slot n_inode 0 c.inodes in
    elim (Option-cases (find_cached n_inode 0 inum c.inodes)) [
      | inr (i, e) ↦
          rw (Gets, e, add_u32-ok (c.inodes i).refcnt 1 (few i))
            (hit-Got sb inum c v i h ne u (subst (Cached n_inode 0 inum c.inodes) e cached))
      | inl e ↦ elim (Option-cases (find_slot n_inode 0 c.inodes)) [
        | inr (i, f) ↦
            rw (Gets, e, f)
              (load-Gets sb inum c v i h ne u small
                (subst (Cached n_inode 0 inum c.inodes) e cached)
                (subst (Slot n_inode 0 c.inodes) f slot))
        | inl f ↦
            let all = subst (Slot n_inode 0 c.inodes) f slot in
            rw (Gets, e, f) (λ a inside. all a (omega arith) (omega arith))
      ]
    ]
