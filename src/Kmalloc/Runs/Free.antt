-- ===== src/Kmalloc/Runs/Free.antt =====
-- A kfree by an owner.
use native.Mathlib.Decide.{ℕ_discrete}
use kum_os.Base.{ℕ, ◌+◌, ◌<◌, ◌≡◌, ◌≢◌, refl, sym, ap, ◌∙◌, true, List, arith, set, get_or-set_ne}
use kum_os.Kmalloc.{header_size, Kmalloc, kfree, push_free, unlink, relink, coalesce}
use kum_os.Kmalloc.Lists.{holds}
use kum_os.Kmalloc.Frees.{Freed, kfree_lem}
use kum_os.Kmalloc.Runs.{Held, null, free, Owners, step, at, at-set, Block, IsValid}

kfree_null : (k : Kmalloc) → kfree k 0 ≡ k
unfolding kfree
kfree_null k = refl

free_fields :
    (k : Kmalloc) (p : ℕ)
    → ((kfree k p).heap_start ≡ k.heap_start) × ((kfree k p).heap_cap ≡ k.heap_cap)
unfolding kfree coalesce push_free unlink relink
free_fields k p = (ground arith, ground arith)

module _ (start cap : ℕ) (s : Owners) (v : IsValid start cap s) where
  pub free-IsValid : (i : ℕ) → IsValid start cap (step (free i) s)
  free-IsValid i = elim (ℕ_discrete (at s.held i).address 0) [
    | yes z ↦
        let same : kfree s.heap (at s.held i).address ≡ s.heap = rw z (kfree_null s.heap) in
        rw same (record {
          blocks = v.blocks;
          frees = v.frees;
          shape = v.shape;
          begins = v.begins;
          ends = v.ends;
          owned_blocks = λ j. elim (ℕ_discrete i j) [
            | yes e ↦ rw (← e, at-set s.held i) (λ p. absurd (omega arith))
            | no n ↦ rw (get_or-set_ne s.held i j null null n) (v.owned_blocks j)
          ];
          distinct = λ j k. differ j k;
        })
    | no p ↦
        let b = v.owned_blocks i (omega arith) in
        let listed : holds v.blocks b.block ≡ true = let o = b.owns in ground arith in
        let r = kfree_lem s.heap v.blocks v.frees b.block v.shape listed in
        let (begins', ends') = free_fields s.heap (b.block + header_size) in
        rw b.address (record {
          blocks = r.blocks;
          frees = r.frees;
          shape = r.shape;
          begins = begins' ∙ v.begins;
          ends = ends' ∙ v.ends;
          owned_blocks = λ j. elim (ℕ_discrete i j) [
            | yes e ↦ rw (← e, at-set s.held i) (λ q. absurd (omega arith))
            | no n ↦ rw (get_or-set_ne s.held i j null null n) (λ q. still b r p j n q)
          ];
          distinct = λ j k. differ j k;
        })
  ]
    where
      held' : List Held
      held' = set s.held i null

      still :
          (b : Block s.heap v.blocks (at s.held i))
          → (r : Freed s.heap v.blocks b.block (kfree s.heap (b.block + header_size)))
          → (at s.held i).address ≢ 0
          → (j : ℕ) → i ≢ j
          → 0 < (at s.held j).address
          → Block (kfree s.heap (b.block + header_size)) r.blocks (at s.held j)
      still b r p j n q =
          let c = v.owned_blocks j q in
          let apart = v.distinct i j n (omega arith) in
          let ne : b.block ≢ c.block =
            λ e. apart (b.address ∙ ap (λ a. a + header_size) e ∙ sym c.address) in
          record {
            block = c.block;
            bytes = c.bytes;
            address = c.address;
            enough = c.enough;
            owns = r.owns c.block ∙ ground arith ∙ c.owns;
          }

      differ :
          (j k : ℕ) → j ≢ k → 0 < (at held' j).address → (at held' j).address ≢ (at held' k).address
      differ j k d = elim (ℕ_discrete i j) [
        | yes e ↦ rw (← e, at-set s.held i) (λ p. absurd (omega arith))
        | no n ↦ elim (ℕ_discrete i k) [
          | yes e ↦
              rw (← e, at-set s.held i, get_or-set_ne s.held i j null null n) (λ p q. omega arith)
          | no m ↦
              rw (get_or-set_ne s.held i j null null n, get_or-set_ne s.held i k null null m)
                (v.distinct j k d)
        ]
      ]
