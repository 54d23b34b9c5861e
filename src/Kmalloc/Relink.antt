-- ===== src/Kmalloc/Relink.antt =====
-- Taking a block out of the list of free blocks, or another one in its place.
use kum_os.Base.{
  ℕ, ◌≡◌, ◌≢◌, ◌⊎◌, inl, inr, refl, sym, ap, ◌∙◌, true, not, ◌&&◌, List, [], ◌∷◌, ◌++◌, arith,
  if◌then◌else◌, ◌==◌, ne→==,
}
use kum_os.Kmalloc.{Memory, Kmalloc, relink}
use kum_os.Kmalloc.Lists.{
  holds, NoDup, head_or_null, holds-append, NoDup-apart, NoDup-right, head-holds,
}
use kum_os.Kmalloc.Links.{Links, Links-behind, Links-replace, Links-prev}

-- What relink writes.
pub record Relinked (k : Kmalloc) (b to back : ℕ) (k' : Kmalloc) : Type 0 where
  pub same : (a : ℕ) → ((k'.mem a).magic ≡ (k.mem a).magic) × ((k'.mem a).size ≡ (k.mem a).size)
  pub prev :
      (a : ℕ)
      → (k'.mem a).prev
        ≡ (if not ((k.mem b).next == 0) && (k.mem b).next == a then back else (k.mem a).prev)
  pub next :
      (a : ℕ)
      → (k'.mem a).next
        ≡ (if not ((k.mem b).prev == 0) && (k.mem b).prev == a then to else (k.mem a).next)
  pub first : k'.free_list ≡ (if (k.mem b).prev == 0 then to else k.free_list)

pub relink-Relinked :
    (k : Kmalloc) (b to back : ℕ) → (k.mem b).prev ≢ b → Relinked k b to back (relink k b to back)
unfolding relink
relink-Relinked k b to back n = record {
  same = λ a. (ground arith, ground arith);
  prev = λ a. ground arith;
  next = λ a. ground arith;
  first = refl;
}

pub if_other : (p a t u : ℕ) → p ≢ a → (if not (p == 0) && p == a then t else u) ≡ u
if_other p a t u n = ground arith

if_flip :
    (p a t u : ℕ) → a ≢ 0 → (if not (p == 0) && p == a then t else u) ≡ (if a == p then t else u)
if_flip p a t u n = ground arith

head_append :
    (xs ys zs : List ℕ) (a : ℕ)
    → holds xs a ≡ true
    → head_or_null (xs ++ ys) ≡ head_or_null (xs ++ zs)
head_append [] ys zs a h = absurd (ground arith)
head_append (x ∷ xs) ys zs a h = refl

-- A list of free blocks around b.
pub record Chain (k : Kmalloc) (xs : List ℕ) (b : ℕ) (ys : List ℕ) : Type 0 where
  pub links : Links k.mem 0 (xs ++ b ∷ ys)
  pub first : k.free_list ≡ head_or_null (xs ++ b ∷ ys)
  pub nodup : NoDup (xs ++ b ∷ ys)
  pub nonzero : (a : ℕ) → holds (xs ++ b ∷ ys) a ≡ true → a ≢ 0

pub Links-tail :
    (m : Memory) (p : ℕ) (xs : List ℕ) (b : ℕ) (ys : List ℕ)
    → Links m p (xs ++ b ∷ ys)
    → ((m b).next ≡ head_or_null ys) × Links m b ys
Links-tail m p [] b ys (lp, ln, l) = (ln, l)
Links-tail m p (x ∷ xs) b ys (lp, ln, l) = Links-tail m x xs b ys l

-- Which block stands before b.
pub Links-before :
    (m : Memory) (p : ℕ) (xs : List ℕ) (b : ℕ) (ys : List ℕ)
    → Links m p (xs ++ b ∷ ys)
    → ((xs ≡ []) × ((m b).prev ≡ p)) ⊎ (holds xs (m b).prev ≡ true)
Links-before m p [] b ys (lp, ln, l) = inl (refl, lp)
Links-before m p (x ∷ xs) b ys l = inr (Links-prev m p x xs b ys l)

module _ (k : Kmalloc) (xs : List ℕ) (b : ℕ) (ys : List ℕ) (c : Chain k xs b ys) where
  b_nonzero : b ≢ 0
  b_nonzero = c.nonzero b (ground (arith, holds-append xs (b ∷ ys) b))

  -- The block before b is none of those from b on.
  prev_before : (a : ℕ) → holds (b ∷ ys) a ≡ true → a ≢ 0 → (k.mem b).prev ≢ a
  prev_before a h nz e = elim (Links-before k.mem 0 xs b ys c.links) [
    | inl (none', z) ↦ nz (sym e ∙ z)
    | inr inside ↦
        let out = NoDup-apart xs (b ∷ ys) (k.mem b).prev c.nodup inside in
        let in' : holds (b ∷ ys) (k.mem b).prev ≡ true = ap (holds (b ∷ ys)) e ∙ h in
        absurd (ground arith)
  ]

  pub prev_ne : (k.mem b).prev ≢ b
  prev_ne = prev_before b (ground arith) b_nonzero

  tail-NoDup : NoDup ys
  tail-NoDup = (NoDup-right xs (b ∷ ys) c.nodup).1

  in_tail : (a : ℕ) → holds ys a ≡ true → holds (b ∷ ys) a ≡ true
  in_tail a h = ground arith

  tail_holds : (a : ℕ) → holds ys a ≡ true → holds (xs ++ b ∷ ys) a ≡ true
  tail_holds a h = ground (arith, holds-append xs (b ∷ ys) a)

  -- The blocks behind b, behind another one.
  pub behind : (to q : ℕ) (k' : Kmalloc) → Relinked k b to q k' → Links k'.mem q ys
  behind to q k' r =
      let (next_b, l) = Links-tail k.mem 0 xs b ys c.links in
      Links-behind k.mem k'.mem b q ys tail-NoDup
        (λ a h.
          r.next a
          ∙ if_other (k.mem b).prev a to (k.mem a).next
              (prev_before a (in_tail a h) (c.nonzero a (tail_holds a h))))
        (λ a h.
          r.prev a
          ∙ if_flip (k.mem b).next a q (k.mem a).prev (c.nonzero a (tail_holds a h))
          ∙ ap (λ n. if a == n then q else (k.mem a).prev) next_b)
        l

  -- The whole list with `ws` in place of b and what is behind it.
  pub replaced :
      (to q : ℕ) (k' : Kmalloc) (ws : List ℕ)
      → Relinked k b to q k'
      → to ≡ head_or_null ws
      → Links k'.mem (k.mem b).prev ws
      → Links k'.mem 0 (xs ++ ws) × (k'.free_list ≡ head_or_null (xs ++ ws))
  replaced to q k' ws r front l =
      (Links-replace k.mem k'.mem 0 xs b ys ws c.nodup keeps_prev moves_next c.links l, starts)
    where
      keeps_prev : (a : ℕ) → holds xs a ≡ true → (k'.mem a).prev ≡ (k.mem a).prev
      keeps_prev a h = r.prev a ∙ if_other (k.mem b).next a q (k.mem a).prev (apart a h)
        where
          apart : (a : ℕ) → holds xs a ≡ true → (k.mem b).next ≢ a
          apart a h e =
              let (next_b, l') = Links-tail k.mem 0 xs b ys c.links in
              let nz = c.nonzero a (ground (arith, holds-append xs (b ∷ ys) a)) in
              let here : head_or_null ys ≡ a = sym next_b ∙ e in
              let inside = head-holds ys (λ z. nz (sym here ∙ z)) in
              let out = NoDup-apart xs (b ∷ ys) a c.nodup h in
              let inside' : holds ys a ≡ true = ap (holds ys) (sym here) ∙ inside in
              absurd (ground arith)

      moves_next :
          (a : ℕ)
          → holds xs a ≡ true
          → (k'.mem a).next ≡ (if a == (k.mem b).prev then head_or_null ws else (k.mem a).next)
      moves_next a h =
          r.next a
          ∙ if_flip (k.mem b).prev a to (k.mem a).next
              (c.nonzero a (ground (arith, holds-append xs (b ∷ ys) a)))
          ∙ ap (λ t. if a == (k.mem b).prev then t else (k.mem a).next) front

      starts : k'.free_list ≡ head_or_null (xs ++ ws)
      starts = elim (Links-before k.mem 0 xs b ys c.links) [
        | inl (none', z) ↦
            r.first
            ∙ ap (λ p. if p == 0 then to else k.free_list) z
            ∙ front
            ∙ ap (λ l. head_or_null (l ++ ws)) (sym none')
        | inr inside ↦
            let nz =
              c.nonzero (k.mem b).prev (ground (arith, holds-append xs (b ∷ ys) (k.mem b).prev)) in
            r.first
            ∙ ap (λ t. if t then to else k.free_list) (ne→== (k.mem b).prev 0 nz)
            ∙ c.first
            ∙ head_append xs (b ∷ ys) ws (k.mem b).prev inside
      ]
