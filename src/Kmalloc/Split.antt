-- ===== src/Kmalloc/Split.antt =====
-- A free block is split: its front is taken, and the rest stands in the list in its place.
use kum_os.Base.{
  ℕ, ◌+◌, ◌-◌, ◌<◌, ◌≡◌, ◌≢◌, inl, inr, refl, sym, ap, ◌∙◌, true, false, ◌||◌, List, ◌∷◌, ◌++◌,
  arith, if◌then◌else◌, ◌==◌, Bool-cases,
}
use kum_os.Kmalloc.{
  magic_free, magic_used, header_size, Header, Kmalloc, put_header, relink, take_block, split_block,
}
use kum_os.Kmalloc.Lists.{holds, head_or_null, head-holds, holds-append, holds-middle}
use kum_os.Kmalloc.Tiles.{Tiles-apart}
use kum_os.Kmalloc.Links.{Links, Links-same}
use kum_os.Kmalloc.Relink.{
  Relinked, relink-Relinked, Chain, prev_ne, behind, replaced, Links-tail, Links-before, if_other,
}
use kum_os.Kmalloc.Shape.{Shape, Shape-free}

-- The header of the rest.
abbrev pub rest_of : Header → ℕ → Header
rest_of h size = record {
  magic = magic_free;
  size = h.size - size - header_size;
  prev = h.prev;
  next = h.next;
}

-- The allocator with the header of the rest written.
abbrev pub placed : Kmalloc → ℕ → ℕ → Kmalloc
placed k b size = record k {
  mem = put_header k.mem (b + header_size + size) (rest_of (k.mem b) size);
}

abbrev pub relinked : Kmalloc → ℕ → ℕ → Kmalloc
relinked k b size = relink (placed k b size) b (b + header_size + size) (b + header_size + size)

abbrev pub front_taken : Kmalloc → ℕ → ℕ → Kmalloc
front_taken k b size = take_block (split_block k b size) b

pub taken-relinked :
    (k : Kmalloc) (b size a : ℕ)
    → (((front_taken k b size).mem a).magic
        ≡ (if b == a then magic_used else ((relinked k b size).mem a).magic))
      × (((front_taken k b size).mem a).size
          ≡ (if b == a then size else ((relinked k b size).mem a).size))
      × (b ≢ a → (front_taken k b size).mem a ≡ (relinked k b size).mem a)
unfolding take_block split_block
taken-relinked k b size a = (ground arith, ground arith, λ n. ground arith)

placed_fields :
    (k : Kmalloc) (b size a : ℕ)
    → (((placed k b size).mem a).magic
        ≡ (if (b + header_size + size) == a then magic_free else (k.mem a).magic))
      × (((placed k b size).mem a).size ≡ (
          if (b + header_size + size) == a
          then (k.mem b).size - size - header_size
          else (k.mem a).size))
placed_fields k b size a = (ground arith, ground arith)

module _ (k : Kmalloc) (before : List ℕ) (b : ℕ) (after xs ys : List ℕ) (size : ℕ)
    (s : Shape k (before ++ b ∷ after) (xs ++ b ∷ ys))
    (fits : size + header_size < (k.mem b).size) where
  pub b_in : holds (before ++ b ∷ after) b ≡ true
  b_in = ground (arith, holds-middle before b after b)

  pub split_out : holds (before ++ b ∷ after) (b + header_size + size) ≡ false
  split_out = elim (Bool-cases (holds (before ++ b ∷ after) (b + header_size + size))) [
    | inl t ↦
        let apart =
          Tiles-apart k.mem k.heap_start (before ++ b ∷ after) k.heap_end b (b + header_size + size)
            s.tiles b_in t (omega arith) in
        absurd (omega arith)
    | inr f ↦ f
  ]

  pub split_unlisted : holds (xs ++ b ∷ ys) (b + header_size + size) ≡ false
  split_unlisted = let l = s.listed (b + header_size + size) in let o = split_out in ground arith

  split_ne : (a : ℕ) → holds (xs ++ b ∷ ys) a ≡ true → (b + header_size + size) ≢ a
  split_ne a h e =
      let h' : holds (xs ++ b ∷ ys) (b + header_size + size) ≡ true =
        ap (holds (xs ++ b ∷ ys)) e ∙ h in
      let o = split_unlisted in absurd (ground arith)

  placed_same : (a : ℕ) → (b + header_size + size) ≢ a → (placed k b size).mem a ≡ k.mem a
  placed_same a n = ground arith

  placed_self : (placed k b size).mem (b + header_size + size) ≡ rest_of (k.mem b) size
  placed_self = ground arith

  placed-Chain : Chain (placed k b size) xs b ys
  placed-Chain = record {
    links =
        Links-same k.mem (placed k b size).mem 0 (xs ++ b ∷ ys)
          (λ a h.
            let same = placed_same a (split_ne a h) in
            (ap (λ h. h.prev) same, ap (λ h. h.next) same))
          s.links;
    first = s.first;
    nodup = s.nodup;
    nonzero = λ a h. (Shape-free k (before ++ b ∷ after) (xs ++ b ∷ ys) s a h).2;
  }

  relinked-Relinked :
      Relinked
        (placed k b size)
        b
        (b + header_size + size)
        (b + header_size + size)
        (relinked k b size)
  relinked-Relinked =
      relink-Relinked (placed k b size) b (b + header_size + size) (b + header_size + size)
        (prev_ne (placed k b size) xs b ys placed-Chain)

  placed_b : (placed k b size).mem b ≡ k.mem b
  placed_b = placed_same b (λ e. omega arith)

  next_ne : ((placed k b size).mem b).next ≢ b + header_size + size
  next_ne e =
      let (next_b, l) = Links-tail (placed k b size).mem 0 xs b ys placed-Chain.links in
      let here : head_or_null ys ≡ b + header_size + size = sym next_b ∙ e in
      let inside = head-holds ys (λ z. let z' = sym here ∙ z in absurd (omega arith)) in
      split_ne (head_or_null ys) (ground (arith, holds-append xs (b ∷ ys) (head_or_null ys)))
        (sym here)

  prev_split : ((placed k b size).mem b).prev ≢ b + header_size + size
  prev_split e = elim (Links-before (placed k b size).mem 0 xs b ys placed-Chain.links) [
    | inl (none', z) ↦ let z' = sym e ∙ z in absurd (omega arith)
    | inr inside ↦
        split_ne ((placed k b size).mem b).prev
          (holds-append xs (b ∷ ys) ((placed k b size).mem b).prev
            ∙ ap (λ t. t || holds (b ∷ ys) ((placed k b size).mem b).prev) inside)
          (sym e)
  ]

  -- The rest stands where b stood.
  rest-Links :
      Links (relinked k b size).mem ((placed k b size).mem b).prev ((b + header_size + size) ∷ ys)
  rest-Links =
      let sp = b + header_size + size in
      let p = placed k b size in
      let r = relinked-Relinked in
      let (next_b, l) = Links-tail k.mem 0 xs b ys s.links in
      (
        r.prev sp
            ∙ if_other (p.mem b).next sp sp (p.mem sp).prev next_ne
            ∙ ap (λ h. h.prev) placed_self
            ∙ sym (ap (λ h. h.prev) placed_b),
        r.next sp
            ∙ if_other (p.mem b).prev sp sp (p.mem sp).next prev_split
            ∙ ap (λ h. h.next) placed_self
            ∙ next_b,
        behind p xs b ys placed-Chain sp sp (relinked k b size) r,
      )

  pub relinked-Links :
      Links (relinked k b size).mem 0 (xs ++ (b + header_size + size) ∷ ys)
      × ((relinked k b size).free_list ≡ head_or_null (xs ++ (b + header_size + size) ∷ ys))
  relinked-Links =
      let sp = b + header_size + size in
      replaced (placed k b size) xs b ys placed-Chain sp sp (relinked k b size) (sp ∷ ys)
        relinked-Relinked refl rest-Links

  -- The headers afterwards.
  pub front_fields :
      (a : ℕ)
      → (((front_taken k b size).mem a).magic ≡ (
          if b == a
          then magic_used
          else if (b + header_size + size) == a
          then magic_free
          else (k.mem a).magic))
        × (((front_taken k b size).mem a).size ≡ (
            if b == a
            then size
            else if (b + header_size + size) == a
            then (k.mem b).size - size - header_size
            else (k.mem a).size))
  front_fields a =
      let (mg, sz, other) = taken-relinked k b size a in
      let (mg', sz') = relinked-Relinked.same a in
      let (mp, sp) = placed_fields k b size a in
      (
        mg ∙ ap (λ g. if b == a then magic_used else g) (mg' ∙ mp),
        sz ∙ ap (λ g. if b == a then size else g) (sz' ∙ sp),
      )
