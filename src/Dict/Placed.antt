-- ===== src/Dict/Placed.antt =====
-- A dictionary in which every entry in use is found, and what keeps it so.
use prothon.Base.{
  ℕ, ◌+◌, ◌%◌, ◌<◌, ◌≡◌, refl, sym, ap, ◌∙◌, ◌↔◌, ◌⊎◌, inl, inr, Bool, true, false, ◌&&◌, arith,
  ◌==◌, Bool-cases,
}
use prothon.AttrTable.{write}
use prothon.AttrTable.Probe.{dist, dist-lt, add-dist, dist-add}
use prothon.Dict.{Entry, empty, live, Entries}
use prothon.Dict.Walk.{IsUsed, Stop, Passes, Reaches, stops, passes, reaches}

module _ (id : ℕ → ℕ) where
  -- The table of `n` entries binds the key `c`, whose hash is `h`, to the value `v`.
  pub data Binds (s : Entries) (n h c v : ℕ) : Type 0 where
    binds : (p k : ℕ) → p < n → s p ≡ live h k v → id k ≡ c → Binds s n h c v

  -- From the home of an entry up to it no entry is one that was never used, and a key is bound once.
  pub record IsPlaced (s : Entries) (n : ℕ) : Type 0 where
    pub placed :
        (p h k v : ℕ)
        → p < n
        → s p ≡ live h k v
        → (e : ℕ) → e < dist n h p
        → IsUsed (s ((h + e) % n))
    pub unique :
        (p q h k v j w : ℕ)
        → p < n
        → q < n
        → s p ≡ live h k v
        → s q ≡ live h j w
        → id k ≡ id j
        → p ≡ q

  pub data HasEmpty (s : Entries) (n : ℕ) : Type 0 where
    has_empty : (p : ℕ) → p < n → s p ≡ empty → HasEmpty s n

  -- With an entry that was never used every probe ends within one turn.
  pub data Ends (s : Entries) (n h c : ℕ) : Type 0 where
    ends : (d : ℕ) → d < n → Passes id h c s n d h → Stop id h c (s ((h + d) % n)) → Ends s n h c

  pub Ends-of_empty : (s : Entries) (n h c : ℕ) → HasEmpty s n → Ends s n h c
  Ends-of_empty s n h c (has_empty p lt e) = close (reaches id h c s n h n)
    where
      close : Reaches id h c s n h n → Ends s n h c
      close (stops d l ps st) = ends d l ps st
      close (passes ps) =
          absurd (rw e at (rw (add-dist n h p lt) at (ps.past (dist n h p) (dist-lt n h p lt))))

  pub stop_here : (g h k c : ℕ) → g ≡ h → id k ≡ c → ((g == h) && (id k == c)) ≡ true
  stop_here g h k c e f = ground (arith, e, f)

  module _ {s : Entries} {n : ℕ} (t : IsPlaced s n) where
    -- A probe that ends at an entry that was never used shows that its key is not bound.
    pub not-Binds :
        (h c d : ℕ)
        → d < n
        → Passes id h c s n d h
        → s ((h + d) % n) ≡ empty
        → (v : ℕ) → ¬ Binds s n h c v
    not-Binds h c d lt ps e v (binds p k lp ep ek) = elim (Bool-cases (d == dist n h p)) [
      | inl same ↦
          let at : d ≡ dist n h p = ground arith in
          let here : (h + d) % n ≡ p = rw at (add-dist n h p lp) in cc (ap s here, e, ep)
      | inr ne ↦ far (order d (dist n h p) ne)
    ]
      where
        order : (a b : ℕ) → (a == b) ≡ false → (a < b) ⊎ (b < a)
        order a b ne = ground (arith, ne)

        far : (d < dist n h p) ⊎ (dist n h p < d) → ⊥
        far (inl l) = rw e at (t.placed p h k v lp ep d l)
        far (inr l) =
            let passed = ps.past (dist n h p) l in
            cc (rw ep at (rw (add-dist n h p lp) at passed), stop_here h h k c refl ek)

  -- A write at an entry leaves what is bound elsewhere.
  pub Binds-write :
      {s : Entries} {n : ℕ} (q g k' v' : ℕ) (h c w : ℕ)
      → ((g ≡ h) → (id k' ≡ c) → ⊥)
      → ((k u : ℕ) → s q ≡ live h k u → id k ≡ c → ⊥)
      → Binds s n h c w ↔ Binds (write s q (live g k' v')) n h c w
  Binds-write {s} {n} q g k' v' h c w other own = (to, from)
    where
      to : Binds s n h c w → Binds (write s q (live g k' v')) n h c w
      to (binds p k lt e ek) = elim (Bool-cases (q == p)) [
        | inl x ↦ let same : q ≡ p = ground arith in absurd (own k w (rw same e) ek)
        | inr x ↦ binds p k lt (rw x e) ek
      ]

      from : Binds (write s q (live g k' v')) n h c w → Binds s n h c w
      from (binds p k lt e ek) = elim (Bool-cases (q == p)) [
        | inl x ↦
            let eq : live g k' v' ≡ live h k w = rw x at e in
            absurd (other (cc eq) (let f : k' ≡ k = cc eq in ap id f ∙ ek))
        | inr x ↦ binds p k lt (rw x at e) ek
      ]

  -- `s'` is the table `s` with the key `c` bound to `v`; `fresh` says whether it was bound to nothing.
  pub record Puts (s : Entries) (n h c v : ℕ) (fresh : Bool) (s' : Entries) : Type 0 where
    pub placed : IsPlaced s' n
    pub bound : Binds s' n h c v
    pub kept : (g d w : ℕ) → ((h ≡ g) → (c ≡ d) → ⊥) → Binds s n g d w ↔ Binds s' n g d w
    pub absent : fresh ≡ true → (w : ℕ) → ¬ Binds s n h c w
    pub present : fresh ≡ false → (w : ℕ) × Binds s n h c w

  pub write_self : (s : Entries) (q : ℕ) (x : Entry) → write s q x q ≡ x
  write_self s q x = ground arith

  pub IsUsed-write :
      (s : Entries) (q : ℕ) (x : Entry) (p : ℕ) → IsUsed x → IsUsed (s p) → IsUsed (write s q x p)
  IsUsed-write s q x p u v = elim (Bool-cases (q == p)) [ inl e ↦ rw e u | inr e ↦ rw e v ]

  -- An entry in use takes the place of one that its own probe reaches, and no other holds its key.
  pub put-IsPlaced :
      {s : Entries} {n : ℕ} (h k v d : ℕ)
      → IsPlaced s n
      → d < n
      → ((e : ℕ) → e < d → IsUsed (s ((h + e) % n)))
      → ((p j w : ℕ) → p < n → s p ≡ live h j w → id k ≡ id j → p ≡ (h + d) % n)
      → IsPlaced (write s ((h + d) % n) (live h k v)) n
  put-IsPlaced {s} {n} h k v d t lt used only = record { placed = kept; unique = once }
    where
      q : ℕ
      q = (h + d) % n

      s' : Entries
      s' = write s q (live h k v)

      kept :
          (p g j w : ℕ)
          → p < n
          → s' p ≡ live g j w
          → (e : ℕ) → e < dist n g p
          → IsUsed (s' ((g + e) % n))
      kept p g j w lp e i li = elim (Bool-cases (q == p)) [
        | inl x ↦
            let at : q ≡ p = ground arith in
            let eq : live h k v ≡ live g j w = rw x at e in
            let same : h ≡ g = cc eq in
            let here : dist n g p ≡ d = rw (← same, ← at) (dist-add n h d lt) in
            rw (← same)
              (IsUsed-write s q (live h k v) ((h + i) % n) tt (used i (omega (arith, here, li))))
        | inr x ↦
            IsUsed-write s q (live h k v) ((g + i) % n) tt (t.placed p g j w lp (rw x at e) i li)
      ]

      once :
          (p r g j w l u : ℕ)
          → p < n
          → r < n
          → s' p ≡ live g j w
          → s' r ≡ live g l u
          → id j ≡ id l
          → p ≡ r
      once p r g j w l u lp lr ep er same = elim (Bool-cases (q == p)) [
        | inl x ↦ elim (Bool-cases (q == r)) [
          | inl y ↦ ground (arith, x, y)
          | inr y ↦
              let eq : live h k v ≡ live g j w = rw x at ep in
              let hg : h ≡ g = cc eq in
              let kj : k ≡ j = cc eq in
              let at = only r l u lr (rw (hg) (rw y at er)) (ap id kj ∙ same) in
              absurd (ground (arith, y, at))
        ]
        | inr x ↦ elim (Bool-cases (q == r)) [
          | inl y ↦
              let eq : live h k v ≡ live g l u = rw y at er in
              let hg : h ≡ g = cc eq in
              let kl : k ≡ l = cc eq in
              let at = only p j w lp (rw (hg) (rw x at ep)) (ap id kl ∙ sym same) in
              absurd (ground (arith, x, at))
          | inr y ↦ t.unique p r g j w l u lp lr (rw x at ep) (rw y at er) same
        ]
      ]
