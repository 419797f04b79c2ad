-- ===== src/Dict/Lookup.antt =====
-- What `dict_add`, `dict_item` and `delItem_` do to what a dictionary binds.
use native.Mathlib.Nat.{mod-lt}
use prothon.Base.{
  ℕ, ◌+◌, ◌%◌, ◌≤◌, ◌<◌, ◌≡◌, refl, sym, ap, ◌∙◌, true, false, not, Option, none, some, arith,
}
use prothon.AttrTable.{write}
use prothon.Dict.{Entry, empty, deleted, live, Entries, Landing, target, kept_key}
use prothon.Dict.Walk.{is_live, Stop, Pass-IsUsed, Passes}
use prothon.Dict.Holes.{IsHole}
use prothon.Dict.Placed.{binds, IsPlaced, not-Binds, Binds-write, Puts, write_self, put-IsPlaced}

module _ (id : ℕ → ℕ) where
  abbrev pub written : Entries → (h key v : ℕ) → Landing → Entries
  written s h key v l = write s (target l) (live h (kept_key (s l.at) key l.matched) v)

  abbrev Landed : Entries → (n h key v : ℕ) → Landing → Type 0
  Landed s n h key v l = Puts id s n h (id key) v (not l.matched) (written s h key v l)

  module _ {s : Entries} {n : ℕ} (h key v : ℕ) (t : IsPlaced id s n) where
    land_fresh :
        (d e : ℕ)
        → d < n
        → e ≤ d
        → Passes id h (id key) s n d h
        → s ((h + d) % n) ≡ empty
        → is_live (s ((h + e) % n)) ≡ false
        → Puts id s n h (id key) v true (write s ((h + e) % n) (live h key v))
    land_fresh d e lt le ps em dead =
        let absent = not-Binds id t h (id key) d lt ps em in
        let q = (h + e) % n in
        record {
          placed =
              put-IsPlaced id h key v e t (omega arith)
                (λ i li. Pass-IsUsed id h (id key) (s ((h + i) % n)) (ps.past i (omega arith)))
                (λ p j w lp ep same. absurd (absent w (binds p j lp ep (sym same))));
          bound =
              binds q key (mod-lt (h + e) (omega arith)) (write_self id s q (live h key v)) refl;
          kept =
              λ g c w ne. Binds-write id q h key v g c w ne (λ k u ek _. cc (ap is_live ek, dead));
          absent = λ _ w. absent w;
          present = λ f. cc;
        }

    land_matched :
        (d k w : ℕ)
        → d < n
        → Passes id h (id key) s n d h
        → s ((h + d) % n) ≡ live h k w
        → id k ≡ id key
        → Puts id s n h (id key) v false (write s ((h + d) % n) (live h k v))
    land_matched d k w lt ps ex same =
        let q = (h + d) % n in
        let lq : q < n = mod-lt (h + d) (omega arith) in
        record {
          placed =
              put-IsPlaced id h k v d t lt
                (λ i li. Pass-IsUsed id h (id key) (s ((h + i) % n)) (ps.past i li))
                (λ p j u lp ep e. t.unique p q h j u k w lp lq ep ex (sym e));
          bound = binds q k lq (write_self id s q (live h k v)) same;
          kept = λ g c u ne.
              Binds-write id q h k v g c u (λ eg ec. ne eg (sym same ∙ ec))
                (λ j x ej ec.
                  let eq : live h k w ≡ live g j x = sym ex ∙ ej in
                  let eg : h ≡ g = cc eq in
                  let ek : k ≡ j = cc eq in ne eg (sym same ∙ (ap id ek ∙ ec)));
          absent = λ f. cc;
          present = λ _. (w, binds q k lq ex same);
        }

    land_empty :
        (d : ℕ) (o : Option ℕ)
        → d < n
        → Passes id h (id key) s n d h
        → s ((h + d) % n) ≡ empty
        → IsHole s n h d o
        → Landed s n h key v (record { at = (h + d) % n; matched = false; hole = o })
    land_empty d none lt ps e hole =
        rw (kept_empty (s ((h + d) % n)) e) (land_fresh d d lt (omega arith) ps e (ap is_live e))
      where
        kept_empty : (x : Entry) → x ≡ empty → kept_key x key false ≡ key
        kept_empty empty e = refl
        kept_empty (deleted k v) e = refl
        kept_empty (live g k v) e = refl
    land_empty d (some q) lt ps e (i, li, at, (k, u, ed)) =
        rw (kept_empty (s ((h + d) % n)), at)
          (land_fresh d i lt (omega arith) ps e (ap is_live (rw at at ed)))
      where
        kept_empty : (x : Entry) → kept_key x key false ≡ key
        kept_empty empty = refl
        kept_empty (deleted k v) = refl
        kept_empty (live g k v) = refl

    pub land :
        (d : ℕ) (x : Entry) (o : Option ℕ)
        → d < n
        → Passes id h (id key) s n d h
        → s ((h + d) % n) ≡ x
        → Stop id h (id key) x
        → IsHole s n h d o
        → Landed s n h key v (record { at = (h + d) % n; matched = is_live x; hole = o })
    land d empty o lt ps e st hole = land_empty d o lt ps e hole
    land d (deleted k u) o lt ps e st hole = absurd st
    land d (live g k u) o lt ps e st hole =
        let eg : g ≡ h = ground (arith, st) in
        let ek : id k ≡ id key = ground (arith, st) in
        rw e (land_matched d k u lt ps (e ∙ ap (λ x. live x k u) eg) ek)
