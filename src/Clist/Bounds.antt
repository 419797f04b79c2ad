-- ===== src/Clist/Bounds.antt =====
-- The entries of a growable array of src/clist.c, and the room that its block has.
use prothon.Base.{
  ℕ, suc, ◌≤◌, ◌<◌, ◌≡◌, List, [], ◌∷◌, ◌++◌, arith, length, take, drop, length-append, length-take,
  length-drop, take-length, drop-length, ℤ, pos, negsuc,
}
use prothon.Clist.{Clist, clist_len, new_clist, clamp, ins_clist, clist_push}

pub record IsValid (l : Clist) : Type 0 where
  pub room : 0 < l.space
  pub fits : clist_len l ≤ l.space

pub new_clist-IsValid : (n : ℕ) → IsValid (new_clist n)
unfolding new_clist
new_clist-IsValid n = ground arith

clamp-le : (i : ℤ) (n : ℕ) → clamp i n ≤ n
unfolding clamp
clamp-le (pos i) n = ground arith
clamp-le (negsuc i) n = omega arith

length-insert :
    (i x : ℕ) (xs : List ℕ) → i ≤ length xs → length (take i xs ++ x ∷ drop i xs) ≡ suc (length xs)
length-insert i x xs h =
    omega (arith, length-append (take i xs) (x ∷ drop i xs), length-take i xs, length-drop i xs)

-- An insertion at any index, in range or not, keeps the entries within the grown block, and adds
-- one entry.
ins_clist-IsValid :
    (l : Clist) (item : ℕ) (index : ℤ)
    → IsValid l
    → IsValid (ins_clist l item index) × (clist_len (ins_clist l item index) ≡ suc (clist_len l))
unfolding ins_clist
ins_clist-IsValid l item index v =
    let more =
      length-insert (clamp index (clist_len l)) item l.items (clamp-le index (clist_len l)) in
    (ground (arith, more), more)

insert_last : (i x : ℕ) (xs : List ℕ) → i ≡ length xs → take i xs ++ x ∷ drop i xs ≡ xs ++ x ∷ []
insert_last i x xs h = rw (h, take-length xs, drop-length xs)

-- Up to 2 ^ 31 - 1 entries CLIST_APPEND appends.
pub clist_push-items :
    (l : Clist) (item : ℕ)
    → clist_len l ≤ 0x7fff_ffff
    → (clist_push l item).items ≡ l.items ++ item ∷ []
unfolding clist_push
clist_push-items l item h = insert_last _ item l.items (ground arith)
