-- ===== src/AttrTable.antt =====
-- The attribute table of an object (src/object.c): an open-addressed hash table with linear
-- probing. Indices wrap modulo `asize` (the macro `attr_ap` of src/object.h).
pub mod Probe
pub mod Walk
pub mod Placed
pub mod Count
pub mod Insert
pub mod Rehash
pub mod Table
pub mod Lookup
pub mod Termination
use prothon.Base.{
  List, ◌∷◌, [], length, take, ℕ, zero, suc, ◌+◌, ◌-◌, ◌*◌, ◌/◌, ◌%◌, ◌^◌, max, Bool, true, false,
  Option, none, some, ◌>>=◌, ltb, ◌==◌, if◌then◌else◌,
}

-- `attr_entry_t`. The key 0 marks a slot that was never used and -1 (ENTRY_DELETED) one whose
-- attribute was deleted; any other key is the positive key of a symbol.
pub data Slot : Type 0 where
  empty : Slot
  deleted : (value : ℕ) → Slot
  live : (key value : ℕ) → Slot

abbrev pub Slots : Type 0
Slots = ℕ → Slot

abbrev pub write {ℓ} : {A : Type ℓ} → (ℕ → A) → ℕ → A → ℕ → A
write s p x q = if p == q then x else s q

-- `memset(attrs, 0, tsize)`
abbrev pub cleared : Slots
cleared p = empty

-- for(i=tgt; (akey=((ptr=attr_ap(attrs,i))->attr.key)) && (tgt!=akey); i++);
-- The rounds are so few that the `attr_key_t` index does not pass 2 ^ 31. `none` is a loop that has not ended within its fuel, `some none` one that ended at an empty slot.
unfoldable pub find : ℕ → Slots → (asize tgt i : ℕ) → Option (Option ℕ)
find zero s n tgt i = none
find (suc fuel) s n tgt i =
    let rest = find fuel s n tgt (i + 1) in
    elim (s (i % n)) [
      | empty ↦ some none
      | deleted v ↦ rest
      | live k v ↦ if tgt == k then some (some (i % n)) else rest
    ]

-- Where the loop of `set_attr` ends: the slot, whether a key there is `tgt`, and the last deleted slot
-- that was passed.
pub record Landing : Type 0 where
  pub pos : ℕ
  pub matched : Bool
  pub hole : Option ℕ

-- for(i=tgt; (akey=((ptr=attr_ap(attrs,i))->attr.key)); i++) {
--   if (akey < 0) hole = ptr; else if (tgt == akey) break; }
-- Behind the loop `tgt != akey` is tested: at an empty slot, whose key is 0, the key 0 counts as found.
-- The rounds are so few that the `attr_key_t` index does not pass 2 ^ 31.
unfoldable pub seek : ℕ → Slots → (asize tgt : ℕ) → Option ℕ → ℕ → Option Landing
seek zero s n tgt hole i = none
seek (suc fuel) s n tgt hole i =
    let past = seek fuel s n tgt (some (i % n)) (i + 1) in
    let rest = seek fuel s n tgt hole (i + 1) in
    elim (s (i % n)) [
      | empty ↦ some (record { pos = i % n; matched = tgt == 0; hole = hole })
      | deleted v ↦ past
      | live k v ↦
          if tgt == k then some (record { pos = i % n; matched = true; hole = hole }) else rest
    ]

-- for(j=key; (ptr=attr_ap(attrs, j))->attr.key; j++);
unfoldable pub vacant : ℕ → Slots → (asize j : ℕ) → Option ℕ
vacant zero s n j = none
vacant (suc fuel) s n j =
    let rest = vacant fuel s n (j + 1) in
    elim (s (j % n)) [ empty ↦ some (j % n) | deleted v ↦ rest | live k v ↦ rest ]

-- `ptr->attr.value`; an empty slot holds 0.
abbrev pub value_at : Slot → ℕ
value_at empty = 0
value_at (deleted v) = v
value_at (live k v) = v

-- The slot that `set_attr` writes.
abbrev pub target : Landing → ℕ
target l = if l.matched then l.pos else elim l.hole [ none ↦ l.pos | some q ↦ q ]

-- `proto_entry_t`
pub record ProtoEntry : Type 0 where
  pub owns_binary : Bool
  pub proto : ℕ

-- The block that `attr_proto.attrs` points to: the two headers, the `plen` prototypes, the entries
-- behind them up to `psize`, and the attribute slots.
pub record Attrs : Type 0 where
  pub psize : ℕ
  pub protos : List ProtoEntry
  pub spare : List ProtoEntry
  pub asize : ℕ
  pub alen : ℕ
  pub slots : Slots

-- ATTRS_MAX_PERCENT_FULL, ATTRS_PAD_PERCENT_FACTOR, ATTRS_PROTO_PADDING, ATTRS_PINIT, ATTRS_AINIT
abbrev pub attrs_max_percent_full : ℕ
attrs_max_percent_full = 66

abbrev pub attrs_pad_percent_factor : ℕ
attrs_pad_percent_factor = 300

abbrev pub attrs_proto_padding : ℕ
attrs_proto_padding = 1

abbrev pub attrs_pinit : ℕ
attrs_pinit = attrs_proto_padding + 1

abbrev pub attrs_ainit : ℕ
attrs_ainit = 8

-- The body of the copying loop of `attrs_realloc`.
unfoldable pub move_slot : Slots → ℕ → Slot → Option Slots
move_slot s n empty = some s
move_slot s n (deleted v) = some s
move_slot s n (live k v) = vacant n s n k >>= λ q. some (write s q (live k v))

-- The copying loop: `rounds` slots of the old table are left, from `i` on.
unfoldable pub rehash : (rounds i : ℕ) → Slots → Slots → ℕ → Option Slots
rehash zero i old s n = some s
rehash (suc r) i old s n = move_slot s n (old i) >>= λ s'. rehash r (i + 1) old s' n

-- (n * percent) / 100 on 32-bit integers, where the product wraps; a negative quotient is 0 here, since
-- the greater of it and a positive number is taken.
abbrev pub percent_of : (n percent : ℕ) → ℕ
percent_of n percent = if ltb (n * percent % 2 ^ 32) (2 ^ 31) then n * percent % 2 ^ 32 / 100 else 0

-- max((attr_alen(attrs) * ATTRS_PAD_PERCENT_FACTOR) / 100, ATTRS_AINIT)
abbrev pub grown_asize : ℕ → ℕ
grown_asize alen = max (percent_of alen attrs_pad_percent_factor) attrs_ainit

-- The entry that `memset` leaves.
abbrev pub no_proto : ProtoEntry
no_proto = record { owns_binary = false; proto = 0 }

unfoldable pub attrs_realloc : Attrs → Option Attrs
unfolding rehash move_slot
attrs_realloc a = rehash a.asize 0 a.slots cleared (grown_asize a.alen) >>= λ s. some (record {
  psize = length a.protos + attrs_proto_padding;
  protos = a.protos;
  spare = no_proto ∷ [];
  asize = grown_asize a.alen;
  alen = a.alen;
  slots = s;
})

-- `ptr->attr.value = value`, and `ptr->attr.key = tgt` where the key is new. The value of an empty slot,
-- which the key 0 sets, is never read.
abbrev pub put_slot : Slots → Landing → (tgt value : ℕ) → Slots
put_slot s l tgt value = if tgt == 0 then s else write s (target l) (live tgt value)

-- The part of `set_attr` between the test of the load and the unlocking.
unfoldable pub put_attr : Attrs → (tgt value : ℕ) → Option Attrs
put_attr a tgt value = seek a.asize a.slots a.asize tgt none tgt >>= λ l. some (record a {
  alen = if l.matched then a.alen else a.alen + 1;
  slots = put_slot a.slots l tgt value;
})

-- if (((attr_alen(attrs) * 100) / attr_asize(attrs)) > ATTRS_MAX_PERCENT_FULL)
abbrev pub is_crowded : Attrs → Bool
is_crowded a = ltb attrs_max_percent_full (a.alen * 100 / a.asize)

unfoldable pub set_in_attrs : Attrs → (tgt value : ℕ) → Option Attrs
unfolding attrs_realloc put_attr
set_in_attrs a tgt value =
    (if is_crowded a then attrs_realloc a else some a) >>= λ b. put_attr b tgt value

-- The loop of `get_attr` and the value at the slot where it ends.
unfoldable pub attr_value : Attrs → (tgt : ℕ) → Option (Option ℕ)
unfolding find
attr_value a tgt = find a.asize a.slots a.asize tgt tgt >>= λ o. elim o [
  | none ↦ some none
  | some p ↦ some (some (value_at (a.slots p)))
]

-- The part of `del_attr` inside the lock: the flag that it returns, and the table.
unfoldable pub del_in_attrs : Attrs → (tgt : ℕ) → Option (Bool × Attrs)
unfolding find
del_in_attrs a tgt = find a.asize a.slots a.asize tgt tgt >>= λ o. elim o [
  | none ↦ some (false, a)
  | some p ↦ some (
    true,
    record a { alen = a.alen - 1; slots = write a.slots p (deleted (value_at (a.slots p))) },
  )
]
