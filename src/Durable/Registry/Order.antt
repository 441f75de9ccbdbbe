-- ===== src/Durable/Registry/Order.antt =====
-- The lists of handles are sorted and hold exactly what they should.
use map_reduce_rpc.Prelude.{
  ◌≡◌, refl, arith, Bool, true, false, ◌||◌, Option, none, some, List, [], ◌∷◌, ◌==◌, ==_iff,
  Bool-cases, inl, inr, nat_eq, list_eq,
}
use map_reduce_rpc.Prelude.Assoc.{Assoc, lookup}
use map_reduce_rpc.Utils.Slices.{contains}
use map_reduce_rpc.Utils.MapLaws.{IsMap}
use map_reduce_rpc.Durable.Types.{Handle, handle_eq}
use map_reduce_rpc.Durable.Buffer.{DurableBuffer}
use map_reduce_rpc.Durable.Registry.{
  handle_less, insert_handle, sort_handles, completed_of, get_completed_handles,
}

-- No later handle is less than an earlier one.
abbrev pub AllNotLess : Handle → List Handle → Type 0
AllNotLess h [] = Unit
AllNotLess h (g ∷ hs) = (handle_less g h ≡ false) × AllNotLess h hs

abbrev pub IsSorted : List Handle → Type 0
IsSorted [] = Unit
IsSorted (h ∷ hs) = AllNotLess h hs × IsSorted hs

handle_less_trans :
    (a b c : Handle) → handle_less b a ≡ false → handle_less c b ≡ false → handle_less c a ≡ false
handle_less_trans a b c x y = ground arith

handle_less_asym : (a b : Handle) → handle_less a b ≡ true → handle_less b a ≡ false
handle_less_asym a b e = ground arith

AllNotLess-weaken :
    (h g : Handle) (hs : List Handle) → handle_less g h ≡ false → AllNotLess g hs → AllNotLess h hs
AllNotLess-weaken h g [] e all = tt
AllNotLess-weaken h g (f ∷ hs) e (here, rest) =
    (handle_less_trans h g f e here, AllNotLess-weaken h g hs e rest)

AllNotLess-insert :
    (h g : Handle) (hs : List Handle)
    → handle_less g h ≡ false
    → AllNotLess h hs
    → AllNotLess h (insert_handle g hs)
unfolding insert_handle
AllNotLess-insert h g [] e all = (e, tt)
AllNotLess-insert h g (f ∷ hs) e (here, rest) = elim (Bool-cases (handle_less f g)) [
  | inl less ↦ rw less (here, AllNotLess-insert h g hs e rest)
  | inr not_less ↦ rw not_less (e, (here, rest))
]

insert_handle-IsSorted :
    (h : Handle) (hs : List Handle) → IsSorted hs → IsSorted (insert_handle h hs)
unfolding insert_handle
insert_handle-IsSorted h [] sorted = (tt, tt)
insert_handle-IsSorted h (g ∷ hs) (all, sorted) = elim (Bool-cases (handle_less g h)) [
  | inl less ↦
      rw less (
        AllNotLess-insert g h hs (handle_less_asym g h less) all,
        insert_handle-IsSorted h hs sorted,
      )
  | inr not_less ↦ rw not_less ((not_less, AllNotLess-weaken h g hs not_less all), (all, sorted))
]

pub sort_handles-IsSorted : (hs : List Handle) → IsSorted (sort_handles hs)
unfolding sort_handles
sort_handles-IsSorted [] = tt
sort_handles-IsSorted (h ∷ hs) =
    insert_handle-IsSorted h (sort_handles hs) (sort_handles-IsSorted hs)

contains-insert_handle :
    (h g : Handle) (hs : List Handle) → contains (insert_handle h hs) g ≡ (h == g || contains hs g)
unfolding insert_handle contains
contains-insert_handle h g [] = ground arith
contains-insert_handle h g (f ∷ hs) = ground (arith, contains-insert_handle h g hs)

pub contains-sort_handles :
    (hs : List Handle) (g : Handle) → contains (sort_handles hs) g ≡ contains hs g
unfolding sort_handles contains
contains-sort_handles [] g = refl
contains-sort_handles (h ∷ hs) g =
    ground (arith, contains-insert_handle h g (sort_handles hs), contains-sort_handles hs g)

abbrev pub is_true : Option Bool → Bool
is_true none = false
is_true (some b) = b

contains-completed_of :
    (m : Assoc Handle Bool) (g : Handle)
    → IsMap m
    → contains (completed_of m) g ≡ is_true (lookup g m)
unfolding completed_of contains lookup
contains-completed_of [] g h = refl
contains-completed_of ((j, b) ∷ m) g (once, h) =
    ground (arith, contains-completed_of m g h, ==_iff j g)

-- The completed handles are exactly those whose last chunk was written, sorted by id and time stamp.
pub get_completed_handles_lem :
    (d : DurableBuffer) (g : Handle)
    → IsMap d.handles
    → IsSorted (get_completed_handles d)
      × (contains (get_completed_handles d) g ≡ is_true (lookup g d.handles))
unfolding get_completed_handles
get_completed_handles_lem d g h = (
  sort_handles-IsSorted (completed_of d.handles),
  ground (
    arith,
    contains-sort_handles (completed_of d.handles) g,
    contains-completed_of d.handles g h,
  ),
)
