-- ===== src/Budget/GroupHeap.antt =====
-- `groupHeap` of byte_budget.go under `container/heap`: `blocked` is the array, ordered by
-- `groupNeed`, and each group keeps its index there. The loops `up` and `down` move along one path
-- of the tree, so the length of the array is fuel enough.
use go_uspclient.Base.{
  ℕ, zero, suc, ◌+◌, ◌-◌, ◌*◌, ◌/◌, Bool, true, false, not, ◌&&◌, ◌||◌, [], ◌∷◌, ◌++◌, Option, none,
  some, ltb, leb, ◌==◌, if◌then◌else◌, length, get_or, set, take,
}
use go_uspclient.Budget.State.{ByteBudget, group_at, put_group}
use go_uspclient.Budget.Account.{group_need}

unfoldable pub less : ByteBudget → ℕ → ℕ → Bool
less bb i j =
    ltb (group_need bb (group_at bb (get_or bb.blocked i 0)))
      (group_need bb (group_at bb (get_or bb.blocked j 0)))

abbrev pub set_heap_index : ℕ → Option ℕ → ByteBudget → ByteBudget
set_heap_index g i bb = put_group bb g (record (group_at bb g) { heap_index = i })

unfoldable pub swap : ℕ → ℕ → ByteBudget → ByteBudget
swap i j bb =
    let a = get_or bb.blocked i 0 in
    let b = get_or bb.blocked j 0 in
    set_heap_index a (some j)
      (set_heap_index b (some i) (record bb { blocked = set (set bb.blocked i b) j a }))

unfoldable pub up : ℕ → ℕ → ByteBudget → ByteBudget
up zero j bb = bb
up (suc fuel) j bb =
    let i = (j - 1) / 2 in
    elim (i == j || not (less bb j i)) [ true ↦ bb | false ↦ up fuel i (swap i j bb) ]

-- The child of `i` that `down` compares with it.
unfoldable pub lesser_child : ℕ → ℕ → ByteBudget → ℕ
lesser_child i n bb = let j = 2 * i + 1 in if ltb (j + 1) n && less bb (j + 1) j then j + 1 else j

-- The result's number is where the element came to rest.
unfoldable pub down : ℕ → ℕ → ℕ → ByteBudget → ByteBudget × ℕ
down zero i n bb = (bb, i)
down (suc fuel) i n bb =
    let j = lesser_child i n bb in
    elim (leb n (2 * i + 1) || not (less bb j i)) [
      | true ↦ (bb, i)
      | false ↦ down fuel j n (swap i j bb)
    ]

-- `groupHeap.Push` and `groupHeap.Pop`
unfoldable pub push_back : ℕ → ByteBudget → ByteBudget
push_back g bb =
    set_heap_index g (some (length bb.blocked)) (record bb { blocked = bb.blocked ++ g ∷ [] })

unfoldable pub pop_back : ByteBudget → ByteBudget
pop_back bb =
    let n = length bb.blocked - 1 in
    set_heap_index (get_or bb.blocked n 0) none (record bb { blocked = take n bb.blocked })

-- `heap.Push`, `heap.Pop`, `heap.Fix` and `heap.Remove`
unfoldable pub heap_push : ℕ → ByteBudget → ByteBudget
heap_push g bb = let bb' = push_back g bb in up (length bb'.blocked) (length bb'.blocked - 1) bb'

unfoldable pub heap_pop : ByteBudget → ByteBudget
heap_pop bb =
    let n = length bb.blocked - 1 in pop_back (down (length bb.blocked) 0 n (swap 0 n bb)).0

abbrev pub settle : ℕ → ℕ → ByteBudget → ByteBudget
settle i n bb =
    let (bb', k) = down (length bb.blocked) i n bb in
    if ltb i k then bb' else up (length bb.blocked) i bb'

unfoldable pub heap_fix : ℕ → ByteBudget → ByteBudget
heap_fix i bb = settle i (length bb.blocked) bb

unfoldable pub heap_remove : ℕ → ByteBudget → ByteBudget
heap_remove i bb =
    let n = length bb.blocked - 1 in
    if n == i then pop_back bb else pop_back (settle i n (swap i n bb))
