-- ===== src/Budget/State.antt =====
-- The state of `ByteBudget`. Groups and waiters are shared objects: they live in the stores
-- `group_store` and `waiter_store`, and an address is a position there. Address 0 of the groups is
-- the embedded `legacy` group. A list element is known by its value, since a group stands in each
-- list at most once: `elem != nil` is a flag. A channel is a number below `next_chan`.
use text.Mathlib.Text.{◌==◌ as str_eq}
use go_uspclient.Base.{
  ℕ, ◌/◌, Bool, true, false, not, ◌&&◌, ◌||◌, List, [], ◌∷◌, ◌++◌, Option, none, some, String, leb,
  ◌==◌, if◌then◌else◌, length, get_or, set, add64, sub64,
}
use go_uspclient.Size.{message_overhead_bytes}

pub record BudgetGroup : Type 0 where
  pub key : String
  pub refs : ℕ
  pub used : ℕ
  pub escape : ℕ
  pub pending : ℕ
  pub active : Bool
  pub waiters : List ℕ
  pub all_elem : Bool
  pub reserve_elem : Bool
  pub heap_index : Option ℕ

pub record BudgetWaiter : Type 0 where
  pub n : ℕ
  pub credit : ℕ
  pub group : ℕ
  pub wake : ℕ
  pub elem : Bool
  pub granted : Bool

pub record ByteBudget : Type 0 where
  pub total : ℕ
  pub used : ℕ
  pub escape : ℕ
  pub fair : Bool
  pub reserve : ℕ
  pub min_group : ℕ
  pub groups : List (String × ℕ)
  pub active : ℕ
  pub legacy_wake : Option ℕ
  pub waiting : List ℕ
  pub reserve_ready : List ℕ
  pub blocked : List ℕ
  pub group_store : List BudgetGroup
  pub waiter_store : List BudgetWaiter
  pub next_chan : ℕ
  pub closed : List ℕ

-- A group with no waiters, bytes or index.
abbrev pub new_group : String → ℕ → BudgetGroup
new_group key refs = record {
  key = key;
  refs = refs;
  used = 0;
  escape = 0;
  pending = 0;
  active = false;
  waiters = [];
  all_elem = false;
  reserve_elem = false;
  heap_index = none;
}

-- `&budgetWaiter{}`
abbrev pub no_waiter : BudgetWaiter
no_waiter = record { n = 0; credit = 0; group = 0; wake = 0; elem = false; granted = false }

-- Reads and writes through a group's or a waiter's address.
abbrev pub group_at : ByteBudget → ℕ → BudgetGroup
group_at bb g = get_or bb.group_store g (new_group "" 0)

abbrev pub put_group : ByteBudget → ℕ → BudgetGroup → ByteBudget
put_group bb g v = record bb { group_store = set bb.group_store g v }

abbrev pub waiter_at : ByteBudget → ℕ → BudgetWaiter
waiter_at bb w = get_or bb.waiter_store w no_waiter

abbrev pub put_waiter : ByteBudget → ℕ → BudgetWaiter → ByteBudget
put_waiter bb w v = record bb { waiter_store = set bb.waiter_store w v }

-- `Front().Value` of a list of addresses.
abbrev pub front : List ℕ → ℕ
front xs = get_or xs 0 0

unfoldable pub new_byte_budget : ℕ → ByteBudget
new_byte_budget total = record {
  total = total;
  used = 0;
  escape = 0;
  fair = false;
  reserve = 0;
  min_group = 0;
  groups = [];
  active = 0;
  legacy_wake = none;
  waiting = [];
  reserve_ready = [];
  blocked = [];
  group_store = new_group "" 0 ∷ [];
  waiter_store = [];
  next_chan = 0;
  closed = [];
}

pub record FairByteBudgetOptions : Type 0 where
  pub reserve_bytes : ℕ
  pub min_group_bytes : ℕ

-- `none` is the error "fair byte budget reserve must be smaller than total".
unfoldable pub new_fair_byte_budget : ℕ → FairByteBudgetOptions → Option ByteBudget
new_fair_byte_budget total o =
    let reserve = if o.reserve_bytes == 0 then total / 8 else o.reserve_bytes in
    if (total == 0 && not (reserve == 0)) || (not (total == 0) && leb total reserve)
    then none
    else some (record (new_byte_budget total) {
      fair = true;
      reserve = reserve;
      min_group = if o.min_group_bytes == 0 then message_overhead_bytes else o.min_group_bytes;
    })

-- `bb.groups[key]`, its insertion and `delete(bb.groups, key)`.
unfoldable pub find_group : List (String × ℕ) → String → Option ℕ
find_group [] key = none
find_group ((k, g) ∷ m) key = if str_eq k key then some g else find_group m key

unfoldable pub delete_group : List (String × ℕ) → String → List (String × ℕ)
delete_group [] key = []
delete_group ((k, g) ∷ m) key =
    if str_eq k key then delete_group m key else (k, g) ∷ delete_group m key

pub data Registered : Type 0 where
  -- `nil, nil`: the budget is absent or ungrouped.
  ungrouped : Registered
  -- "fair byte budget requires BudgetGroup"
  missing_group : Registered
  registered : ℕ → Registered

-- The part of `register` under the lock.
unfoldable pub register_fair : String → ByteBudget → Registered × ByteBudget
register_fair key bb =
    if str_eq key "" then (missing_group, bb) else elim (find_group bb.groups key) [
      | some g ↦
          let v = group_at bb g in
          (registered g, put_group bb g (record v { refs = add64 v.refs 1 }))
      | none ↦
          let g = length bb.group_store in
          (
            registered g,
            record bb {
              group_store = bb.group_store ++ new_group key 1 ∷ [];
              groups = (key, g) ∷ bb.groups;
            },
          )
    ]

unfoldable pub register : String → Option ByteBudget → Registered × Option ByteBudget
register key none = (ungrouped, none)
register key (some bb) =
    if not bb.fair
    then (ungrouped, some bb)
    else let (r, bb') = register_fair key bb in (r, some bb')

unfoldable pub unregister_locked : ℕ → ByteBudget → ByteBudget
unregister_locked g bb =
    if not bb.fair
    then bb
    else let v = group_at bb g in
      let v' = record v { refs = sub64 v.refs 1 } in
      let bb' = put_group bb g v' in
      if v'.refs == 0 then record bb' { groups = delete_group bb'.groups v'.key } else bb'

unfoldable pub unregister : Option ℕ → Option ByteBudget → Option ByteBudget
unregister g none = none
unregister none (some bb) = some bb
unregister (some g) (some bb) = some (unregister_locked g bb)

-- `bb.group(g)`
abbrev pub group_or_legacy : Option ℕ → ℕ
group_or_legacy none = 0
group_or_legacy (some g) = g

-- `Total` and `Used`; zero on a nil budget.
unfoldable pub get_total : Option ByteBudget → ℕ
get_total none = 0
get_total (some bb) = bb.total

unfoldable pub get_used : Option ByteBudget → ℕ
get_used none = 0
get_used (some bb) = bb.used
