-- ===== src/LinkedList.antt =====
-- common/include/list.h: circular doubly linked lists that are embedded in their elements.
-- An element is its address; the memory is the two links of every address, and 0 is NULL.
pub mod Ring
pub mod Operations
mod Examples
use iu7_pvs_cp.Base.{
  ℕ, zero, suc, Option, none, some, List, [], ◌∷◌, ◌==◌, if◌then◌else◌, Bool, true, false,
}
use mathlib.Core.Option

pub record Links : Type 0 where
  pub next : ℕ → ℕ
  pub prev : ℕ → ℕ

abbrev pub update : (ℕ → ℕ) → ℕ → ℕ → ℕ → ℕ
update f p v q = if q == p then v else f q

-- p->next = v
abbrev pub set_next : Links → ℕ → ℕ → Links
set_next h p v = record h { next = update h.next p v }

-- p->prev = v
abbrev pub set_prev : Links → ℕ → ℕ → Links
set_prev h p v = record h { prev = update h.prev p v }

unfoldable pub list_init : Links → ℕ → Links
list_init h head = set_prev (set_next h head head) head head

-- __list_add
unfoldable pub link_between : Links → ℕ → ℕ → ℕ → Links
link_between h prev next element =
    set_prev (set_next (set_next (set_prev h element prev) element next) prev element) next element

unfoldable pub list_add : Links → ℕ → ℕ → Links
unfolding link_between
list_add h head element = link_between h head (h.next head) element

unfoldable pub list_add_tail : Links → ℕ → ℕ → Links
unfolding link_between
list_add_tail h head element = link_between h (h.prev head) head element

-- __list_del
unfoldable pub unlink : Links → ℕ → ℕ → Links
unlink h prev next = set_prev (set_next h prev next) next prev

unfoldable pub list_del : Links → ℕ → Links
unfolding unlink
list_del h element =
    set_prev (set_next (unlink h (h.prev element) (h.next element)) element 0) element 0

-- The elements that `list_foreach` visits from `pos` on; `none` when the fuel runs out.
unfoldable pub foreach_from : ℕ → Links → ℕ → ℕ → Option (List ℕ)
foreach_from zero h head pos = none
foreach_from (suc fuel) h head pos =
    let rest = foreach_from fuel h head (h.next pos) in
    if h.next pos == head then some (pos ∷ []) else Option.map (◌∷◌ pos) rest

-- list_foreach(pos, head, member)
unfoldable pub list_foreach : ℕ → Links → ℕ → Option (List ℕ)
unfolding foreach_from
list_foreach fuel h head = foreach_from fuel h head head
