-- ===== src/Links.antt =====
-- include/lib/list.h: circular doubly linked lists, over an explicit store of links.
pub mod Ring
pub mod Ops
pub mod Splice
pub mod Fresh
pub mod Cut
mod Tests
use hurlex_ii.Base.{ℕ, Bool, ◌&&◌, not, ◌==◌, if◌then◌else◌, update}

-- `struct list_head`: the `next` and `prev` fields of the node at each address.
pub record Links : Type 0 where
  pub next : ℕ → ℕ
  pub prev : ℕ → ℕ

abbrev pub set_next : ℕ → ℕ → Links → Links
set_next p v h = record h { next = update h.next p v }

abbrev pub set_prev : ℕ → ℕ → Links → Links
set_prev p v h = record h { prev = update h.prev p v }

unfoldable pub init_list_head : ℕ → Links → Links
init_list_head list h = set_prev list list (set_next list list h)

unfoldable pub list_add_between : (new prev next : ℕ) → Links → Links
list_add_between new prev next h =
    set_next prev new (set_prev new prev (set_next new next (set_prev next new h)))

unfoldable pub list_add : (new head : ℕ) → Links → Links
unfolding list_add_between
list_add new head h = list_add_between new head (h.next head) h

pub list_add_before : (new head : ℕ) → Links → Links
unfolding list_add_between
list_add_before new head h = list_add_between new (h.prev head) head h

pub list_add_tail : (new head : ℕ) → Links → Links
unfolding list_add_between
list_add_tail new head h = list_add_between new (h.prev head) head h

unfoldable pub list_del_between : (prev next : ℕ) → Links → Links
list_del_between prev next h = set_next prev next (set_prev next prev h)

unfoldable pub list_del : (entry : ℕ) → Links → Links
unfolding list_del_between
list_del entry h = list_del_between (h.prev entry) (h.next entry) h

-- Each line reads the links that the lines above it wrote.
pub list_replace : (old new : ℕ) → Links → Links
list_replace old new h =
    let h1 = set_next new (h.next old) h in
    let h2 = set_prev (h1.next new) new h1 in
    let h3 = set_prev new (h2.prev old) h2 in set_next (h3.prev new) new h3

pub list_replace_init : (old new : ℕ) → Links → Links
unfolding list_replace init_list_head
list_replace_init old new h = init_list_head old (list_replace old new h)

pub list_del_init : (entry : ℕ) → Links → Links
unfolding list_del_between init_list_head
list_del_init entry h = init_list_head entry (list_del_between (h.prev entry) (h.next entry) h)

pub list_move : (list head : ℕ) → Links → Links
unfolding list_del_between list_add
list_move list head h = list_add list head (list_del_between (h.prev list) (h.next list) h)

pub list_move_tail : (list head : ℕ) → Links → Links
unfolding list_del_between list_add_tail
list_move_tail list head h =
    list_add_tail list head (list_del_between (h.prev list) (h.next list) h)

pub list_is_last : (list head : ℕ) → Links → Bool
list_is_last list head h = h.next list == head

unfoldable pub list_empty : (head : ℕ) → Links → Bool
list_empty head h = h.next head == head

pub list_empty_careful : (head : ℕ) → Links → Bool
list_empty_careful head h = (h.next head == head) && (h.next head == h.prev head)

pub list_is_singular : (head : ℕ) → Links → Bool
unfolding list_empty
list_is_singular head h = not (list_empty head h) && (h.next head == h.prev head)

pub list_cut_position_at : (list head entry : ℕ) → Links → Links
list_cut_position_at list head entry h =
    let new_first = h.next entry in
    let h1 = set_next list (h.next head) h in
    let h2 = set_prev (h1.next list) list h1 in
    let h3 = set_prev list entry h2 in
    let h4 = set_next entry list h3 in
    let h5 = set_next head new_first h4 in set_prev new_first head h5

pub list_cut_position : (list head entry : ℕ) → Links → Links
unfolding list_empty list_is_singular init_list_head list_cut_position_at
list_cut_position list head entry h =
    if list_empty head h
    then h
    else if list_is_singular head h && (not (h.next head == entry) && not (head == entry))
    then h
    else if entry == head
    then init_list_head list h
    else list_cut_position_at list head entry h

pub list_splice_between : (list prev next : ℕ) → Links → Links
list_splice_between list prev next h =
    let first = h.next list in
    let last = h.prev list in
    set_prev next last (set_next last next (set_next prev first (set_prev first prev h)))

pub list_splice : (list head : ℕ) → Links → Links
unfolding list_empty list_splice_between
list_splice list head h =
    if not (list_empty list h) then list_splice_between list head (h.next head) h else h

pub list_splice_tail : (list head : ℕ) → Links → Links
unfolding list_empty list_splice_between
list_splice_tail list head h =
    if not (list_empty list h) then list_splice_between list (h.prev head) head h else h

pub list_splice_init : (list head : ℕ) → Links → Links
unfolding list_empty list_splice_between init_list_head
list_splice_init list head h =
    if not (list_empty list h)
    then init_list_head list (list_splice_between list head (h.next head) h)
    else h

pub list_splice_tail_init : (list head : ℕ) → Links → Links
unfolding list_empty list_splice_between init_list_head
list_splice_tail_init list head h =
    if not (list_empty list h)
    then init_list_head list (list_splice_between list (h.prev head) head h)
    else h
