-- ===== src/ConnList.antt =====
-- The list of the connections in use of a handle: ConnListAppend, ConnListRemove and ConnListPush of
-- src/connio.c. Each runs under the lock of the list. The links are the field `list` of every
-- connection.
pub mod Contents
pub mod Mature
use connio.Prelude.{
  ℕ, ◌+◌, ◌-◌, ◌^◌, ◌%◌, Bool, Option, none, some, int_mod, int_ltb, if◌then◌else◌,
}
use connio.Dll.{Ends, Links, set_next, set_previous}
use connio.Dll

-- The three numbers are the bit patterns of 32-bit ints.
pub record ConnList : Type 0 where
  pub ends : Ends
  pub count : ℕ
  pub peak : ℕ
  pub limit : ℕ

-- connListAppend, after `conn->list.next = NULL` of its two callers.
unfoldable pub conn_list_append : ConnList → Links → ℕ → ConnList × Links
conn_list_append l links conn =
    let count = (l.count + 1) % int_mod in
    let peak = if int_ltb l.peak count then count else l.peak in
    let (ends, links) = Dll.append l.ends links conn in
    (record { ends = ends; count = count; peak = peak; limit = l.limit }, links)

unfoldable pub conn_list_remove : ConnList → Links → ℕ → ConnList × Links
conn_list_remove l links conn =
    let (ends, links) = Dll.remove l.ends links conn in
    (record l { ends = ends; count = (l.count + int_mod - 1) % int_mod }, links)

-- `list->head = mature->list.next; if( !list->head ) list->tail = NULL;`
drop_head : Ends → Links → ℕ → Ends
drop_head e links mature = elim (links.next mature) [
  | some y ↦ record e { head = some y }
  | none ↦ record { head = none; tail = none }
]

-- The connection that has to leave, if there is one. An empty list is never over its limit in the
-- source, which reads through `head` without a test; here it gives up nothing.
unfoldable pub conn_list_remove_mature : ConnList → Links → Option ℕ × (ConnList × Links)
unfolding drop_head
conn_list_remove_mature l links =
    if int_ltb l.limit l.count
    then (elim l.ends.head [
      | none ↦ (none, (l, links))
      | some mature ↦ (
        some mature,
        (
          record l { ends = drop_head l.ends links mature },
          set_next (set_previous links mature none) mature none,
        ),
      )
    ])
    else (none, (l, links))

unfoldable pub conn_list_push : ConnList → Links → ℕ → Option ℕ × (ConnList × Links)
unfolding conn_list_append conn_list_remove_mature
conn_list_push l links conn =
    let (d, m) = conn_list_append l links conn in conn_list_remove_mature d m
