-- ===== src/Links/Loose.antt =====
-- Memories in which every link has its counterpart, and the nodes outside every list.
use new_explorer_aios.Prelude.{◌≡◌, ◌≢◌, refl, true, false, arith, ◌==◌, Bool-cases, inl, inr}
use new_explorer_aios.Links.Memory.{
  Ptr, null, Memory, done, fault, write, get_next, get_prev, put_next, put_prev,
}
use new_explorer_aios.Links.Writes.{get_next-ok, get_prev-ok, put_next-ok, put_prev-ok, write_self}
use new_explorer_aios.Links.{list_del, list_add_head, list_add_tail}
use new_explorer_aios.Group.Ensures.{Leaves}

-- A node whose neighbour points back to it, at both ends.
pub record Linked (m : Memory) : Type 0 where
  pub after : (q : Ptr) → q ≢ null → m.next q ≢ null → m.prev (m.next q) ≡ q
  pub before : (q : Ptr) → q ≢ null → m.prev q ≢ null → m.next (m.prev q) ≡ q

-- A node with both links NULL.
abbrev pub Loose : Ptr → Memory → Type 0
Loose p m = (m.next p ≡ null) × (m.prev p ≡ null)

-- The memory after `list_del`.
abbrev pub deleted : Ptr → Memory → Memory
deleted node m = record {
  next = write (write m.next (m.prev node) (m.next node)) node null;
  prev = write (write m.prev (m.next node) (m.prev node)) node null;
}

module _ (m : Memory) (linked : Linked m) (node : Ptr) (some_node : node ≢ null)
    (some_next : m.next node ≢ null) (some_prev : m.prev node ≢ null) where
  deleted-Linked : Linked (deleted node m)
  unfolding write
  deleted-Linked = record {
    after = λ q ok h. ground (
      arith,
      linked.after q ok,
      linked.before node some_node some_prev,
      linked.after node some_node some_next,
    );
    before = λ q ok h. ground (
      arith,
      linked.before q ok,
      linked.before node some_node some_prev,
      linked.after node some_node some_next,
    );
  }

  deleted-Loose : (p : Ptr) → Loose p m → Loose p (deleted node m)
  unfolding write
  deleted-Loose p l =
      ground (arith, linked.before node some_node some_prev, linked.after node some_node some_next)

-- What `list_del` does, whatever the node.
same_next : (m : Memory) (node : Ptr) → write m.next (m.prev node) (m.next node) node ≡ m.next node
unfolding write
same_next m node = elim (Bool-cases (node == m.prev node)) [
  | inl same ↦ rw same refl
  | inr apart ↦ rw apart refl
]

list_del-deleted :
    (m : Memory) (node : Ptr)
    → (node == null) ≡ false
    → (m.next node == null) ≡ false
    → (m.prev node == null) ≡ false
    → list_del node m ≡ done tt (deleted node m)
unfolding list_del
list_del-deleted m node some_node some_next some_prev =
    rw
      (
        get_prev-ok node some_node,
        get_next-ok node some_node,
        put_next-ok (m.prev node) some_prev,
        get_next-ok node some_node,
        same_next m node,
        get_prev-ok node some_node,
        put_prev-ok (m.next node) some_next,
        put_next-ok node some_node,
        put_prev-ok node some_node,
      )
      refl

list_del-fault_null : (m : Memory) (node : Ptr) → (node == null) ≡ true → list_del node m ≡ fault
unfolding list_del get_prev
list_del-fault_null m node none_given = rw none_given refl

deleted_node-Loose : (m : Memory) (node : Ptr) → Loose node (deleted node m)
deleted_node-Loose m node = (
  write_self (write m.next (m.prev node) (m.next node)) node null,
  write_self (write m.prev (m.next node) (m.prev node)) node null,
)

-- An access of a NULL link ends the removal.
list_del-fault :
    (m : Memory) (node : Ptr)
    → (m.prev node == null) ≡ true
    → (node == null) ≡ false
    → list_del node m ≡ fault
unfolding list_del put_next
list_del-fault m node no_prev some_node =
    rw (get_prev-ok node some_node, get_next-ok node some_node, no_prev) refl

list_del-fault_next :
    (m : Memory) (node : Ptr)
    → (m.next node == null) ≡ true
    → (m.prev node == null) ≡ false
    → (node == null) ≡ false
    → list_del node m ≡ fault
unfolding list_del put_prev
list_del-fault_next m node no_next some_prev some_node =
    rw
      (
        get_prev-ok node some_node,
        get_next-ok node some_node,
        put_next-ok (m.prev node) some_prev,
        get_next-ok node some_node,
        same_next m node,
        get_prev-ok node some_node,
        no_next,
      )
      refl

-- Where it ends, `list_del` leaves the node loose, and neither breaks a link nor ties a loose node.
pub record Deleted (m : Memory) (node : Ptr) (m' : Memory) : Type 0 where
  pub linked : Linked m'
  pub loose : Loose node m'
  pub others : (p : Ptr) → Loose p m → Loose p m'

pub list_del-Deleted :
    (m : Memory) (node : Ptr) → Linked m → Leaves (λ _ m'. Deleted m node m') (list_del node m)
list_del-Deleted m node linked = elim (Bool-cases (node == null)) [
  | inl none_given ↦ rw (list_del-fault_null m node none_given) tt
  | inr some_node ↦ elim (Bool-cases (m.prev node == null)) [
    | inl no_prev ↦ rw (list_del-fault m node no_prev some_node) tt
    | inr some_prev ↦ elim (Bool-cases (m.next node == null)) [
      | inl no_next ↦ rw (list_del-fault_next m node no_next some_prev some_node) tt
      | inr some_next ↦ rw (list_del-deleted m node some_node some_next some_prev) (record {
        linked = deleted-Linked m linked node (ground arith) (ground arith) (ground arith);
        loose = deleted_node-Loose m node;
        others = deleted-Loose m linked node (ground arith) (ground arith) (ground arith);
      })
    ]
  ]
]

-- A node with a NULL link cannot take the place of the list head.
pub list_add_head-null :
    (m : Memory) (item cell : Ptr) → m.next item ≡ null → list_add_head item cell m ≡ fault
unfolding list_add_head write get_next get_prev put_next put_prev
list_add_head-null m item cell empty = ground arith

pub list_add_tail-null :
    (m : Memory) (item cell : Ptr) → m.prev item ≡ null → list_add_tail item cell m ≡ fault
unfolding list_add_tail write get_next get_prev put_next put_prev
list_add_tail-null m item cell empty = ground arith
