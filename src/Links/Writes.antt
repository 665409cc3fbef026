-- ===== src/Links/Writes.antt =====
-- Each access through a pointer that is not NULL, and writes at two addresses.
use mathlib.Core.Path.{fun_ext}
use new_explorer_aios.Prelude.{◌≡◌, false, ◌==◌, arith}
use new_explorer_aios.Links.Memory.{
  Ptr, null, Memory, write, done, get_next, get_prev, put_next, put_prev,
}

module _ (p : Ptr) (ok : (p == null) ≡ false) (m : Memory) where
  pub get_next-ok : get_next p m ≡ done (m.next p) m
  unfolding get_next
  get_next-ok = rw ok

  pub get_prev-ok : get_prev p m ≡ done (m.prev p) m
  unfolding get_prev
  get_prev-ok = rw ok

  pub put_next-ok : (v : Ptr) → put_next p v m ≡ done tt (record m { next = write m.next p v })
  unfolding put_next
  put_next-ok v = rw ok

  pub put_prev-ok : (v : Ptr) → put_prev p v m ≡ done tt (record m { prev = write m.prev p v })
  unfolding put_prev
  put_prev-ok v = rw ok

pub write_ne : (f : Ptr → Ptr) (p v q : Ptr) → (q == p) ≡ false → write f p v q ≡ f q
unfolding write
write_ne f p v q ne = rw ne

pub write_self : (f : Ptr → Ptr) (p v : Ptr) → write f p v p ≡ v
unfolding write
write_self f p v = ground arith

-- Writes at two addresses may change places.
pub write_comm :
    (f : Ptr → Ptr) (p v q w : Ptr)
    → (p == q) ≡ false
    → write (write f p v) q w ≡ write (write f q w) p v
unfolding write
write_comm f p v q w ne = fun_ext λ a. ground arith
