-- ===== src/Links/Memory.antt =====
-- The memory of link nodes, and commands on it. An access through NULL is a fault.
use new_explorer_aios.Prelude.{ℕ, ◌==◌, if◌then◌else◌}

abbrev pub Ptr : Type 0
Ptr = ℕ

abbrev pub null : Ptr
null = 0

-- `struct list_node` at every address.
pub record Memory : Type 0 where
  pub prev : Ptr → Ptr
  pub next : Ptr → Ptr

unfoldable pub write : (Ptr → Ptr) → Ptr → Ptr → Ptr → Ptr
write f p v q = if q == p then v else f q

-- A run ends with a value, with an access through NULL, or out of fuel.
pub data Run (A : Type 0) : Type 0 where
  done : A → Memory → Run A
  fault : Run A
  out_of_fuel : Run A

abbrev pub Cmd : Type 0 → Type 0
Cmd A = Memory → Run A

abbrev pub pure : {A : Type 0} → A → Cmd A
pure a m = done a m

abbrev pub stuck : {A : Type 0} → Cmd A
stuck m = out_of_fuel

module _ {A B : Type 0} where
  abbrev pub follow : Run A → (A → Cmd B) → Run B
  follow (done a m) k = k a m
  follow fault k = fault
  follow out_of_fuel k = out_of_fuel

  infixl 5 ◌>>=◌ ◌>>◌
  abbrev pub ◌>>=◌ : Cmd A → (A → Cmd B) → Cmd B
  c >>= k = λ m. follow (c m) k

  abbrev pub ◌>>◌ : Cmd A → Cmd B → Cmd B
  c >> d = c >>= λ _. d

unfoldable pub get_next : Ptr → Cmd Ptr
get_next p m = if p == null then fault else done (m.next p) m

unfoldable pub get_prev : Ptr → Cmd Ptr
get_prev p m = if p == null then fault else done (m.prev p) m

unfoldable pub put_next : Ptr → Ptr → Cmd (Unit {0})
put_next p v m = if p == null then fault else done tt (record m { next = write m.next p v })

unfoldable pub put_prev : Ptr → Ptr → Cmd (Unit {0})
put_prev p v m = if p == null then fault else done tt (record m { prev = write m.prev p v })
