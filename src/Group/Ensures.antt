-- ===== src/Group/Ensures.antt =====
-- What holds of a command that returns. A run that faults, or is out of fuel, ensures anything.
use new_explorer_aios.Prelude.{◌≡◌, Bool, true, false, inl, inr, ◌==◌, Bool-cases, if◌then◌else◌}
use new_explorer_aios.Struct.Item.{ItemStruct}
use new_explorer_aios.Links.Memory.{Ptr, null, Memory, Run, done, fault, out_of_fuel}
use new_explorer_aios.Group.World.{
  World, Outcome, returns, faults, exhausted, Command, continue, settle,
}

pub data Ensures {A : Type 0} (P : A → World → Type 0) : Outcome A → Type 0 where
  returned : {a : A} {w : World} → P a w → Ensures P (returns a w)
  faulted : Ensures P faults
  endless : Ensures P exhausted

-- The same of a command on the links.
abbrev pub Leaves : {A : Type 0} → (A → Memory → Type 0) → Run A → Type 0
Leaves P (done a m) = P a m
Leaves P fault = Unit
Leaves P out_of_fuel = Unit

module _ {A B : Type 0} where
  pub Ensures-continue :
      (P : A → World → Type 0) (Q : B → World → Type 0) (o : Outcome A) (k : A → Command B)
      → Ensures P o
      → ((a : A) (w : World) → P a w → Ensures Q (k a w))
      → Ensures Q (continue o k)
  Ensures-continue P Q (returns a w) k (returned first) next = next a w first
  Ensures-continue P Q faults k first next = faulted
  Ensures-continue P Q exhausted k first next = endless

module _ {A : Type 0} where
  pub Ensures-settle :
      (P : A → Memory → Type 0) (Q : A → World → Type 0) (r : Run A) (w : World)
      → Leaves P r
      → ((a : A) (m : Memory) → P a m → Q a (record w { links = m }))
      → Ensures Q (settle r w)
  Ensures-settle P Q (done a m) w first next = returned (next a m first)
  Ensures-settle P Q fault w first next = faulted
  Ensures-settle P Q out_of_fuel w first next = endless

module _ {A : Type 0} (Q : A → World → Type 0) where
  pub Ensures-if :
      (b : Bool) (c d : Command A) (w : World)
      → Ensures Q (c w)
      → Ensures Q (d w)
      → Ensures Q ((if b then c else d) w)
  Ensures-if true c d w yes_case no_case = yes_case
  Ensures-if false c d w yes_case no_case = no_case

  -- A read of the item behind a pointer, `fetch` written out: the definitions that use it open it.
  pub Ensures-fetch :
      (p : Ptr) (k : ItemStruct → Command A) (w : World)
      → Ensures Q (k (w.item p) w)
      → Ensures Q (continue (if p == null then faults else returns (w.item p) w) k)
  Ensures-fetch p k w h = elim (Bool-cases (p == null)) [
    | inl hit ↦ rw hit faulted
    | inr miss ↦ rw miss h
  ]

pub Ensures-any : {A : Type 0} (o : Outcome A) → Ensures (λ _ _. Unit) o
Ensures-any (returns a w) = returned tt
Ensures-any faults = faulted
Ensures-any exhausted = endless

pub Ensures-faults :
    {A : Type 0} (P : A → World → Type 0) (o : Outcome A) → o ≡ faults → Ensures P o
Ensures-faults P o e = rw e faulted
