-- ===== src/Node/Replies.antt =====
-- Replies of the operations on a node: a status other than NO_ERROR, or what is stored through the
-- pointer for the result.
use new_explorer_aios.Prelude.{ℕ, ◌==◌, if◌then◌else◌}
use new_explorer_aios.Bits.Word.{sub64}
use new_explorer_aios.Struct.Node.{GroupAttr}
use new_explorer_aios.Links.Memory.{Ptr}
use new_explorer_aios.Group.World.{World, Command, Outcome, returns, faults, exhausted}

pub data Reply (A : Type 0) : Type 0 where
  reply : A → Reply A
  error : ℕ → Reply A

abbrev pub Fallible : Type 0 → Type 0
Fallible A = Command (Reply A)

abbrev pub succeed : {A : Type 0} → A → Fallible A
succeed a w = returns (reply a) w

abbrev pub fail : {A : Type 0} → ℕ → Fallible A
fail e w = returns (error e) w

abbrev pub too_deep : {A : Type 0} → Fallible A
too_deep w = exhausted

module _ {A : Type 0} where
  abbrev pub lifted : Outcome A → Outcome (Reply A)
  lifted (returns a w) = returns (reply a) w
  lifted faults = faults
  lifted exhausted = exhausted

  -- A command that has no status.
  abbrev pub lift : Command A → Fallible A
  lift c w = lifted (c w)

module _ {A B : Type 0} where
  abbrev pub on_reply : Outcome (Reply A) → (A → Fallible B) → Outcome (Reply B)
  on_reply (returns (reply a) w) k = k a w
  on_reply (returns (error e) w) k = returns (error e) w
  on_reply faults k = faults
  on_reply exhausted k = exhausted

  infixl 5 ◌>>=◌ ◌>>◌
  abbrev pub ◌>>=◌ : Fallible A → (A → Fallible B) → Fallible B
  c >>= k = λ w. on_reply (c w) k

  abbrev pub ◌>>◌ : Fallible A → Fallible B → Fallible B
  c >> d = c >>= λ _. d

  -- What is done with a status other than NO_ERROR.
  abbrev pub or_else_on :
      Outcome (Reply A) → (A → Fallible B) → (ℕ → Fallible B) → Outcome (Reply B)
  or_else_on (returns (reply a) w) k h = k a w
  or_else_on (returns (error e) w) k h = h e w
  or_else_on faults k h = faults
  or_else_on exhausted k h = exhausted

  abbrev pub handle : Fallible A → (A → Fallible B) → (ℕ → Fallible B) → Fallible B
  handle c k h = λ w. or_else_on (c w) k h

-- The attributes of a node.
abbrev pub set_attr : Ptr → (GroupAttr → GroupAttr) → Command (Unit {0})
set_attr node f w =
    returns tt (record w { attr = λ p. if p == node then f (w.attr p) else w.attr p })

abbrev pub set_status : Ptr → ℕ → Command (Unit {0})
set_status node status = set_attr node (λ a. record a { status = status })

abbrev pub take_free_items : Ptr → ℕ → Command (Unit {0})
take_free_items node nitems =
    set_attr node (λ a. record a { nr_freeitems = sub64 a.nr_freeitems nitems })

-- A test of the state.
abbrev pub look : {A : Type 0} → (World → A) → Fallible A
look f w = returns (reply (f w)) w
