-- ===== src/Lifecycle/Store/Convergence.antt =====
-- Ledger updates of one name commute: a store that learns the ledger's definitions in another
-- order, or more than once, ends with the same active definition.
use fabric_x_chaincode_compa.Prelude.{
  ℕ, ◌≡◌, refl, sym, subst, ◌∙◌, ap, Bool, true, Option, none, some, String, arith,
}
use fabric_x_chaincode_compa.Prelude.Int.{eqb_ℤ}
use fabric_x_chaincode_compa.Prelude.Exec.{◌>>=◌, Keeps, IsOrder, Keeps-bind}
use fabric_x_chaincode_compa.Lifecycle.Definition.{Error, ChaincodeDefinition, validate_definition}
use fabric_x_chaincode_compa.Lifecycle.Store.State.{
  Store, CommittedDefinition, statement, query, execute, check, present,
}
use fabric_x_chaincode_compa.Lifecycle.Store.Operations.{get_committed}
use fabric_x_chaincode_compa.Lifecycle.Store.Commits.{
  put_committed, check_active, upsert_committed, hydrate, upsert_committed_from_ledger,
}
use fabric_x_chaincode_compa.Lifecycle.Store.Revisions.{view}
use fabric_x_chaincode_compa.Lifecycle.Store.LedgerUpdate.{
  Fact, fact, absorb, Agrees, IsHealthy, ledger_update-refines,
}

-- Two facts of one ledger: a sequence has one definition.
abbrev pub Consistent : Fact → Fact → Type 0
Consistent f g =
    (eqb_ℤ f.definition.sequence g.definition.sequence ≡ true) → (f.definition ≡ g.definition)

Consistent-sym : (f g : Fact) → Consistent f g → Consistent g f
Consistent-sym f g k e = ground (arith, k)

abbrev AgreesWith : Fact → Option Fact → Type 0
AgreesWith f none = Unit
AgreesWith f (some g) = Consistent g f

-- Facts are absorbed in any order.
pub absorb_comm :
    (f g : Fact) (o : Option Fact)
    → Consistent f g
    → AgreesWith f o
    → AgreesWith g o
    → absorb f (absorb g o) ≡ absorb g (absorb f o)
absorb_comm f g none c p q = ground (arith, c)
absorb_comm f g (some h) c p q = ground (arith, c, p, q)

-- A fact that is known changes nothing.
pub absorb_twice : (f : Fact) (o : Option Fact) → absorb f (absorb f o) ≡ absorb f o
absorb_twice f none = ground arith
absorb_twice f (some h) = ground arith

broken-hydrate :
    (now : String) (def : ChaincodeDefinition) (b : Bool) (o : Option CommittedDefinition)
    (s : Store)
    → (hydrate now def b o s).1.broken ≡ s.broken
unfolding hydrate upsert_committed check execute statement get_committed present query check_active
    put_committed ◌>>=◌
broken-hydrate now def b none s = ground arith
broken-hydrate now def b (some c) s = ground arith

abbrev SameFaults : Store → Store → Type 0
SameFaults s t = t.broken ≡ s.broken

SameFaults-IsOrder : IsOrder SameFaults
SameFaults-IsOrder = record { same = λ s. refl; chain = λ s t u p q. q ∙ p }

check-SameFaults : (e : Option Error) → Keeps SameFaults (check e)
unfolding check ◌>>=◌
check-SameFaults none = record { at = λ s. refl }
check-SameFaults (some e) = record { at = λ s. refl }

get_committed-SameFaults : (name : String) → Keeps SameFaults (get_committed name)
unfolding get_committed present query statement ◌>>=◌
get_committed-SameFaults name = record { at = λ s. ground arith }

update-SameFaults :
    (now : String) (def : ChaincodeDefinition) (b : Bool)
    → Keeps SameFaults (upsert_committed_from_ledger now def b)
unfolding upsert_committed_from_ledger
update-SameFaults now def b =
    Keeps-bind SameFaults-IsOrder _ _ (check-SameFaults (validate_definition def)) λ _.
      Keeps-bind SameFaults-IsOrder _ _ (get_committed-SameFaults def.name)
        λ o. record { at = broken-hydrate now def b o }

update-IsHealthy :
    (now : String) (def : ChaincodeDefinition) (b : Bool) (s : Store)
    → IsHealthy s
    → IsHealthy (upsert_committed_from_ledger now def b s).1
update-IsHealthy now def b s h = record {
  works = λ n. ap (λ (f : ℕ → Bool). f n) ((update-SameFaults now def b).at s) ∙ h.works n;
}

Agrees-absorb :
    (f g : Fact) (o : Option CommittedDefinition) (c : CommittedDefinition)
    → Consistent f g
    → Agrees g o
    → fact (some c) ≡ absorb f (fact o)
    → Agrees g (some c)
Agrees-absorb f g none c k a e h = ground (arith, k)
Agrees-absorb f g (some d) c k a e h = ground (arith, k, a)

Agrees→AgreesWith : (f : Fact) (o : Option CommittedDefinition) → Agrees f o → AgreesWith f (fact o)
Agrees→AgreesWith f none a = tt
Agrees→AgreesWith f (some c) a = a

abbrev pub updated : String → Fact → Store → Store
updated now f s = (upsert_committed_from_ledger now f.definition f.initialized s).1

module _ (now : String) (n : String) where
  -- One update at a name that the fact has up to an equation.
  update-absorbs :
      (f : Fact) (s : Store)
      → IsHealthy s
      → validate_definition f.definition ≡ none
      → f.definition.name ≡ n
      → Agrees f (view s n)
      → (c : CommittedDefinition) × (view (updated now f s) n ≡ some c)
        × (fact (some c) ≡ absorb f (fact (view s n)))
  update-absorbs f s h v e =
      subst
        (λ m.
          Agrees f (view s m)
          → (c : CommittedDefinition) × (view (updated now f s) m ≡ some c)
            × (fact (some c) ≡ absorb f (fact (view s m))))
        e
        λ a.
          let (c, returned, seen, is) =
            ledger_update-refines now f.definition f.initialized v s h a in
          (c, seen, is)

  -- Two updates one after the other absorb both facts.
  updates-absorb :
      (f g : Fact) (s : Store)
      → IsHealthy s
      → validate_definition f.definition ≡ none
      → validate_definition g.definition ≡ none
      → f.definition.name ≡ n
      → g.definition.name ≡ n
      → Consistent f g
      → Agrees f (view s n)
      → Agrees g (view s n)
      → fact (view (updated now g (updated now f s)) n) ≡ absorb g (absorb f (fact (view s n)))
  updates-absorb f g s h vf vg ef eg k af ag =
      let (c, seen, is) = update-absorbs f s h vf ef af in
      let agrees : Agrees g (view (updated now f s) n) =
        subst (Agrees g) (sym seen) (Agrees-absorb f g (view s n) c k ag is) in
      let (d, seen', is') =
        update-absorbs g (updated now f s) (update-IsHealthy now f.definition f.initialized s h) vg
          eg agrees in
      ap fact seen' ∙ is' ∙ ap (absorb g) (ap fact seen ∙ is)

  -- With a working database, the updates by two facts of one name, which agree with one another
  -- and with the store, leave the same active definition and flag in either order.
  pub updates_commute :
      (f g : Fact) (s : Store)
      → IsHealthy s
      → validate_definition f.definition ≡ none
      → validate_definition g.definition ≡ none
      → f.definition.name ≡ n
      → g.definition.name ≡ n
      → Consistent f g
      → Agrees f (view s n)
      → Agrees g (view s n)
      → fact (view (updated now g (updated now f s)) n)
        ≡ fact (view (updated now f (updated now g s)) n)
  updates_commute f g s h vf vg ef eg k af ag =
      updates-absorb f g s h vf vg ef eg k af ag
      ∙ sym (
          absorb_comm f g (fact (view s n)) k (Agrees→AgreesWith f (view s n) af)
            (Agrees→AgreesWith g (view s n) ag))
      ∙ sym (updates-absorb g f s h vg vf eg ef (Consistent-sym f g k) ag af)
