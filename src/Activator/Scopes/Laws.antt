-- ===== src/Activator/Scopes/Laws.antt =====
-- The cancellation of a scope and the scopes below it, packages/workflow/src/cancellation-scope.ts.
use temporalio_sdk_typescrip.Prelude.{
  ℕ, ◌≡◌, refl, ap, ◌∙◌, ==_iff, Bool, true, Option, none, some, List, [], ◌∷◌, ◌++◌, map,
  lookup-insert, nat_key, arith,
}
use temporalio_sdk_typescrip.Failure.{JsError}
use temporalio_sdk_typescrip.Activator.{Activator, Scope, Reaction, cancel_child_scope, react}
use temporalio_sdk_typescrip.Activator.Scopes.{
  scope_of, set_scope, reject_scope, on_cancel, new_scope, run_reaction,
}

scope_of-set_scope : (id : ℕ) (s : Scope) (a : Activator) → scope_of id (set_scope id s a) ≡ s
scope_of-set_scope id s a = ground (arith, lookup-insert id id s a.scopes, ==_iff id id)

abbrev rejected_first : JsError → Scope → Scope
rejected_first e s = record s { cancel_requested = true; reason = some e; reactions = [] }

-- `reject_scope` for a scope that is known.
abbrev reject_known : ℕ → JsError → Scope → Option JsError → Activator → Activator
reject_known id e s none a =
    let b = set_scope id (rejected_first e s) a in
    record b { tasks = b.tasks ++ map (λ r. react r e) s.reactions }
reject_known id e s (some d) a = set_scope id (record s { cancel_requested = true }) a

reject_scope-known :
    (id : ℕ) (e : JsError) (a : Activator)
    → reject_scope id e a ≡ reject_known id e (scope_of id a) (scope_of id a).reason a
unfolding reject_scope
reject_scope-known id e a = ground arith

scope_of-set_other :
    (id other : ℕ) (s : Scope) (a : Activator)
    → ¬ (id ≡ other)
    → scope_of other (set_scope id s a) ≡ scope_of other a
scope_of-set_other id other s a h =
    ground (arith, lookup-insert id other s a.scopes, ==_iff id other)

abbrev fresh_child : Bool → ℕ → Activator → Scope
fresh_child cancellable p a = record {
  cancellable = cancellable;
  cancel_requested = (scope_of p a).cancel_requested;
  reason = none;
  parent = some p;
  reactions = [];
}

abbrev with_reaction : ℕ → Reaction → Activator → Activator
with_reaction p r a =
    set_scope p (record (scope_of p a) { reactions = (scope_of p a).reactions ++ r ∷ [] }) a

new_scope-waiting :
    (p k : ℕ) (cancellable : Bool) (a : Activator)
    → ¬ (k ≡ p)
    → (scope_of p a).reason ≡ none
    → new_scope k cancellable p a
      ≡ with_reaction p (cancel_child_scope k) (set_scope k (fresh_child cancellable p a) a)
unfolding new_scope on_cancel
new_scope-waiting p k cancellable a n h =
    ground (arith, scope_of-set_other k p (fresh_child cancellable p a) a n)

map-append : {A B : Type 0} (f : A → B) (xs ys : List A) → map f (xs ++ ys) ≡ map f xs ++ map f ys
map-append f [] ys = refl
map-append f (x ∷ xs) ys = ap (λ l. f x ∷ l) (map-append f xs ys)

module _ (p k : ℕ) (cancellable : Bool) (e : JsError) (a : Activator) (n : ¬ (k ≡ p))
    (h : (scope_of p a).reason ≡ none) where
  abbrev child : Scope
  child = fresh_child cancellable p a

  abbrev born : Activator
  born = set_scope k child a

  abbrev linked : Scope
  linked = record (scope_of p a) {
    reactions = (scope_of p a).reactions ++ cancel_child_scope k ∷ [];
  }

  linked_lem : scope_of p (with_reaction p (cancel_child_scope k) born) ≡ linked
  linked_lem =
      scope_of-set_scope p
        (record (scope_of p born) {
          reactions = (scope_of p born).reactions ++ cancel_child_scope k ∷ [];
        })
        born
      ∙ ap {A = Scope} (λ s. record s { reactions = s.reactions ++ cancel_child_scope k ∷ [] })
          (scope_of-set_other k p child a n)

  abbrev fallen : Activator
  fallen =
      let b = set_scope p (rejected_first e linked) (with_reaction p (cancel_child_scope k) born) in
      record b { tasks = b.tasks ++ map (λ r. react r e) linked.reactions }

  fallen_lem : reject_scope p e (new_scope k cancellable p a) ≡ fallen
  fallen_lem =
      rw
        (
          new_scope-waiting p k cancellable a n h,
          reject_scope-known p e (with_reaction p (cancel_child_scope k) born),
          linked_lem,
          h,
        )
        refl

  fallen-child : scope_of k fallen ≡ child
  fallen-child = ground (
    arith,
    lookup-insert p k (rejected_first e linked)
        (with_reaction p (cancel_child_scope k) born).scopes,
    lookup-insert p k
        (record (scope_of p born) {
          reactions = (scope_of p born).reactions ++ cancel_child_scope k ∷ [];
        })
        born.scopes,
    lookup-insert k k child a.scopes,
    ==_iff p k,
    ==_iff k k,
  )

  reject_child :
      (b : Activator)
      → scope_of k b ≡ child
      → scope_of k (reject_scope k e b) ≡ rejected_first e child
  reject_child b g =
      rw (reject_scope-known k e b, g) (scope_of-set_scope k (rejected_first e child) b)

  -- The cancellation of a scope reaches a scope that was made below it, whether or not that scope is
  -- cancellable: the callback that rejects the child is queued after those that were there before,
  -- and when it has run the child counts as cancelled for the scopes and callbacks below, for the
  -- same reason. The scope above was not cancelled before, and the child is another scope.
  pub reject_scope-new_scope :
      let d = reject_scope p e (new_scope k cancellable p a) in
      let f = run_reaction (cancel_child_scope k) e d in
      (d.tasks ≡ (
        a.tasks
        ++ (map (λ r. react r e) (scope_of p a).reactions ++ react (cancel_child_scope k) e ∷ [])))
      × ((scope_of k f).cancel_requested ≡ true)
      × ((scope_of k f).reason ≡ some e)
      × ((scope_of k f).cancellable ≡ cancellable)
  unfolding run_reaction
  reject_scope-new_scope =
      rw (fallen_lem, reject_child fallen fallen-child)
        (
          ap (λ l. a.tasks ++ l)
              (map-append (λ r. react r e) (scope_of p a).reactions (cancel_child_scope k ∷ [])),
          refl,
          refl,
          refl,
        )
