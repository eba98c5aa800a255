-- ===== src/Slac/Fsm.antt =====
-- modules/EvseSlac/libfsm/fsm/fsm.hpp. States are values: a method returns the state object as it
-- leaves it, and the new context.
use everest_core_dev.Common.{ℕ, Option, none, some, List, [], ◌∷◌, ◌++◌}

-- The results of `enter`, `feed` and `feed_event`. The source's numbers are the constructors, with
-- IMMEDIATELY_INVOKE_CALLBACK as a wait of 0.
pub data Feed : Type 0 where
  wait : ℕ → Feed
  do_not_call_me_again event_unhandled event_handled_internally : Feed

-- `CallbackResult`.
pub data CallbackResult (E : Type 0) : Type 0 where
  value : Feed → CallbackResult E
  event : E → CallbackResult E

-- `NextState`: an option, or a new child with or without a compound state.
pub data NextState (S : Type 0) : Type 0 where
  restart pass_on handled_internally : NextState S
  change : Option S → S → NextState S

-- The virtual methods of `BaseState`, over states, contexts and events.
pub record Methods (S C E : Type 0) : Type 0 where
  pub enter : S → C → S × C × Feed
  pub handle_event : E → S → C → S × C × NextState S
  pub callback : S → C → S × C × CallbackResult E
  pub leave : S → C → C

-- What `dispatch_event` has once a state handled the event: the states that it asked, from the top of
-- the stack, and the ones below.
pub record Asked (S C : Type 0) : Type 0 where
  pub asked : List S
  pub below : List S
  pub context : C
  pub next : NextState S

abbrev pub asks_below : {S C : Type 0} → S → Asked S C → Asked S C
asks_below s a = record a { asked = s ∷ a.asked }

module _ {S C E : Type 0} (methods : Methods S C E) where
  open methods use {enter, handle_event, callback, leave}

  -- The first loop of `dispatch_event`.
  unfoldable pub ask : E → List S → C → Asked S C
  ask ev [] c = record { asked = []; below = []; context = c; next = pass_on }
  ask ev (s ∷ below) c =
      let (s', c', next) = handle_event ev s c in
      let further = asks_below s' (ask ev below c') in
      elim next [
        | pass_on ↦ further
        | other ↦ record { asked = s' ∷ []; below = below; context = c'; next = other }
      ]

  -- The second loop: the states that were asked are left, the top one first.
  unfoldable pub leave_all : List S → C → C
  leave_all [] c = c
  leave_all (s ∷ more) c = leave_all more (leave s c)

  unfoldable pub push : S → List S → C → List S × C × Feed
  push s stack c = let (s', c', result) = enter s c in (s' ∷ stack, c', result)

  unfoldable pub settle : Asked S C → List S × C × Feed
  unfolding leave_all push
  settle a = elim a.next [
    | pass_on ↦ (a.asked ++ a.below, a.context, event_unhandled)
    | handled_internally ↦ (a.asked ++ a.below, a.context, event_handled_internally)
    | restart ↦ (a.below, leave_all a.asked a.context, wait 0)
    | change compound child ↦
        let c = leave_all a.asked a.context in
        elim compound [
          | none ↦ push child a.below c
          | some outer ↦ let (stack, c', result) = push outer a.below c in push child stack c'
        ]
  ]

  unfoldable pub dispatch_event : E → List S → C → List S × C × Feed
  unfolding ask settle
  dispatch_event ev stack c = settle (ask ev stack c)

  -- `reset`, with the new state.
  unfoldable pub reset : S → C → List S × C × Feed
  unfolding push
  reset s c = push s [] c

  -- `feed` on a stack that is not empty.
  unfoldable pub feed : List S → C → List S × C × Feed
  unfolding dispatch_event
  feed [] c = ([], c, do_not_call_me_again)
  feed (s ∷ below) c =
      let (s', c', result) = callback s c in
      elim result [ event ev ↦ dispatch_event ev (s' ∷ below) c' | value v ↦ (s' ∷ below, c', v) ]
