-- ===== src/Events/Dispatcher.antt =====
-- include/launch_cpp/event_dispatcher.hpp and event_handler.hpp: events go to the handlers that
-- match them, in the order of registration.
use launch_cpp.Prelude.{
  ℕ, ◌≡◌, refl, Bool, true, false, Option, none, some, List, [], ◌∷◌, ◌++◌, length, arith,
  append_assoc, append-nil, ◌∙◌, sym, ◌==◌, if◌then◌else◌, Bool-cases, inl, inr,
}
use launch_cpp.Errors.{Result, ok, err}

-- The virtual methods `matches` and `handle`, over the context and all else that a handler may
-- change. `Event` and `Entity` are whatever the handlers use.
pub record Handlers : Type 1 where
  pub Event : Type 0
  pub Entity : Type 0
  pub World : Type 0
  pub matches : ℕ → Event → Bool
  pub handle : ℕ → Event → World → Result (List Entity) × World

-- A handler is its address; `none` is a null pointer.
abbrev pub Registry : Type 0
Registry = List (Option ℕ)

unfoldable pub register_handler : Option ℕ → Registry → Registry
register_handler handler handlers = handlers ++ handler ∷ []

abbrev same_address : Option ℕ → Option ℕ → Bool
same_address none none = true
same_address (some a) (some b) = a == b
same_address _ _ = false

-- Takes away the first entry with this address.
unfoldable pub unregister_handler : Option ℕ → Registry → Registry
unregister_handler handler [] = []
unregister_handler handler (h ∷ hs) =
    if same_address h handler then hs else h ∷ unregister_handler handler hs

abbrev pub get_handler_count : Registry → ℕ
get_handler_count handlers = length handlers

unfoldable pub clear_handlers : Registry → Registry
clear_handlers handlers = []

module _ (world : Handlers) where
  open world use {Event, Entity, World, matches, handle}

  abbrev continue :
      Result (List Entity) × World
      → (List Entity → World → Result (List Entity) × World)
      → Result (List Entity) × World
  continue (ok entities, w) next = next entities w
  continue (err e, w) next = (err e, w)

  -- `handler && handler->matches(event)`.
  abbrev pub selected : Event → Option ℕ → Bool
  selected event none = false
  selected event (some h) = matches h event

  abbrev run_handler : Event → Option ℕ → World → Result (List Entity) × World
  run_handler event none w = (ok [], w)
  run_handler event (some h) w = handle h event w

  unfoldable pub dispatch_from :
      Event → List Entity → Registry → World → Result (List Entity) × World
  dispatch_from event all_entities [] w = (ok all_entities, w)
  dispatch_from event all_entities (handler ∷ handlers) w = elim (selected event handler) [
    | true ↦
        continue (run_handler event handler w)
          (λ entities w'. dispatch_from event (all_entities ++ entities) handlers w')
    | false ↦ dispatch_from event all_entities handlers w
  ]

  unfoldable pub dispatch : Event → Registry → World → Result (List Entity) × World
  unfolding dispatch_from
  dispatch event handlers w = dispatch_from event [] handlers w

  -- The reference: the handlers that match, in order, and what each of them returns.
  pub matching : Event → Registry → List ℕ
  matching event [] = []
  matching event (none ∷ hs) = matching event hs
  matching event (some h ∷ hs) =
      if matches h event then h ∷ matching event hs else matching event hs

  abbrev prepend : List Entity → Result (List Entity) × World → Result (List Entity) × World
  prepend entities (ok more, w) = (ok (entities ++ more), w)
  prepend entities (err e, w) = (err e, w)

  pub answers : Event → List ℕ → World → Result (List Entity) × World
  answers event [] w = (ok [], w)
  answers event (h ∷ hs) w =
      continue (handle h event w) (λ entities w'. prepend entities (answers event hs w'))

  prepend-prepend :
      (xs ys : List Entity) (r : Result (List Entity) × World)
      → prepend xs (prepend ys r) ≡ prepend (xs ++ ys) r
  prepend-prepend xs ys (ok more, w) = rw (append_assoc xs ys more)
  prepend-prepend xs ys (err e, w) = refl

  prepend-continue :
      (xs : List Entity) (r : Result (List Entity) × World)
      (f g : List Entity → World → Result (List Entity) × World)
      → ((es : List Entity) (w : World) → f es w ≡ prepend xs (g es w))
      → continue r f ≡ prepend xs (continue r g)
  prepend-continue xs (ok es, w) f g h = h es w
  prepend-continue xs (err e, w) f g h = refl

  dispatch_from-nil :
      (event : Event) (acc : List Entity) (w : World) → dispatch_from event acc [] w ≡ (ok acc, w)
  unfolding dispatch_from
  dispatch_from-nil event acc w = refl

  dispatch_from-null :
      (event : Event) (acc : List Entity) (hs : Registry) (w : World)
      → dispatch_from event acc (none ∷ hs) w ≡ dispatch_from event acc hs w
  unfolding dispatch_from
  dispatch_from-null event acc hs w = refl

  dispatch_from-match :
      (event : Event) (acc : List Entity) (h : ℕ) (hs : Registry) (w : World)
      → matches h event ≡ true
      → dispatch_from event acc (some h ∷ hs) w
        ≡ continue (handle h event w) (λ entities w'. dispatch_from event (acc ++ entities) hs w')
  unfolding dispatch_from
  dispatch_from-match event acc h hs w m = rw (m, dispatch_from)

  dispatch_from-skip :
      (event : Event) (acc : List Entity) (h : ℕ) (hs : Registry) (w : World)
      → matches h event ≡ false
      → dispatch_from event acc (some h ∷ hs) w ≡ dispatch_from event acc hs w
  unfolding dispatch_from
  dispatch_from-skip event acc h hs w m = rw (m, dispatch_from)

  dispatch_from-answers :
      (event : Event) (acc : List Entity) (handlers : Registry) (w : World)
      → dispatch_from event acc handlers w ≡ prepend acc (answers event (matching event handlers) w)
  unfolding answers matching
  dispatch_from-answers event acc [] w = rw (dispatch_from-nil event acc w, append-nil acc)
  dispatch_from-answers event acc (none ∷ hs) w =
      rw (dispatch_from-null event acc hs w) (dispatch_from-answers event acc hs w)
  dispatch_from-answers event acc (some h ∷ hs) w = elim (Bool-cases (matches h event)) [
    | inl m ↦
        rw (dispatch_from-match event acc h hs w m, m)
          (prepend-continue acc (handle h event w) _ _ (λ es w'.
            dispatch_from-answers event (acc ++ es) hs w'
            ∙ sym (prepend-prepend acc es (answers event (matching event hs) w'))))
    | inr m ↦ rw (dispatch_from-skip event acc h hs w m, m) (dispatch_from-answers event acc hs w)
  ]

  prepend-nil : (r : Result (List Entity) × World) → prepend [] r ≡ r
  prepend-nil (ok es, w) = refl
  prepend-nil (err e, w) = refl

  -- `dispatch` asks the registered handlers that match the event, in the order of registration
  -- and no others, returns all their entities in that order, and stops at the first error.
  pub dispatch-answers :
      (event : Event) (handlers : Registry) (w : World)
      → dispatch event handlers w ≡ answers event (matching event handlers) w
  unfolding dispatch
  dispatch-answers event handlers w =
      dispatch_from-answers event [] handlers w
      ∙ prepend-nil (answers event (matching event handlers) w)

abbrev pub is_registered : Option ℕ → Registry → Bool
is_registered handler [] = false
is_registered handler (h ∷ hs) = if same_address h handler then true else is_registered handler hs

same_address_refl : (h : Option ℕ) → same_address h h ≡ true
same_address_refl none = refl
same_address_refl (some n) = ground arith

-- Unregistering a handler right after it was first registered restores the registry, and
-- unregistering one that is not registered changes nothing.
pub unregister-register :
    (handler : Option ℕ) (handlers : Registry)
    → is_registered handler handlers ≡ false
    → (unregister_handler handler (register_handler handler handlers) ≡ handlers)
      × (unregister_handler handler handlers ≡ handlers)
unfolding unregister_handler register_handler
unregister-register handler [] h = (rw (same_address_refl handler), refl)
unregister-register handler (k ∷ hs) h = ground (arith, unregister-register handler hs)
