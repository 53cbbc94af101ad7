-- ===== src/Delivery/Filtering.antt =====
-- The two decisions on a target filter: that of the hub's broadcast and that of the client's write
-- loop (ws/hub.go, ws/filter.go). Also, when a filter can be evaluated without a panic.
use lightspeed_chat.Base.{
  ◌≡◌, ◌≢◌, refl, ◌⊎◌, inl, inr, Text, Bool, true, false, Option, none, some, [], ◌∷◌, arith, Run,
  returns, Ends, Ends-bind, Ensures-if, Ensures-option,
}
use lightspeed_chat.Strings.{is_empty}
use lightspeed_chat.Types.{Room, Event}
use lightspeed_chat.Types.Complete.{
  IsComplete, IsCompleteRoom, IsCompleteUser, IsCompleteSource, Holds-some,
}
use lightspeed_chat.Filter.{FilterTarget, Env, ExprLib}
use lightspeed_chat.Delivery.{
  client_target, run_filter_event, evaluate_filter_event, deref, no_target, run_plugin_filter_event,
  evaluate_plugin_filter_event, Client, make_env, filter_env, run_filter, broadcast_program,
  is_true,
}

module _ (lib : ExprLib) (room : Room) where
  -- The two decisions on an event and a client.
  abbrev pub hub_decision : Client → Event → Run Bool
  hub_decision client event =
      run_filter_event lib room client (some event) (broadcast_program lib event)

  abbrev pub client_decision : Client → Event → Run Bool
  client_decision = evaluate_filter_event lib room

  -- The target filter is empty or compiles.
  abbrev pub IsUsable : Event → Type 0
  IsUsable event =
      (event.target_filter ≡ [])
      ⊎ ((prog : lib.Program) × (lib.compile event.target_filter ≡ some prog))

  -- Where the two come apart: the filter does not compile.
  pub record Differs (client : Client) (event : Event) : Type 0 where
    pub targeted : event.target_filter ≢ []
    pub uncompiled : lib.compile event.target_filter ≡ none
    pub hub_sends : hub_decision client event ≡ returns true
    pub client_refuses : client_decision client event ≡ returns false

  decisions_at :
      (client : Client) (event : Event) (filter : Text) (p : Option lib.Program)
      → event.target_filter ≡ filter
      → lib.compile event.target_filter ≡ p
      → (IsUsable event × (hub_decision client event ≡ client_decision client event))
        ⊎ Differs client event
  unfolding run_filter_event evaluate_filter_event run_filter
  decisions_at client event [] p e c = inl (inl e, rw e refl)
  decisions_at client event (x ∷ s) none e c = inr (record {
    targeted = λ h. cc;
    uncompiled = c;
    hub_sends = ground (arith, e, c);
    client_refuses = ground (arith, e, c);
  })
  decisions_at client event (x ∷ s) (some prog) e c = inl (inr (prog, c), ground (arith, e, c))

  -- On every event and client, either the target filter is empty or compiles, and the broadcast and
  -- the write loop decide alike, panics included; or it does neither, and the broadcast lets every
  -- client through and the write loop none.
  pub decisions :
      (client : Client) (event : Event)
      → (IsUsable event × (hub_decision client event ≡ client_decision client event))
        ⊎ Differs client event
  decisions client event = decisions_at client event _ _ refl refl

  filter_env-total :
      (target : FilterTarget) (event : Event)
      → IsCompleteRoom room
      → IsComplete event
      → (env : Env lib.Float) × (filter_env lib room event target ≡ returns env)
  unfolding filter_env
  filter_env-total target event h c =
      let (owner, eo, _) = Holds-some IsCompleteUser room.owner h.0 in
      let (source, es, hs) = Holds-some IsCompleteSource event.source c.source in
      let (user, eu, _) = Holds-some IsCompleteUser source.user hs in
      (make_env lib room event target owner source user, ground (arith, eo, es, eu))

  -- On an event without nil, in a room with an owner, no filter panics.
  pub run_filter-total :
      (target : FilterTarget) (event : Event) (prog : Option lib.Program)
      → IsCompleteRoom room
      → IsComplete event
      → (b : Bool) × (run_filter lib room target (some event) prog ≡ returns b)
  unfolding run_filter
  run_filter-total target event none h c = (true, refl)
  run_filter-total target event (some prog) h c =
      let (env, e) = filter_env-total target event h c in
      (is_true lib (lib.run prog env), rw e refl)

deref-Ends : {A : Type 0} (o : Option A) → Ends (deref o)
deref-Ends none = tt
deref-Ends (some a) = tt

module _ (lib : ExprLib) (room : Room) where
  run_filter-Ends :
      (target : FilterTarget) (event : Option Event) (prog : Option lib.Program)
      → Ends (run_filter lib room target event prog)
  unfolding run_filter filter_env
  run_filter-Ends target none prog = tt
  run_filter-Ends target (some event) none = tt
  run_filter-Ends target (some event) (some prog) =
      Ends-bind (filter_env lib room event target) _
        (Ends-bind (deref room.owner) _ (deref-Ends room.owner) λ owner.
          Ends-bind (deref event.source) _ (deref-Ends event.source)
            λ source. Ends-bind (deref source.user) _ (deref-Ends source.user) λ user. tt)
        λ env. tt

  pub evaluate_filter_event-Ends :
      (client : Client) (event : Event) → Ends (evaluate_filter_event lib room client event)
  unfolding evaluate_filter_event run_filter_event
  evaluate_filter_event-Ends client event =
      Ensures-if (λ _. Unit) (is_empty event.target_filter) _ _ (λ _. tt)
        λ _.
          Ensures-option (λ _. Unit) (lib.compile event.target_filter) _ _ (λ _. tt)
            λ prog _. run_filter-Ends (client_target client) (some event) (some prog)

  -- The plugin filter ends on every event.
  pub evaluate_plugin_filter_event-Ends :
      (event : Event) (f : Text) → Ends (evaluate_plugin_filter_event lib room event f)
  unfolding evaluate_plugin_filter_event run_plugin_filter_event
  evaluate_plugin_filter_event-Ends event f =
      Ensures-if (λ _. Unit) (is_empty event.target_filter) _ _ (λ _. tt)
        λ _.
          elim (lib.compile f)
            as (λ o. Ends {A = Bool} (elim o [
              | none ↦ returns false
              | some prog ↦ run_plugin_filter_event lib room (some event) (some prog)
            ])) [ none ↦ tt | some prog ↦ run_filter-Ends no_target (some event) (some prog) ]
