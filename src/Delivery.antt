-- ===== src/Delivery.antt =====
-- Who receives an event (ws/filter.go, and the broadcast case of Hub.Run and GetInfo in ws/hub.go).
pub mod Recipients
pub mod Filtering
use lightspeed_chat.Base.{
  ℕ, pos, Text, codes, Bool, true, false, Option, none, some, List, [], ◌∷◌, ◌++◌, map,
  if◌then◌else◌, Run, returns, panics, ◌>>=◌, text_eq,
}
use lightspeed_chat.Strings.{is_empty, join}
use lightspeed_chat.Types.{User, Room, Source, Event, Stamp, new_event, zero_time}
use lightspeed_chat.Types.EventType
use lightspeed_chat.Filter.{
  FilterUser, FilterRoom, FilterSource, FilterClient, FilterTarget, Env, ExprLib,
}
use lightspeed_chat.Filter.TagUpdates.{helpers}

-- A connected client: which one it is, its user and its language.
pub record Client : Type 0 where
  pub number : ℕ
  pub user : User
  pub language : Text

-- The dereference of a pointer.
abbrev pub deref {ℓ} : {A : Type ℓ} → Option A → Run A
deref none = panics
deref (some a) = returns a

unfoldable pub filter_user : User → FilterUser
filter_user u = record {
  id = u.id;
  nick = u.nick;
  language = u.language;
  tags = u.tags;
  last_online = u.last_online.unix;
}

abbrev pub zero_filter_user : FilterUser
zero_filter_user = record { id = []; nick = []; language = []; tags = none; last_online = pos 0 }

-- The target of a client, and the empty target that a plugin filter sees.
unfoldable pub client_target : Client → FilterTarget
unfolding filter_user
client_target c = record {
  user = filter_user c.user;
  client = record { client_language = c.language };
}

abbrev pub no_target : FilterTarget
no_target = record { user = zero_filter_user; client = record { client_language = [] } }

module _ (lib : ExprLib) where
  open lib use {Float, Program, Value}

  -- The environment of a filter, once the owner, the source and the user are at hand.
  unfoldable pub make_env : Room → Event → FilterTarget → User → Source → User → Env Float
  unfolding filter_user
  make_env room event target owner source user = record {
    room = record { id = room.id; owner = filter_user owner; tags = room.tags };
    source = record { user = filter_user user; plugin_name = source.plugin_name };
    target = target;
    created = event.created.unix;
    language = event.language;
    name = event.name;
    tags = event.tags;
    helpers = helpers lib;
  }

  unfoldable pub filter_env : Room → Event → FilterTarget → Run (Env Float)
  filter_env room event target = do
    owner ← deref room.owner
    source ← deref event.source
    user ← deref source.user
    returns (make_env room event target owner source user)

  -- `bRes, ok := res.(bool); ok && bRes`, false where the run failed.
  abbrev pub is_true : Option Value → Bool
  is_true none = false
  is_true (some v) = elim (lib.as_bool v) [ none ↦ false | some b ↦ b ]

  -- The common body of RunFilterEvent and RunPluginFilterEvent, for their two targets.
  unfoldable pub run_filter : Room → FilterTarget → Option Event → Option Program → Run Bool
  run_filter room target none prog = returns false
  run_filter room target (some event) none = returns true
  run_filter room target (some event) (some prog) = do
    env ← filter_env room event target
    returns (is_true (lib.run prog env))

  unfoldable pub run_filter_event : Room → Client → Option Event → Option Program → Run Bool
  run_filter_event room client = run_filter room (client_target client)

  unfoldable pub run_plugin_filter_event : Room → Option Event → Option Program → Run Bool
  run_plugin_filter_event room = run_filter room no_target

  -- `Client.EvaluateFilterEvent`
  unfoldable pub evaluate_filter_event : Room → Client → Event → Run Bool
  evaluate_filter_event room client event =
      if is_empty event.target_filter
      then returns true
      else elim (lib.compile event.target_filter) [
        | none ↦ returns false
        | some prog ↦ run_filter_event room client (some event) (some prog)
      ]

  -- `Hub.EvaluatePluginFilterEvent`
  unfoldable pub evaluate_plugin_filter_event : Room → Event → Text → Run Bool
  evaluate_plugin_filter_event room event plugin_filter =
      if is_empty event.target_filter then returns true else elim (lib.compile plugin_filter) [
        | none ↦ returns false
        | some prog ↦ run_plugin_filter_event room (some event) (some prog)
      ]

  -- What the broadcast case puts on the Send channels: `json.Marshal` of the wire event is `marshal`,
  -- `none` its error. The program stays nil if the filter is empty or does not compile.
  abbrev pub broadcast_program : Event → Option Program
  broadcast_program event =
      if is_empty event.target_filter then none else lib.compile event.target_filter

  module _ (marshal : Event → Option Text) where
    -- The loop over the clients, as the list of what is sent, in the order of the range.
    unfoldable pub send_to_all : Room → Event → Option Program → List Client → Run (List (ℕ × Text))
    send_to_all room event prog [] = returns []
    send_to_all room event prog (client ∷ clients) = do
      passes ← run_filter_event room client (some event) prog
      sent ← send_to_all room event prog clients
      returns (
          if passes
          then elim (marshal event) [ none ↦ sent | some d ↦ (client.number, d) ∷ sent ]
          else sent)

    -- The case of BroadcastEvents: for each event that is not internal, what its goroutine sends.
    unfoldable pub broadcast : Room → List Client → List Event → Run (List (List (ℕ × Text)))
    unfolding send_to_all
    broadcast room clients [] = returns []
    broadcast room clients (event ∷ events) = do
      sent ←
          (if text_eq event.name EventType.internal
            then returns []
            else send_to_all room event (broadcast_program event) clients)
      rest ← broadcast room clients events
      returns (sent ∷ rest)

-- `Hub.GetInfo`, for the clients in the order of the range.
unfoldable pub get_info : Stamp → Room → List Client → Event
get_info st room clients =
    new_event st (some room)
      (some (record {
        user_id = [];
        user = some (record {
          id = [];
          nick = codes "main";
          language = [];
          tags = some [];
          last_online = zero_time;
        });
        plugin_name = codes "main";
      }))
      [] [] EventType.info
      (some ((codes "nicks", join b',' (map (λ (c : Client). c.user.nick) clients)) ∷ []))
