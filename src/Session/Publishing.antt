-- ===== src/Session/Publishing.antt =====
-- Which events leave a session for the history and for the other clients.
use lightspeed_chat.Base.{
  Text, Bool, true, false, ◌≡◌, ◌≢◌, refl, Option, none, some, List, [], ◌∷◌, Run, All, All-append,
  ◌&&◌, not, length, ltb, Ensures, Ensures-if, Ensures-bind, arith, has_prefix, codes, text_eq,
}
use lightspeed_chat.Strings.{first_two, is_empty, fields}
use lightspeed_chat.Types.{User, Event, new_event, fill_user}
use lightspeed_chat.Types.EventType
use lightspeed_chat.Types.Complete.{Holds}
use lightspeed_chat.Delivery.{deref}
use lightspeed_chat.Session.{
  behind, LoginMessage, ChatMessage, SessionLib, UserStore, Effect, to_history, to_everyone,
  to_self, to_plugins, send_history, Turn, Session, Next, goes_on, closes, or_close, payload_as,
  then_next, log_out,
}
use lightspeed_chat.Session.Login.{log_in, log_in_as, choose_language, resolve, become, login_id}
use lightspeed_chat.Session.Loop.{
  other_event, command_event, publish, keep_private, reject_guest, say, run_command, chat,
  chat_message, other, dispatch, handle_message, read_frame, first_word,
}

-- The source of the event names the user, who has an identity.
abbrev pub IsBy : User → Event → Type 0
IsBy user event =
    Holds (λ source. Holds (λ u. (u.id ≡ user.id) × (u.nick ≡ user.nick) × (u.id ≢ [])) source.user)
      event.source

-- An effect that shows other clients events of this user only.
abbrev pub Shows : User → Effect → Type 0
Shows user (to_history events) = All (IsBy user) events
Shows user (to_everyone events) = All (IsBy user) events
Shows user _ = Unit

abbrev pub session_of : {W : Type 0} → Next W → Session W
session_of (goes_on s effects) = s
session_of (closes s effects) = s

abbrev pub effects_of : {W : Type 0} → Next W → List Effect
effects_of (goes_on s effects) = effects
effects_of (closes s effects) = effects

abbrev pub IsHonest : {W : Type 0} → Next W → Type 0
IsHonest next = All (Shows (session_of next).user) (effects_of next)

-- An effect that shows nothing to anybody else.
abbrev IsQuiet : Effect → Type 0
IsQuiet (to_history events) = ⊥
IsQuiet (to_everyone events) = ⊥
IsQuiet _ = Unit

quiet-Shows : (user : User) (effects : List Effect) → All IsQuiet effects → All (Shows user) effects
quiet-Shows user [] h = tt
quiet-Shows user (to_history events ∷ effects) h = absurd h.0
quiet-Shows user (to_everyone events ∷ effects) h = absurd h.0
quiet-Shows user (to_self events ∷ effects) h = (tt, quiet-Shows user effects h.1)
quiet-Shows user (to_plugins events ∷ effects) h = (tt, quiet-Shows user effects h.1)
quiet-Shows user (send_history ∷ effects) h = (tt, quiet-Shows user effects h.1)

publish-Shows :
    (user : User) (turn : Turn) (event : Event)
    → IsBy user event
    → All (Shows user) (publish turn (event ∷ []))
publish-Shows user turn event h = ground (arith, h)

keep_private-Shows :
    (user : User) (turn : Turn) (events : List Event) → All (Shows user) (keep_private turn events)
keep_private-Shows user turn events = ground arith

deref-Ends : {A : Type 0} (o : Option A) → Ensures (λ _. Unit {0}) (deref o)
deref-Ends none = tt
deref-Ends (some a) = tt

pub first_word-Ends : (words : List Text) → Ensures (λ _. Unit {0}) (first_word words)
first_word-Ends [] = tt
first_word-Ends (word ∷ words) = tt

pub or_close-Ensures :
    {W A : Type 0} (P : Next W → Type 0) (o : Option A) (s : Session W) (f : A → Run (Next W))
    → P (closes s [])
    → ((a : A) → Ensures P (f a))
    → Ensures P (or_close o s f)
or_close-Ensures P none s f h k = h
or_close-Ensures P (some a) s f h k = k a

module _ {W : Type 0} (lib : SessionLib) where
  say-IsHonest :
      (turn : Turn) (msg : ChatMessage) (s : Session W)
      → s.user.id ≢ []
      → IsHonest (say lib turn msg s)
  unfolding say new_event
  say-IsHonest turn msg s h = publish-Shows (fill_user s.user) turn _ (refl, refl, h)

  other-IsHonest :
      (turn : Turn) (s : Session W) → s.user.id ≢ [] → Ensures IsHonest (other lib turn s)
  unfolding other
  other-IsHonest turn s h =
      or_close-Ensures IsHonest (payload_as lib lib.decode_other s) s _ tt (λ msg.
        publish-Shows s.user turn (other_event lib turn s msg)
          (unfold new_event in (refl, refl, h)))

  run_command-IsHonest :
      (turn : Turn) (msg : ChatMessage) (s : Session W)
      → Ensures IsHonest (run_command lib turn msg s)
  unfolding run_command
  run_command-IsHonest turn msg s =
      Ensures-bind (λ _. Unit {0}) IsHonest (first_word (fields msg.message)) _
        (first_word-Ends (fields msg.message))
        (λ command _.
          keep_private-Shows (fill_user s.user) turn (command_event lib turn s msg command ∷ []))

  chat-IsHonest :
      (turn : Turn) (s : Session W) → s.user.id ≢ [] → Ensures IsHonest (chat lib turn s)
  unfolding chat
  chat-IsHonest turn s h =
      or_close-Ensures IsHonest (payload_as lib lib.decode_chat s) s _ tt (λ decoded.
        Ensures-if IsHonest (has_prefix decoded.0 (codes "/")) _ _
          (λ _. run_command-IsHonest turn (chat_message lib turn s decoded) s)
          (λ _. say-IsHonest turn (chat_message lib turn s decoded) s h))

  dispatch-IsHonest : (turn : Turn) (s : Session W) → Ensures IsHonest (dispatch lib turn s)
  unfolding dispatch reject_guest
  dispatch-IsHonest turn s =
      Ensures-if IsHonest (is_empty s.user.id) _ _
        (λ _. keep_private-Shows (fill_user s.user) turn _)
        (λ known.
          let h : s.user.id ≢ [] = λ e. ground (arith, e, known) in
          Ensures-if IsHonest (text_eq s.message.event EventType.chat) _ _
            (λ _. chat-IsHonest turn s h) (λ _. other-IsHonest turn s h))

  behind-IsHonest :
      (effects : List Effect) (next : Next W)
      → All IsQuiet effects
      → IsHonest next
      → IsHonest (behind effects next)
  behind-IsHonest effects (goes_on s more) h g =
      All-append (Shows s.user) effects more (quiet-Shows s.user effects h) g
  behind-IsHonest effects (closes s more) h g =
      All-append (Shows s.user) effects more (quiet-Shows s.user effects h) g

  -- What comes before the loop goes on shows nothing.
  then_next-IsHonest :
      (next : Next W) (f : Session W → Run (Next W))
      → All IsQuiet (effects_of next)
      → ((s : Session W) → Ensures IsHonest (f s))
      → Ensures IsHonest (then_next next f)
  then_next-IsHonest (closes s effects) f h k = quiet-Shows s.user effects h
  then_next-IsHonest (goes_on s effects) f h k =
      Ensures-bind IsHonest IsHonest (f s) _ (k s)
        (λ next honest. behind-IsHonest effects next h honest)

  choose_language-IsQuiet :
      (msg : LoginMessage) (identified : Bool) (s : Session W)
      → Ensures (λ next. All IsQuiet (effects_of next)) (choose_language lib msg identified s)
  unfolding choose_language
  choose_language-IsQuiet msg identified s =
      let P : Next W → Type 0 = λ next. All IsQuiet (effects_of next) in
      Ensures-if P (ltb 1 (length msg.language) && not (is_empty s.user.id)) _ _
        (λ _.
          Ensures-bind (λ _. Unit {0}) P (first_two msg.language) _
            (Ensures-if (λ _. Unit) (ltb (length msg.language) 2) _ _ (λ _. tt) (λ _. tt))
            (λ _ _. (tt, tt)))
        (λ _. ground arith)

  module _ (users : Option (UserStore W)) where
    log_in-IsQuiet :
        (turn : Turn) (s : Session W)
        → Ensures (λ next. All IsQuiet (effects_of next)) (log_in lib users turn s)
    unfolding log_in log_in_as choose_language
    log_in-IsQuiet turn s =
        let P : Next W → Type 0 = λ next. All IsQuiet (effects_of next) in
        Ensures-if P (text_eq s.message.event EventType.login) _ _
          (λ _. or_close-Ensures P (payload_as lib lib.decode_login s) s _ tt (λ msg.
            Ensures-if P (is_empty (login_id lib msg)) _ _
              (λ _. choose_language-IsQuiet msg false s)
              (λ _.
                or_close-Ensures P (resolve lib users (login_id lib msg) turn.stamp.now s.world).0 _
                  _ tt
                  (λ user. choose_language-IsQuiet msg true (
                    become lib user (resolve lib users (login_id lib msg) turn.stamp.now s.world).1
                      s)))))
          (λ _. tt)

    -- What a frame makes visible to other clients, in the history or by broadcast, is an event of
    -- the session's own user as the frame leaves it, and that user has an identity.
    pub read_frame-IsHonest :
        (turn : Turn) (s : Session W) → Ensures IsHonest (read_frame lib users turn s)
    unfolding read_frame handle_message
    read_frame-IsHonest turn s = or_close-Ensures IsHonest turn.raw s _ tt (λ raw.
        or_close-Ensures IsHonest (lib.unmarshal_frame raw s.message) s _ tt (λ pointer.
          Ensures-bind (λ _. Unit {0}) IsHonest (deref pointer) _ (deref-Ends pointer)
            (λ message _.
              let s' : Session W = log_out turn (record s { message = message }) in
              Ensures-bind (λ next. All IsQuiet (effects_of next)) IsHonest
                (log_in lib users turn s') _ (log_in-IsQuiet turn s')
                (λ next quiet.
                  then_next-IsHonest next (dispatch lib turn) quiet (dispatch-IsHonest turn)))))
